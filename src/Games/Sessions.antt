-- ===== src/Games/Sessions.antt =====
-- Whole sessions: any calls, in any order, those that are refused included.
use mathlib.Core.Path.{subst}
use my_fans.Common.{
  All, All-imp, All-of_Member, ℕ, ◌≡◌, ◌≢◌, ◌≤◌, ◌∙◌, ap, refl, sym, List, [], ◌∷◌, arith, none,
  some, Member, count, true, inl, inr, Bool-cases, ◌==◌,
}
use my_fans.Common.Actions.{Result, ok, err}
use my_fans.Database.{Table, IsKeyed}
use my_fans.Database.Laws.{find_one-eq-some, IsKeyed-eq}
use my_fans.Games.{
  Game, GameStatus, Player, of_game, takes_part, find_game, is_host, not_pending, GameError,
  game_key, no_clash, player_key, same_seat, Stores, join_game, start_game, leave_game,
  submit_score,
}
use my_fans.Games.Membership.{IsSound, IsWithin, IsHosted, join_game-IsSound}
use my_fans.Games.Leaving.{leave_game-IsSound}
use my_fans.Games.Play.{start_game_fits, start_game-IsSound, submit_score-IsSound}

-- A call of a player.
pub data Move : Type 0 where
  joins : ℕ → ℕ → ℕ → Move
  starts leaves : ℕ → ℕ → Move
  scores : ℕ → ℕ → ℕ → Move

-- No game has a player or a host yet.
abbrev pub IsNew : List Game → Type 0
IsNew gs = IsKeyed game_key gs × All (λ g. g.host_user_id ≡ none) gs

module _ (games : Table game_key no_clash) (players : Table player_key same_seat) where
  join_game_refused :
      (game_id user_id drawn : ℕ) (s s' : games.Store) (t t' : players.Store) (why : GameError)
      → join_game games players game_id user_id drawn (s, t) ≡ (err why, (s', t'))
      → (s' ≡ s) × (t' ≡ t)
  unfolding join_game
  join_game_refused game_id user_id drawn s s' t t' why e = ground arith

  leave_game_refused :
      (game_id user_id : ℕ) (s s' : games.Store) (t t' : players.Store) (why : GameError)
      → leave_game games players game_id user_id (s, t) ≡ (err why, (s', t'))
      → (s' ≡ s) × (t' ≡ t)
  unfolding leave_game
  leave_game_refused game_id user_id s s' t t' why e = ground arith

  start_game_refused :
      (game_id user_id : ℕ) (s s' : games.Store) (t t' : players.Store) (why : GameError)
      → start_game games players game_id user_id (s, t) ≡ (err why, (s', t'))
      → (s' ≡ s) × (t' ≡ t)
  unfolding start_game
  start_game_refused game_id user_id s s' t t' why e = ground arith

  submit_score_refused :
      (game_id user_id balance : ℕ) (s s' : games.Store) (t t' : players.Store) (why : GameError)
      → submit_score games players game_id user_id balance (s, t) ≡ (err why, (s', t'))
      → (s' ≡ s) × (t' ≡ t)
  unfolding submit_score
  submit_score_refused game_id user_id balance s s' t t' why e = ground arith

  -- The stores after a call, whatever it answers.
  abbrev move : Move → Stores games players → Stores games players
  move (joins game_id user_id drawn) st = (join_game games players game_id user_id drawn st).1
  move (starts game_id user_id) st = (start_game games players game_id user_id st).1
  move (leaves game_id user_id) st = (leave_game games players game_id user_id st).1
  move (scores game_id user_id balance) st =
      (submit_score games players game_id user_id balance st).1

  abbrev pub session : List Move → Stores games players → Stores games players
  session [] st = st
  session (m ∷ ms) st = session ms (move m st)

  -- A call keeps the invariant when it does if it goes through, and changes nothing if it is refused.
  settled :
      {A : Type 0} (c : Result GameError A × Stores games players) (s : games.Store)
      (t : players.Store)
      → ((a : A) (s' : games.Store) (t' : players.Store)
          → c ≡ (ok a, (s', t'))
          → IsSound games players s' t')
      → ((why : GameError) (s' : games.Store) (t' : players.Store)
          → c ≡ (err why, (s', t'))
          → (s' ≡ s) × (t' ≡ t))
      → IsSound games players s t
      → IsSound games players c.1.0 c.1.1
  settled (ok a, (s', t')) s t good bad sound = good a s' t' refl
  settled (err why, (s', t')) s t good bad sound =
      let (same, same') = bad why s' t' refl in
      subst (λ x. IsSound games players x t') (sym same)
        (subst (λ x. IsSound games players s x) (sym same') sound)

  move-IsSound :
      (m : Move) (s : games.Store) (t : players.Store)
      → IsSound games players s t
      → IsSound games players (move m (s, t)).0 (move m (s, t)).1
  move-IsSound (joins g u d) s t sound =
      settled (join_game games players g u d (s, t)) s t
        (λ p s' t' e. join_game-IsSound games players g u d s s' t t' p e sound)
        (λ why s' t' e. join_game_refused g u d s s' t t' why e) sound
  move-IsSound (starts g u) s t sound =
      settled (start_game games players g u (s, t)) s t
        (λ g' s' t' e. start_game-IsSound games players g u s s' t t' g' e sound)
        (λ why s' t' e. start_game_refused g u s s' t t' why e) sound
  move-IsSound (leaves g u) s t sound =
      settled (leave_game games players g u (s, t)) s t
        (λ a s' t' e. leave_game-IsSound games players g u s s' t t' (ground arith) sound)
        (λ why s' t' e. leave_game_refused g u s s' t t' why e) sound
  move-IsSound (scores g u b) s t sound =
      settled (submit_score games players g u b (s, t)) s t
        (λ p s' t' e. submit_score-IsSound games players g u b s s' t t' p e sound)
        (λ why s' t' e. submit_score_refused g u b s s' t t' why e) sound

  new-IsSound :
      (s : games.Store) (t : players.Store)
      → IsNew (games.rows s)
      → players.rows t ≡ []
      → IsSound games players s t
  new-IsSound s t (keyed, hostless) empty = record {
    keyed_games = keyed;
    keyed_players = rw empty tt;
    seats = rw empty tt;
    within = rw empty (All-of_Member (IsWithin []) (games.rows s) (λ g m. omega arith));
    hosted = rw empty (
        All-imp (λ g. g.host_user_id ≡ none) (IsHosted []) (games.rows s) (λ g e. rw e tt)
          hostless);
  }

  session_kept :
      (ms : List Move) (s : games.Store) (t : players.Store)
      → IsSound games players s t
      → IsSound games players (session ms (s, t)).0 (session ms (s, t)).1
  session_kept [] s t sound = sound
  session_kept (m ∷ ms) s t sound =
      session_kept ms (move m (s, t)).0 (move m (s, t)).1 (move-IsSound m s t sound)

  -- From games with distinct keys and no host, and no players at all, whatever calls are made of
  -- joinGame, startGame, leaveGame and submitScore, in any order, those that are refused included:
  -- no user has two seats in a game, no game has more players than it is for, the host of each
  -- game is one of its players, and a game without a host has no players.
  pub session-IsSound :
      (ms : List Move) (s : games.Store) (t : players.Store)
      → IsNew (games.rows s)
      → players.rows t ≡ []
      → IsSound games players (session ms (s, t)).0 (session ms (s, t)).1
  session-IsSound ms s t new empty = session_kept ms s t (new-IsSound s t new empty)

  -- A game is found by its key.
  find_game-started :
      (game_id : ℕ) (s : games.Store) (g : Game)
      → IsKeyed game_key (games.rows s)
      → Member g (games.rows s)
      → g.id ≡ game_id
      → find_game games players game_id s ≡ some g
  unfolding find_game
  find_game-started game_id s g keyed mem id =
      let (x, found, there, hit) =
        find_one-eq-some games (λ y. y.id == game_id) (λ _. 0) s g mem (ground arith) in
      found ∙ ap some (IsKeyed-eq game_key x g (games.rows s) keyed there mem (ground arith))

  -- Nobody joins or starts a game that is in progress.
  started_shut :
      (game_id user_id drawn : ℕ) (s : games.Store) (t : players.Store) (g a : Game)
      → find_game games players game_id s ≡ some g
      → g.status ≡ GameStatus.in_progress
      → (join_game games players game_id user_id drawn (s, t) ≡ (err not_pending, (s, t)))
        × ((start_game games players game_id user_id (s, t)).0 ≢ ok a)
  unfolding join_game start_game
  started_shut game_id user_id drawn s t g a found on = (
    ground arith,
    λ e. elim (Bool-cases (is_host user_id g.host_user_id)) [
      | inl own ↦ ground arith
      | inr other ↦ ground arith
    ],
  )

  -- From games with distinct keys and no host, and no players at all, after any calls of joinGame,
  -- startGame, leaveGame and submitScore: a start that goes through leaves a game in progress that
  -- has two players at least, no more than it is for, and whoever started it among them; and in
  -- the state that it leaves, joinGame refuses everyone and changes nothing, and no second start
  -- goes through.
  pub start_game-session :
      (ms : List Move) (game_id user_id other drawn : ℕ) (s s' : games.Store) (t t' : players.Store)
      (g a : Game)
      → IsNew (games.rows s)
      → players.rows t ≡ []
      → start_game games players game_id user_id (session ms (s, t)) ≡ (ok g, (s', t'))
      → (g.status ≡ GameStatus.in_progress)
        × (find_game games players game_id s' ≡ some g)
        × (2 ≤ count (of_game game_id) (players.rows t'))
        × (count (of_game game_id) (players.rows t') ≤ g.number_of_players)
        × ((p : Player) × Member p (players.rows t') × (takes_part game_id user_id p ≡ true))
        × (join_game games players game_id other drawn (s', t') ≡ (err not_pending, (s', t')))
        × ((start_game games players game_id other (s', t')).0 ≢ ok a)
  start_game-session ms game_id user_id other drawn s s' t t' g a new empty e =
      let (sm, tm) = session ms (s, t) in
      let sound = session-IsSound ms s t new empty in
      let (two, most, seated, mem, on, id) =
        start_game_fits games players game_id user_id sm s' tm t' g sound e in
      let sound' = start_game-IsSound games players game_id user_id sm s' tm t' g e sound in
      let found = find_game-started game_id s' g sound'.keyed_games mem id in
      let shut = started_shut game_id other drawn s' t' g a found on in
      (on, found, two, most, seated, shut.0, shut.1)
