-- ===== src/Games/Play.antt =====
-- Games in play: whatever players do, the invariant holds.
use mathlib.Core.Path.{subst}
use my_fans.Common.{
  ℕ, ◌≤◌, ◌≡◌, ◌∙◌, refl, sym, ap, true, false, Option, none, some, List, arith, count, length,
  Member, All-imp, All-Member, inl, inr, Bool-cases, Option-cases, ltb, ◌==◌,
}
use my_fans.Common.Actions.{ok}
use my_fans.Database.{Table, IsKeyed, put}
use my_fans.Database.Laws.{IsKeyed-eq, put-IsKeyed, Member-put, Member-put_other, All-put}
use my_fans.Database.Replacing.{count-put, put-IsDistinct}
use my_fans.Games.{
  GameStatus, Game, Player, game_key, no_clash, player_key, takes_part, same_seat, of_game,
  is_pending, is_in_progress, find_game, players_of, find_player, start_game, submit_score,
}
use my_fans.Games.Membership.{HasHost, IsHosted, IsWithin, IsSound, found_game, counted}
use my_fans.Games.Leaving.{found_player}

-- A save that leaves a player's game and user alone leaves the host a player.
HasHost-put :
    (o : Option ℕ) (id : ℕ) (p p' : Player) (ps : List Player)
    → IsKeyed player_key ps
    → Member p ps
    → p'.id ≡ p.id
    → p'.game_id ≡ p.game_id
    → p'.user_id ≡ p.user_id
    → HasHost o id ps
    → HasHost o id (put player_key p' ps)
HasHost-put none id p p' ps keyed mem same game user h =
    All-put (λ x. of_game id x ≡ false) player_key p' ps
      (ap (λ k. k == id) game ∙ All-Member (λ x. of_game id x ≡ false) p ps h mem) h
HasHost-put (some u) id p p' ps keyed mem same game user (q, m, hit) =
    elim (Bool-cases (q.id == p'.id)) [
      | inr ne ↦ (q, Member-put_other player_key p' q ps ne m, hit)
      | inl here ↦
          let one = IsKeyed-eq player_key q p ps keyed m mem (ground arith) in
          let g : q.game_id ≡ p.game_id = ap (λ x. x.game_id) one in
          let v : q.user_id ≡ p.user_id = ap (λ x. x.user_id) one in
          (p', Member-put player_key p' ps, ground arith)
    ]

same_seat_left :
    (q p : Player)
    → q.game_id ≡ p.game_id
    → q.user_id ≡ p.user_id
    → (y : Player) → same_seat q y ≡ same_seat p y
same_seat_left q p game user y = cc

same_seat_right :
    (q p : Player)
    → q.game_id ≡ p.game_id
    → q.user_id ≡ p.user_id
    → (y : Player) → same_seat y q ≡ same_seat y p
same_seat_right q p game user y = cc

module _ (games : Table game_key no_clash) (players : Table player_key same_seat) where
  -- What a start that goes through has found and written.
  start_game-ok :
      (game_id user_id : ℕ) (s s' : games.Store) (t t' : players.Store) (g' : Game)
      → start_game games players game_id user_id (s, t) ≡ (ok g', (s', t'))
      → (g : Game) × (find_game games players game_id s ≡ some g)
        × (g.host_user_id ≡ some user_id)
        × (g' ≡ record g { status = GameStatus.in_progress })
        × (2 ≤ count (of_game game_id) (players.rows t))
        × (games.save g' s ≡ some s')
        × (t' ≡ t)
  unfolding start_game
  start_game-ok game_id user_id s s' t t' g' e =
      let n = counted games players game_id t in
      elim (Option-cases (find_game games players game_id s)) [
        | inl nobody ↦ absurd (ground arith)
        | inr (g, found) ↦ elim (Option-cases g.host_user_id) [
          | inl nohost ↦ absurd (ground arith)
          | inr (h, host) ↦ elim (Bool-cases (h == user_id)) [
            | inr other ↦ absurd (ground arith)
            | inl own ↦ elim (Bool-cases (is_pending g.status)) [
              | inr over ↦ absurd (ground arith)
              | inl open' ↦
                  elim (Bool-cases (ltb (length (players_of games players game_id t)) 2)) [
                    | inl few ↦ absurd (ground arith)
                    | inr enough ↦
                        elim (Option-cases
                          (games.save (record g { status = GameStatus.in_progress }) s)) [
                            | inl refused ↦ absurd (ground arith)
                            | inr (s'', written) ↦ (
                              g,
                              found,
                              ground arith,
                              ground arith,
                              ground arith,
                              ground arith,
                              ground arith,
                            )
                          ]
                  ]
            ]
          ]
        ]
      ]

  pub start_game-IsSound :
      (game_id user_id : ℕ) (s s' : games.Store) (t t' : players.Store) (g' : Game)
      → start_game games players game_id user_id (s, t) ≡ (ok g', (s', t'))
      → IsSound games players s t
      → IsSound games players s' t'
  start_game-IsSound game_id user_id s s' t t' g' e sound =
      let (g, found, host, made, _, written, same) = start_game-ok game_id user_id s s' t t' g' e in
      let (mem, _) = found_game games players game_id s g found in
      let ps = players.rows t in
      let saved' = (games.save-some g' s s' written).0 in
      let old_within = All-Member (IsWithin ps) g (games.rows s) sound.within mem in
      let old_host = All-Member (IsHosted ps) g (games.rows s) sound.hosted mem in
      record {
        keyed_games = rw saved' (put-IsKeyed game_key g' (games.rows s) sound.keyed_games);
        keyed_players = rw same sound.keyed_players;
        seats = rw same sound.seats;
        within =
            rw (saved', same)
              (All-put (IsWithin ps) game_key g' (games.rows s)
                (subst (IsWithin ps) (sym made) old_within) sound.within);
        hosted =
            rw (saved', same)
              (All-put (IsHosted ps) game_key g' (games.rows s)
                (subst (IsHosted ps) (sym made) old_host) sound.hosted);
      }

  -- In a sound state, a start that goes through fits the game.
  pub start_game_fits :
      (game_id user_id : ℕ) (s s' : games.Store) (t t' : players.Store) (g' : Game)
      → IsSound games players s t
      → start_game games players game_id user_id (s, t) ≡ (ok g', (s', t'))
      → (2 ≤ count (of_game game_id) (players.rows t'))
        × (count (of_game game_id) (players.rows t') ≤ g'.number_of_players)
        × ((p : Player) × Member p (players.rows t') × (takes_part game_id user_id p ≡ true))
        × Member g' (games.rows s')
        × (g'.status ≡ GameStatus.in_progress)
        × (g'.id ≡ game_id)
  start_game_fits game_id user_id s s' t t' g' sound e =
      let (g, found, host, made, two, written, same) =
        start_game-ok game_id user_id s s' t t' g' e in
      let (mem, key) = found_game games players game_id s g found in
      let ps = players.rows t in
      let saved' = (games.save-some g' s s' written).0 in
      let within = All-Member (IsWithin ps) g (games.rows s) sound.within mem in
      let hosted = All-Member (IsHosted ps) g (games.rows s) sound.hosted mem in
      let size : g'.number_of_players ≡ g.number_of_players = ap (λ x. x.number_of_players) made in
      let c : count (of_game g.id) ps ≡ count (of_game game_id) ps =
        ap (λ k. count (of_game k) ps) key in
      let playing : HasHost (some user_id) game_id ps =
        subst (λ k. HasHost (some user_id) k ps) key (subst (λ o. HasHost o g.id ps) host hosted) in
      (
        rw same two,
        rw same (omega arith),
        rw same playing,
        rw saved' (Member-put game_key g' (games.rows s)),
        ap (λ x. x.status) made,
        ap (λ x. x.id) made ∙ key,
      )

  -- A player's row is saved with another balance.
  scored :
      (s s' : games.Store) (t t' : players.Store) (p q : Player)
      → s ≡ s'
      → players.rows t' ≡ put player_key q (players.rows t)
      → Member p (players.rows t)
      → q.id ≡ p.id
      → q.game_id ≡ p.game_id
      → q.user_id ≡ p.user_id
      → IsSound games players s t
      → IsSound games players s' t'
  scored s s' t t' p q same saved' mem id game user sound =
      let ps = players.rows t in
      let keyed = sound.keyed_players in
      let back = sym same in
      record {
        keyed_games = rw back sound.keyed_games;
        keyed_players = rw saved' (put-IsKeyed player_key q ps keyed);
        seats = rw saved' (
            put-IsDistinct player_key q p (sym id) same_seat ps keyed mem
              (same_seat_left q p game user) (same_seat_right q p game user) sound.seats);
        within =
            rw (back, saved')
              (All-imp (IsWithin ps) (IsWithin (put player_key q ps)) (games.rows s)
                (λ x h.
                  let c =
                    count-put player_key q p (sym id) (of_game x.id) ps keyed mem
                      (ap (λ k. k == x.id) game) in
                  omega arith)
                sound.within);
        hosted =
            rw (back, saved')
              (All-imp (IsHosted ps) (IsHosted (put player_key q ps)) (games.rows s)
                (λ x h. HasHost-put x.host_user_id x.id p q ps keyed mem id game user h)
                sound.hosted);
      }

  pub submit_score-IsSound :
      (game_id user_id balance : ℕ) (s s' : games.Store) (t t' : players.Store) (p' : Player)
      → submit_score games players game_id user_id balance (s, t) ≡ (ok p', (s', t'))
      → IsSound games players s t
      → IsSound games players s' t'
  unfolding submit_score
  submit_score-IsSound game_id user_id balance s s' t t' p' e sound =
      elim (Option-cases (find_game games players game_id s)) [
        | inl nobody ↦ absurd (ground arith)
        | inr (g, found) ↦ elim (Bool-cases (is_in_progress g.status)) [
          | inr idle ↦ absurd (ground arith)
          | inl on ↦ elim (Option-cases (find_player games players game_id user_id t)) [
            | inl nobody ↦ absurd (ground arith)
            | inr (p, sits) ↦
                let q = record p { balance = balance } in
                elim (Option-cases (players.save q t)) [
                  | inl refused ↦ absurd (ground arith)
                  | inr (t'', written) ↦
                      let one : t'' ≡ t' = ground arith in
                      let games' : s ≡ s' = ground arith in
                      let saved' : players.rows t' ≡ put player_key q (players.rows t) =
                        subst (λ x. players.rows x ≡ put player_key q (players.rows t)) one
                          (players.save-some q t t'' written).0 in
                      let (mem, _) = found_player games players game_id user_id t p sits in
                      scored s s' t t' p q games' saved' mem refl refl refl sound
                ]
          ]
        ]
      ]
