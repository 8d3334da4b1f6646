-- ===== src/Games/Membership.antt =====
-- The invariant of games and players, and what keeps it.
use my_fans.Common.{
  ℕ, ◌≤◌, ◌<◌, ◌≡◌, ◌≢◌, refl, ap, true, false, Option, none, some, List, ◌∷◌, arith, count, length,
  Member, All, All-Member, All-of_Member, inl, inr, ◌⊎◌, Bool-cases, Option-cases, leb, ◌==◌,
}
use my_fans.Common.Actions.{ok}
use my_fans.Database.{Table, IsKeyed}
use my_fans.Database.Laws.{IsKeyed-eq, put-IsKeyed, insert-IsKeyed}
use my_fans.Database.Saves.{All-put_others, IsDistinct, count_none}
use my_fans.Games.{
  Game, Player, game_key, no_clash, player_key, takes_part, same_seat, of_game, is_pending,
  new_player, find_game, players_of, find_player, turn_order, join_game,
}

-- The host of a game is one of its players; without a host the game has no players.
abbrev pub HasHost : Option ℕ → ℕ → List Player → Type 0
HasHost none game_id ps = All (λ p. of_game game_id p ≡ false) ps
HasHost (some u) game_id ps = (p : Player) × Member p ps × (takes_part game_id u p ≡ true)

abbrev pub IsHosted : List Player → Game → Type 0
IsHosted ps g = HasHost g.host_user_id g.id ps

abbrev pub IsWithin : List Player → Game → Type 0
IsWithin ps g = count (of_game g.id) ps ≤ g.number_of_players

HasHost-cons :
    (o : Option ℕ) (id : ℕ) (p : Player) (ps : List Player)
    → p.game_id ≢ id
    → HasHost o id ps
    → HasHost o id (p ∷ ps)
HasHost-cons none id p ps ne h = (ground arith, h)
HasHost-cons (some u) id p ps ne (q, mem, seat) = (q, inr mem, seat)

-- A game that has players has a host, and keeps it when another player comes.
HasHost-cons_some :
    (o : Option ℕ) (id : ℕ) (p : Player) (ps : List Player)
    → count (of_game id) ps ≢ 0
    → HasHost o id ps
    → HasHost o id (p ∷ ps)
HasHost-cons_some none id p ps ne h = absurd (ne (count_none (of_game id) ps h))
HasHost-cons_some (some u) id p ps ne (q, mem, seat) = (q, inr mem, seat)

module _ (games : Table game_key no_clash) (players : Table player_key same_seat) where
  -- Keys are distinct, nobody has two seats in a game, no game is overfull, and every host plays.
  pub record IsSound (s : games.Store) (t : players.Store) : Type 0 where
    pub keyed_games : IsKeyed game_key (games.rows s)
    pub keyed_players : IsKeyed player_key (players.rows t)
    pub seats : IsDistinct same_seat (players.rows t)
    pub within : All (IsWithin (players.rows t)) (games.rows s)
    pub hosted : All (IsHosted (players.rows t)) (games.rows s)

  pub found_game :
      (game_id : ℕ) (s : games.Store) (g : Game)
      → find_game games players game_id s ≡ some g
      → Member g (games.rows s) × (g.id ≡ game_id)
  unfolding find_game
  found_game game_id s g e =
      let (mem, hit, _) = games.find_one-some (λ x. x.id == game_id) (λ _. 0) s g e in
      (mem, ground arith)

  pub counted :
      (game_id : ℕ) (t : players.Store)
      → length (players_of games players game_id t) ≡ count (of_game game_id) (players.rows t)
  unfolding players_of
  counted game_id t = players.length-find (of_game game_id) t

  -- What a join that goes through has found and written.
  join_game-ok :
      (game_id user_id drawn : ℕ) (s s' : games.Store) (t t' : players.Store) (p : Player)
      → join_game games players game_id user_id drawn (s, t) ≡ (ok p, (s', t'))
      → (g : Game) × (find_game games players game_id s ≡ some g)
        × (count (of_game game_id) (players.rows t) < g.number_of_players)
        × ((turn : ℕ) × (players.insert (new_player game_id user_id g.starting_cash turn) t
              ≡ some (p, t')))
        × (((count (of_game game_id) (players.rows t) ≡ 0)
              × (games.save (record g { host_user_id = some user_id }) s ≡ some s'))
            ⊎ ((count (of_game game_id) (players.rows t) ≢ 0) × (s' ≡ s)))
  unfolding join_game
  join_game-ok game_id user_id drawn s s' t t' p e =
      let n = counted game_id t in
      let m = length (players_of games players game_id t) in
      elim (Option-cases (find_game games players game_id s)) [
        | inl nobody ↦ absurd (ground arith)
        | inr (g, found) ↦ elim (Bool-cases (is_pending g.status)) [
          | inr over ↦ absurd (ground arith)
          | inl open' ↦ elim (Bool-cases (leb g.number_of_players m)) [
            | inl full ↦ absurd (ground arith)
            | inr room ↦ elim (Option-cases (find_player games players game_id user_id t)) [
              | inr (_, had) ↦ absurd (ground arith)
              | inl new ↦
                  let turn = turn_order games players g m drawn in
                  elim (Option-cases
                    (players.insert (new_player game_id user_id g.starting_cash turn) t)) [
                      | inl refused ↦ absurd (ground arith)
                      | inr ((q, t''), made) ↦ elim (Bool-cases (m == 0)) [
                        | inl first ↦
                            elim (Option-cases
                              (games.save (record g { host_user_id = some user_id }) s)) [
                                | inl refused ↦ absurd (ground arith)
                                | inr (s'', written) ↦ (
                                  g,
                                  found,
                                  ground arith,
                                  (turn, ground arith),
                                  inl (ground arith, ground arith),
                                )
                              ]
                        | inr later ↦ (
                          g,
                          found,
                          ground arith,
                          (turn, ground arith),
                          inr (ground arith, ground arith),
                        )
                      ]
                    ]
            ]
          ]
        ]
      ]

  -- A join keeps the invariant: the first to join becomes the host.
  pub join_game-IsSound :
      (game_id user_id drawn : ℕ) (s s' : games.Store) (t t' : players.Store) (p : Player)
      → join_game games players game_id user_id drawn (s, t) ≡ (ok p, (s', t'))
      → IsSound s t
      → IsSound s' t'
  join_game-IsSound game_id user_id drawn s s' t t' p e sound =
      let (g, found, room, (turn, made), wrote) =
        join_game-ok game_id user_id drawn s s' t t' p e in
      let (mem, key) = found_game game_id s g found in
      let ps = players.rows t in
      let (row, _, free, grown) =
        players.insert-some (new_player game_id user_id g.starting_cash turn) t p t' (λ n. refl)
          made in
      let game : p.game_id ≡ game_id = ap (λ x. x.game_id) row in
      let user : p.user_id ≡ user_id = ap (λ x. x.user_id) row in
      let keyed' =
        insert-IsKeyed players (new_player game_id user_id g.starting_cash turn) t p t' (λ n. refl)
          made sound.keyed_players in
      let seats' : IsDistinct same_seat (players.rows t') = rw grown (free, sound.seats) in
      let other_within = λ (x : Game) (ne : x.id ≢ game_id) (h : IsWithin ps x).
        let h' : IsWithin (p ∷ ps) x = ground arith in h' in
      elim wrote [
        | inl (nobody, written) ↦
            let g' = record g { host_user_id = some user_id } in
            let saved' = (games.save-some g' s s' written).0 in
            record {
              keyed_games = rw saved' (put-IsKeyed game_key g' (games.rows s) sound.keyed_games);
              keyed_players = keyed';
              seats = seats';
              within =
                  rw (saved', grown)
                    (All-put_others game_key (IsWithin ps) (IsWithin (p ∷ ps)) g' (games.rows s)
                      sound.keyed_games (λ x ne h. other_within x (ground arith) h) (ground arith)
                      sound.within);
              hosted =
                  rw (saved', grown)
                    (All-put_others game_key (IsHosted ps) (IsHosted (p ∷ ps)) g' (games.rows s)
                      sound.keyed_games
                      (λ x ne h. HasHost-cons x.host_user_id x.id p ps (ground arith) h)
                      (p, inl refl, ground arith) sound.hosted);
            }
        | inr (some', same) ↦ record {
          keyed_games = rw same sound.keyed_games;
          keyed_players = keyed';
          seats = seats';
          within =
              rw (same, grown)
                (All-of_Member (IsWithin (p ∷ ps)) (games.rows s) (λ x m.
                  elim (Bool-cases (x.id == game_id)) [
                    | inl own ↦
                        let one =
                          IsKeyed-eq game_key x g (games.rows s) sound.keyed_games m mem
                            (ground arith) in
                        let size : x.number_of_players ≡ g.number_of_players =
                          ap (λ y. y.number_of_players) one in
                        let id : x.id ≡ game_id = ground arith in
                        let c : count (of_game x.id) ps ≡ count (of_game game_id) ps =
                          ap (λ y. count (of_game y) ps) id in
                        ground arith
                    | inr ne ↦
                        other_within x (ground arith)
                          (All-Member (IsWithin ps) x (games.rows s) sound.within m)
                  ]));
          hosted =
              rw (same, grown)
                (All-of_Member (IsHosted (p ∷ ps)) (games.rows s) (λ x m.
                  let h = All-Member (IsHosted ps) x (games.rows s) sound.hosted m in
                  elim (Bool-cases (x.id == game_id)) [
                    | inl own ↦
                        let id : x.id ≡ game_id = ground arith in
                        let c : count (of_game x.id) ps ≡ count (of_game game_id) ps =
                          ap (λ y. count (of_game y) ps) id in
                        HasHost-cons_some x.host_user_id x.id p ps (omega arith) h
                    | inr ne ↦ HasHost-cons x.host_user_id x.id p ps (ground arith) h
                  ]));
        }
      ]
