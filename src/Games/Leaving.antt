-- ===== src/Games/Leaving.antt =====
-- Who leaves a game, and who is its host then.
use mathlib.Core.Path.{subst}
use my_fans.Common.{
  ℕ, ◌≡◌, ◌≢◌, ◌∙◌, sym, ap, true, false, not, Option, none, some, List, arith, filter, Member,
  All-imp, All-Member, All-of_Member, inl, inr, ◌⊎◌, Bool-cases, Option-cases, ◌==◌,
}
use my_fans.Common.Actions.{ok}
use my_fans.Database.{Table, IsKeyed}
use my_fans.Database.Laws.{IsKeyed-eq, All-filter, Member-filter, filter-IsKeyed, put-IsKeyed}
use my_fans.Database.ListTable.{filter-Member}
use my_fans.Database.Saves.{
  All-put_others, IsDistinct, IsDistinct-eq, filter-IsDistinct, count-filter-le,
}
use my_fans.Games.{
  Game, Player, game_key, no_clash, player_key, takes_part, same_seat, of_game, is_host,
  is_completed, next_host, find_game, players_of, find_player, leave_game,
}
use my_fans.Games.Hosts.{next_host-some, next_host-none}
use my_fans.Games.Membership.{HasHost, IsHosted, IsWithin, IsSound, found_game}

-- The rows without that of `p`.
abbrev pub without : Player → List Player → List Player
without p ps = filter (λ x. not (x.id == p.id)) ps

stays : (p q : Player) (ps : List Player) → Member q ps → q.id ≢ p.id → Member q (without p ps)
stays p q ps m ne = Member-filter (λ x. not (x.id == p.id)) q ps m (ground arith)

-- The host stays when another player leaves.
HasHost-without :
    (o : Option ℕ) (id game_id user_id : ℕ) (p : Player) (ps : List Player)
    → IsKeyed player_key ps
    → Member p ps
    → takes_part game_id user_id p ≡ true
    → ((id ≢ game_id) ⊎ (is_host user_id o ≡ false))
    → HasHost o id ps
    → HasHost o id (without p ps)
HasHost-without none id game_id user_id p ps keyed mem seat other h =
    All-filter (λ x. of_game id x ≡ false) (λ x. not (x.id == p.id)) ps h
HasHost-without (some u) id game_id user_id p ps keyed mem seat other (q, m, hit) =
    elim (Bool-cases (q.id == p.id)) [
      | inr ne ↦ (q, stays p q ps m (ground arith), hit)
      | inl same ↦
          let one = IsKeyed-eq player_key q p ps keyed m mem (ground arith) in
          let game : q.game_id ≡ p.game_id = ap (λ x. x.game_id) one in
          let user : q.user_id ≡ p.user_id = ap (λ x. x.user_id) one in absurd (ground arith)
    ]

module _ (games : Table game_key no_clash) (players : Table player_key same_seat) where
  pub found_player :
      (game_id user_id : ℕ) (t : players.Store) (p : Player)
      → find_player games players game_id user_id t ≡ some p
      → Member p (players.rows t) × (takes_part game_id user_id p ≡ true)
  unfolding find_player
  found_player game_id user_id t p e =
      let (mem, hit, _) = players.find_one-some (takes_part game_id user_id) (λ _. 0) t p e in
      (mem, hit)

  of_relation :
      (game_id : ℕ) (t : players.Store) (q : Player)
      → Member q (players_of games players game_id t)
      → Member q (players.rows t) × (of_game game_id q ≡ true)
  unfolding players_of
  of_relation game_id t q m = players.find-Member (of_game game_id) t q m

  in_relation :
      (game_id : ℕ) (t : players.Store) (q : Player)
      → Member q (players.rows t)
      → of_game game_id q ≡ true
      → Member q (players_of games players game_id t)
  unfolding players_of
  in_relation game_id t q m hit = players.Member-find (of_game game_id) t q m hit

  -- What a departure that goes through has found and written.
  pub leave_game-ok :
      (game_id user_id : ℕ) (s s' : games.Store) (t t' : players.Store)
      → leave_game games players game_id user_id (s, t) ≡ (ok tt, (s', t'))
      → (g : Game) × (p : Player) × (find_game games players game_id s ≡ some g)
        × (find_player games players game_id user_id t ≡ some p)
        × (players.rows t' ≡ without p (players.rows t))
        × (((is_host user_id g.host_user_id ≡ true)
              × (games.save
                    (record g {
                      host_user_id = next_host user_id (players_of games players game_id t);
                    })
                    s
                  ≡ some s'))
            ⊎ ((is_host user_id g.host_user_id ≡ false) × (s' ≡ s)))
  unfolding leave_game
  leave_game-ok game_id user_id s s' t t' e =
      elim (Option-cases (find_game games players game_id s)) [
        | inl nobody ↦ absurd (ground arith)
        | inr (g, found) ↦ elim (Bool-cases (is_completed g.status)) [
          | inl over ↦ absurd (ground arith)
          | inr open' ↦ elim (Option-cases (find_player games players game_id user_id t)) [
            | inl nobody ↦ absurd (ground arith)
            | inr (p, sits) ↦
                let gone = players.rows-delete (λ x. x.id == p.id) t in
                elim (Bool-cases (is_host user_id g.host_user_id)) [
                  | inr guest ↦
                      let same : players.delete (λ x. x.id == p.id) t ≡ t' = ground arith in
                      (
                        g,
                        p,
                        found,
                        sits,
                        subst (λ x. players.rows x ≡ without p (players.rows t)) same gone,
                        inr (guest, ground arith),
                      )
                  | inl host ↦
                      let g' = record g {
                        host_user_id = next_host user_id (players_of games players game_id t);
                      } in
                      elim (Option-cases (games.save g' s)) [
                        | inl refused ↦ absurd (ground arith)
                        | inr (s'', written) ↦
                            let same : players.delete (λ x. x.id == p.id) t ≡ t' = ground arith in
                            (
                              g,
                              p,
                              found,
                              sits,
                              subst (λ x. players.rows x ≡ without p (players.rows t)) same gone,
                              inl (host, ground arith),
                            )
                      ]
                ]
          ]
        ]
      ]

  -- After the host has left, the next host of the game is one of its players.
  HasHost-next :
      (game_id user_id : ℕ) (t : players.Store) (p : Player)
      → IsDistinct same_seat (players.rows t)
      → IsKeyed player_key (players.rows t)
      → Member p (players.rows t)
      → takes_part game_id user_id p ≡ true
      → HasHost
          (next_host user_id (players_of games players game_id t))
          game_id
          (without p (players.rows t))
  HasHost-next game_id user_id t p seats keyed mem seat =
      let ps = players_of games players game_id t in
      elim (Option-cases (next_host user_id ps)) [
        | inl nobody ↦ rw nobody (
            All-of_Member (λ x. of_game game_id x ≡ false) (without p (players.rows t))
              (λ q m. elim (Bool-cases (of_game game_id q)) [
                | inr other ↦ other
                | inl here ↦
                    let (old, ne) = filter-Member (λ x. not (x.id == p.id)) (players.rows t) q m in
                    let user =
                      next_host-none user_id ps q nobody (in_relation game_id t q old here) in
                    let one =
                      IsDistinct-eq same_seat q p (players.rows t) seats old mem (ground arith)
                        (ground arith) in
                    let id : q.id ≡ p.id = ap (λ x. x.id) one in absurd (ground arith)
              ]))
        | inr (v, next) ↦
            let (q, m, user, other) = next_host-some user_id v ps next in
            let (old, here) = of_relation game_id t q m in
            rw next (elim (Bool-cases (q.id == p.id)) [
              | inr ne ↦ (q, stays p q (players.rows t) old (ground arith), ground arith)
              | inl same ↦
                  let one =
                    IsKeyed-eq player_key q p (players.rows t) keyed old mem (ground arith) in
                  let u : q.user_id ≡ p.user_id = ap (λ x. x.user_id) one in absurd (ground arith)
            ])
      ]

  -- A departure keeps the invariant.
  pub leave_game-IsSound :
      (game_id user_id : ℕ) (s s' : games.Store) (t t' : players.Store)
      → leave_game games players game_id user_id (s, t) ≡ (ok tt, (s', t'))
      → IsSound games players s t
      → IsSound games players s' t'
  leave_game-IsSound game_id user_id s s' t t' e sound =
      let (g, p, found, sits, left, wrote) = leave_game-ok game_id user_id s s' t t' e in
      let (mem, key) = found_game games players game_id s g found in
      let (there, seat) = found_player game_id user_id t p sits in
      let ps = players.rows t in
      let keyed' : IsKeyed player_key (players.rows t') =
        rw left (filter-IsKeyed player_key (λ x. not (x.id == p.id)) ps sound.keyed_players) in
      let seats' : IsDistinct same_seat (players.rows t') =
        rw left (filter-IsDistinct same_seat (λ x. not (x.id == p.id)) ps sound.seats) in
      let fewer = λ (x : Game) (h : IsWithin ps x).
        let l = count-filter-le (of_game x.id) (λ y. not (y.id == p.id)) ps in
        let h' : IsWithin (without p ps) x = omega arith in h' in
      elim wrote [
        | inr (guest, same) ↦ record {
          keyed_games = rw same sound.keyed_games;
          keyed_players = keyed';
          seats = seats';
          within =
              rw (same, left)
                (All-imp (IsWithin ps) (IsWithin (without p ps)) (games.rows s) fewer sound.within);
          hosted =
              rw (same, left)
                (All-of_Member (IsHosted (without p ps)) (games.rows s) (λ x m.
                  let h = All-Member (IsHosted ps) x (games.rows s) sound.hosted m in
                  HasHost-without x.host_user_id x.id game_id user_id p ps sound.keyed_players there
                    seat
                    (elim (Bool-cases (x.id == game_id)) [
                      | inr ne ↦ inl (ground arith)
                      | inl own ↦
                          let one =
                            IsKeyed-eq game_key x g (games.rows s) sound.keyed_games m mem
                              (ground arith) in
                          inr (ap (λ y. is_host user_id y.host_user_id) one ∙ guest)
                    ])
                    h));
        }
        | inl (host, written) ↦
            let g' = record g {
              host_user_id = next_host user_id (players_of games players game_id t);
            } in
            let saved' = (games.save-some g' s s' written).0 in
            record {
              keyed_games = rw saved' (put-IsKeyed game_key g' (games.rows s) sound.keyed_games);
              keyed_players = keyed';
              seats = seats';
              within =
                  rw (saved', left)
                    (All-put_others game_key (IsWithin ps) (IsWithin (without p ps)) g'
                      (games.rows s) sound.keyed_games (λ x ne h. fewer x h)
                      (fewer g (All-Member (IsWithin ps) g (games.rows s) sound.within mem))
                      sound.within);
              hosted =
                  rw (saved', left)
                    (All-put_others game_key (IsHosted ps) (IsHosted (without p ps)) g'
                      (games.rows s) sound.keyed_games
                      (λ x ne h.
                        HasHost-without x.host_user_id x.id game_id user_id p ps sound.keyed_players
                          there seat (inl (ground arith)) h)
                      (subst
                        (λ k.
                          HasHost (next_host user_id (players_of games players game_id t)) k
                            (without p ps))
                        (sym key)
                        (HasHost-next game_id user_id t p sound.seats sound.keyed_players there
                          seat))
                      sound.hosted);
            }
      ]
