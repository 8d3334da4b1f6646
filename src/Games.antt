-- ===== src/Games.antt =====
-- backend/src/games/games.service.ts and its entities: who takes part in a game, and who is its host.
-- Each call is one transaction that locks the game's row. Balances are in cents.
pub mod Membership
pub mod Hosts
pub mod Leaving
pub mod Play
pub mod Sessions
mod Tests
use my_fans.Common.{
  ℕ, ◌+◌, Bool, true, false, not, ◌&&◌, Option, none, some, List, [], ◌∷◌, filter, length, leb, ltb,
  ◌==◌, get_or, if◌then◌else◌,
}
use my_fans.Common.Actions.{Result, ok, err}
use my_fans.Database.{Table}

pub data GameStatus : Type 0 where
  pending in_progress completed : GameStatus

pub record Game : Type 0 where
  pub id : ℕ
  pub status : GameStatus
  pub number_of_players : ℕ
  pub starting_cash : ℕ
  pub randomize_turn_order : Bool
  pub host_user_id : Option ℕ

pub record Player : Type 0 where
  pub id : ℕ
  pub game_id : ℕ
  pub user_id : ℕ
  pub balance : ℕ
  pub turn_order : Option ℕ

abbrev pub game_key : Game → ℕ
game_key g = g.id

-- Games have no unique constraint.
abbrev pub no_clash : Game → Game → Bool
no_clash _ _ = false

abbrev pub player_key : Player → ℕ
player_key p = p.id

abbrev pub takes_part : ℕ → ℕ → Player → Bool
takes_part game_id user_id p = (p.game_id == game_id) && (p.user_id == user_id)

-- @Unique(['game', 'user'])
abbrev pub same_seat : Player → Player → Bool
same_seat p x = takes_part p.game_id p.user_id x

abbrev pub of_game : ℕ → Player → Bool
of_game game_id p = p.game_id == game_id

pub data GameError : Type 0 where
  game_not_found not_pending game_full already_joined save_failed : GameError
  not_host too_few game_completed player_not_found not_in_progress : GameError

abbrev pub is_pending : GameStatus → Bool
is_pending GameStatus.pending = true
is_pending GameStatus.in_progress = false
is_pending GameStatus.completed = false

abbrev pub is_in_progress : GameStatus → Bool
is_in_progress GameStatus.pending = false
is_in_progress GameStatus.in_progress = true
is_in_progress GameStatus.completed = false

abbrev pub is_completed : GameStatus → Bool
is_completed GameStatus.pending = false
is_completed GameStatus.in_progress = false
is_completed GameStatus.completed = true

abbrev pub is_host : ℕ → Option ℕ → Bool
is_host user_id none = false
is_host user_id (some h) = h == user_id

abbrev pub new_player : (game_id user_id balance turn_order id : ℕ) → Player
new_player game_id user_id balance turn_order id = record {
  id = id;
  game_id = game_id;
  user_id = user_id;
  balance = balance;
  turn_order = some turn_order;
}

-- The stable sort by `turn_order ?? 0`.
abbrev pub turn_of : Player → ℕ
turn_of p = get_or p.turn_order 0

abbrev pub insert_by_turn : Player → List Player → List Player
insert_by_turn p [] = p ∷ []
insert_by_turn p (x ∷ xs) =
    if leb (turn_of p) (turn_of x) then p ∷ x ∷ xs else x ∷ insert_by_turn p xs

abbrev pub sort_by_turn : List Player → List Player
sort_by_turn [] = []
sort_by_turn (p ∷ ps) = insert_by_turn p (sort_by_turn ps)

abbrev pub first_user : List Player → Option ℕ
first_user [] = none
first_user (p ∷ ps) = some p.user_id

-- `remaining[0]?.user_id ?? null`
abbrev pub next_host : ℕ → List Player → Option ℕ
next_host user_id ps = first_user (sort_by_turn (filter (λ p. not (p.user_id == user_id)) ps))

module _ (games : Table game_key no_clash) (players : Table player_key same_seat) where
  abbrev pub Stores : Type 0
  Stores = games.Store × players.Store

  unfoldable pub find_game : ℕ → games.Store → Option Game
  find_game game_id s = games.find_one (λ g. g.id == game_id) (λ _. 0) s

  -- The relation `game.players`.
  unfoldable pub players_of : ℕ → players.Store → List Player
  players_of game_id t = players.find (of_game game_id) t

  unfoldable pub find_player : ℕ → ℕ → players.Store → Option Player
  find_player game_id user_id t = players.find_one (takes_part game_id user_id) (λ _. 0) t

  abbrev saved :
      {A : Type 0} → A → Stores → players.Store → Option games.Store → Result GameError A × Stores
  saved a st t none = (err save_failed, st)
  saved a st t (some s) = (ok a, (s, t))

  -- `drawn` is what Math.random gives, below 1000.
  abbrev turn_order : Game → ℕ → ℕ → ℕ
  turn_order g count drawn = if g.randomize_turn_order then drawn else count + 1

  abbrev seat :
      Game
      → (user_id count : ℕ) → Stores
      → Option (Player × players.Store)
      → Result GameError Player × Stores
  seat g user_id count st none = (err save_failed, st)
  seat g user_id count st (some (p, t')) =
      if count == 0
      then saved p st t' (games.save (record g { host_user_id = some user_id }) st.0)
      else (ok p, (st.0, t'))

  -- The save of the game writes its row; that it carries the players as they were read before the join
  -- is left out.
  unfoldable pub join_game : (game_id user_id drawn : ℕ) → Stores → Result GameError Player × Stores
  unfolding find_game players_of find_player
  join_game game_id user_id drawn (s, t) = elim (find_game game_id s) [
    | none ↦ (err game_not_found, (s, t))
    | some g ↦
        let count = length (players_of game_id t) in
        if not (is_pending g.status)
        then (err not_pending, (s, t))
        else if leb g.number_of_players count
        then (err game_full, (s, t))
        else elim (find_player game_id user_id t) [
          | some _ ↦ (err already_joined, (s, t))
          | none ↦
              seat g user_id count (s, t)
                (players.insert
                  (new_player game_id user_id g.starting_cash (turn_order g count drawn)) t)
        ]
  ]

  unfoldable pub start_game : (game_id user_id : ℕ) → Stores → Result GameError Game × Stores
  unfolding find_game players_of
  start_game game_id user_id (s, t) = elim (find_game game_id s) [
    | none ↦ (err game_not_found, (s, t))
    | some g ↦
        if not (is_host user_id g.host_user_id)
        then (err not_host, (s, t))
        else if not (is_pending g.status)
        then (err not_pending, (s, t))
        else if ltb (length (players_of game_id t)) 2
        then (err too_few, (s, t))
        else (let g' = record g { status = GameStatus.in_progress } in
            saved g' (s, t) t (games.save g' s))
  ]

  unfoldable pub leave_game : (game_id user_id : ℕ) → Stores → Result GameError (Unit {0}) × Stores
  unfolding find_game players_of find_player
  leave_game game_id user_id (s, t) = elim (find_game game_id s) [
    | none ↦ (err game_not_found, (s, t))
    | some g ↦
        if is_completed g.status
        then (err game_completed, (s, t))
        else elim (find_player game_id user_id t) [
          | none ↦ (err player_not_found, (s, t))
          | some p ↦
              let t' = players.delete (λ x. x.id == p.id) t in
              if is_host user_id g.host_user_id
              then saved tt (s, t) t'
                  (games.save (record g { host_user_id = next_host user_id (players_of game_id t) })
                    s)
              else (ok tt, (s, t'))
        ]
  ]

  unfoldable pub submit_score :
      (game_id user_id balance : ℕ) → Stores → Result GameError Player × Stores
  unfolding find_game find_player
  submit_score game_id user_id balance (s, t) = elim (find_game game_id s) [
    | none ↦ (err game_not_found, (s, t))
    | some g ↦
        if not (is_in_progress g.status)
        then (err not_in_progress, (s, t))
        else elim (find_player game_id user_id t) [
          | none ↦ (err player_not_found, (s, t))
          | some p ↦
              let p' = record p { balance = balance } in
              elim (players.save p' t) [
                | none ↦ (err save_failed, (s, t))
                | some t' ↦ (ok p', (s, t'))
              ]
        ]
  ]
