-- ===== src/Games/Tests.antt =====
-- A game on lists of rows: two join, one starts it, and the host leaves.
use my_fans.Common.{◌≡◌, ◌≢◌, ◌≤◌, refl, true, false, none, some, List, [], ◌∷◌, count, Member}
use my_fans.Common.Actions.{ok, err}
use my_fans.Database.{Table}
use my_fans.Database.ListTable.{list_table}
use my_fans.Games.{
  GameStatus, Game, not_pending, Player, game_key, no_clash, player_key, same_seat, takes_part,
  of_game, new_player, find_game, players_of, find_player, join_game, start_game, leave_game,
}
use my_fans.Games.Membership.{IsSound}
use my_fans.Games.Sessions.{Move, joins, session, session-IsSound, start_game-session}

abbrev games : Table game_key no_clash
games = list_table game_key no_clash

abbrev players : Table player_key same_seat
players = list_table player_key same_seat

abbrev game : Game
game = record {
  id = 5;
  status = GameStatus.pending;
  number_of_players = 3;
  starting_cash = 1500;
  randomize_turn_order = false;
  host_user_id = none;
}

abbrev hosted : Game
hosted = record game { host_user_id = some 7 }

abbrev first : Player
first = new_player 5 7 1500 1 0

abbrev second : Player
second = new_player 5 8 1500 2 1

abbrev moves : List Move
moves = joins 5 7 0 ∷ joins 5 8 0 ∷ joins 5 8 0 ∷ []

played : session games players moves (game ∷ [], []) ≡ (hosted ∷ [], second ∷ first ∷ [])
unfolding join_game find_game players_of find_player
played = refl

session-IsSound_example :
    IsSound games players
      (session games players moves (game ∷ [], [])).0
      (session games players moves (game ∷ [], [])).1
session-IsSound_example =
    session-IsSound games players moves (game ∷ []) [] ((tt, tt), (refl, tt)) refl

abbrev running : Game
running = record hosted { status = GameStatus.in_progress }

started :
    start_game games players 5 7 (session games players moves (game ∷ [], []))
    ≡ (ok running, (running ∷ [], second ∷ first ∷ []))
unfolding join_game start_game find_game players_of find_player
started = refl

start_game-session_example :
    (GameStatus.in_progress ≡ GameStatus.in_progress)
    × (find_game games players 5 (running ∷ []) ≡ some running)
    × (2 ≤ count (of_game 5) (second ∷ first ∷ []))
    × (count (of_game 5) (second ∷ first ∷ []) ≤ 3)
    × ((p : Player) × Member p (second ∷ first ∷ []) × (takes_part 5 7 p ≡ true))
    × (join_game games players 5 7 0 (running ∷ [], second ∷ first ∷ [])
        ≡ (err not_pending, (running ∷ [], second ∷ first ∷ [])))
    × ((start_game games players 5 7 (running ∷ [], second ∷ first ∷ [])).0 ≢ ok running)
start_game-session_example =
    start_game-session games players moves 5 7 7 0 (game ∷ []) (running ∷ []) []
      (second ∷ first ∷ []) running running ((tt, tt), (refl, tt)) refl started

left :
    leave_game games players 5 7 (hosted ∷ [], second ∷ first ∷ [])
    ≡ (ok tt, (record hosted { host_user_id = some 8 } ∷ [], second ∷ []))
unfolding leave_game find_game players_of find_player
left = refl
