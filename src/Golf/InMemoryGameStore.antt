-- ===== src/Golf/InMemoryGameStore.antt =====
-- cpp/cards/golf/in_memory_game_store.h and in_memory_game_store.cc. Each method holds its mutex
-- throughout, so it is one step. The file's static counter is a field of the one store.
pub mod Laws
pub mod Reads
pub mod Users
pub mod Keeps
pub mod Unordered
pub mod Contract
mod Tests
use moon_base.Base.{
  ℕ, suc, String, Bool, true, false, Option, none, some, List, [], ◌∷◌, map, ◌==◌, if◌then◌else◌,
  str_eq, get_elem?,
}
use moon_base.Base.Int.{int_max, ℤ, pos}
use moon_base.Base.Dict.{Dict, lookup, has_key, insert, member, add, erase}
use moon_base.Base.Text.{to_string}
use moon_base.Absl.{
  StatusOr, ok, err, fault, ◌>>=◌, ◌>>◌, refuse_if, or_fault, invalid_argument_error,
  internal_error, not_found_error, already_exists_error, throws_out_of_range, undefined,
}
use moon_base.Golf.Player.{Player}
use moon_base.Golf.GameState.{GameState, is_over, player_at, with_id_and_version}
use moon_base.Golf.GameStore.{GameStore, Action}

pub record InMemoryGameStore : Type 0 where
  pub users_online : List String
  pub game_ids_by_user_id : Dict String
  pub games_by_id : Dict GameState
  pub counter : ℕ

abbrev pub empty_store : InMemoryGameStore
empty_store = record { users_online = []; game_ids_by_user_id = []; games_by_id = []; counter = 0 }

-- `AddUser`
unfoldable pub add_user : String → Action InMemoryGameStore (Unit {0})
add_user user_id s =
    if member user_id s.users_online
    then (err (already_exists_error "already exists"), s)
    else (ok tt, record s { users_online = add user_id s.users_online })

-- `UserExists`
unfoldable pub user_exists : String → Action InMemoryGameStore Bool
user_exists user_id s = (ok (member user_id s.users_online), s)

-- `RemoveUser`
unfoldable pub remove_user : String → Action InMemoryGameStore (Unit {0})
remove_user user_id s = (ok tt, record s { users_online = erase user_id s.users_online })

-- `GetUsers`
unfoldable pub get_users : Action InMemoryGameStore (List String)
get_users s = (ok s.users_online, s)

-- The name of player 0: `at` throws if there is none, and an absent name may not be looked at.
first_name : GameState → StatusOr String
first_name g = do
  p ← or_fault (player_at g.players (pos 0)) throws_out_of_range
  or_fault p.name undefined

-- `NewGame` from the new game's id on, with the counter already raised.
new_game_as : String → GameState → Action InMemoryGameStore GameState
unfolding first_name
new_game_as game_id g s = elim (first_name g) [
  | err e ↦ (err e, s)
  | fault b ↦ (fault b, s)
  | ok user_id ↦
      if str_eq user_id ""
      then (
        err (
            internal_error
              "game_state cannot be created without a player. This should have been validated upstream."),
        s,
      )
      else if has_key user_id s.game_ids_by_user_id
      then (err (invalid_argument_error "already in game"), s)
      else if has_key game_id s.games_by_id
      then (err (invalid_argument_error "could not generate unused game id"), s)
      else (
        ok g,
        record s {
          games_by_id = insert game_id g s.games_by_id;
          game_ids_by_user_id = insert user_id game_id s.game_ids_by_user_id;
        },
      )
]

-- `NewGame`; raising the greatest int is undefined.
unfoldable pub new_game : GameState → Action InMemoryGameStore GameState
unfolding new_game_as
new_game g s =
    if s.counter == int_max
    then (fault undefined, s)
    else new_game_as (to_string s.counter) (with_id_and_version g (to_string s.counter) "foo")
        (record s { counter = suc s.counter })

-- `ReadGame`
unfoldable pub read_game : String → Action InMemoryGameStore GameState
read_game game_id s = elim (lookup game_id s.games_by_id) [
  | some g ↦ (ok g, s)
  | none ↦ (err (not_found_error "game not found"), s)
]

-- `ReadGameByUserId`
unfoldable pub read_game_by_user_id : String → Action InMemoryGameStore GameState
read_game_by_user_id user_id s = elim (lookup user_id s.game_ids_by_user_id) [
  | some game_id ↦ (or_fault (lookup game_id s.games_by_id) throws_out_of_range, s)
  | none ↦ (err (not_found_error "game not found"), s)
]

-- `ReadAllGames`
unfoldable pub read_all_games : Action InMemoryGameStore (List GameState)
read_all_games s = (ok (map (λ e. e.1) s.games_by_id), s)

-- The loop of `UpdateGame` that notes every player's game.
pub note_players : String → List Player → Dict String → Dict String
note_players game_id [] ids = ids
note_players game_id (p ∷ ps) ids =
    note_players game_id ps (elim p.name [ none ↦ ids | some n ↦ insert n game_id ids ])

-- `UpdateGame`
unfoldable pub update_game : GameState → Action InMemoryGameStore GameState
unfolding note_players
update_game g s = elim (lookup g.game_id s.games_by_id) [
  | none ↦ (err (invalid_argument_error "game does not exist"), s)
  | some old ↦ if is_over old then (err (invalid_argument_error "game is over"), s) else (
    ok g,
    record s {
      game_ids_by_user_id = note_players g.game_id g.players s.game_ids_by_user_id;
      games_by_id = insert g.game_id g s.games_by_id;
    },
  )
]

abbrev pub in_memory_store : GameStore InMemoryGameStore
in_memory_store = record {
  add_user = add_user;
  user_exists = user_exists;
  remove_user = remove_user;
  get_users = get_users;
  new_game = new_game;
  read_game = read_game;
  read_game_by_user_id = read_game_by_user_id;
  read_all_games = read_all_games;
  update_game = update_game;
}
