-- ===== src/Golf/DocDbGameStore.antt =====
-- cpp/cards/golf/doc_db_game_store.h and doc_db_game_store.cc, over the stub of the document
-- database. What protobuf makes of a message, `serialize` and `parse`, is a parameter too.
pub mod Proto
pub mod Reads
pub mod Turns
pub mod Reliable
pub mod Stored
pub mod Safety
pub mod Toy
pub mod Keeper
mod Tests
use moon_base.Base.{String, Bool, true, false, Option, none, some, List, [], ◌∷◌, if◌then◌else◌}
use moon_base.Absl.{
  StatusOr, ok, err, fault, Status, StatusCode, not_found, unimplemented_error, internal_error,
}
use moon_base.DocDbClient.{
  Stub, DocEgg, DocIdAndVersion, Doc, insert_doc, update_doc, find_doc_by_id, find_doc_by_tags,
}
use moon_base.Golf.GameState.{GameState, with_id_and_version}
use moon_base.Golf.GameStore.{GameStore, Action, pure}
use moon_base.Golf.DocDbGameStore.Proto.{BackendGameState, game_to_proto, proto_to_game_state}

abbrev pub is_not_found : StatusCode → Bool
is_not_found not_found = true
is_not_found _ = false

module _ {W : Type 0} (stub : Stub W) (db : String) (serialize : BackendGameState → String)
    (parse : String → Option BackendGameState) where
  -- `AddUser` once the client has answered.
  abbrev pub added : StatusOr DocIdAndVersion × W → StatusOr (Unit {0}) × W
  added (ok at, w) = (ok tt, w)
  added (err e, w) = (err e, w)
  added (fault b, w) = (fault b, w)

  -- `DocDbGameStore::AddUser`
  unfoldable pub add_user : String → Action W (Unit {0})
  add_user user_id w =
      added
        (insert_doc stub db "users" (record { bytes = user_id; tags = ("user", user_id) ∷ [] }) w)

  -- `UserExists` once the client has answered.
  abbrev pub exists_in : StatusOr Doc × W → StatusOr Bool × W
  exists_in (ok doc, w) = (ok true, w)
  exists_in (err e, w) = if is_not_found e.code then (ok false, w) else (err e, w)
  exists_in (fault b, w) = (fault b, w)

  -- `DocDbGameStore::UserExists`
  unfoldable pub user_exists : String → Action W Bool
  user_exists user_id w = exists_in (find_doc_by_tags stub db "users" (("user", user_id) ∷ []) w)

  -- The conversion of a client's answer to `NewGame` and `UpdateGame` into the game's new state.
  abbrev pub stored : GameState → StatusOr DocIdAndVersion × W → StatusOr GameState × W
  stored g (ok at, w) = (ok (with_id_and_version g at.id at.version), w)
  stored g (err e, w) = (err e, w)
  stored g (fault b, w) = (fault b, w)

  -- `DocDbGameStore::NewGame`
  unfoldable pub new_game : GameState → Action W GameState
  new_game g w =
      stored g
        (insert_doc stub db "games" (record { bytes = serialize (game_to_proto g); tags = [] }) w)

  -- The game in a document.
  abbrev pub game_in : Doc → String → StatusOr GameState
  game_in doc game_id = elim (parse doc.bytes) [
    | none ↦ err (internal_error "internal error")
    | some proto ↦ proto_to_game_state proto game_id doc.version
  ]

  -- `ReadGame` once the client has answered.
  abbrev pub read_from : String → StatusOr Doc × W → StatusOr GameState × W
  read_from game_id (ok doc, w) = (game_in doc game_id, w)
  read_from game_id (err e, w) = (err e, w)
  read_from game_id (fault b, w) = (fault b, w)

  -- `DocDbGameStore::ReadGame`
  unfoldable pub read_game : String → Action W GameState
  read_game game_id w = read_from game_id (find_doc_by_id stub db "games" game_id w)

  -- `DocDbGameStore::UpdateGame`
  unfoldable pub update_game : GameState → Action W GameState
  update_game g w = stored g (
      update_doc stub db "games" (record { id = g.game_id; version = g.version_id })
        (record { bytes = serialize (game_to_proto g); tags = [] }) w)

  -- `DocDbGameStore::RemoveUser`
  abbrev pub remove_user : String → Action W (Unit {0})
  remove_user user_id = pure (err (unimplemented_error "todo"))

  -- `DocDbGameStore::GetUsers`
  abbrev pub get_users : Action W (List String)
  get_users = pure (err (unimplemented_error "todo"))

  -- `DocDbGameStore::ReadGameByUserId`
  abbrev pub read_game_by_user_id : String → Action W GameState
  read_game_by_user_id user_id = pure (err (unimplemented_error "todo"))

  -- `DocDbGameStore::ReadAllGames`
  abbrev pub read_all_games : Action W (List GameState)
  read_all_games = pure (err (unimplemented_error "todo"))

  -- The store; the methods left are not implemented.
  abbrev pub doc_db_store : GameStore W
  doc_db_store = record {
    add_user = add_user;
    user_exists = user_exists;
    remove_user = remove_user;
    get_users = get_users;
    new_game = new_game;
    read_game = read_game;
    read_game_by_user_id = read_game_by_user_id;
    read_all_games = read_all_games;
    update_game = update_game;
  }
