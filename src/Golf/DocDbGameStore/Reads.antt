-- ===== src/Golf/DocDbGameStore/Reads.antt =====
-- What a game stored by doc_db_game_store.cc is read back as.
use moon_base.Base.{
  String, ◌≡◌, ◌≢◌, refl, ap, ◌∙◌, true, false, Option, some, [], arith, str_eq, eq_iff,
}
use moon_base.Absl.{Status, ok}
use moon_base.DocDbClient.{
  Stub, Doc, DocIdAndVersion, is_ok_code, insert_doc, find_doc_by_id, copy_tags,
}
use moon_base.Golf.GameStore.Safe.{restarted}
use moon_base.Golf.GameState.{GameState, with_id_and_version}
use moon_base.Golf.DocDbGameStore.{new_game, read_game, game_in}
use moon_base.Golf.DocDbGameStore.Proto.{BackendGameState, game_to_proto}
use moon_base.Golf.DocDbGameStore.Proto.RoundTrip.{proto_to_game_state-game_to_proto}

not_eq : (a b : String) → a ≢ b → str_eq a b ≡ false
not_eq a b h = ground (arith, eq_iff a b)

-- The document as the client hands it on.
abbrev pub copied : Doc → Doc
copied doc = record doc { tags = copy_tags doc.tags [] }

pub document :
    {W : Type 0} (stub : Stub W) (db id : String) (w w' : W) (found : Status) (doc : Doc)
    → id ≢ ""
    → stub.rpc_find_doc_by_id db "games" id w ≡ ((found, doc), w')
    → is_ok_code found.code ≡ true
    → find_doc_by_id stub db "games" id w ≡ (ok (copied doc), w')
unfolding find_doc_by_id
document stub db id w w' found doc n f f_ok = rw (find_doc_by_id, not_eq id "" n, f, f_ok) refl

pub game_in_bytes :
    {W : Type 0} (stub : Stub W) (db : String) (serialize : BackendGameState → String)
    (parse : String → Option BackendGameState) (g : GameState) (id : String) (doc : Doc)
    → parse doc.bytes ≡ some (game_to_proto g)
    → game_in stub db serialize parse doc id ≡ ok (restarted g id doc.version)
game_in_bytes stub db serialize parse g id doc e =
    rw (game_in, e) (proto_to_game_state-game_to_proto g id doc.version)

-- If the database takes the new game's document and then finds it by its id with the bytes unchanged,
-- and protobuf parses what it serialized, then `NewGame` returns the game under the document's id, and
-- `ReadGame` of that id returns its cards and players with the turn back at player 0, and without
-- the peek and the knock.
pub read_game-new_game :
    {W : Type 0} (stub : Stub W) (db : String) (serialize : BackendGameState → String)
    (parse : String → Option BackendGameState) (g : GameState) (w w' w'' : W)
    (inserted found : Status) (at : DocIdAndVersion) (doc : Doc)
    → stub.rpc_insert_doc db "games" (record { bytes = serialize (game_to_proto g); tags = [] }) w
      ≡ ((inserted, at), w')
    → is_ok_code inserted.code ≡ true
    → stub.rpc_find_doc_by_id db "games" at.id w' ≡ ((found, doc), w'')
    → is_ok_code found.code ≡ true
    → doc.bytes ≡ serialize (game_to_proto g)
    → parse (serialize (game_to_proto g)) ≡ some (game_to_proto g)
    → serialize (game_to_proto g) ≢ ""
    → at.id ≢ ""
    → (new_game stub db serialize parse g w ≡ (ok (with_id_and_version g at.id at.version), w'))
      × (read_game stub db serialize parse at.id w' ≡ (ok (restarted g at.id doc.version), w''))
unfolding new_game read_game insert_doc
read_game-new_game stub db serialize parse g w w' w'' inserted found at doc i i_ok f f_ok same p b
      n =
    (
      rw (insert_doc, not_eq (serialize (game_to_proto g)) "" b, i, i_ok) refl,
      rw
          (
            read_game,
            document stub db at.id w' w'' found doc n f f_ok,
            game_in_bytes stub db serialize parse g at.id (copied doc) (ap parse same ∙ p),
          )
          refl,
    )
