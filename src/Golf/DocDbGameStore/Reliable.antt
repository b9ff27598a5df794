-- ===== src/Golf/DocDbGameStore/Reliable.antt =====
-- What doc_db_game_store.cc relies on in the document database, and in protobuf.
use moon_base.Base.{String, ◌≡◌, ◌≢◌, true, false, Option, none, some}
use moon_base.Base.Dict.{Dict, lookup, insert}
use moon_base.Absl.{Status}
use moon_base.DocDbClient.{Stub, Doc, DocEgg, DocIdAndVersion, is_ok_code}
use moon_base.Golf.GameState.{GameState}
use moon_base.Golf.DocDbGameStore.Proto.{BackendGameState, game_to_proto}

-- The answer to a write of a document to the games `old`, with the games after it. An error may come
-- also where the document was written.
pub data IsWritten (old : Dict String) (bytes : String)
    : Status × DocIdAndVersion → Dict String → Type 0 where
  writes :
      {status : Status} {at : DocIdAndVersion} {new : Dict String}
      → is_ok_code status.code ≡ true
      → at.id ≢ ""
      → new ≡ insert at.id bytes old
      → IsWritten old bytes (status, at) new
  loses :
      {status : Status} {at : DocIdAndVersion} {new : Dict String} (id : String)
      → is_ok_code status.code ≡ false
      → new ≡ insert id bytes old
      → IsWritten old bytes (status, at) new
  fails :
      {status : Status} {at : DocIdAndVersion} {new : Dict String}
      → is_ok_code status.code ≡ false
      → new ≡ old
      → IsWritten old bytes (status, at) new

-- The answer to a read of a document by its id: the document, if there is one.
pub data IsFound (games : Dict String) (id : String) : Status × Doc → Type 0 where
  finds :
      {status : Status} {doc : Doc}
      → is_ok_code status.code ≡ true
      → lookup id games ≡ some doc.bytes
      → IsFound games id (status, doc)
  misses :
      {status : Status} {doc : Doc}
      → is_ok_code status.code ≡ false
      → lookup id games ≡ none
      → IsFound games id (status, doc)

-- The database keeps the bytes of the games that it is given, and what it is asked of users leaves
-- them alone, whatever it answers to that. Protobuf parses what it has serialized.
pub record IsReliable {W : Type 0} (stub : Stub W) (db : String)
    (serialize : BackendGameState → String) (parse : String → Option BackendGameState)
    : Type 0 where
  pub games : W → Dict String
  pub parses : (g : GameState) → parse (serialize (game_to_proto g)) ≡ some (game_to_proto g)
  pub reads :
      (id : String) (w : W) → IsFound (games w) id (stub.rpc_find_doc_by_id db "games" id w).0
  pub reading : (id : String) (w : W) → (stub.rpc_find_doc_by_id db "games" id w).1 ≡ w
  pub inserts :
      (egg : DocEgg) (w : W)
      → IsWritten
          (games w)
          egg.bytes
          (stub.rpc_insert_doc db "games" egg w).0
          (games (stub.rpc_insert_doc db "games" egg w).1)
  pub updates :
      (at : DocIdAndVersion) (egg : DocEgg) (w : W)
      → IsWritten
          (games w)
          egg.bytes
          (stub.rpc_update_doc db "games" at egg w).0
          (games (stub.rpc_update_doc db "games" at egg w).1)
  pub adds_user : (egg : DocEgg) (w : W) → games (stub.rpc_insert_doc db "users" egg w).1 ≡ games w
  pub finds_user :
      (tags : Dict String) (w : W) → games (stub.rpc_find_doc db "users" tags w).1 ≡ games w
