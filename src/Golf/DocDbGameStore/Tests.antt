-- ===== src/Golf/DocDbGameStore/Tests.antt =====
-- The document store over a database that remembers the last document, and protobuf for one game.
use moon_base.Base.{
  String, ◌≡◌, ◌≢◌, refl, true, Option, none, some, [], ◌∷◌, arith, str_eq, eq_iff, if◌then◌else◌,
}
use moon_base.Base.Int.{pos}
use moon_base.Absl.{Status, ok, err, code_ok, invalid_argument_error}
use moon_base.Cards.{card_of_index}
use moon_base.DocDbClient.{Stub, DocIdAndVersion}
use moon_base.Golf.Tables.{alice, bob}
use moon_base.Golf.GameStore.Safe.{restarted}
use moon_base.Golf.GameState.{
  GameState, with_id_and_version, knocks, player_index, player_index_from,
}
use moon_base.Golf.GameState.Rules.{refusal}
use moon_base.Golf.GameManager.{manager_play}
use moon_base.Golf.DocDbGameStore.Turns.{manager_play-doc_db_store}
use moon_base.Golf.DocDbGameStore.{new_game, read_game, doc_db_store}
use moon_base.Golf.DocDbGameStore.Reads.{read_game-new_game}
use moon_base.Golf.DocDbGameStore.Proto.{BackendGameState, game_to_proto}

-- A game in which Alice has knocked and Bob has peeked.
abbrev game : GameState
game = record {
  draw_pile = card_of_index 8 ∷ [];
  discard_pile = card_of_index 10 ∷ [];
  players = alice ∷ bob ∷ [];
  peeked_at_draw_pile = true;
  whose_turn = pos 1;
  who_knocked = pos 0;
  game_id = "7";
  version_id = "1";
}

abbrev done : Status
done = record { code = code_ok; message = "" }

abbrev place : DocIdAndVersion
place = record { id = "7"; version = "1" }

-- The database holds the bytes of the last document.
abbrev database : Stub String
database = record {
  rpc_insert_doc = λ db collection egg w. ((done, place), egg.bytes);
  rpc_update_doc = λ db collection at egg w. ((done, at), egg.bytes);
  rpc_find_doc_by_id =
      λ db collection id w. ((done, record { id = id; version = "1"; bytes = w; tags = [] }), w);
  rpc_find_doc = λ db collection tags w.
      ((done, record { id = "7"; version = "1"; bytes = w; tags = tags }), w);
}

abbrev text : String
text = "game"

abbrev serialize_game : BackendGameState → String
serialize_game proto = text

abbrev parse_game : String → Option BackendGameState
parse_game t = if str_eq t text then some (game_to_proto game) else none

abbrev no_text : String
no_text = ""

text_nonempty : text ≢ no_text
text_nonempty = ground (arith, eq_iff text no_text)

id_nonempty : place.id ≢ no_text
id_nonempty = ground (arith, eq_iff place.id no_text)

-- What is read back is not the game that was stored.
restarted_differs : restarted game "7" "1" ≢ game
restarted_differs e = cc

read_game-new_game_example :
    (new_game database "golf" serialize_game parse_game game ""
      ≡ (ok (with_id_and_version game "7" "1"), text))
    × (read_game database "golf" serialize_game parse_game "7" text
        ≡ (ok (restarted game "7" "1"), text))
read_game-new_game_example =
    read_game-new_game database "golf" serialize_game parse_game game "" text text done done place
      (record { id = "7"; version = "1"; bytes = text; tags = [] }) refl refl refl refl refl refl
      text_nonempty id_nonempty

bob_not_first : player_index game "bob_" ≢ pos 0
unfolding player_index player_index_from
bob_not_first e = cc

-- The turn of this game is Bob's, but he is refused: read back, it is Alice's.
manager_play-doc_db_store_example :
    (msg : String) × (refusal knocks (restarted game "7" "1") (player_index game "bob_") ≡ some msg)
    × (manager_play (doc_db_store database "golf" serialize_game parse_game) knocks "7" "bob_" text
        ≡ (err (invalid_argument_error msg), text))
manager_play-doc_db_store_example =
    manager_play-doc_db_store database "golf" serialize_game parse_game knocks "7" "bob_" game text
      text text done done
      (record { id = "7"; version = "1"; bytes = text; tags = ("user", "bob_") ∷ [] })
      (record { id = "7"; version = "1"; bytes = text; tags = [] }) refl refl refl refl refl
      id_nonempty bob_not_first
