-- ===== src/Golf/DocDbGameStore/Turns.antt =====
-- Whose moves game_manager.cc takes on the store of doc_db_game_store.cc.
use moon_base.Base.{String, ◌≡◌, ◌≢◌, refl, ap, ◌∙◌, true, Option, some, [], ◌∷◌}
use moon_base.Base.Int.{pos}
use moon_base.Base.Dict.{insert}
use moon_base.Absl.{Status, ok, err, invalid_argument_error}
use moon_base.DocDbClient.{Stub, Doc, is_ok_code, handle_doc_response, find_doc_by_tags}
use moon_base.Golf.GameStore.Safe.{restarted}
use moon_base.Golf.GameState.{GameState, Move, player_index}
use moon_base.Golf.GameState.Rules.{refusal}
use moon_base.Golf.GameState.Seats.{not_turn_refusal}
use moon_base.Golf.GameStore.{◌>>=◌}
use moon_base.Golf.GameManager.{internally, when_known, get_game_state_for_user, manager_play}
use moon_base.Golf.GameManager.Refusals.{manager_play_refuses}
use moon_base.Golf.DocDbGameStore.{user_exists, exists_in, read_game, read_from, doc_db_store}
use moon_base.Golf.DocDbGameStore.Reads.{document, copied, game_in_bytes}
use moon_base.Golf.DocDbGameStore.Proto.{BackendGameState, game_to_proto}

module _ {W : Type 0} (stub : Stub W) (db : String) (serialize : BackendGameState → String)
    (parse : String → Option BackendGameState) where
  user_document :
      (u : String) (w w' : W) (known : Status) (user : Doc)
      → stub.rpc_find_doc db "users" (("user", u) ∷ []) w ≡ ((known, user), w')
      → is_ok_code known.code ≡ true
      → find_doc_by_tags stub db "users" (("user", u) ∷ []) w ≡ (ok (copied user), w')
  unfolding find_doc_by_tags insert
  user_document u w w' known user f f_ok =
      ap (λ x. (handle_doc_response x.0.0 x.0.1, x.1)) f ∙ rw f_ok refl

  user_found :
      (u : String) (w w' : W) (known : Status) (user : Doc)
      → stub.rpc_find_doc db "users" (("user", u) ∷ []) w ≡ ((known, user), w')
      → is_ok_code known.code ≡ true
      → user_exists stub db serialize parse u w ≡ (ok true, w')
  unfolding user_exists
  user_found u w w' known user f f_ok =
      ap (exists_in stub db serialize parse) (user_document u w w' known user f f_ok)

  pub game_found :
      (g : GameState) (id : String) (w w' : W) (found : Status) (doc : Doc)
      → stub.rpc_find_doc_by_id db "games" id w ≡ ((found, doc), w')
      → is_ok_code found.code ≡ true
      → parse doc.bytes ≡ some (game_to_proto g)
      → id ≢ ""
      → read_game stub db serialize parse id w ≡ (ok (restarted g id doc.version), w')
  unfolding read_game
  game_found g id w w' found doc f f_ok p n =
      ap (read_from stub db serialize parse id) (document stub db id w w' found doc n f f_ok)
      ∙ ap (λ r. (r, w')) (game_in_bytes stub db serialize parse g id (copied doc) p)

  -- On a database that knows the user, and whose document under the id, which is not empty, holds
  -- what the store writes of a game, whatever that game was, whoever's turn it was there and however
  -- far it had come, a move of a user who is not known by seat 0 is refused by a rule of the game,
  -- and nothing is written.
  pub manager_play-doc_db_store :
      (m : Move) (id u : String) (g : GameState) (w w' w'' : W) (known found : Status)
      (user doc : Doc)
      → stub.rpc_find_doc db "users" (("user", u) ∷ []) w ≡ ((known, user), w')
      → is_ok_code known.code ≡ true
      → stub.rpc_find_doc_by_id db "games" id w' ≡ ((found, doc), w'')
      → is_ok_code found.code ≡ true
      → parse doc.bytes ≡ some (game_to_proto g)
      → id ≢ ""
      → player_index g u ≢ pos 0
      → (msg : String) × (refusal m (restarted g id doc.version) (player_index g u) ≡ some msg)
        × (manager_play (doc_db_store stub db serialize parse) m id u w
            ≡ (err (invalid_argument_error msg), w''))
  unfolding get_game_state_for_user player_index
  manager_play-doc_db_store m id u g w w' w'' known found user doc k k_ok f f_ok p n other =
      let store = doc_db_store stub db serialize parse in
      let again = restarted g id doc.version in
      let (msg, e) = not_turn_refusal m again (player_index again u) other in
      let reads : get_game_state_for_user store id u w ≡ (ok again, w'') =
        ap (λ x. (internally (λ _. x) >>= when_known store (store.read_game id)) w)
          (user_found u w w' known user k k_ok)
        ∙ game_found g id w' w'' found doc f f_ok p n in
      (msg, e, manager_play_refuses store m id u msg again w w'' reads e)
