-- ===== src/Golf/Service/Handlers.antt =====
-- cpp/golf_service/handlers.h and handlers.cc, over any game store. What protobuf reads in and writes
-- as JSON is a parameter, and so is the shuffle that a request may need.
use Prim.Native.String.{◌++◌}
use moon_base.Base.{
  ℕ, String, Bool, true, false, ◌||◌, Option, none, some, List, [], ◌∷◌, ◌⊎◌, inl, inr, ◌==◌,
  if◌then◌else◌, get_elem?,
}
use moon_base.Base.Dict.{Dict, lookup}
use moon_base.Base.Int.{ℤ, pos, negsuc}
use moon_base.Absl.{
  Status, StatusOr, ok, err, fault, or_fault, invalid_argument_error, throws_out_of_range,
}
use moon_base.Golf.Player.{Position, top_left, top_right, bottom_left, bottom_right}
use moon_base.Golf.GameState.{GameState}
use moon_base.Golf.GameStore.{GameStore, Action, ◌>>=◌, pure, attempt}
use moon_base.Golf.GameManager
use moon_base.Golf.StateMapper.{GameStateResponse, game_state_to_proto}
use moon_base.Golf.Service.{
  RequestWrapper, RequestKind, register_user_request, new_game_request, join_game_request,
  peek_request, discard_draw_request, knock_request, swap_for_draw_request,
  swap_for_discard_request, Service, with_store, send, connect,
}

-- `JsonStringToMessage` and `MessageToJsonString`
pub record Json : Type 0 where
  pub from_json : String → Status ⊎ RequestWrapper
  pub to_json : GameStateResponse → Option String

abbrev pub Shuffle : Type 0
Shuffle = List ℕ → List ℕ

-- The type of a handler.
abbrev pub Handling : Type 0 → Type 0
Handling S = Shuffle → RequestKind → ℕ → Action (Service S) (Unit {0})

-- The loop of `Handler::registerUser` over the connections.
abbrev pub is_registered : ℕ → Dict ℕ → Bool
is_registered c [] = false
is_registered c ((user, d) ∷ m) = d == c || is_registered c m

-- The test of `Handler::usernameMismatch`
abbrev pub is_other : ℕ → Option ℕ → Bool
is_other c none = true
is_other c (some d) = if d == c then false else true

abbrev pub position_of_proto : ℤ → Option Position
position_of_proto (pos i) = get_elem? (top_left ∷ top_right ∷ bottom_left ∷ bottom_right ∷ []) i
position_of_proto (negsuc i) = none

module _ {S : Type 0} (store : GameStore S) (json : Json) where
  -- What `Handler::validRequestType` does with a request of another kind than the handler's.
  unfoldable pub invalid_request : ℕ → Action (Service S) (Unit {0})
  invalid_request c = send c "error|invalid request"

  -- `registerUser` once the manager has answered.
  abbrev pub welcome : ℕ → StatusOr String → Action (Service S) (Unit {0})
  welcome c (ok user) =
      connect user c >>= λ _. send c ("{\"inGame\":false,\"username\":\"" ++ user ++ "\"}")
  welcome c (err e) = send c ("error|" ++ e.message)
  welcome c (fault b) = pure (fault b)

  -- `Handler::registerUser`
  unfoldable pub register_user : Handling S
  unfolding invalid_request
  register_user shuffle (register_user_request username) c v =
      if is_registered c v.connections_by_user
      then send c "error|already registered" v
      else attempt (with_store (GameManager.register_user store username)) (welcome c) v
  register_user shuffle kind c v = invalid_request c v

  -- `Handler::usernameMismatch`
  unfoldable pub username_mismatch : String → ℕ → Action (Service S) Bool
  username_mismatch username c v =
      if is_other c (lookup username v.connections_by_user)
      then (send c "error|username mismatch" >>= λ _. pure (ok true)) v
      else (ok false, v)

  -- `if (usernameMismatch(username, c)) return;`
  abbrev pub unless_mismatch : Action (Service S) (Unit {0}) → Bool → Action (Service S) (Unit {0})
  unless_mismatch m true = pure (ok tt)
  unless_mismatch m false = m

  -- `Handler::validatePosition`
  unfoldable pub validate_position : ℤ → ℕ → Action (Service S) Position
  validate_position position c = elim (position_of_proto position) [
    | some q ↦ pure (ok q)
    | none ↦ send c "error|invalid position" >>= λ _.
        pure (err (invalid_argument_error "invalid position"))
  ]

  -- `Handler::userStateToJson`
  unfoldable pub user_state_to_json : GameState → String → StatusOr String
  user_state_to_json g user = elim (game_state_to_proto g user) [
    | ok r ↦ ok (elim (json.to_json r) [ some text ↦ text | none ↦ "UNKNOWN" ])
    | err e ↦ err e
    | fault b ↦ fault b
  ]

  -- `connectionsByUser.at(user)`
  abbrev pub connection_of : String → Action (Service S) ℕ
  connection_of user v = (or_fault (lookup user v.connections_by_user) throws_out_of_range, v)

  -- The loop of `handleGameManagerResult` over the users of the game.
  unfoldable pub tell_users : GameState → List String → Action (Service S) (Unit {0})
  unfolding user_state_to_json
  tell_users g [] = pure (ok tt)
  tell_users g (user ∷ users) = do
    text ← pure (user_state_to_json g user)
    d ← connection_of user
    _ ← send d text
    tell_users g users

  -- `Handler::handleGameManagerResult`
  unfoldable pub handle_game_manager_result : ℕ → StatusOr GameState → Action (Service S) (Unit {0})
  handle_game_manager_result c (err e) = send c ("error|" ++ e.message)
  handle_game_manager_result c (fault b) = pure (fault b)
  handle_game_manager_result c (ok g) =
      with_store (GameManager.get_users_by_game_id store g.game_id) >>= tell_users g

  -- A call of the manager for a user whose connection is `c`, and its result.
  unfoldable pub for_user : String → ℕ → Action S GameState → Action (Service S) (Unit {0})
  unfolding username_mismatch handle_game_manager_result
  for_user username c call =
      username_mismatch username c
      >>= unless_mismatch (attempt (with_store call) (handle_game_manager_result c))

  -- `if (!positionRes.ok()) return;`, and the call with the position.
  abbrev pub when_valid :
      ℕ → (Position → Action S GameState) → StatusOr Position → Action (Service S) (Unit {0})
  when_valid c call (ok q) = attempt (with_store (call q)) (handle_game_manager_result c)
  when_valid c call (err e) = pure (ok tt)
  when_valid c call (fault b) = pure (fault b)

  -- The same as `for_user`, of a call that takes a position.
  unfoldable pub for_position :
      String → ℕ → ℤ → (Position → Action S GameState) → Action (Service S) (Unit {0})
  unfolding username_mismatch validate_position handle_game_manager_result
  for_position username c position call =
      username_mismatch username c
      >>= unless_mismatch (attempt (validate_position position c) (when_valid c call))

  -- `Handler::newGame`
  unfoldable pub new_game : Handling S
  unfolding for_user invalid_request
  new_game shuffle (new_game_request username n) c =
      for_user username c (GameManager.new_game store shuffle username n)
  new_game shuffle kind c = invalid_request c

  -- `Handler::joinGame`
  unfoldable pub join_game : Handling S
  unfolding for_user invalid_request
  join_game shuffle (join_game_request username game_id) c =
      for_user username c (GameManager.join_game store game_id username)
  join_game shuffle kind c = invalid_request c

  -- `Handler::peekAtDrawPile`
  unfoldable pub peek_at_draw_pile : Handling S
  unfolding for_user invalid_request
  peek_at_draw_pile shuffle (peek_request username game_id) c =
      for_user username c (GameManager.manager_peek store game_id username)
  peek_at_draw_pile shuffle kind c = invalid_request c

  -- `Handler::discardFromDrawPile`
  unfoldable pub discard_from_draw_pile : Handling S
  unfolding for_user invalid_request
  discard_from_draw_pile shuffle (discard_draw_request username game_id) c =
      for_user username c (GameManager.manager_swap_draw_for_discard store game_id username)
  discard_from_draw_pile shuffle kind c = invalid_request c

  -- `Handler::swapForDrawPile`
  unfoldable pub swap_for_draw_pile : Handling S
  unfolding for_position invalid_request
  swap_for_draw_pile shuffle (swap_for_draw_request username game_id position) c =
      for_position username c position (GameManager.manager_swap_for_draw store game_id username)
  swap_for_draw_pile shuffle kind c = invalid_request c

  -- `Handler::swapForDiscardPile`
  unfoldable pub swap_for_discard_pile : Handling S
  unfolding for_position invalid_request
  swap_for_discard_pile shuffle (swap_for_discard_request username game_id position) c =
      for_position username c position (GameManager.manager_swap_for_discard store game_id username)
  swap_for_discard_pile shuffle kind c = invalid_request c

  -- `Handler::knock`
  unfoldable pub knock : Handling S
  unfolding for_user invalid_request
  knock shuffle (knock_request username game_id) c =
      for_user username c (GameManager.manager_knock store game_id username)
  knock shuffle kind c = invalid_request c

  -- `Handler::handlers`
  unfoldable pub handlers : Dict (Handling S)
  unfolding register_user new_game join_game peek_at_draw_pile discard_from_draw_pile
      swap_for_draw_pile swap_for_discard_pile knock
  handlers =
      ("register", register_user)
      ∷ ("new", new_game)
      ∷ ("join", join_game)
      ∷ ("peek", peek_at_draw_pile)
      ∷ ("discardDraw", discard_from_draw_pile)
      ∷ ("swapDraw", swap_for_draw_pile)
      ∷ ("swapDiscard", swap_for_discard_pile)
      ∷ ("knock", knock)
      ∷ []

  -- The part of `handleMessage` after the text has been read.
  unfoldable pub dispatch : RequestWrapper → Shuffle → ℕ → Action (Service S) (Unit {0})
  unfolding handlers
  dispatch request shuffle c = elim (lookup request.command handlers) [
    | none ↦ send c "error|bad_command"
    | some handler ↦ handler shuffle request.kind c
  ]

  -- `Handler::handleMessage`
  unfoldable pub handle_message : String → Shuffle → ℕ → Action (Service S) (Unit {0})
  unfolding dispatch
  handle_message text shuffle c = elim (json.from_json text) [
    | inl e ↦ send c e.message
    | inr request ↦ dispatch request shuffle c
  ]

  -- `Handler::handleDisconnect`
  unfoldable pub handle_disconnect : ℕ → Action (Service S) (Unit {0})
  handle_disconnect c = pure (ok tt)
