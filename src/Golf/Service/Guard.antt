-- ===== src/Golf/Service/Guard.antt =====
-- handlers.cc lets a user be spoken for on that user's own connection alone.
use Prim.Native.String.{◌++◌}
use moon_base.Base.{
  ℕ, String, ◌≡◌, refl, ap, sym, subst, true, false, inl, inr, Option, none, some, Option-cases,
  push_back, arith,
}
use mathlib.Core.Option.{some-injective}
use moon_base.Base.Dict.{lookup, Entries, Entries-lookup}
use moon_base.Absl.{StatusOr, ok}
use moon_base.Golf.GameStore.{GameStore, Action, ◌>>=◌, pure}
use moon_base.Golf.Service.{
  Service, sends, has_connection, send, send_open, RequestKind, RequestWrapper, kind_not_set,
  register_user_request, new_game_request, join_game_request, peek_request, discard_draw_request,
  knock_request, swap_for_draw_request, swap_for_discard_request,
}
use moon_base.Golf.Service.Handlers.{
  Json, Shuffle, Handling, invalid_request, is_other, username_mismatch, unless_mismatch,
  register_user, new_game, join_game, peek_at_draw_pile, discard_from_draw_pile, swap_for_draw_pile,
  swap_for_discard_pile, knock, handlers, dispatch, handle_message, for_user, for_position,
}

-- The user that a request about a game is made for.
abbrev pub named_user : RequestKind → Option String
named_user kind_not_set = none
named_user (register_user_request u) = none
named_user (new_game_request u n) = some u
named_user (join_game_request u game_id) = some u
named_user (peek_request u game_id) = some u
named_user (discard_draw_request u game_id) = some u
named_user (knock_request u game_id) = some u
named_user (swap_for_draw_request u game_id position) = some u
named_user (swap_for_discard_request u game_id position) = some u

-- All that was done is to send an error on the connection `c`.
abbrev pub OnlyRefuses : {S : Type 0} → ℕ → Service S → StatusOr (Unit {0}) × Service S → Type 0
OnlyRefuses c v x =
    (m : String) × (x ≡ (ok tt, record v { sent = push_back v.sent (sends c ("error|" ++ m)) }))

module _ {S : Type 0} where
  send-OnlyRefuses :
      (c : ℕ) (m : String) (v : Service S)
      → has_connection c v.closed ≡ false
      → OnlyRefuses c v (send c ("error|" ++ m) v)
  send-OnlyRefuses c m v h = (m, send_open c _ v h)

module _ {S : Type 0} (store : GameStore S) (json : Json) where
  pub mismatched :
      (u : String) (c : ℕ) (v : Service S)
      → has_connection c v.closed ≡ false
      → is_other c (lookup u v.connections_by_user) ≡ true
      → username_mismatch store json u c v
        ≡ (ok true, record v { sent = push_back v.sent (sends c "error|username mismatch") })
  unfolding username_mismatch
  mismatched u c v h e =
      rw (username_mismatch, e)
        (ap (λ x. ((λ _. x) >>= λ _. pure (ok true)) v) (send_open c "error|username mismatch" v h))

  mismatch-OnlyRefuses :
      (w u : String) (c : ℕ) (m : Action (Service S) (Unit {0})) (v : Service S)
      → has_connection c v.closed ≡ false
      → some w ≡ some u
      → is_other c (lookup u v.connections_by_user) ≡ true
      → OnlyRefuses c v ((username_mismatch store json w c >>= unless_mismatch store json m) v)
  mismatch-OnlyRefuses w u c m v h n e =
      let named : u ≡ w = sym (some-injective w u n) in
      let other = subst (λ x. is_other c (lookup x v.connections_by_user) ≡ true) named e in
      (
        "username mismatch",
        ap (λ x. ((λ _. x) >>= unless_mismatch store json m) v) (mismatched w c v h other),
      )

  abbrev Guards : Handling S → Type 0
  Guards handler =
      (shuffle : Shuffle) (kind : RequestKind) (u : String) (c : ℕ) (v : Service S)
      → has_connection c v.closed ≡ false
      → named_user kind ≡ some u
      → is_other c (lookup u v.connections_by_user) ≡ true
      → OnlyRefuses c v (handler shuffle kind c v)

  register_user-Guards : Guards (register_user store json)
  unfolding register_user invalid_request
  register_user-Guards shuffle (register_user_request w) u c v h n e = cc
  register_user-Guards shuffle kind u c v h n e = send-OnlyRefuses c "invalid request" v h

  new_game-Guards : Guards (new_game store json)
  unfolding new_game invalid_request for_user
  new_game-Guards shuffle (new_game_request w p) u c v h n e = mismatch-OnlyRefuses w u c _ v h n e
  new_game-Guards shuffle kind u c v h n e = send-OnlyRefuses c "invalid request" v h

  join_game-Guards : Guards (join_game store json)
  unfolding join_game invalid_request for_user
  join_game-Guards shuffle (join_game_request w id) u c v h n e =
      mismatch-OnlyRefuses w u c _ v h n e
  join_game-Guards shuffle kind u c v h n e = send-OnlyRefuses c "invalid request" v h

  peek_at_draw_pile-Guards : Guards (peek_at_draw_pile store json)
  unfolding peek_at_draw_pile invalid_request for_user
  peek_at_draw_pile-Guards shuffle (peek_request w id) u c v h n e =
      mismatch-OnlyRefuses w u c _ v h n e
  peek_at_draw_pile-Guards shuffle kind u c v h n e = send-OnlyRefuses c "invalid request" v h

  discard_from_draw_pile-Guards : Guards (discard_from_draw_pile store json)
  unfolding discard_from_draw_pile invalid_request for_user
  discard_from_draw_pile-Guards shuffle (discard_draw_request w id) u c v h n e =
      mismatch-OnlyRefuses w u c _ v h n e
  discard_from_draw_pile-Guards shuffle kind u c v h n e = send-OnlyRefuses c "invalid request" v h

  swap_for_draw_pile-Guards : Guards (swap_for_draw_pile store json)
  unfolding swap_for_draw_pile invalid_request for_position
  swap_for_draw_pile-Guards shuffle (swap_for_draw_request w id z) u c v h n e =
      mismatch-OnlyRefuses w u c _ v h n e
  swap_for_draw_pile-Guards shuffle kind u c v h n e = send-OnlyRefuses c "invalid request" v h

  swap_for_discard_pile-Guards : Guards (swap_for_discard_pile store json)
  unfolding swap_for_discard_pile invalid_request for_position
  swap_for_discard_pile-Guards shuffle (swap_for_discard_request w id z) u c v h n e =
      mismatch-OnlyRefuses w u c _ v h n e
  swap_for_discard_pile-Guards shuffle kind u c v h n e = send-OnlyRefuses c "invalid request" v h

  knock-Guards : Guards (knock store json)
  unfolding knock invalid_request for_user
  knock-Guards shuffle (knock_request w id) u c v h n e = mismatch-OnlyRefuses w u c _ v h n e
  knock-Guards shuffle kind u c v h n e = send-OnlyRefuses c "invalid request" v h

  handlers-Guard : Entries (λ command handler. Guards handler) (handlers store json)
  unfolding handlers
  handlers-Guard = (
    register_user-Guards,
    (
      new_game-Guards,
      (
        join_game-Guards,
        (
          peek_at_draw_pile-Guards,
          (
            discard_from_draw_pile-Guards,
            (swap_for_draw_pile-Guards, (swap_for_discard_pile-Guards, (knock-Guards, tt))),
          ),
        ),
      ),
    ),
  )

  -- A message about a game that names a user, whatever its command, on an open connection that is not
  -- that user's, also when the user has none, does nothing but send an error on this connection: no
  -- game, no user and no connection changes, and nobody else is sent anything.
  pub handle_message_guards :
      (text : String) (request : RequestWrapper) (shuffle : Shuffle) (u : String) (c : ℕ)
      (v : Service S)
      → json.from_json text ≡ inr request
      → named_user request.kind ≡ some u
      → (lookup u v.connections_by_user ≡ some c → ⊥)
      → has_connection c v.closed ≡ false
      → OnlyRefuses c v (handle_message store json text shuffle c v)
  unfolding handle_message dispatch
  handle_message_guards text request shuffle u c v read n other h =
      elim (Option-cases (lookup request.command (handlers store json))) [
        | inl e ↦ rw (handle_message, read, dispatch, e) (send-OnlyRefuses c "bad_command" v h)
        | inr (handler, e) ↦
            rw (handle_message, read, dispatch, e)
              (Entries-lookup (λ command handler. Guards handler) request.command
                (handlers store json) handlers-Guard e shuffle request.kind u c v h n
                (not_own (lookup u v.connections_by_user) other))
      ]
    where
      not_own : (o : Option ℕ) → (o ≡ some c → ⊥) → is_other c o ≡ true
      not_own none f = refl
      not_own (some d) f = ground (arith, f)
