-- ===== src/Golf/Service.antt =====
-- The state of cpp/golf_service: a game manager on its store, and the connection of every user. A
-- connection is the address of its mg_connection. Sending on one that mongoose has closed, and so has
-- freed, is undefined.
pub mod Handlers
pub mod Router
pub mod Known
pub mod Invariant
pub mod Answers
pub mod Connections
pub mod Safety
pub mod InMemory
pub mod OnDocuments
pub mod Guard
pub mod Telling
pub mod Closing
pub mod Reused
pub mod Missing
mod Tests
use moon_base.Base.{
  ℕ, String, ◌≡◌, refl, Bool, true, false, ◌||◌, List, [], ◌∷◌, ◌==◌, if◌then◌else◌, push_back,
}
use moon_base.Base.Dict.{Dict, has_key, insert}
use moon_base.Base.Int.{ℤ}
use moon_base.Absl.{StatusOr, ok, err, fault, undefined}
use moon_base.Golf.GameStore.{Action}

-- The oneof `kind` of `RequestWrapper` in protos/golf_ws/golf_ws.proto. A position travels as a number.
pub data RequestKind : Type 0 where
  kind_not_set : RequestKind
  register_user_request : String → RequestKind
  new_game_request : String → ℤ → RequestKind
  join_game_request peek_request discard_draw_request knock_request : String → String → RequestKind
  swap_for_draw_request swap_for_discard_request : String → String → ℤ → RequestKind

-- `RequestWrapper`; its id is not read.
pub record RequestWrapper : Type 0 where
  pub command : String
  pub kind : RequestKind

-- What goes out on a connection.
pub data Output : Type 0 where
  sends : ℕ → String → Output
  upgrades : ℕ → Output
  replies : ℕ → ℕ → String → Output
  serves_file : ℕ → String → Output

-- `Handler`, over the state of the store, with the connections that are closed and what went out.
pub record Service (S : Type 0) : Type 0 where
  pub store : S
  pub connections_by_user : Dict ℕ
  pub closed : List ℕ
  pub sent : List Output

abbrev pub has_connection : ℕ → List ℕ → Bool
has_connection c [] = false
has_connection c (d ∷ ds) = d == c || has_connection c ds

-- A call of the manager.
abbrev pub with_store : {S A : Type 0} → Action S A → Action (Service S) A
with_store m v = let (r, s) = m v.store in (r, record v { store = s })

-- `mg_ws_send`
unfoldable pub send : {S : Type 0} → ℕ → String → Action (Service S) (Unit {0})
send c text v =
    if has_connection c v.closed
    then (fault undefined, v)
    else (ok tt, record v { sent = push_back v.sent (sends c text) })

-- `connectionsByUser.insert`, which leaves an entry that is there.
abbrev pub insert_new : String → ℕ → Dict ℕ → Dict ℕ
insert_new user c conns = if has_key user conns then conns else insert user c conns

pub send_open :
    {S : Type 0} (c : ℕ) (text : String) (v : Service S)
    → has_connection c v.closed ≡ false
    → send c text v ≡ (ok tt, record v { sent = push_back v.sent (sends c text) })
unfolding send
send_open c text v h = rw (send, h) refl

unfoldable pub connect : {S : Type 0} → String → ℕ → Action (Service S) (Unit {0})
connect user c v =
    (ok tt, record v { connections_by_user = insert_new user c v.connections_by_user })
