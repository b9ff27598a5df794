-- ===== src/Golf/Service/Invariant.antt =====
-- What holds of the service of cpp/golf_service between two events, and of all that it has sent.
use Prim.Native.String.{◌++◌ as ◌⧺◌}
use moon_base.Base.{ℕ, String, ◌≡◌, inl, none, some, List, [], ◌∷◌, ◌++◌, All}
use moon_base.Base.Dict.{Dict, lookup}
use moon_base.Absl.{Status, ok}
use moon_base.Golf.GameState.{GameState}
use moon_base.Golf.GameState.Names.{IsNamed}
use moon_base.Golf.GameStore.Full.{IsFull}
use moon_base.Golf.StateMapper.{GameStateResponse, game_state_to_proto}
use moon_base.Golf.Service.{Service, Output, sends, upgrades, replies, serves_file}
use moon_base.Golf.Service.Handlers.{Json}
use moon_base.Golf.Service.Known.{AllOpen, KnownTo}

-- A text that tells of no game: an error, what the JSON reader had to say, or a welcome.
pub data IsNotice (json : Json) (text : String) : Type 0 where
  error : (m : String) → text ≡ "error|" ⧺ m → IsNotice json text
  unread :
      (input : String) (e : Status)
      → json.from_json input ≡ inl e
      → text ≡ e.message
      → IsNotice json text
  welcomes :
      (user : String)
      → text ≡ "{\"inGame\":false,\"username\":\"" ⧺ user ⧺ "\"}"
      → IsNotice json text

-- The text shows the user `u`, at the table of a full game, that game.
pub record IsView (json : Json) (u text : String) : Type 0 where
  pub game : GameState
  pub full : IsFull game
  pub seat : IsNamed u game.players
  pub response : GameStateResponse
  pub shown : game_state_to_proto game u ≡ ok response
  pub written : text ≡ elim (json.to_json response) [ some t ↦ t | none ↦ "UNKNOWN" ]

-- What may go out: notices to anyone, and a view of a game to the user's connection alone.
pub data IsAllowed (json : Json) (conns : Dict ℕ) : Output → Type 0 where
  notice : {c : ℕ} {text : String} → IsNotice json text → IsAllowed json conns (sends c text)
  view :
      {c : ℕ} {text : String} (u : String)
      → lookup u conns ≡ some c
      → IsView json u text
      → IsAllowed json conns (sends c text)
  upgraded : {c : ℕ} → IsAllowed json conns (upgrades c)
  replied : {c code : ℕ} {text : String} → IsAllowed json conns (replies c code text)
  served : {c : ℕ} {path : String} → IsAllowed json conns (serves_file c path)

-- No two users have the same connection.
abbrev pub Alone : Dict ℕ → Type 0
Alone conns = (u w : String) (c : ℕ) → lookup u conns ≡ some c → lookup w conns ≡ some c → u ≡ w

-- The service with room for `k` more games: the store's games are full and their players have
-- connections, each of them one of their own and none of them closed, and only what may go out has.
pub record IsServing {S : Type 0} (json : Json) (I : (GameState → Type 0) → ℕ → S → Type 0) (k : ℕ)
    (v : Service S) : Type 0 where
  pub stored : I (KnownTo v.connections_by_user) k v.store
  pub alone : Alone v.connections_by_user
  pub live : AllOpen v.connections_by_user v.closed
  pub allowed : All (IsAllowed json v.connections_by_user) v.sent

pub All-append :
    (Q : Output → Type 0) (os ps : List Output) → All Q os → All Q ps → All Q (os ++ ps)
All-append Q [] ps a b = b
All-append Q (o ∷ os) ps a b = (a.0, All-append Q os ps a.1 b)

-- More of what may go out has gone out.
pub sent-IsServing :
    {S : Type 0} (json : Json) (I : (GameState → Type 0) → ℕ → S → Type 0) (k : ℕ) (v : Service S)
    (os : List Output)
    → All (IsAllowed json v.connections_by_user) os
    → IsServing json I k v
    → IsServing json I k (record v { sent = v.sent ++ os })
sent-IsServing json I k v os a h = record {
  stored = h.stored;
  alone = h.alone;
  live = h.live;
  allowed = All-append _ v.sent os h.allowed a;
}
