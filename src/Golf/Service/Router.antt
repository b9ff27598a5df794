-- ===== src/Golf/Service/Router.antt =====
-- cpp/golf_service/router.cc: what comes in on a connection, and runs of it. Whether a URI fits a
-- pattern is mongoose's to say, a parameter.
use moon_base.Base.{
  ℕ, String, Bool, Option, none, some, List, [], ◌∷◌, ◌==◌, if◌then◌else◌, push_back,
}
use moon_base.Absl.{ok}
use moon_base.Golf.GameStore.{GameStore, Action, pure}
use moon_base.Golf.GameManager.System.{survivor}
use moon_base.Golf.Service.{Service, Output, upgrades, replies, serves_file}
use moon_base.Golf.Service.Handlers.{Json, Shuffle, handle_message, handle_disconnect}

-- An event on a connection: a websocket message comes with what a shuffle would do.
pub data Event : Type 0 where
  accepted closed : ℕ → Event
  http_message : ℕ → String → Event
  ws_message : ℕ → String → Shuffle → Event

abbrev pub put : {S : Type 0} → Output → Action (Service S) (Unit {0})
put o v = (ok tt, record v { sent = push_back v.sent o })

module _ {S : Type 0} (store : GameStore S) (json : Json) (matches : String → String → Bool) where
  -- `Router::route`
  unfoldable pub route : Event → Action (Service S) (Unit {0})
  route (accepted c) = pure (ok tt)
  route (http_message c uri) =
      if matches uri "/golf/ws"
      then put (upgrades c)
      else if matches uri "/golf/stats"
      then put (replies c 200 "\"stats\": []")
      else if matches uri "/golf/ui"
      then put (serves_file c "web/golf_ui/index.html")
      else put (replies c 404 "{\"message\": \"not_found\"}")
  route (ws_message c text shuffle) = handle_message store json text shuffle c
  route (closed c) = handle_disconnect store json c

-- Whether a connection's address is in use: mongoose frees it after the event of its close, and may
-- use it again.
abbrev pub without : ℕ → List ℕ → List ℕ
without c [] = []
without c (d ∷ ds) = if d == c then without c ds else d ∷ without c ds

-- Which connections are closed after an event, and the service then.
abbrev pub closed_after : Event → List ℕ → List ℕ
closed_after (accepted c) ds = without c ds
closed_after (closed c) ds = c ∷ ds
closed_after (http_message c uri) ds = ds
closed_after (ws_message c text shuffle) ds = ds

abbrev pub mark : {S : Type 0} → Event → Service S → Service S
mark e v = record v { closed = closed_after e v.closed }

-- The events one after another, unless one of them ends the process.
module _ {S : Type 0} (store : GameStore S) (json : Json) (matches : String → String → Bool) where
  unfoldable pub poll : List Event → Service S → Option (Service S)
  unfolding route
  poll [] v = some v
  poll (e ∷ es) v = elim (survivor (route store json matches e v)) [
    | none ↦ none
    | some w ↦ poll es (mark e w)
  ]
