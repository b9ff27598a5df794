-- ===== src/Golf/Service/OnDocuments.antt =====
-- The service of cpp/golf_service as cpp/golf_service/Main.cc starts it, on the document store.
use moon_base.Base.{
  ℕ, String, Bool, true, ◌⊎◌, inl, inr, if◌then◌else◌, ◌≡◌, refl, sym, subst, Option, some, List,
  [], ◌∷◌, ◌++◌, All,
}
use moon_base.Base.Dict.{Entries}
use moon_base.Absl.{ok}
use moon_base.DocDbClient.{Stub}
use moon_base.Golf.DocDbGameStore.{doc_db_store}
use moon_base.Golf.DocDbGameStore.Proto.{BackendGameState}
use moon_base.Golf.DocDbGameStore.Reliable.{IsReliable}
use moon_base.Golf.DocDbGameStore.Stored.{IsStored, AllStored}
use moon_base.Golf.DocDbGameStore.Safety.{doc_db_store-Safe}
use moon_base.Golf.Service.{Service, Output}
use moon_base.Golf.Service.Handlers.{Json, Shuffle, handle_message}
use moon_base.Golf.Service.Known.{KnownTo}
use moon_base.Golf.Service.Invariant.{IsAllowed, IsServing}
use moon_base.Golf.Service.Answers.{IsAnswer}
use moon_base.Golf.Service.Router.{Event, ws_message, poll}
use moon_base.Golf.Service.Safety.Orderly.{Orderly}
use moon_base.Golf.Service.Safety.Polling.{room, poll-IsAnswered}

-- The service before its first event, and the world outside it.
abbrev pub started_in : {W : Type 0} → W → Service W
started_in w = record { store = w; connections_by_user = []; closed = []; sent = [] }

-- `main`, on the stub that it makes, and whether mongoose listens at the port: the exit code, if it does
-- not, or the service after the events that it has polled, unless one of them has ended the process.
unfoldable pub main :
    {W : Type 0}
    → Stub W
    → (BackendGameState → String)
    → (String → Option BackendGameState)
    → Json
    → (String → String → Bool)
    → Bool
    → List Event
    → W
    → ℕ ⊎ Option (Service W)
main stub serialize parse json matches is_listening es w =
    if is_listening
    then inr (poll (doc_db_store stub "golf" serialize parse) json matches es (started_in w))
    else inl 1

module _ {W : Type 0} (stub : Stub W) (serialize : BackendGameState → String)
    (parse : String → Option BackendGameState)
    (reliable : IsReliable stub "golf" serialize parse) where
  started_in-IsServing :
      (json : Json) (k : ℕ) (w : W)
      → reliable.games w ≡ []
      → IsServing json (AllStored stub "golf" serialize parse reliable) k (started_in w)
  started_in-IsServing json k w none_yet = record {
    stored =
        subst (Entries (IsStored stub "golf" serialize parse reliable (KnownTo []))) (sym none_yet)
          tt;
    alone = λ u w c e f. cc;
    live = λ u c e. cc;
    allowed = tt;
  }

  -- Once it listens, the service as main starts it, on the document store, over a database that
  -- keeps the games it is given, though any request that writes or asks for a user may fail, and
  -- that has no games at first: any events are taken without an uncaught exception and without
  -- undefined behaviour, and then every further message is answered, whatever its text is read as, if
  -- the shuffles order the deck anew, protobuf parses what it has serialized, all messages come over
  -- open connections, and no connection is closed that a message has come over. Either the only thing sent is one notice on the connection that the message came
  -- on, or this is the connection of a user at a full game, and each user with a name at its table
  -- is sent one text, what the game shows to that user, on that user's own connection. And nothing
  -- but such notices and views has ever gone out on a websocket. Every game in the database is read
  -- back as a full one, all of whose players have connections.
  pub handle_message-doc_db_store :
      (json : Json) (matches : String → String → Bool) (es : List Event) (text : String)
      (shuffle : Shuffle) (c : ℕ) (w : W)
      → reliable.games w ≡ []
      → Orderly [] [] (es ++ ws_message c text shuffle ∷ [])
      → (v : Service W) × (v' : Service W) × (os : List Output) × (main stub serialize parse json
            matches true es w
          ≡ inr (some v))
        × (handle_message (doc_db_store stub "golf" serialize parse) json text shuffle c v
            ≡ (ok tt, v'))
        × (v'.sent ≡ v.sent ++ os)
        × IsAnswer json v'.connections_by_user c os
        × All (IsAllowed json v'.connections_by_user) v'.sent
        × Entries
            (IsStored stub "golf" serialize parse reliable (KnownTo v'.connections_by_user))
            (reliable.games v'.store)
  unfolding main
  handle_message-doc_db_store json matches es text shuffle c w none_yet orderly =
      let (v, e, a) =
        poll-IsAnswered (doc_db_store stub "golf" serialize parse)
          (AllStored stub "golf" serialize parse reliable)
          (doc_db_store-Safe stub "golf" serialize parse reliable) json matches es (started_in w)
          text shuffle c refl orderly (started_in-IsServing json (room es 1) w none_yet) in
      (
        v,
        a.after,
        a.outputs,
        rw (main, e) refl,
        a.ends,
        a.sent,
        a.answer,
        a.serving.allowed,
        a.serving.stored,
      )
