-- ===== src/Golf/Service/InMemory.antt =====
-- The service of cpp/golf_service on the store of in_memory_game_store.cc, from its start.
use moon_base.Base.Dict.{Entries-map}
use moon_base.Base.{
  ℕ, ◌+◌, ◌≤◌, ◌<◌, String, Bool, ◌≡◌, refl, some, List, [], ◌∷◌, ◌++◌, All, length, arith,
}
use moon_base.Base.Int.{int_max}
use moon_base.Base.Dict.{Entries}
use moon_base.Golf.InMemoryGameStore.{InMemoryGameStore, empty_store, in_memory_store}
use moon_base.Golf.InMemoryGameStore.Laws.{
  empty_store-IsConsistent, IsConsistent, in_memory_store-Safe,
}
use moon_base.Golf.Service.{Service, Output}
use moon_base.Golf.Service.Handlers.{Json, Shuffle, handle_message}
use moon_base.Absl.{ok}
use moon_base.Golf.Service.Known.{KnownTo}
use moon_base.Golf.Service.Invariant.{Alone, IsAllowed, IsServing}
use moon_base.Golf.Service.Answers.{IsAnswer}
use moon_base.Golf.Service.Router.{Event, ws_message, poll}
use moon_base.Golf.Service.Safety.Orderly.{Orderly}
use moon_base.Golf.Service.Safety.Polling.{room, poll_lem, poll-IsAnswered}

abbrev pub started : Service InMemoryGameStore
started = record { store = empty_store; connections_by_user = []; closed = []; sent = [] }

started-IsServing : (json : Json) (k : ℕ) → k ≤ int_max → IsServing json IsConsistent k started
started-IsServing json k few = record {
  stored = empty_store-IsConsistent (KnownTo []) k few;
  alone = λ u w c e f. cc;
  live = λ u c e. cc;
  allowed = tt;
}

room_lem : (es : List Event) (k : ℕ) → room es k ≡ length es + k
room_lem [] k = omega arith
room_lem (e ∷ es) k = omega (arith, room_lem es k)

-- From its start, the service takes any events, at most as many as the greatest int, in which messages
-- come over open connections only and no connection is closed that a message has come over, without an
-- uncaught exception and without undefined behaviour, if every shuffle orders the deck anew, whatever the messages say and whatever their JSON is read as. Every game is
-- then well formed with the 52 cards of a deck, each once, and all its players have connections. No two
-- users have the same connection. And every text that was sent on a websocket is an error, an answer of
-- the JSON reader or a welcome, or is what a full game shows to a user at its table, and then went out
-- on that user's connection.
pub poll-started :
    (json : Json) (matches : String → String → Bool) (es : List Event)
    → Orderly [] [] es
    → length es ≤ int_max
    → (v : Service InMemoryGameStore) × (poll in_memory_store json matches es started ≡ some v)
      × Alone v.connections_by_user
      × Entries (λ id g. KnownTo v.connections_by_user g × (g.game_id ≡ id)) v.store.games_by_id
      × All (IsAllowed json v.connections_by_user) v.sent
poll-started json matches es orderly few =
    let (v, e, h) =
      poll_lem in_memory_store IsConsistent in_memory_store-Safe json matches es 0 started refl
        orderly (started-IsServing json (room es 0) (omega (arith, few, room_lem es 0))) in
    (
      v,
      e,
      h.alone,
      Entries-map v.store.games_by_id (λ id g k. (k.good, k.own_id)) h.stored.kept,
      h.allowed,
    )

-- After any events from the start, fewer than the greatest int, every further message is answered,
-- whatever its text is read as, if the shuffles order the deck anew, and if in these events and with
-- this message all messages come over open connections and no connection is closed that a message has
-- come over.
-- Either the only thing sent is one notice, on the connection that the message came on: an error, an
-- answer of the JSON reader or a welcome. Or this connection is that of a user who sits at a full game,
-- and then each user with a name at its table is sent one text, on that user's own connection: the JSON
-- of what the game shows to that user.
pub handle_message-poll :
    (json : Json) (matches : String → String → Bool) (es : List Event) (text : String)
    (shuffle : Shuffle) (c : ℕ)
    → Orderly [] [] (es ++ ws_message c text shuffle ∷ [])
    → length es < int_max
    → (v : Service InMemoryGameStore) × (w : Service InMemoryGameStore) × (os : List Output) × (poll
          in_memory_store json matches es started
        ≡ some v)
      × (handle_message in_memory_store json text shuffle c v ≡ (ok tt, w))
      × (w.sent ≡ v.sent ++ os)
      × IsAnswer json w.connections_by_user c os
handle_message-poll json matches es text shuffle c orderly few =
    let (v, e, a) =
      poll-IsAnswered in_memory_store IsConsistent in_memory_store-Safe json matches es started text
        shuffle c refl orderly
        (started-IsServing json (room es 1) (omega (arith, few, room_lem es 1))) in
    (v, a.after, a.outputs, e, a.ends, a.sent, a.answer)
