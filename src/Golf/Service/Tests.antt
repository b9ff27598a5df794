-- ===== src/Golf/Service/Tests.antt =====
-- Two users on two connections, and the theorems of the service at them.
pub mod Telling
use mathlib.Core.List.Perm
use moon_base.Golf.Deal.{count_up}
use moon_base.Base.{
  ℕ, Perm, false, String, ◌≡◌, refl, true, inl, inr, none, some, List, [], ◌∷◌, ◌++◌, arith, All,
  str_eq,
}
use moon_base.Base.Int.{pos}
use moon_base.Base.Dict.{AreDistinct, Dict, Entries, lookup, member}
use moon_base.Absl.{ok, invalid_argument_error, fault, undefined, throws_out_of_range}
use moon_base.Golf.InMemoryGameStore.{InMemoryGameStore, empty_store, in_memory_store, read_game}
use moon_base.Golf.Tables.{table, table-IsValid, one_game}
use moon_base.Golf.GameState.Names.{IsNamed}
use moon_base.Golf.Service.{
  Service, Output, RequestWrapper, register_user_request, new_game_request, join_game_request,
  knock_request, swap_for_draw_request,
}
use moon_base.Golf.Service.Handlers.{Json, handle_message, handle_game_manager_result}
use moon_base.Golf.Service.Known.{KnownTo}
use moon_base.Golf.Service.Answers.{IsAnswer}
use moon_base.Golf.Service.Invariant.{Alone, IsAllowed}
use moon_base.Golf.Service.Router.{Event, accepted, closed, http_message, ws_message, poll}
use moon_base.Golf.Service.Safety.Orderly.{Orderly}
use moon_base.Golf.DocDbGameStore.{doc_db_store}
use moon_base.Golf.DocDbGameStore.Toy.{toy_serialize, toy_parse}
use moon_base.Golf.DocDbGameStore.Stored.{IsStored}
use moon_base.Golf.DocDbGameStore.Keeper.{keeper, keeper-IsReliable, keeper-no_games}
use moon_base.Golf.Service.OnDocuments.{main, handle_message-doc_db_store}
use moon_base.Golf.Service.InMemory.{started, poll-started, handle_message-poll}
use moon_base.Golf.Service.Telling.{ShowsAll, handle_game_manager_result_lem}
use moon_base.Golf.Service.Missing.{handle_game_manager_result_throws}
use moon_base.Golf.Service.Closing.{handle_game_manager_result_faults}
use moon_base.Golf.Service.Guard.{OnlyRefuses, handle_message_guards}

-- The messages that this reader knows.
abbrev alice_registers : RequestWrapper
alice_registers = record { command = "register"; kind = register_user_request "alice" }

abbrev bob_registers : RequestWrapper
bob_registers = record { command = "register"; kind = register_user_request "bob_" }

abbrev alice_opens : RequestWrapper
alice_opens = record { command = "new"; kind = new_game_request "alice" (pos 2) }

abbrev bob_joins : RequestWrapper
bob_joins = record { command = "join"; kind = join_game_request "bob_" "0" }

abbrev alice_knocks : RequestWrapper
alice_knocks = record { command = "knock"; kind = knock_request "alice" "0" }

abbrev bob_swaps : RequestWrapper
bob_swaps = record { command = "swapDraw"; kind = swap_for_draw_request "bob_" "0" (pos 3) }

abbrev messages : Dict RequestWrapper
messages =
    ("1", alice_registers)
    ∷ ("2", bob_registers)
    ∷ ("3", alice_opens)
    ∷ ("4", bob_joins)
    ∷ ("5", alice_knocks)
    ∷ ("6", bob_swaps)
    ∷ []

abbrev pub toy_json : Json
toy_json = record {
  from_json = λ text. elim (lookup text messages) [
    | none ↦ inl (invalid_argument_error "unreadable")
    | some r ↦ inr r
  ];
  to_json = λ r. some r.game_id;
}

abbrev pub message : ℕ → String → Event
message c text = ws_message c text (λ deck. deck)

-- Two users connect, sit down at a game and play; a third connection speaks for one of them. A fourth
-- only reads the web page, is closed, and its address is used again.
abbrev events : List Event
events =
    accepted 7
    ∷ http_message 7 "/golf/ui"
    ∷ closed 7
    ∷ accepted 1
    ∷ http_message 1 "/golf/ws"
    ∷ accepted 2
    ∷ accepted 7
    ∷ message 1 "1"
    ∷ message 2 "2"
    ∷ message 1 "3"
    ∷ message 2 "4"
    ∷ message 7 "5"
    ∷ message 1 "5"
    ∷ message 2 "6"
    ∷ message 1 "?"
    ∷ []

-- The connections that a message has come over after them.
abbrev heard : List ℕ
heard = 1 ∷ 2 ∷ 1 ∷ 7 ∷ 2 ∷ 1 ∷ 2 ∷ 1 ∷ []

-- The messages, and more that come in order after them.
messages-Orderly :
    (rest : List Event)
    → Orderly heard [] rest
    → Orderly [] [] (
        message 1 "1"
        ∷ message 2 "2"
        ∷ message 1 "3"
        ∷ message 2 "4"
        ∷ message 7 "5"
        ∷ message 1 "5"
        ∷ message 2 "6"
        ∷ message 1 "?"
        ∷ rest)
messages-Orderly rest h =
    let m : Perm (count_up 0 52) (count_up 0 52) × (false ≡ false) = (Perm.refl _, refl) in
    (m, (m, (m, (m, (m, (m, (m, (m, h))))))))

events-Orderly : (rest : List Event) → Orderly heard [] rest → Orderly [] [] (events ++ rest)
events-Orderly rest h = (tt, (tt, (refl, (tt, (tt, (tt, (tt, messages-Orderly rest h)))))))

poll-started_example :
    (v : Service InMemoryGameStore) × (poll in_memory_store toy_json str_eq events started ≡ some v)
    × Alone v.connections_by_user
    × Entries (λ id g. KnownTo v.connections_by_user g × (g.game_id ≡ id)) v.store.games_by_id
    × All (IsAllowed toy_json v.connections_by_user) v.sent
poll-started_example = poll-started toy_json str_eq events (events-Orderly [] tt) (omega arith)

-- Then Alice knocks once more.
handle_message-poll_example :
    (v : Service InMemoryGameStore) × (w : Service InMemoryGameStore) × (os : List Output) × (poll
        in_memory_store toy_json str_eq events started
      ≡ some v)
    × (handle_message in_memory_store toy_json "5" (λ deck. deck) 1 v ≡ (ok tt, w))
    × (w.sent ≡ v.sent ++ os)
    × IsAnswer toy_json w.connections_by_user 1 os
handle_message-poll_example =
    handle_message-poll toy_json str_eq events "5" (λ deck. deck) 1
      (events-Orderly (message 1 "5" ∷ []) ((Perm.refl _, refl), tt)) (omega arith)

-- The same on documents, in a database without any.
handle_message-doc_db_store_example :
    (v : Service (Dict String)) × (v' : Service (Dict String)) × (os : List Output) × (main keeper
        toy_serialize toy_parse toy_json str_eq true events []
      ≡ inr (some v))
    × (handle_message
          (doc_db_store keeper "golf" toy_serialize toy_parse)
          toy_json
          "5"
          (λ deck. deck)
          1
          v
        ≡ (ok tt, v'))
    × (v'.sent ≡ v.sent ++ os)
    × IsAnswer toy_json v'.connections_by_user 1 os
    × All (IsAllowed toy_json v'.connections_by_user) v'.sent
    × Entries
        (IsStored keeper "golf" toy_serialize toy_parse keeper-IsReliable
          (KnownTo v'.connections_by_user))
        (keeper-IsReliable.games v'.store)
handle_message-doc_db_store_example =
    handle_message-doc_db_store keeper toy_serialize toy_parse keeper-IsReliable toy_json str_eq
      events "5" (λ deck. deck) 1 [] keeper-no_games
      (events-Orderly (message 1 "5" ∷ []) ((Perm.refl _, refl), tt))

abbrev pub two_users : Service InMemoryGameStore
two_users = record {
  store = empty_store;
  connections_by_user = ("alice", 1) ∷ ("bob_", 2) ∷ [];
  closed = [];
  sent = [];
}

-- On Bob's connection, Alice cannot knock.
handle_message_guards_example :
    OnlyRefuses 2 two_users (handle_message in_memory_store toy_json "5" (λ deck. deck) 2 two_users)
handle_message_guards_example =
    handle_message_guards in_memory_store toy_json "5" alice_knocks (λ deck. deck) "alice" 2
      two_users refl refl (λ e. cc) refl
