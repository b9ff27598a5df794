-- ===== src/Golf/Service/Tests/Telling.antt =====
-- Two users at a table, and what they are told of it, whether their connections are there or not.
use moon_base.Base.{String, ◌≡◌, refl, true, false, inl, inr, List, [], ◌∷◌, All, str_eq}
use moon_base.Base.Dict.{AreDistinct, member}
use moon_base.Absl.{ok, fault, undefined, throws_out_of_range}
use moon_base.Golf.InMemoryGameStore.{InMemoryGameStore, in_memory_store, read_game}
use moon_base.Golf.Tables.{table, table-IsValid, one_game}
use moon_base.Golf.GameState.Names.{IsNamed}
use moon_base.Golf.Service.{Service, Output, sends, register_user_request}
use moon_base.Golf.Service.Handlers.{
  Shuffle, username_mismatch, register_user, handle_game_manager_result,
}
use moon_base.Golf.Service.Telling.{ShowsAll, handle_game_manager_result_lem}
use moon_base.Golf.Service.Missing.{handle_game_manager_result_throws}
use moon_base.Golf.Service.Closing.{handle_game_manager_result_faults}
use moon_base.Golf.Service.Tests.{toy_json, two_users, message}
use moon_base.Golf.Service.Router.{accepted, closed, poll}
use moon_base.Golf.Service.Reused.{poll-accepted}

-- Alice and Bob at a table that the store has.
abbrev at_table : Service InMemoryGameStore
at_table = record two_users { store = one_game }

table_reads : in_memory_store.read_game "0" one_game ≡ (ok table, one_game)
unfolding read_game
table_reads = refl

handle_game_manager_result_lem_example :
    (users : List String) × (os : List Output) × (handle_game_manager_result in_memory_store
        toy_json 1
        (ok table)
        at_table
      ≡ (ok tt, record at_table { sent = os }))
    × ShowsAll toy_json at_table.connections_by_user table users os
    × AreDistinct users
    × ((u : String) → IsNamed u table.players → member u users ≡ true)
    × All (λ u. IsNamed u table.players) users
handle_game_manager_result_lem_example =
    handle_game_manager_result_lem in_memory_store toy_json 1 table table at_table table-IsValid
      table_reads refl (refl, (refl, tt)) (λ u c e. refl)

-- Bob's connection is closed, and the table is told of.
abbrev bob_gone : Service InMemoryGameStore
bob_gone = record at_table { closed = 2 ∷ [] }

handle_game_manager_result_faults_example :
    (handle_game_manager_result in_memory_store toy_json 1 (ok table) bob_gone).0 ≡ fault undefined
handle_game_manager_result_faults_example =
    handle_game_manager_result_faults in_memory_store toy_json 1 table table bob_gone "bob_" 2
      table-IsValid table_reads refl (refl, (refl, tt)) (inr (inl refl)) refl refl

-- The service has been started again: Alice is back, and Bob is not.
abbrev bob_missing : Service InMemoryGameStore
bob_missing = record at_table { connections_by_user = ("alice", 1) ∷ [] }

handle_game_manager_result_throws_example :
    (handle_game_manager_result in_memory_store toy_json 1 (ok table) bob_missing).0
    ≡ fault throws_out_of_range
handle_game_manager_result_throws_example =
    handle_game_manager_result_throws in_memory_store toy_json 1 table table bob_missing "bob_"
      table-IsValid table_reads refl (inr (inl refl)) refl (λ u c e. refl)

-- Somebody else gets the address of Bob's connection, and moves for Bob.
poll-accepted_example :
    (poll in_memory_store toy_json str_eq (closed 2 ∷ accepted 2 ∷ message 2 "6" ∷ []) at_table
      ≡ poll in_memory_store toy_json str_eq (message 2 "6" ∷ []) at_table)
    × (username_mismatch in_memory_store toy_json "bob_" 2 at_table ≡ (ok false, at_table))
    × ((name : String) (shuffle : Shuffle)
        → register_user in_memory_store toy_json shuffle (register_user_request name) 2 at_table
          ≡ (ok tt, record at_table { sent = sends 2 "error|already registered" ∷ [] }))
poll-accepted_example =
    poll-accepted in_memory_store toy_json str_eq "bob_" 2 (message 2 "6" ∷ []) at_table refl refl
