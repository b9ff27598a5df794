-- ===== src/Golf/GameManager/Unordered/Tests.antt =====
-- Two stores that hold the same in another order.
use moon_base.Base.{ℕ, String, refl, List, [], ◌∷◌, arith}
use moon_base.Base.Int.{ℤ}
use moon_base.Golf.GameState.{Move}
use moon_base.Golf.Tables.{table}
use moon_base.Golf.InMemoryGameStore.{InMemoryGameStore, in_memory_store}
use moon_base.Golf.InMemoryGameStore.Unordered.{Same, Agree}
use moon_base.Golf.GameManager.{
  register_user, new_game, join_game, get_game_state_for_user, manager_play, get_users_by_game_id,
}
use moon_base.Golf.GameManager.Unordered.{calls-Agree}

abbrev alice_first : InMemoryGameStore
alice_first = record {
  users_online = "alice" ∷ "bob_" ∷ [];
  game_ids_by_user_id = ("alice", "0") ∷ ("bob_", "0") ∷ [];
  games_by_id = ("0", table) ∷ [];
  counter = 1;
}

abbrev bob_first : InMemoryGameStore
bob_first = record {
  users_online = "bob_" ∷ "alice" ∷ [];
  game_ids_by_user_id = ("bob_", "0") ∷ ("alice", "0") ∷ [];
  games_by_id = ("0", table) ∷ [];
  counter = 1;
}

both_hold : Same alice_first bob_first
both_hold = record {
  users = λ u. ground arith;
  ids = λ u. ground arith;
  games = λ id. refl;
  counter = refl;
}

calls-Agree_example :
    ((u : String)
      → Agree
          (register_user in_memory_store u alice_first)
          (register_user in_memory_store u bob_first))
    × ((shuffle : List ℕ → List ℕ) (u : String) (n : ℤ)
        → Agree
            (new_game in_memory_store shuffle u n alice_first)
            (new_game in_memory_store shuffle u n bob_first))
    × ((id u : String)
        → Agree
            (join_game in_memory_store id u alice_first)
            (join_game in_memory_store id u bob_first))
    × ((id u : String)
        → Agree
            (get_game_state_for_user in_memory_store id u alice_first)
            (get_game_state_for_user in_memory_store id u bob_first))
    × ((m : Move) (id u : String)
        → Agree
            (manager_play in_memory_store m id u alice_first)
            (manager_play in_memory_store m id u bob_first))
    × ((id : String)
        → Agree
            (get_users_by_game_id in_memory_store id alice_first)
            (get_users_by_game_id in_memory_store id bob_first))
calls-Agree_example = calls-Agree alice_first bob_first both_hold
