-- ===== src/Golf/GameManager/Frozen/Tests.antt =====
-- A user who takes both seats of a table, and what comes of it.
use mathlib.Core.List.Perm
use moon_base.Base.{◌≡◌, refl, false, map, some, List, [], ◌∷◌, arith}
use moon_base.Base.Int.{pos, negsuc, ◌+ℤ◌}
use moon_base.Base.Dict.{lookup, add, insert}
use moon_base.Base.Text.{to_string}
use moon_base.Cards.{card_of_index}
use moon_base.Golf.Tables.{hand}
use moon_base.Golf.Player.{claim_hand}
use moon_base.Golf.GameState.{
  GameState, discard_draw, knocks, swap_draw_for_discard_pile, next_turn, is_over, player_index,
}
use moon_base.Golf.GameState.Frozen.{shared}
use moon_base.Golf.Deal.{count_up, shuffle_new_deck, dealt_game, claim_seat}
use moon_base.Golf.InMemoryGameStore.{
  InMemoryGameStore, empty_store, in_memory_store, user_exists, read_game, new_game, update_game,
  add_user,
}
use moon_base.Golf.GameManager
use moon_base.Golf.GameManager.{
  validate_user_id, get_game_state_for_user, update_game_state, manager_swap_draw_for_discard,
  join_game, register_user,
}
use moon_base.Golf.GameManager.System.{
  Request, registers, opens, joins, moves, lists_ids, serve, perform,
}
use moon_base.Golf.GameManager.Frozen.{serve-IsFrozen}

-- Alice opens a game for two, joins it herself, and plays once: it is the turn of her second seat.
abbrev both_seats : List Request
both_seats =
    registers "alice"
    ∷ opens (λ deck. deck) "alice" (pos 2)
    ∷ joins "0" "alice"
    ∷ moves discard_draw "0" "alice"
    ∷ []

abbrev alice_twice : GameState
alice_twice = record {
  draw_pile = map card_of_index (count_up 0 42);
  discard_pile = card_of_index 43 ∷ card_of_index 42 ∷ [];
  players = hand "alice" 51 50 47 46 ∷ hand "alice" 49 48 45 44 ∷ [];
  peeked_at_draw_pile = false;
  whose_turn = pos 1;
  who_knocked = negsuc 0;
  game_id = "0";
  version_id = "foo";
}

abbrev alice_alone : InMemoryGameStore
alice_alone = record {
  users_online = "alice" ∷ [];
  game_ids_by_user_id = ("alice", "0") ∷ [];
  games_by_id = ("0", alice_twice) ∷ [];
  counter = 1;
}

both_seats_lem : serve in_memory_store both_seats empty_store ≡ some alice_alone
unfolding serve perform register_user validate_user_id GameManager.new_game join_game
    manager_swap_draw_for_discard get_game_state_for_user update_game_state user_exists read_game
    new_game update_game add_user dealt_game shuffle_new_deck claim_seat swap_draw_for_discard_pile
    next_turn is_over player_index ◌+ℤ◌ add insert to_string claim_hand
both_seats_lem = refl

-- It is nobody's turn any more, and the game stays as it is.
serve-IsFrozen_example :
    (t : InMemoryGameStore) × (serve in_memory_store
        (moves knocks "0" "alice"
          ∷ registers "bob_"
          ∷ joins "0" "bob_"
          ∷ opens (λ deck. deck) "bob_" (pos 3)
          ∷ moves discard_draw "0" "alice"
          ∷ lists_ids
          ∷ [])
        alice_alone
      ≡ some t)
    × (lookup "0" t.games_by_id ≡ some alice_twice)
serve-IsFrozen_example =
    serve-IsFrozen "0" alice_twice both_seats
      (moves knocks "0" "alice"
        ∷ registers "bob_"
        ∷ joins "0" "bob_"
        ∷ opens (λ deck. deck) "bob_" (pos 3)
        ∷ moves discard_draw "0" "alice"
        ∷ lists_ids
        ∷ [])
      alice_alone both_seats_lem refl
      (shared 0 1 (hand "alice" 51 50 47 46) (hand "alice" 49 48 45 44) refl refl refl refl
        (omega arith) refl)
      (tt, (Perm.refl _, (tt, (tt, tt)))) (tt, (tt, (tt, (Perm.refl _, (tt, (tt, tt))))))
      (omega arith)
