-- ===== src/Golf/Tests.antt =====
-- A small table of two, and the theorems of the golf game at it.
use mathlib.Core.List.Perm
use moon_base.Base.{
  ℕ, ◌+◌, ◌*◌, ◌<◌, ◌≤◌, String, ◌≡◌, ◌≢◌, ◌↔◌, ◌⊎◌, refl, true, none, some, List, [], ◌∷◌, Perm,
  arith, length, get_elem?, false, All,
}
use moon_base.Base.Int.{pos, ◌≤ℤ◌, ◌+ℤ◌, int_max}
use moon_base.Base.Dict.{Entries, has_key}
use moon_base.Absl.{ok, err, failed_precondition_error}
use moon_base.Golf.Tables.{alice, bob, table, knocked_table, last_table, table-IsValid}
use moon_base.Golf.Player.{Player, top_left, score, all_cards}
use moon_base.Golf.Player.Score.{score_lem, score_bounds, total, is_odd, rank_count, all_ranks}
use moon_base.Golf.GameState.{
  GameState, knocks, discard_draw, swap_draw, is_over, has_int, winners, play, play_all, knock,
  player_index, all_players_present, next_turn, swap_draw_for_discard_pile,
}
use moon_base.Golf.GameState.Seats.{someone_discards}
use moon_base.Golf.GameState.Valid.{IsValid, turn_index}
use moon_base.Golf.GameState.Rules.{Step, play-Step, Step-play, play_total, refusal}
use moon_base.Golf.GameState.Invariant.{play-IsValid}
use moon_base.Golf.GameState.Conservation.{cards_of, play-cards_of}
use moon_base.Golf.GameState.Turns.{turns, draws, Passes, play_all-Passes, after_knock}
use moon_base.Golf.GameState.Ending.{knock_ends}
use moon_base.Golf.GameState.Winners.{IsBest, winners_lem}
use moon_base.Golf.GameStore.Full.{IsFull, full_deck}
use moon_base.Golf.Deal.Laws.{Deals, dealt_game-Deals}
use moon_base.Golf.InMemoryGameStore.{InMemoryGameStore, empty_store, in_memory_store}
use moon_base.Golf.GameManager.System.{
  Request, registers, opens, joins, moves, lists_ids, serve, Shuffles,
}
use moon_base.Golf.GameManager.System.InMemory.{serve-empty_store}

play-knocks : play knocks table (pos 0) ≡ ok knocked_table
unfolding play knock next_turn is_over ◌+ℤ◌
play-knocks = refl

play_all-discard_draw : play_all (discard_draw ∷ []) knocked_table ≡ ok last_table
unfolding play_all play swap_draw_for_discard_pile next_turn is_over ◌+ℤ◌
play_all-discard_draw = refl

play_all-both : play_all (knocks ∷ discard_draw ∷ []) table ≡ ok last_table
unfolding play_all play swap_draw_for_discard_pile knock next_turn is_over ◌+ℤ◌
play_all-both = refl

-- The game is over when it is the turn of the player who knocked.
last_table-is_over : is_over last_table ≡ true
unfolding is_over
last_table-is_over = refl

play_total_example :
    ((msg : String) × (refusal (swap_draw top_left) table (pos 1) ≡ some msg)
      × (play (swap_draw top_left) table (pos 1) ≡ err (failed_precondition_error msg)))
    ⊎ ((refusal (swap_draw top_left) table (pos 1) ≡ none)
        × ((h : GameState) × (play (swap_draw top_left) table (pos 1) ≡ ok h)))
play_total_example = play_total (swap_draw top_left) table (pos 1) table-IsValid

play-Step_example : (pos 0 ≡ table.whose_turn) × Step table knocked_table knocks
play-Step_example = play-Step table table-IsValid knocks (pos 0) play-knocks

Step-play_example : play knocks table (pos 0) ≡ ok knocked_table
Step-play_example = Step-play table table-IsValid knocks play-Step_example.1

play-IsValid_example : IsValid knocked_table
play-IsValid_example = play-IsValid knocks table (pos 0) table-IsValid play-knocks

play-cards_of_example : Perm (cards_of knocked_table) (cards_of table)
play-cards_of_example = play-cards_of knocks table (pos 0) table-IsValid play-knocks

play_all-Passes_example :
    Passes table
      (turns (knocks ∷ discard_draw ∷ []))
      (draws (knocks ∷ discard_draw ∷ []))
      last_table
play_all-Passes_example =
    play_all-Passes (knocks ∷ discard_draw ∷ []) table table-IsValid play_all-both

after_knock_example :
    (turns (discard_draw ∷ []) + 1 < length table.players)
    ⊎ ((turns (discard_draw ∷ []) + 1 ≡ length table.players) × (is_over last_table ≡ true))
after_knock_example =
    after_knock table knocked_table last_table (pos 0) (discard_draw ∷ []) table-IsValid play-knocks
      play_all-discard_draw

winners_lem_example : (has_int (pos 0) (winners table) ≡ true) ↔ (
    IsBest table.players 0
    × ¬ ((k : ℕ) × (table.who_knocked ≡ pos k) × IsBest table.players k × (0 ≢ k)))
winners_lem_example = winners_lem table 0

score_lem_example :
    score alice ≡ pos (total (λ r. is_odd (rank_count r (all_cards alice))) all_ranks)
score_lem_example = score_lem alice

score_bounds_example : (pos 0 ≤ℤ score bob) × (score bob ≤ℤ pos 39)
score_bounds_example = score_bounds bob

dealt_game-Deals_example : Deals "alice" 2 full_deck
dealt_game-Deals_example =
    dealt_game-Deals "alice" 2 full_deck (omega arith) (omega arith) (omega arith)

-- Two users register and sit down at a game; one of them knocks.
abbrev requests : List Request
requests =
    registers "alice"
    ∷ registers "bob_"
    ∷ opens (λ deck. deck) "alice" (pos 2)
    ∷ joins "0" "bob_"
    ∷ moves knocks "0" "alice"
    ∷ lists_ids
    ∷ []

requests-Shuffles : All Shuffles requests
requests-Shuffles = (tt, (tt, (Perm.refl _, (tt, (tt, (tt, tt))))))

requests-length : length requests ≤ int_max
requests-length = omega arith

serve-empty_store_example :
    (s : InMemoryGameStore) × (serve in_memory_store requests empty_store ≡ some s)
    × Entries (λ id g. IsFull g × (g.game_id ≡ id)) s.games_by_id
    × Entries (λ u id. has_key id s.games_by_id ≡ true) s.game_ids_by_user_id
serve-empty_store_example = serve-empty_store requests requests-Shuffles requests-length

knock_ends_example : length (discard_draw ∷ []) + 2 ≤ 2 * length table.players
knock_ends_example =
    knock_ends table knocked_table last_table (pos 0) (discard_draw ∷ []) table-IsValid play-knocks
      play_all-discard_draw

table-under_way : (is_over table ≡ false) × (all_players_present table ≡ true)
unfolding is_over
table-under_way = (refl, refl)

-- Somebody can discard at the small table.
someone_discards_example :
    (q : Player) × (get_elem? table.players (turn_index table) ≡ some q)
    × (((u : String) × (h : GameState) × (q.name ≡ some u)
          × (play discard_draw table (player_index table u) ≡ ok h))
        ⊎ ((i : ℕ) × (p : Player) × (i < turn_index table)
            × (get_elem? table.players i ≡ some p)
            × (p.name ≡ q.name)))
someone_discards_example = someone_discards table table-IsValid table-under_way
