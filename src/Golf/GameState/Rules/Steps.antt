-- ===== src/Golf/GameState/Rules/Steps.antt =====
-- The rules of golf, as a relation between the states that game_state.cc goes through.
use moon_base.Base.{
  ◌+◌, ◌%◌, ◌≡◌, true, false, some, length, set, back, pop_back, push_back, get_elem?,
}
use moon_base.Base.Int.{ℤ, pos, negsuc}
use moon_base.Cards.{Card}
use moon_base.Golf.Player.{Player, Position, card_at, swap_card}
use moon_base.Golf.GameState.{
  GameState, Move, peek, discard_draw, knocks, swap_draw, swap_discard, is_over,
  all_players_present,
}
use moon_base.Golf.GameState.Valid.{turn_index}

-- The game is under way: it is not over, and every seat is taken.
abbrev pub IsUnderWay : GameState → Type 0
IsUnderWay g = (is_over g ≡ false) × (all_players_present g ≡ true)

-- The turn passes to the next player.
abbrev pub next_index : GameState → ℤ
next_index g = pos ((turn_index g + 1) % length g.players)

-- The rules: what a move of the player whose turn it is makes of the game.
pub data Step (g h : GameState) : Move → Type 0 where
  peeks :
      IsUnderWay g
      → g.peeked_at_draw_pile ≡ false
      → h ≡ record g { peeked_at_draw_pile = true }
      → Step g h peek
  discards :
      (c : Card)
      → IsUnderWay g
      → back g.draw_pile ≡ some c
      → h ≡ record g {
        draw_pile = pop_back g.draw_pile;
        discard_pile = push_back g.discard_pile c;
        peeked_at_draw_pile = false;
        whose_turn = next_index g;
      }
      → Step g h discard_draw
  swaps_draw :
      (c : Card) (p : Player) (q : Position)
      → IsUnderWay g
      → back g.draw_pile ≡ some c
      → get_elem? g.players (turn_index g) ≡ some p
      → h ≡ record g {
        draw_pile = pop_back g.draw_pile;
        discard_pile = push_back g.discard_pile (card_at p q);
        players = set g.players (turn_index g) (swap_card p c q);
        peeked_at_draw_pile = false;
        whose_turn = next_index g;
      }
      → Step g h (swap_draw q)
  swaps_discard :
      (c : Card) (p : Player) (q : Position)
      → IsUnderWay g
      → g.peeked_at_draw_pile ≡ false
      → back g.discard_pile ≡ some c
      → get_elem? g.players (turn_index g) ≡ some p
      → h ≡ record g {
        discard_pile = push_back (pop_back g.discard_pile) (card_at p q);
        players = set g.players (turn_index g) (swap_card p c q);
        peeked_at_draw_pile = false;
        whose_turn = next_index g;
      }
      → Step g h (swap_discard q)
  knocked :
      IsUnderWay g
      → g.peeked_at_draw_pile ≡ false
      → g.who_knocked ≡ negsuc 0
      → h ≡ record g {
        peeked_at_draw_pile = false;
        whose_turn = next_index g;
        who_knocked = g.whose_turn;
      }
      → Step g h knocks
