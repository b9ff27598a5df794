-- ===== src/Golf/GameState/Invariant.antt =====
-- The moves of game_state.cc keep a game well formed.
use moon_base.Base.{
  ℕ, ◌≡◌, refl, false, List, [], ◌∷◌, arith, length, push_back, is_empty, length-set,
}
use moon_base.Base.Int.{ℤ}
use moon_base.Absl.{ok}
use moon_base.Cards.{Card}
use moon_base.Golf.Player.{Player}
use moon_base.Golf.GameState.{GameState, Move, play, is_over}
use moon_base.Golf.GameState.Valid.{IsValid, Below, IsKnocker, turn_index, next_index-lt}
use moon_base.Golf.GameState.Rules.{
  Step, peeks, discards, swaps_draw, swaps_discard, knocked, IsUnderWay, next_index, play-Step,
}

is_empty-push_back {ℓ} : {A : Type ℓ} (xs : List A) (x : A) → is_empty (push_back xs x) ≡ false
is_empty-push_back [] x = refl
is_empty-push_back (y ∷ xs) x = refl

not_empty : (g : GameState) → IsUnderWay g → is_empty g.draw_pile ≡ false
unfolding is_over
not_empty g r = ground arith

turn-IsKnocker : (n : ℕ) (z : ℤ) → Below n z → IsKnocker n z
turn-IsKnocker n z h = ground arith

-- Whatever the move does to the piles, the players' cards and the knocker, passing the turn on
-- leads to a well-formed state.
turn_passed-IsValid :
    (g : GameState) (draw discard : List Card) (ps : List Player) (k : ℤ)
    → IsValid g
    → length ps ≡ length g.players
    → is_empty discard ≡ false
    → IsKnocker (length g.players) k
    → IsValid (record g {
      draw_pile = draw;
      discard_pile = discard;
      players = ps;
      peeked_at_draw_pile = false;
      whose_turn = next_index g;
      who_knocked = k;
    })
turn_passed-IsValid g draw discard ps k v n d o = record {
  crowd = rw n v.crowd;
  turn = rw n (next_index-lt (turn_index g) (length g.players) (ground arith));
  knocker = rw n o;
  discards = d;
  peeks = λ e. cc;
}

pub Step-IsValid : {g h : GameState} (m : Move) → IsValid g → Step g h m → IsValid h
Step-IsValid {g} m v (peeks r u e) = rw e (record {
  crowd = v.crowd;
  turn = v.turn;
  knocker = v.knocker;
  discards = v.discards;
  peeks = λ _. not_empty g r;
})
Step-IsValid {g} m v (discards c r top e) =
    rw e
      (turn_passed-IsValid g _ _ g.players g.who_knocked v refl (is_empty-push_back _ _) v.knocker)
Step-IsValid {g} m v (swaps_draw c p q r top seat e) = rw e (
    turn_passed-IsValid g _ _ _ g.who_knocked v (length-set g.players _ _) (is_empty-push_back _ _)
      v.knocker)
Step-IsValid {g} m v (swaps_discard c p q r u top seat e) = rw e (
    turn_passed-IsValid g g.draw_pile _ _ g.who_knocked v (length-set g.players _ _)
      (is_empty-push_back _ _) v.knocker)
Step-IsValid {g} m v (knocked r u f e) = rw e (
    turn_passed-IsValid g g.draw_pile g.discard_pile g.players g.whose_turn v refl v.discards
      (turn-IsKnocker _ g.whose_turn v.turn))

-- A move from a well-formed state leads to one.
pub play-IsValid :
    (m : Move) (g : GameState) (z : ℤ) {h : GameState} → IsValid g → play m g z ≡ ok h → IsValid h
play-IsValid m g z v e = Step-IsValid m v (play-Step g v m z e).1
