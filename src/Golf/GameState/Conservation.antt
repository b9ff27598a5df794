-- ===== src/Golf/GameState/Conservation.antt =====
-- No move of game_state.cc loses a card or makes one up.
use mathlib.Core.List.{append_assoc, perm_middle}
use mathlib.Core.List.Perm
use moon_base.Base.{
  ℕ, zero, suc, ◌≡◌, some, List, [], ◌∷◌, ◌++◌, Perm, get_elem?, set, back, pop_back, push_back,
  pop_back-perm,
}
use moon_base.Base.Int.{ℤ}
use moon_base.Absl.{ok}
use moon_base.Cards.{Card}
use moon_base.Golf.Player.{Player, Position, all_cards, card_at, swap_card}
use moon_base.Golf.Player.Hand.{swap_card-perm}
use moon_base.Golf.GameState.{GameState, Move, play}
use moon_base.Golf.GameState.Valid.{IsValid}
use moon_base.Golf.GameState.Rules.{
  Step, peeks, discards, swaps_draw, swaps_discard, knocked, play-Step,
}

abbrev pub hands : List Player → List Card
hands [] = []
hands (p ∷ ps) = all_cards p ++ hands ps

-- All the cards of a game: in the two piles and in the hands.
abbrev pub cards_of : GameState → List Card
cards_of g = g.draw_pile ++ (g.discard_pile ++ hands g.players)

hands-set-perm :
    (ps : List Player) (i : ℕ) (p : Player) (c : Card) (q : Position)
    → get_elem? ps i ≡ some p
    → Perm (card_at p q ∷ hands (set ps i (swap_card p c q))) (c ∷ hands ps)
hands-set-perm [] i p c q h = cc
hands-set-perm (x ∷ ps) zero p c q h =
    let e : x ≡ p = cc in rw e (Perm.append_right (hands ps) (swap_card-perm p c q))
hands-set-perm (x ∷ ps) (suc i) p c q h = Perm.trans (Perm.symm (perm_middle (all_cards x) _)) (
    Perm.trans (Perm.append_left (all_cards x) (hands-set-perm ps i p c q h))
      (perm_middle (all_cards x) (hands ps)))

-- The top of a pile goes into the rest of the cards, and one of those onto the pile.
exchange_top :
    (pile rest rest' : List Card) (c old : Card)
    → back pile ≡ some c
    → Perm (old ∷ rest') (c ∷ rest)
    → Perm (push_back (pop_back pile) old ++ rest') (pile ++ rest)
exchange_top pile rest rest' c old top h = rw (append_assoc (pop_back pile) (old ∷ []) rest') (
    Perm.trans (Perm.append_left (pop_back pile) h) (
      Perm.trans (perm_middle (pop_back pile) rest)
        (Perm.symm (Perm.append_right rest (pop_back-perm pile top)))))

-- A card drawn, and one put on the other pile.
draw_and_discard :
    (draw pile rest rest' : List Card) (c old : Card)
    → back draw ≡ some c
    → Perm (old ∷ rest') (c ∷ rest)
    → Perm (pop_back draw ++ (push_back pile old ++ rest')) (draw ++ (pile ++ rest))
draw_and_discard draw pile rest rest' c old top h = rw (append_assoc pile (old ∷ []) rest') (
    Perm.trans (Perm.append_left (pop_back draw) (Perm.append_left pile h)) (
      Perm.trans (Perm.append_left (pop_back draw) (perm_middle pile rest)) (
        Perm.trans (perm_middle (pop_back draw) (pile ++ rest))
          (Perm.symm (Perm.append_right (pile ++ rest) (pop_back-perm draw top))))))

pub Step-cards_of : {g h : GameState} (m : Move) → Step g h m → Perm (cards_of h) (cards_of g)
Step-cards_of m (peeks r u e) = rw e (Perm.refl _)
Step-cards_of {g} m (discards c r top e) =
    rw e (draw_and_discard g.draw_pile g.discard_pile _ _ c c top (Perm.refl _))
Step-cards_of {g} m (swaps_draw c p q r top seat e) = rw e (
    draw_and_discard g.draw_pile g.discard_pile _ _ c (card_at p q) top
      (hands-set-perm g.players _ p c q seat))
Step-cards_of {g} m (swaps_discard c p q r u top seat e) = rw e (
    Perm.append_left g.draw_pile
      (exchange_top g.discard_pile _ _ c (card_at p q) top (hands-set-perm g.players _ p c q seat)))
Step-cards_of m (knocked r u f e) = rw e (Perm.refl _)

-- A move that is carried out on a well-formed state leaves the game the same cards, each as often.
pub play-cards_of :
    (m : Move) (g : GameState) (z : ℤ) {h : GameState}
    → IsValid g
    → play m g z ≡ ok h
    → Perm (cards_of h) (cards_of g)
play-cards_of m g z v e = Step-cards_of m (play-Step g v m z e).1
