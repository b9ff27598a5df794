-- ===== src/Cards/Laws.antt =====
-- The comparisons of cpp/cards/card.h decide equality.
use moon_base.Base.{◌≡◌, refl, ap, ◌∙◌, sym, ◌↔◌, true, arith, ==_iff}
use moon_base.Cards.{
  Suit, Rank, Card, suit_index, rank_index, suit_of_index, rank_of_index, suit_eq, rank_eq, card_eq,
}

pub suit_of_index-suit_index : (s : Suit) → suit_of_index (suit_index s) ≡ s
unfolding suit_of_index
suit_of_index-suit_index Suit.clubs = refl
suit_of_index-suit_index _ = refl

pub rank_of_index-rank_index : (r : Rank) → rank_of_index (rank_index r) ≡ r
unfolding rank_of_index
rank_of_index-rank_index Rank.two = refl
rank_of_index-rank_index _ = refl

suit_eq_iff : (a b : Suit) → (suit_eq a b ≡ true) ↔ (a ≡ b)
suit_eq_iff a b = (
  λ h.
      sym (suit_of_index-suit_index a)
      ∙ ap suit_of_index ((==_iff _ _).0 h)
      ∙ suit_of_index-suit_index b,
  λ e. (==_iff _ _).1 (ap (λ s. suit_index s) e),
)

pub rank_eq_iff : (a b : Rank) → (rank_eq a b ≡ true) ↔ (a ≡ b)
rank_eq_iff a b = (
  λ h.
      sym (rank_of_index-rank_index a)
      ∙ ap rank_of_index ((==_iff _ _).0 h)
      ∙ rank_of_index-rank_index b,
  λ e. (==_iff _ _).1 (ap (λ r. rank_index r) e),
)

pub card_eq_iff : (a b : Card) → (card_eq a b ≡ true) ↔ (a ≡ b)
card_eq_iff a b = ground (arith, suit_eq_iff a.suit b.suit, rank_eq_iff a.rank b.rank)
