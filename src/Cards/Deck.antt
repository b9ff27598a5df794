-- ===== src/Cards/Deck.antt =====
-- The cards of the indices 0 to 51: `Card(int)` of cpp/cards/card.h.
use moon_base.Base.{ℕ, ◌+◌, ◌*◌, ◌%◌, ◌<◌, ◌≡◌, ap, ◌∙◌, sym, arith, ◌↔◌}
use mathlib.Core.Path.{ap₂}
use moon_base.Cards.{
  Suit, Rank, Card, suit_index, rank_index, card_of_index, suit_of_index, rank_of_index,
}
use moon_base.Cards.Laws.{suit_of_index-suit_index, rank_of_index-rank_index}

-- The index below 52 that leaves the card's suit modulo 4 and its rank modulo 13.
pub index_of_card : Card → ℕ
index_of_card c = (13 * suit_index c.suit + 40 * rank_index c.rank) % 52

suit_index-lt : (s : Suit) → suit_index s < 4
suit_index-lt s = ground arith

rank_index-lt : (r : Rank) → rank_index r < 13
rank_index-lt r = ground arith

suit_index-suit_of_index : (i : ℕ) → i < 4 → suit_index (suit_of_index i) ≡ i
unfolding suit_of_index
suit_index-suit_of_index i h = ground arith

rank_index-rank_of_index : (i : ℕ) → i < 13 → rank_index (rank_of_index i) ≡ i
unfolding rank_of_index
rank_index-rank_of_index i h = ground arith

index_of_card-lt : (c : Card) → index_of_card c < 52
unfolding index_of_card
index_of_card-lt c = omega arith

-- Each card is the card of its index.
card_of_index-index_of_card : (c : Card) → card_of_index (index_of_card c) ≡ c
unfolding card_of_index index_of_card
card_of_index-index_of_card c =
    ap₂ card_of (ap suit_of_index suit_part ∙ suit_of_index-suit_index c.suit)
      (ap rank_of_index rank_part ∙ rank_of_index-rank_index c.rank)
  where
    card_of : Suit → Rank → Card
    card_of s r = record { suit = s; rank = r }

    suit_part : (13 * suit_index c.suit + 40 * rank_index c.rank) % 52 % 4 ≡ suit_index c.suit
    suit_part = omega (arith, suit_index-lt c.suit)

    rank_part : (13 * suit_index c.suit + 40 * rank_index c.rank) % 52 % 13 ≡ rank_index c.rank
    rank_part = omega (arith, rank_index-lt c.rank)

-- Different indices below 52 are different cards.
pub card_of_index_inj : (i j : ℕ) → i < 52 → j < 52 → card_of_index i ≡ card_of_index j → i ≡ j
unfolding card_of_index
card_of_index_inj i j hi hj e = omega (
  arith,
  sym (suit_index-suit_of_index (i % 4) (omega arith))
      ∙ ap (λ (c : Card). suit_index c.suit) e
      ∙ suit_index-suit_of_index (j % 4) (omega arith),
  sym (rank_index-rank_of_index (i % 13) (omega arith))
      ∙ ap (λ (c : Card). rank_index c.rank) e
      ∙ rank_index-rank_of_index (j % 13) (omega arith),
)

-- `Card(int)` maps the indices below 52 one to one onto the cards: each card has an index below 52,
-- and no other index below 52 is mapped to it.
pub card_of_index_bijective :
    (c : Card) (i : ℕ)
    → i < 52
    → (index_of_card c < 52) × ((card_of_index i ≡ c) ↔ (i ≡ index_of_card c))
card_of_index_bijective c i h = (
  index_of_card-lt c,
  (
    (λ e.
        card_of_index_inj i (index_of_card c) h (index_of_card-lt c)
          (e ∙ sym (card_of_index-index_of_card c))),
    (λ e. ap card_of_index e ∙ card_of_index-index_of_card c),
  ),
)
