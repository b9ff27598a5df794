-- ===== src/Cards/Tests.antt =====
-- The theorems on the cards at single cards.
use moon_base.Base.{◌<◌, ◌≡◌, ◌↔◌, refl, [], ◌∷◌, arith}
use moon_base.Cards.{Card, card_of_index}
use moon_base.Cards.Deck.{index_of_card, card_of_index_bijective}
use moon_base.Cards.Mapper.{card_to_string, cards_to_string}
use moon_base.Cards.Mapper.Laws.{card_to_string_inj}

abbrev ace_of_spades : Card
ace_of_spades = card_of_index 51

card_of_index_bijective_example :
    (index_of_card ace_of_spades < 52)
    × ((card_of_index 7 ≡ ace_of_spades) ↔ (7 ≡ index_of_card ace_of_spades))
card_of_index_bijective_example = card_of_index_bijective ace_of_spades 7 (omega arith)

card_to_string_inj_example : ace_of_spades ≡ card_of_index 51
card_to_string_inj_example = card_to_string_inj ace_of_spades (card_of_index 51) refl

-- The text of two cards.
cards_to_string-two : cards_to_string (ace_of_spades ∷ card_of_index 0 ∷ []) ≡ "[\"A_S\",\"2_C\"]"
unfolding card_to_string cards_to_string card_of_index
cards_to_string-two = refl
