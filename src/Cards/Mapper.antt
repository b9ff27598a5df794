-- ===== src/Cards/Mapper.antt =====
-- cpp/cards/card_mapper.cc: the text of a card and of a list of cards.
pub mod Laws
use Prim.Native.String.{◌++◌}
use moon_base.Base.{
  ℕ, ◌+◌, ◌-◌, String, Option, none, some, List, [], ◌∷◌, ◌==◌, if◌then◌else◌, length,
}
use moon_base.Cards.{
  Suit, Rank, Card, rank_eq, suit_eq, clubs, diamonds, hearts, spades, two, three, four, five, six,
  seven, eight, nine, ten, jack, queen, king, ace,
}

-- `RANK_TO_STRING`
abbrev pub rank_to_string : List (Rank × String)
rank_to_string =
    (two, "2")
    ∷ (three, "3")
    ∷ (four, "4")
    ∷ (five, "5")
    ∷ (six, "6")
    ∷ (seven, "7")
    ∷ (eight, "8")
    ∷ (nine, "9")
    ∷ (ten, "10")
    ∷ (jack, "J")
    ∷ (queen, "Q")
    ∷ (king, "K")
    ∷ (ace, "A")
    ∷ []

-- `SUIT_TO_STRING`
abbrev pub suit_to_string : List (Suit × String)
suit_to_string = (clubs, "C") ∷ (diamonds, "D") ∷ (hearts, "H") ∷ (spades, "S") ∷ []

-- `find` in the two maps.
abbrev pub find_rank : Rank → List (Rank × String) → Option String
find_rank r [] = none
find_rank r ((k, s) ∷ m) = if rank_eq k r then some s else find_rank r m

abbrev pub find_suit : Suit → List (Suit × String) → Option String
find_suit r [] = none
find_suit r ((k, s) ∷ m) = if suit_eq k r then some s else find_suit r m

abbrev text_or : Option String → String → String
text_or none d = d
text_or (some s) d = s

-- `CardMapper::cardToString`
unfoldable pub card_to_string : Card → String
card_to_string c =
    (text_or (find_rank c.rank rank_to_string) "unknown_rank" ++ "_")
    ++ text_or (find_suit c.suit suit_to_string) "unknown_suit"

-- The loop of `cardsToString` from index `i` of `n` on, with the text so far.
append_cards : ℕ → ℕ → List Card → String → String
append_cards n i [] repr = repr
append_cards n i (c ∷ cs) repr = append_cards n (i + 1) cs (
    let quoted = ((repr ++ "\"") ++ card_to_string c) ++ "\"" in
    if i == n - 1 then quoted else quoted ++ ",")

-- `CardMapper::cardsToString`
unfoldable pub cards_to_string : List Card → String
unfolding append_cards
cards_to_string cs = append_cards (length cs) 0 cs "[" ++ "]"
