-- ===== src/Cards.antt =====
-- cpp/cards/card.h: suits, ranks and cards. The enumerators stand in the order of their values.
pub mod Laws
pub mod Deck
pub mod Mapper
mod Tests
use moon_base.Base.{ℕ, ◌%◌, Bool, ◌&&◌, ◌==◌, if◌then◌else◌}

pub data Suit : Type 0 where
  clubs diamonds hearts spades : Suit

pub data Rank : Type 0 where
  two three four five six seven eight nine ten jack queen king ace : Rank

-- The enumerators' values.
abbrev pub suit_index : Suit → ℕ
suit_index clubs = 0
suit_index diamonds = 1
suit_index hearts = 2
suit_index spades = 3

abbrev pub rank_index : Rank → ℕ
rank_index two = 0
rank_index three = 1
rank_index four = 2
rank_index five = 3
rank_index six = 4
rank_index seven = 5
rank_index eight = 6
rank_index nine = 7
rank_index ten = 8
rank_index jack = 9
rank_index queen = 10
rank_index king = 11
rank_index ace = 12

-- `static_cast<Suit>(i)` of an `i` below 4.
pub suit_of_index : ℕ → Suit
suit_of_index i =
    if i == 0 then clubs else if i == 1 then diamonds else if i == 2 then hearts else spades

-- `static_cast<Rank>(i)` of an `i` below 13.
pub rank_of_index : ℕ → Rank
rank_of_index i =
    if i == 0
    then two
    else if i == 1
    then three
    else if i == 2
    then four
    else if i == 3
    then five
    else if i == 4
    then six
    else if i == 5
    then seven
    else if i == 6
    then eight
    else if i == 7
    then nine
    else if i == 8
    then ten
    else if i == 9
    then jack
    else if i == 10
    then queen
    else if i == 11
    then king
    else ace

pub record Card : Type 0 where
  pub suit : Suit
  pub rank : Rank

-- `Card(int shuffleIndex)`; the code calls it on 0 to 51.
unfoldable pub card_of_index : ℕ → Card
unfolding suit_of_index rank_of_index
card_of_index i = record { suit = suit_of_index (i % 4); rank = rank_of_index (i % 13) }

-- `==` on enumerators compares their values.
abbrev pub suit_eq : Suit → Suit → Bool
suit_eq a b = suit_index a == suit_index b

abbrev pub rank_eq : Rank → Rank → Bool
rank_eq a b = rank_index a == rank_index b

-- `Card::operator==`
abbrev pub card_eq : Card → Card → Bool
card_eq a b = suit_eq a.suit b.suit && rank_eq a.rank b.rank
