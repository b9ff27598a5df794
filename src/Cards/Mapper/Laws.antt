-- ===== src/Cards/Mapper/Laws.antt =====
-- What the texts of cpp/cards/card_mapper.cc show of the cards.
use Prim.Native.Char.{code}
use Prim.Native.String.{◌++◌}
use text.Mathlib.TextLemmas.{append_assoc, append-nil}
use moon_base.Base.{
  ℕ, ◌+◌, ◌-◌, String, ◌≡◌, refl, ap, ◌∙◌, sym, List, [], ◌∷◌, arith, ◌==◌, if◌then◌else◌, length,
  false, ==_iff,
}
use moon_base.Cards.{Suit, Rank, Card}
use moon_base.Cards.Mapper.{card_to_string, cards_to_string, append_cards}

codes : String → List ℕ
codes String.[] = []
codes (String.◌∷◌ c s) = code c ∷ codes s

last_code : List ℕ → ℕ
last_code [] = 0
last_code (c ∷ []) = c
last_code (c ∷ d ∷ cs) = last_code (d ∷ cs)

first_code : List ℕ → ℕ
first_code [] = 0
first_code (c ∷ cs) = c

-- The suit that a last character stands for, and the rank that a first one does.
suit_of_code : ℕ → Suit
suit_of_code c =
    if c == b'C'
    then Suit.clubs
    else if c == b'D'
    then Suit.diamonds
    else if c == b'H'
    then Suit.hearts
    else Suit.spades

rank_of_code : ℕ → Rank
rank_of_code c =
    if c == b'2'
    then Rank.two
    else if c == b'3'
    then Rank.three
    else if c == b'4'
    then Rank.four
    else if c == b'5'
    then Rank.five
    else if c == b'6'
    then Rank.six
    else if c == b'7'
    then Rank.seven
    else if c == b'8'
    then Rank.eight
    else if c == b'9'
    then Rank.nine
    else if c == b'1'
    then Rank.ten
    else if c == b'J'
    then Rank.jack
    else if c == b'Q'
    then Rank.queen
    else if c == b'K'
    then Rank.king
    else Rank.ace

-- A reader of the text: its first character gives the rank, its last the suit.
read_card : String → Card
read_card s = record {
  suit = suit_of_code (last_code (codes s));
  rank = rank_of_code (first_code (codes s));
}

read_card_text :
    (s : Suit) (r : Rank)
    → read_card (card_to_string (record { suit = s; rank = r })) ≡ record { suit = s; rank = r }
unfolding read_card card_to_string codes last_code first_code suit_of_code rank_of_code
read_card_text Suit.clubs Rank.two = refl
read_card_text Suit.diamonds Rank.two = refl
read_card_text Suit.hearts Rank.two = refl
read_card_text Suit.spades Rank.two = refl
read_card_text _ _ = refl

-- Cards of the same text are the same card.
pub card_to_string_inj : (a b : Card) → card_to_string a ≡ card_to_string b → a ≡ b
card_to_string_inj a b e =
    sym (read_card_text a.suit a.rank) ∙ ap read_card e ∙ read_card_text b.suit b.rank

-- Each card's text in quotes, with a comma between neighbours.
abbrev pub quoted_list : List Card → String
quoted_list [] = ""
quoted_list (c ∷ []) = "\"" ++ (card_to_string c ++ "\"")
quoted_list (c ∷ d ∷ cs) = "\"" ++ (card_to_string c ++ ("\"" ++ ("," ++ quoted_list (d ∷ cs))))

-- One round of the loop, on the last card and before.
append_cards_last :
    (n i : ℕ) (c : Card) (cs : List Card) (repr : String)
    → i ≡ n - 1
    → append_cards n i (c ∷ cs) repr
      ≡ append_cards n (i + 1) cs (((repr ++ "\"") ++ card_to_string c) ++ "\"")
unfolding append_cards
append_cards_last n i c cs repr h = rw ((==_iff i (n - 1)).1 h)

append_cards_more :
    (n i : ℕ) (c : Card) (cs : List Card) (repr : String)
    → (i == n - 1) ≡ false
    → append_cards n i (c ∷ cs) repr
      ≡ append_cards n (i + 1) cs ((((repr ++ "\"") ++ card_to_string c) ++ "\"") ++ ",")
unfolding append_cards
append_cards_more n i c cs repr h = rw h

append_cards_lem :
    (n i : ℕ) (cs : List Card) (repr : String)
    → n ≡ i + length cs
    → append_cards n i cs repr ≡ repr ++ quoted_list cs
append_cards_lem n i [] repr h = append_cards_nil ∙ sym (append-nil repr)
  where
    append_cards_nil : append_cards n i [] repr ≡ repr
    append_cards_nil = unfold append_cards in refl
append_cards_lem n i (c ∷ []) repr h =
    append_cards_last n i c [] repr (omega arith)
    ∙ append_cards_lem n (i + 1) [] _ (omega arith)
    ∙ simp (append_assoc, append-nil)
append_cards_lem n i (c ∷ d ∷ cs) repr h =
    append_cards_more n i c (d ∷ cs) repr (ground arith)
    ∙ append_cards_lem n (i + 1) (d ∷ cs) _ (omega arith)
    ∙ simp append_assoc

-- `cardsToString` is the bracketed, comma-separated list of the quoted texts, in order.
pub cards_to_string_lem : (cs : List Card) → cards_to_string cs ≡ "[" ++ (quoted_list cs ++ "]")
unfolding cards_to_string
cards_to_string_lem cs =
    ap (λ (s : String). s ++ "]") (append_cards_lem (length cs) 0 cs "[" (omega arith))
    ∙ append_assoc "[" (quoted_list cs) "]"
