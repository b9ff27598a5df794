-- ===== src/Golf/Player.antt =====
-- cpp/cards/golf/player.h and player.cc: a seat at the table, its hand, and the hand's score.
pub mod Score
pub mod Hand
use moon_base.Base.{
  ℕ, String, Bool, true, false, ◌&&◌, Option, none, some, List, [], ◌∷◌, if◌then◌else◌, str_eq,
}
use moon_base.Base.Int.{ℤ, pos, ◌+ℤ◌, ◌-ℤ◌}
use moon_base.Absl.{StatusOr, ok, err, failed_precondition_error}
use moon_base.Cards.{
  Rank, Card, rank_eq, card_eq, two, three, four, five, six, seven, eight, nine, ten, jack, queen,
  king, ace,
}

pub data Position : Type 0 where
  top_left top_right bottom_left bottom_right : Position

pub record Player : Type 0 where
  pub name : Option String
  pub top_left_card : Card
  pub top_right_card : Card
  pub bottom_left_card : Card
  pub bottom_right_card : Card

-- `Player::isPresent`
abbrev pub is_present : Player → Bool
is_present p = elim p.name [ none ↦ false | some _ ↦ true ]

-- `Player::claimHand`
unfoldable pub claim_hand : Player → String → StatusOr Player
claim_hand p username =
    if is_present p
    then err (failed_precondition_error "already claimed")
    else ok (record p { name = some username })

-- `Player::allCards`
abbrev pub all_cards : Player → List Card
all_cards p = p.top_left_card ∷ p.top_right_card ∷ p.bottom_left_card ∷ p.bottom_right_card ∷ []

-- `Player::cardValue`; the default case is that of no enumerator.
abbrev pub card_value : Rank → ℕ
card_value ace = 1
card_value two = 2
card_value three = 3
card_value four = 4
card_value five = 5
card_value six = 6
card_value seven = 7
card_value eight = 8
card_value nine = 9
card_value ten = 10
card_value jack = 0
card_value queen = 10
card_value king = 10

-- `find` in, and `erase` from, the set of ranks `hand`.
abbrev pub has_rank : Rank → List Rank → Bool
has_rank r [] = false
has_rank r (k ∷ ks) = if rank_eq k r then true else has_rank r ks

abbrev pub erase_rank : Rank → List Rank → List Rank
erase_rank r [] = []
erase_rank r (k ∷ ks) = if rank_eq k r then ks else k ∷ erase_rank r ks

-- The loop of `Player::score`: `hand` holds the ranks met an odd number of times so far.
pub score_loop : List Card → List Rank → ℤ → ℤ
score_loop [] hand score = score
score_loop (c ∷ cs) hand score =
    score_loop cs (if has_rank c.rank hand then erase_rank c.rank hand else c.rank ∷ hand) (
      if has_rank c.rank hand
      then score -ℤ pos (card_value c.rank)
      else score +ℤ pos (card_value c.rank))

-- `Player::score`
unfoldable pub score : Player → ℤ
unfolding score_loop
score p = score_loop (all_cards p) [] (pos 0)

-- `Player::cardAt`
abbrev pub card_at : Player → Position → Card
card_at p top_left = p.top_left_card
card_at p top_right = p.top_right_card
card_at p bottom_left = p.bottom_left_card
card_at p bottom_right = p.bottom_right_card

-- `Player::swapCard`
abbrev pub swap_card : Player → Card → Position → Player
swap_card p c top_left = record p { top_left_card = c }
swap_card p c top_right = record p { top_right_card = c }
swap_card p c bottom_left = record p { bottom_left_card = c }
swap_card p c bottom_right = record p { bottom_right_card = c }

-- `name == username` of an optional and a string.
abbrev pub name_matches : Player → String → Bool
name_matches p username = elim p.name [ none ↦ false | some n ↦ str_eq n username ]

-- `==` of two optional names.
abbrev pub name_eq : Option String → Option String → Bool
name_eq none none = true
name_eq (some a) (some b) = str_eq a b
name_eq _ _ = false

-- `Player::operator==`
abbrev pub player_eq : Player → Player → Bool
player_eq a b =
    name_eq a.name b.name
    && card_eq a.top_left_card b.top_left_card
    && card_eq a.top_right_card b.top_right_card
    && card_eq a.bottom_left_card b.bottom_left_card
    && card_eq a.bottom_right_card b.bottom_right_card
