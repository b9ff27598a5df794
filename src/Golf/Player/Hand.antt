-- ===== src/Golf/Player/Hand.antt =====
-- The hand of a player: the four places, and the comparison of players.
use mathlib.Core.List.Perm
use moon_base.Base.{
  String, ◌≡◌, refl, ◌↔◌, Bool, true, ◌&&◌, Option, none, some, [], ◌∷◌, Perm, arith, eq_iff,
  exchange-perm,
}
use moon_base.Cards.{Card, card_eq}
use moon_base.Cards.Laws.{card_eq_iff}
use moon_base.Golf.Player.{Player, Position, all_cards, card_at, swap_card, name_eq, player_eq}

name_eq_iff : (a b : Option String) → (name_eq a b ≡ true) ↔ (a ≡ b)
name_eq_iff none none = ground arith
name_eq_iff none (some b) = ground arith
name_eq_iff (some a) none = ground arith
name_eq_iff (some a) (some b) = ground (arith, eq_iff a b)

player_eq_refl : (a : Player) → player_eq a a ≡ true
player_eq_refl a = rw (
  (name_eq_iff a.name a.name).1 refl,
  (card_eq_iff a.top_left_card a.top_left_card).1 refl,
  (card_eq_iff a.top_right_card a.top_right_card).1 refl,
  (card_eq_iff a.bottom_left_card a.bottom_left_card).1 refl,
  (card_eq_iff a.bottom_right_card a.bottom_right_card).1 refl,
)

and_true :
    (a b c d e : Bool)
    → (a && b && c && d && e) ≡ true
    → (a ≡ true) × (b ≡ true) × (c ≡ true) × (d ≡ true) × (e ≡ true)
and_true a b c d e h = ground arith

player_eq_sound : (a b : Player) → player_eq a b ≡ true → a ≡ b
player_eq_sound a b h = λ i. record {
  name = (name_eq_iff a.name b.name).0 parts.0 i;
  top_left_card = (card_eq_iff a.top_left_card b.top_left_card).0 parts.1 i;
  top_right_card = (card_eq_iff a.top_right_card b.top_right_card).0 parts.2 i;
  bottom_left_card = (card_eq_iff a.bottom_left_card b.bottom_left_card).0 parts.3 i;
  bottom_right_card = (card_eq_iff a.bottom_right_card b.bottom_right_card).0 parts.4 i;
}
  where
    parts :
        (name_eq a.name b.name ≡ true)
        × (card_eq a.top_left_card b.top_left_card ≡ true)
        × (card_eq a.top_right_card b.top_right_card ≡ true)
        × (card_eq a.bottom_left_card b.bottom_left_card ≡ true)
        × (card_eq a.bottom_right_card b.bottom_right_card ≡ true)
    parts =
        and_true (name_eq a.name b.name) (card_eq a.top_left_card b.top_left_card)
          (card_eq a.top_right_card b.top_right_card)
          (card_eq a.bottom_left_card b.bottom_left_card)
          (card_eq a.bottom_right_card b.bottom_right_card) h

-- The comparison of players decides their equality.
pub player_eq_iff : (a b : Player) → (player_eq a b ≡ true) ↔ (a ≡ b)
player_eq_iff a b = (player_eq_sound a b, λ e. rw (← e) (player_eq_refl a))

-- Swapping a card in exchanges it for the card that lay there: none is lost and none made up.
pub swap_card-perm :
    (p : Player) (c : Card) (q : Position)
    → Perm (card_at p q ∷ all_cards (swap_card p c q)) (c ∷ all_cards p)
swap_card-perm p c Position.top_left = Perm.swap c p.top_left_card _
swap_card-perm p c Position.top_right = exchange-perm _ c (p.top_left_card ∷ []) _
swap_card-perm p c Position.bottom_left =
    exchange-perm _ c (p.top_left_card ∷ p.top_right_card ∷ []) _
swap_card-perm p c Position.bottom_right =
    exchange-perm _ c (p.top_left_card ∷ p.top_right_card ∷ p.bottom_left_card ∷ []) []
