-- ===== src/Golf/StateMapper/Views.antt =====
-- What game_state_mapper.cc shows a user, and what it hides.
use moon_base.Base.{
  ℕ, zero, suc, ap, ◌+◌, String, ◌≡◌, refl, true, false, Bool-cases, Option-cases, ◌⊎◌, inl, inr,
  ◌&&◌, Option, none, some, List, [], ◌∷◌, map, length, get_elem?, get_elem?_lt, back,
  back_nonempty, arith, all_of, if◌then◌else◌,
}
use moon_base.Base.Int.{ℤ, pos, negsuc, eq_ℤ}
use moon_base.Absl.{StatusOr-cases, ok, or_fault, ◌>>=◌, throws_out_of_range}
use moon_base.Cards.{Card}
use moon_base.Golf.Player.{Player, is_present, score}
use moon_base.Golf.GameState.{GameState, is_over, player_at, player_index, player_index_from}
use moon_base.Golf.GameState.Names.{names_of}
use moon_base.Golf.GameState.Valid.{IsValid, IsKnocker}
use moon_base.Cards.Mapper.{card_to_string}
use moon_base.Golf.StateMapper.{
  GameStateResponse, response, knocker_name, peeked_card, game_state_to_proto,
}

knocker_at :
    (ps : List Player) (z : ℤ)
    → IsKnocker (length ps) z
    → (eq_ℤ z (negsuc 0) ≡ true) ⊎ ((p : Player) × (player_at ps z ≡ some p))
knocker_at ps (pos i) h = inr (get_elem?_lt ps i h)
knocker_at ps (negsuc i) h = inl (ground arith)

knocker_name_ok : (g : GameState) → IsValid g → (n : Option String) × (knocker_name g ≡ ok n)
unfolding knocker_name
knocker_name_ok g v = elim (Bool-cases (eq_ℤ g.who_knocked (negsuc 0))) [
  | inl e ↦ (none, rw (knocker_name, e) refl)
  | inr e ↦ elim (knocker_at g.players g.who_knocked v.knocker) [
    | inl f ↦ absurd (clash e f)
    | inr (p, f) ↦ (p.name, rw (knocker_name, e, f) refl)
  ]
]
  where
    clash : {b : _} → b ≡ false → b ≡ true → ⊥
    clash e f = cc

peeked_card_ok :
    (g : GameState) (z : ℤ) → IsValid g → (n : Option String) × (peeked_card g z ≡ ok n)
unfolding peeked_card
peeked_card_ok g z v = elim (Bool-cases (g.peeked_at_draw_pile && eq_ℤ g.whose_turn z)) [
  | inr e ↦ (none, rw (peeked_card, e) refl)
  | inl e ↦
      let (c, top) = back_nonempty g.draw_pile (v.peeks (ground arith)) in
      (some (card_to_string c), rw (peeked_card, e, top) refl)
]

-- A well-formed game can be shown to every player at the table: no `at` throws, and no `back` is
-- taken of an empty pile. The two cards shown are the bottom ones of the player's own hand, and the
-- scores of the table are shown only when the game is over.
pub game_state_to_proto_lem :
    (g : GameState) (username : String) (p : Player)
    → IsValid g
    → player_at g.players (player_index g username) ≡ some p
    → (r : GameStateResponse) × (game_state_to_proto g username ≡ ok r)
      × (r.hand.bottom_left ≡ card_to_string p.bottom_left_card)
      × (r.hand.bottom_right ≡ card_to_string p.bottom_right_card)
      × (r.scores ≡ (if is_over g then map score g.players else []))
unfolding game_state_to_proto
game_state_to_proto_lem g username p v seat =
    let (n, e) = knocker_name_ok g v in
    let (c, f) = back_nonempty g.discard_pile v.discards in
    let (d, h) = peeked_card_ok g (player_index g username) v in
    (
      response g (player_index g username) p c n d,
      rw (game_state_to_proto, e, seat, f, h) refl,
      refl,
      refl,
      refl,
    )

-- What a player cannot tell apart while the game goes on: another deal of the draw pile, of the top
-- cards of the own hand and of the hands of the others.
pub record Alike (g h : GameState) (username : String) (p q : Player) : Type 0 where
  pub seat : player_at g.players (player_index g username) ≡ some p
  pub other_seat : player_at h.players (player_index h username) ≡ some q
  pub left : p.bottom_left_card ≡ q.bottom_left_card
  pub right : p.bottom_right_card ≡ q.bottom_right_card
  pub names : names_of g.players ≡ names_of h.players
  pub draw : length g.draw_pile ≡ length h.draw_pile
  pub discard : g.discard_pile ≡ h.discard_pile
  pub turn : g.whose_turn ≡ h.whose_turn
  pub knocker : g.who_knocked ≡ h.who_knocked
  pub id : g.game_id ≡ h.game_id
  pub going_on : is_over g ≡ false
  pub other_going_on : is_over h ≡ false
  pub unpeeked : g.peeked_at_draw_pile ≡ false
  pub other_unpeeked : h.peeked_at_draw_pile ≡ false

-- The code reads nothing of the players but their names here.
same_presence :
    (ps qs : List Player)
    → names_of ps ≡ names_of qs
    → (all_of is_present ps ≡ all_of is_present qs) × (length ps ≡ length qs)
same_presence [] [] e = (refl, refl)
same_presence [] (q ∷ qs) e = cc
same_presence (p ∷ ps) [] e = cc
same_presence (p ∷ ps) (q ∷ qs) e =
    let first : p.name ≡ q.name = cc in
    let rest : names_of ps ≡ names_of qs = cc in
    let (a, l) = same_presence ps qs rest in (rw (first, a) refl, ap suc l)

same_index :
    (i : ℕ) (ps qs : List Player) (u : String)
    → names_of ps ≡ names_of qs
    → player_index_from i ps u ≡ player_index_from i qs u
unfolding player_index_from
same_index i [] [] u e = refl
same_index i [] (q ∷ qs) u e = cc
same_index i (p ∷ ps) [] u e = cc
same_index i (p ∷ ps) (q ∷ qs) u e =
    let first : p.name ≡ q.name = cc in
    let rest : names_of ps ≡ names_of qs = cc in rw (first, same_index (i + 1) ps qs u rest) refl

same_name_at :
    (ps qs : List Player) (i : ℕ)
    → names_of ps ≡ names_of qs
    → (or_fault (get_elem? ps i) throws_out_of_range >>= λ p. ok p.name)
      ≡ (or_fault (get_elem? qs i) throws_out_of_range >>= λ p. ok p.name)
same_name_at [] [] i e = refl
same_name_at [] (q ∷ qs) i e = cc
same_name_at (p ∷ ps) [] i e = cc
same_name_at (p ∷ ps) (q ∷ qs) zero e = let first : p.name ≡ q.name = cc in ap ok first
same_name_at (p ∷ ps) (q ∷ qs) (suc i) e =
    let rest : names_of ps ≡ names_of qs = cc in same_name_at ps qs i rest

same_knocker_name :
    (g h : GameState)
    → names_of g.players ≡ names_of h.players
    → g.who_knocked ≡ h.who_knocked
    → knocker_name g ≡ knocker_name h
unfolding knocker_name
same_knocker_name g h e f = rw (knocker_name, f) (at_knocker h.who_knocked)
  where
    at_knocker :
        (z : ℤ)
        → (if eq_ℤ z (negsuc 0)
            then ok none
            else (or_fault (player_at g.players z) throws_out_of_range >>= λ p. ok p.name))
          ≡ (if eq_ℤ z (negsuc 0)
              then ok none
              else (or_fault (player_at h.players z) throws_out_of_range >>= λ p. ok p.name))
    at_knocker (pos i) =
        ap (λ x. if eq_ℤ (pos i) (negsuc 0) then ok none else x)
          (same_name_at g.players h.players i e)
    at_knocker (negsuc i) = refl

unpeeked_card : (g : GameState) (z : ℤ) → g.peeked_at_draw_pile ≡ false → peeked_card g z ≡ ok none
unfolding peeked_card
unpeeked_card g z e = rw (peeked_card, e) refl

same_response :
    (g h : GameState) (u : String) (p q : Player) (top : Card) (k : Option String)
    → Alike g h u p q
    → response g (player_index g u) p top k none ≡ response h (player_index h u) q top k none
unfolding player_index
same_response g h u p q top k a =
    let (here, number) = same_presence g.players h.players a.names in
    let index = same_index 0 g.players h.players u a.names in
    rw
      (
        a.going_on, a.other_going_on, here, number, index, a.draw, a.discard, a.turn, a.id, a.left,
        a.right,
      )
      refl

-- While the game goes on and the draw pile has not been peeked at, the user is shown the same of
-- two games that differ in nothing but the cards of the draw pile, the top cards of the user's hand,
-- the other hands and the version id.
pub game_state_to_proto_hides :
    (g h : GameState) (username : String) (p q : Player)
    → Alike g h username p q
    → game_state_to_proto g username ≡ game_state_to_proto h username
unfolding game_state_to_proto
game_state_to_proto_hides g h username p q a =
    let kn = same_knocker_name g h a.names a.knocker in
    let pg = unpeeked_card g (player_index g username) a.unpeeked in
    let ph = unpeeked_card h (player_index h username) a.other_unpeeked in
    let pile = ap back a.discard in
    elim (StatusOr-cases (knocker_name h)) [
      | inl (k, e) ↦ elim (Option-cases (back h.discard_pile)) [
        | inl f ↦ rw (game_state_to_proto, kn, e, a.seat, a.other_seat, pile, f) refl
        | inr (c, f) ↦
            rw (game_state_to_proto, kn, e, a.seat, a.other_seat, pile, f, pg, ph)
              (ap ok (same_response g h username p q c k a))
      ]
      | inr (inl (_, e)) ↦ rw (game_state_to_proto, kn, e) refl
      | inr (inr (_, e)) ↦ rw (game_state_to_proto, kn, e) refl
    ]
