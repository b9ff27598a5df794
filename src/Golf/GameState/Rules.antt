-- ===== src/Golf/GameState/Rules.antt =====
-- The rules of the game as a relation, and the moves of game_state.cc against it.
pub mod Steps
pub mod Refusals
use moon_base.Base.{
  ◌+◌, ◌%◌, String, ◌≡◌, refl, sym, ap, ◌∙◌, true, false, not, Option, none, some, arith, ◌⊎◌, inl,
  inr, Option-cases, if◌then◌else◌, length, set, back, pop_back, push_back, back_nonempty,
  get_elem?, get_elem?_lt,
}
use moon_base.Base.Int.{ℤ, pos, negsuc, eq_ℤ, eq_ℤ_iff, eq_ℤ_refl}
use moon_base.Absl.{
  StatusOr, ok, err, ◌>>=◌, ◌>>◌, refuse_if, failed_precondition_error, ok_inj, refuse_if-ok,
  or_fault-ok,
}
use moon_base.Cards.{Card}
use moon_base.Golf.Player.{Player, Position, card_at, swap_card}
use moon_base.Golf.GameState.{
  GameState, Move, peek, discard_draw, knocks, swap_draw, swap_discard, is_over,
  all_players_present, player_at, next_turn, play, peek_at_draw_pile, swap_draw_for_discard_pile,
  swap_for_draw_pile, swap_for_discard_pile, knock,
}
use moon_base.Golf.GameState.Valid.{
  IsValid, turn_index, whose_turn-turn_index, next_turn_lem, updated_players_lem,
}
pub use moon_base.Golf.GameState.Rules.Steps.{
  IsUnderWay, next_index, Step, peeks, discards, swaps_draw, swaps_discard, knocked,
}
pub use moon_base.Golf.GameState.Rules.Refusals.{refusal}
use moon_base.Golf.GameState.Rules.Refusals.{move_refusal, refused, unrefused, draw_pile_top}

-- The three refusals that every move begins with.
abbrev guarded : GameState → ℤ → StatusOr GameState → StatusOr GameState
guarded g z k = do
  refuse_if (is_over g) (failed_precondition_error "game is over")
  refuse_if (not (all_players_present g)) (failed_precondition_error "not all players have joined")
  refuse_if (not (eq_ℤ g.whose_turn z)) (failed_precondition_error "not your turn")
  k

guarded-ok :
    (g : GameState) (z : ℤ) (k : StatusOr GameState) {h : GameState}
    → guarded g z k ≡ ok h
    → IsUnderWay g × (z ≡ g.whose_turn) × (k ≡ ok h)
guarded-ok g z k e =
    let (a, e₁) = refuse_if-ok (is_over g) _ _ e in
    let (b, e₂) = refuse_if-ok (not (all_players_present g)) _ _ e₁ in
    let (c, e₃) = refuse_if-ok (not (eq_ℤ g.whose_turn z)) _ _ e₂ in
    ((a, ground arith), ground (arith, eq_ℤ_iff g.whose_turn z), e₃)

module _ (g : GameState) (v : IsValid g) where
  -- The player whose turn it is exists.
  current : (z : ℤ) → z ≡ g.whose_turn → player_at g.players z ≡ get_elem? g.players (turn_index g)
  current z e = rw (e ∙ whose_turn-turn_index g v)

  passed :
      (f : ℤ → GameState) {h : GameState}
      → (next_turn g >>= λ turn. ok (f turn)) ≡ ok h
      → h ≡ f (next_index g)
  passed f e = sym (ok_inj (rw (next_turn_lem g v) at e))

  swap_draw-Step :
      (z : ℤ) (q : Position) {h : GameState}
      → swap_for_draw_pile g z q ≡ ok h
      → (z ≡ g.whose_turn) × Step g h (swap_draw q)
  unfolding swap_for_draw_pile
  swap_draw-Step z q e =
      let (ready, turn, e₁) = guarded-ok g z _ e in
      let (c, top, e₂) = or_fault-ok (back g.draw_pile) _ _ e₁ in
      let (p, seat, e₃) = or_fault-ok (player_at g.players z) _ _ e₂ in
      (
        turn,
        swaps_draw c p q ready top (sym (current z turn) ∙ seat)
            (rw (updated_players_lem g (swap_card p c q) v) at (passed _ e₃)),
      )

  swap_discard-Step :
      (z : ℤ) (q : Position) {h : GameState}
      → swap_for_discard_pile g z q ≡ ok h
      → (z ≡ g.whose_turn) × Step g h (swap_discard q)
  unfolding swap_for_discard_pile
  swap_discard-Step z q e =
      let (ready, turn, e₁) = guarded-ok g z _ e in
      let (unpeeked, e₂) = refuse_if-ok g.peeked_at_draw_pile _ _ e₁ in
      let (c, top, e₃) = or_fault-ok (back g.discard_pile) _ _ e₂ in
      let (p, seat, e₄) = or_fault-ok (player_at g.players z) _ _ e₃ in
      (
        turn,
        swaps_discard c p q ready unpeeked top (sym (current z turn) ∙ seat)
            (rw (updated_players_lem g (swap_card p c q) v) at (passed _ e₄)),
      )

  discard_draw-Step :
      (z : ℤ) {h : GameState}
      → swap_draw_for_discard_pile g z ≡ ok h
      → (z ≡ g.whose_turn) × Step g h discard_draw
  unfolding swap_draw_for_discard_pile
  discard_draw-Step z e =
      let (ready, turn, e₁) = guarded-ok g z _ e in
      let (c, top, e₂) = or_fault-ok (back g.draw_pile) _ _ e₁ in
      (turn, discards c ready top (passed _ e₂))

  peek-Step :
      (z : ℤ) {h : GameState} → peek_at_draw_pile g z ≡ ok h → (z ≡ g.whose_turn) × Step g h peek
  unfolding peek_at_draw_pile
  peek-Step z e =
      let (ready, turn, e₁) = guarded-ok g z _ e in
      let (unpeeked, e₂) = refuse_if-ok g.peeked_at_draw_pile _ _ e₁ in
      (turn, peeks ready unpeeked (sym (ok_inj e₂)))

  knock-Step : (z : ℤ) {h : GameState} → knock g z ≡ ok h → (z ≡ g.whose_turn) × Step g h knocks
  unfolding knock
  knock-Step z e =
      let (ready, turn, e₁) = guarded-ok g z _ e in
      let (unpeeked, e₂) = refuse_if-ok g.peeked_at_draw_pile _ _ e₁ in
      let (first, e₃) = refuse_if-ok (not (eq_ℤ g.who_knocked (negsuc 0))) _ _ e₂ in
      (
        turn,
        knocked ready unpeeked (ground (arith, eq_ℤ_iff g.who_knocked (negsuc 0))) (
            passed _ e₃
            ∙ ap
                (λ k. record g {
                  peeked_at_draw_pile = false;
                  whose_turn = next_index g;
                  who_knocked = k;
                })
                turn),
      )

  -- On a well-formed state, a move that the code carries out is that of the player whose turn it is,
  -- and follows the rules.
  pub play-Step :
      (m : Move) (z : ℤ) {h : GameState} → play m g z ≡ ok h → (z ≡ g.whose_turn) × Step g h m
  unfolding play
  play-Step peek z e = peek-Step z e
  play-Step discard_draw z e = discard_draw-Step z e
  play-Step knocks z e = knock-Step z e
  play-Step (swap_draw q) z e = swap_draw-Step z q e
  play-Step (swap_discard q) z e = swap_discard-Step z q e

  -- On a well-formed state, the code carries out what the rules allow the player whose turn it is.
  pub Step-play : (m : Move) {h : GameState} → Step g h m → play m g g.whose_turn ≡ ok h
  unfolding play peek_at_draw_pile swap_for_draw_pile swap_draw_for_discard_pile
      swap_for_discard_pile knock
  Step-play m (peeks r u e) = rw (r.0, r.1, eq_ℤ_refl g.whose_turn, u) (ap ok (sym e))
  Step-play m (discards c r top e) =
      rw (next_turn_lem g v, r.0, r.1, eq_ℤ_refl g.whose_turn, top) (ap ok (sym e))
  Step-play m (swaps_draw c p q r top seat e) =
      rw
        (
          next_turn_lem g v,
          r.0,
          r.1,
          eq_ℤ_refl g.whose_turn,
          top,
          current g.whose_turn refl ∙ seat,
          updated_players_lem g (swap_card p c q) v,
        )
        (ap ok (sym e))
  Step-play m (swaps_discard c p q r u top seat e) =
      rw
        (
          next_turn_lem g v,
          r.0,
          r.1,
          eq_ℤ_refl g.whose_turn,
          u,
          top,
          current g.whose_turn refl ∙ seat,
          updated_players_lem g (swap_card p c q) v,
        )
        (ap ok (sym e))
  Step-play m (knocked r u f e) =
      rw
        (
          next_turn_lem g v,
          r.0,
          r.1,
          eq_ℤ_refl g.whose_turn,
          u,
          (eq_ℤ_iff g.who_knocked (negsuc 0)).1 f,
        )
        (ap ok (sym e))

-- Where no rule stands against the move of the player whose turn it is, it leads somewhere.
Step-exists :
    (m : Move) (g : GameState)
    → IsValid g
    → IsUnderWay g
    → move_refusal m g ≡ none
    → (h : GameState) × Step g h m
unfolding move_refusal
Step-exists peek g v r e = (_, peeks r (ground arith) refl)
Step-exists discard_draw g v r e = let (c, top) = draw_pile_top g r.0 in (_, discards c r top refl)
Step-exists (swap_draw q) g v r e =
    let (c, top) = draw_pile_top g r.0 in
    let (p, seat) = get_elem?_lt g.players (turn_index g) (ground arith) in
    (_, swaps_draw c p q r top seat refl)
Step-exists (swap_discard q) g v r e =
    let (c, top) = back_nonempty g.discard_pile v.discards in
    let (p, seat) = get_elem?_lt g.players (turn_index g) (ground arith) in
    (_, swaps_discard c p q r (ground arith) top seat refl)
Step-exists knocks g v r e =
    (_, knocked r (ground arith) (ground (arith, eq_ℤ_iff g.who_knocked (negsuc 0))) refl)

carried_out :
    (m : Move) (g : GameState) (z : ℤ)
    → IsValid g
    → refusal m g z ≡ none
    → (h : GameState) × (play m g z ≡ ok h)
carried_out m g z v e =
    let (ready, turn, free) = unrefused m g z e in
    let (h, step) = Step-exists m g v ready free in
    (h, ap (λ y. play m g y) turn ∙ Step-play g v m step)

-- On a well-formed state every move returns: it is refused, with the message of the first rule that
-- stands against it, or no rule does and it is carried out.
pub play_total :
    (m : Move) (g : GameState) (z : ℤ)
    → IsValid g
    → ((msg : String) × (refusal m g z ≡ some msg)
        × (play m g z ≡ err (failed_precondition_error msg)))
      ⊎ ((refusal m g z ≡ none) × ((h : GameState) × (play m g z ≡ ok h)))
play_total m g z v = elim (Option-cases (refusal m g z)) [
  | inl e ↦ inr (e, carried_out m g z v e)
  | inr (msg, e) ↦ inl (msg, e, refused m g z msg e)
]
