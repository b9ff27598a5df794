-- ===== src/Golf/GameState/Seats.antt =====
-- By what seat game_state.cc knows a user, and whether anybody can move.
use moon_base.Base.{
  ℕ, zero, suc, ◌+◌, ◌<◌, ◌≤◌, String, ◌≡◌, ◌≢◌, refl, ap, sym, ◌∙◌, true, false, ◌⊎◌, inl, inr,
  Bool-cases, Option, none, some, List, [], ◌∷◌, arith, get_elem?, all_of, ltb, Option-cases,
  eq_iff, get_elem?_lt,
}
use mathlib.Core.Option.{some-injective}
use moon_base.Base.Int.{ℤ, pos}
use moon_base.Absl.{ok}
use moon_base.Golf.Player.{Player, name_matches, is_present}
use moon_base.Golf.GameState.{GameState, Move, discard_draw, play, player_index, player_index_from}
use moon_base.Golf.GameState.Valid.{IsValid, turn_index, whose_turn-turn_index}
use moon_base.Golf.GameState.Names.{index-IsNamed, found_from, IsNamed}
use moon_base.Golf.GameState.Rules.{IsUnderWay, refusal, discards, Step-play}
use moon_base.Golf.GameState.Rules.Refusals.{unrefused, draw_pile_top}

-- A user is known by the first seat of that name.
first_index :
    (i k l : ℕ) (u : String) (ps : List Player) (p : Player)
    → get_elem? ps k ≡ some p
    → p.name ≡ some u
    → player_index_from i ps u ≡ pos l
    → l ≤ i + k
unfolding player_index_from
first_index i k l u [] p seat n e = cc
first_index i zero l u (q ∷ ps) p seat n e =
    let m : name_matches q u ≡ true = rw (some-injective q p seat, n) ((eq_iff u u).1 refl) in
    let e' = rw (player_index_from, m) at e in ground (arith, e')
first_index i (suc k) l u (q ∷ ps) p seat n e = elim (Bool-cases (name_matches q u)) [
  | inl here ↦ let e' = rw (player_index_from, here) at e in ground (arith, e')
  | inr no_match ↦
      let b = first_index (i + 1) k l u ps p seat n (rw (player_index_from, no_match) at e) in
      omega (arith, b)
]

-- The seat that a name is found at.
index_seat :
    (u : String) (g : GameState) (j : ℕ)
    → player_index g u ≡ pos j
    → (q : Player) × (get_elem? g.players j ≡ some q) × (q.name ≡ some u)
unfolding player_index
index_seat u g j e =
    let (l, q, at, seat, name) = found_from 0 u g.players (index-IsNamed u g j e) in
    let same : l ≡ j = ground (arith, e, at) in (q, rw same at seat, name)

-- Where an earlier seat has the name of the seat whose turn it is, nobody is known by that seat.
not_first :
    (g : GameState) (i j : ℕ) (p q : Player) (u : String)
    → get_elem? g.players i ≡ some p
    → get_elem? g.players j ≡ some q
    → p.name ≡ q.name
    → i < j
    → player_index g u ≡ pos j
    → ⊥
unfolding player_index
not_first g i j p q u a b same lt e =
    let (r, seat, name) = index_seat u g j e in
    let here : q ≡ r = some-injective q r (sym b ∙ seat) in
    let first = first_index 0 i j u g.players p a (same ∙ ap (λ x. x.name) here ∙ name) e in
    omega (arith, first, lt)

-- A move by another than the player whose turn it is is refused.
pub not_turn_refusal :
    (m : Move) (g : GameState) (z : ℤ)
    → z ≢ g.whose_turn
    → (msg : String) × (refusal m g z ≡ some msg)
not_turn_refusal m g z other = elim (Option-cases (refusal m g z)) [
  | inl e ↦ let (_, turn, _) = unrefused m g z e in absurd (other turn)
  | inr refusing ↦ refusing
]

-- Where an earlier seat has the name of the seat whose turn it is, no user can move.
pub shared_name_refusal :
    (m : Move) (g : GameState) (i j : ℕ) (p q : Player) (u : String)
    → get_elem? g.players i ≡ some p
    → get_elem? g.players j ≡ some q
    → p.name ≡ q.name
    → i < j
    → g.whose_turn ≡ pos j
    → (msg : String) × (refusal m g (player_index g u) ≡ some msg)
shared_name_refusal m g i j p q u a b same lt turn =
    not_turn_refusal m g (player_index g u) (λ e. not_first g i j p q u a b same lt (e ∙ turn))

present_name :
    (ps : List Player) (k : ℕ) (q : Player)
    → all_of is_present ps ≡ true
    → get_elem? ps k ≡ some q
    → (u : String) × (q.name ≡ some u)
present_name [] k q all seat = cc
present_name (p ∷ ps) zero q all seat = named q.name (rw (some-injective p q seat) at here)
  where
    here : is_present p ≡ true
    here = ground (arith, all)

    named :
        (o : Option String)
        → (elim o [ none ↦ false | some n ↦ true ]) ≡ true
        → (u : String) × (o ≡ some u)
    named none e = cc
    named (some n) e = (n, refl)
present_name (p ∷ ps) (suc k) q all seat = present_name ps k q (ground (arith, all)) seat

seat-IsNamed :
    (u : String) (ps : List Player) (k : ℕ) (q : Player)
    → get_elem? ps k ≡ some q
    → q.name ≡ some u
    → IsNamed u ps
seat-IsNamed u [] k q seat name = cc
seat-IsNamed u (p ∷ ps) zero q seat name = inl (ap (λ x. x.name) (some-injective p q seat) ∙ name)
seat-IsNamed u (p ∷ ps) (suc k) q seat name = inr (seat-IsNamed u ps k q seat name)

-- The user by whose name the seat of the turn goes is known by that seat or by an earlier one.
turn_seat :
    (g : GameState) (q : Player) (u : String)
    → get_elem? g.players (turn_index g) ≡ some q
    → q.name ≡ some u
    → (player_index g u ≡ pos (turn_index g))
      ⊎ ((i : ℕ) × (p : Player) × (i < turn_index g)
          × (get_elem? g.players i ≡ some p)
          × (p.name ≡ q.name))
unfolding player_index
turn_seat g q u seat name =
    let (j, p, at, found, same) =
      found_from 0 u g.players (seat-IsNamed u g.players (turn_index g) q seat name) in
    let index : player_index_from 0 g.players u ≡ pos j = at ∙ ap pos (omega arith) in
    let first = first_index 0 (turn_index g) j u g.players q seat name index in
    elim (Bool-cases (ltb j (turn_index g))) [
      | inl e ↦ inr (j, p, ground (arith, e), found, same ∙ sym name)
      | inr e ↦ inl (index ∙ ap pos (ground (arith, e, first)))
    ]

-- On a well-formed game that is under way, some user can discard what is drawn, or an earlier seat has
-- the name of the seat whose turn it is.
pub someone_discards :
    (g : GameState)
    → IsValid g
    → IsUnderWay g
    → (q : Player) × (get_elem? g.players (turn_index g) ≡ some q)
      × (((u : String) × (h : GameState) × (q.name ≡ some u)
            × (play discard_draw g (player_index g u) ≡ ok h))
          ⊎ ((i : ℕ) × (p : Player) × (i < turn_index g)
              × (get_elem? g.players i ≡ some p)
              × (p.name ≡ q.name)))
someone_discards g v r =
    let (q, seat) = get_elem?_lt g.players (turn_index g) (ground arith) in
    let (u, name) = present_name g.players (turn_index g) q r.1 seat in
    let (c, top) = draw_pile_top g r.0 in
    (
      q,
      seat,
      elim (turn_seat g q u seat name) [
        | inl at ↦ inl (
          u,
          _,
          name,
          (ap (λ z. play discard_draw g z) (at ∙ sym (whose_turn-turn_index g v))
              ∙ Step-play g v discard_draw (discards c r top refl)),
        )
        | inr earlier ↦ inr earlier
      ],
    )
