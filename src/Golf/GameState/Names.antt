-- ===== src/Golf/GameState/Names.antt =====
-- The names at the table: no move of game_state.cc changes one, and who has a name has a seat.
use moon_base.Base.{
  ℕ, zero, suc, ◌+◌, String, ◌≡◌, refl, ap, ◌∙◌, true, false, ◌⊎◌, inl, inr, Bool-cases, Option,
  none, some, List, [], ◌∷◌, map, arith, All, get_elem?, set, str_eq, eq_iff,
}
use moon_base.Base.Int.{ℤ, pos}
use moon_base.Absl.{ok}
use moon_base.Cards.{Card}
use moon_base.Golf.Player.{Player, Position, swap_card, name_matches}
use moon_base.Golf.GameState.{GameState, Move, play, player_at, player_index_from, player_index}
use moon_base.Golf.GameState.Valid.{IsValid}
use moon_base.Golf.GameState.Rules.{
  Step, peeks, discards, swaps_draw, swaps_discard, knocked, play-Step,
}

abbrev pub names_of : List Player → List (Option String)
names_of ps = map (λ x. x.name) ps

names_of-set :
    (ps : List Player) (i : ℕ) (p : Player) (c : Card) (q : Position)
    → get_elem? ps i ≡ some p
    → names_of (set ps i (swap_card p c q)) ≡ names_of ps
names_of-set [] i p c q e = refl
names_of-set (x ∷ ps) zero p c q e = ground arith
names_of-set (x ∷ ps) (suc i) p c q e = ap (◌∷◌ x.name) (names_of-set ps i p c q e)

Step-names_of : {g h : GameState} (m : Move) → Step g h m → names_of h.players ≡ names_of g.players
Step-names_of m (peeks r u e) = rw e refl
Step-names_of m (discards c r top e) = rw e refl
Step-names_of {g} m (swaps_draw c p q r top seat e) = rw e (names_of-set g.players _ p c q seat)
Step-names_of {g} m (swaps_discard c p q r u top seat e) =
    rw e (names_of-set g.players _ p c q seat)
Step-names_of m (knocked r u f e) = rw e refl

-- A move that is carried out on a well-formed state leaves every seat its name.
pub play-names_of :
    (m : Move) (g : GameState) (z : ℤ) {h : GameState}
    → IsValid g
    → play m g z ≡ ok h
    → names_of h.players ≡ names_of g.players
play-names_of m g z v e = Step-names_of m (play-Step g v m z e).1

-- A player has the name.
abbrev pub IsNamed : String → List Player → Type 0
IsNamed u [] = ⊥
IsNamed u (p ∷ ps) = (p.name ≡ some u) ⊎ IsNamed u ps

name_matches-eq : (p : Player) (u : String) → name_matches p u ≡ true → p.name ≡ some u
name_matches-eq p u e = let (n, f, s) = named p.name e in f ∙ ap some ((eq_iff n u).0 s)
  where
    named :
        (o : Option String)
        → (elim o [ none ↦ false | some n ↦ str_eq n u ]) ≡ true
        → (n : String) × (o ≡ some n) × (str_eq n u ≡ true)
    named none e = cc
    named (some n) e = (n, refl, e)

-- Where a name is found from index `i` on.
pub found_from :
    (i : ℕ) (u : String) (ps : List Player)
    → IsNamed u ps
    → (j : ℕ) × (q : Player) × (player_index_from i ps u ≡ pos (i + j))
      × (get_elem? ps j ≡ some q)
      × (q.name ≡ some u)
unfolding player_index_from
found_from i u [] h = absurd h
found_from i u (p ∷ ps) h = elim (Bool-cases (name_matches p u)) [
  | inl e ↦ (0, p, rw e (ap pos (omega arith)), refl, name_matches-eq p u e)
  | inr e ↦ elim h [
    | inl f ↦ absurd (clash p u e f)
    | inr more ↦
        let (j, q, at, seat, name) = found_from (i + 1) u ps more in
        (suc j, q, rw e (at ∙ ap pos (omega arith)), seat, name)
  ]
]
  where
    clash : (p : Player) (u : String) → name_matches p u ≡ false → p.name ≡ some u → ⊥
    clash p u e f = ground (arith, eq_iff u u)

-- A name at the table is found, at a seat of that name.
pub player_index-IsNamed :
    (u : String) (g : GameState)
    → IsNamed u g.players
    → (p : Player) × (player_at g.players (player_index g u) ≡ some p) × (p.name ≡ some u)
unfolding player_index
player_index-IsNamed u g h =
    let (j, q, at, seat, name) = found_from 0 u g.players h in
    let index : player_index_from 0 g.players u ≡ pos j = at ∙ ap pos (omega arith) in
    (q, rw index seat, name)

-- Who is found has a seat.
found-IsNamed :
    (i j : ℕ) (u : String) (ps : List Player) → player_index_from i ps u ≡ pos j → IsNamed u ps
unfolding player_index_from
found-IsNamed i j u [] e = cc
found-IsNamed i j u (p ∷ ps) e = elim (Bool-cases (name_matches p u)) [
  | inl here ↦ inl (name_matches-eq p u here)
  | inr no_match ↦ inr (found-IsNamed (i + 1) j u ps (rw (player_index_from, no_match) at e))
]

pub index-IsNamed :
    (u : String) (g : GameState) (j : ℕ) → player_index g u ≡ pos j → IsNamed u g.players
unfolding player_index
index-IsNamed u g j e = found-IsNamed 0 j u g.players e

-- A seat keeps its place where the names do.
pub IsNamed-names_of :
    (u : String) (ps qs : List Player) → names_of qs ≡ names_of ps → IsNamed u ps → IsNamed u qs
IsNamed-names_of u [] qs e h = absurd h
IsNamed-names_of u (p ∷ ps) [] e h = cc
IsNamed-names_of u (p ∷ ps) (q ∷ qs) e (inl h) = inl (cc)
IsNamed-names_of u (p ∷ ps) (q ∷ qs) e (inr h) = inr (IsNamed-names_of u ps qs (cc) h)

-- What holds of a seat's name, if it has one.
abbrev pub OfName {κ} : (String → Type κ) → Option String → Type κ
OfName Q none = Unit
OfName Q (some n) = Q n

within-IsNamed :
    (ps qs : List Player)
    → ((u : String) → IsNamed u ps → IsNamed u qs)
    → All (OfName (λ u. IsNamed u qs)) (names_of ps)
within-IsNamed [] qs f = tt
within-IsNamed (p ∷ ps) qs f =
    (at p.name (λ u e. f u (inl e)), within-IsNamed ps qs (λ u h. f u (inr h)))
  where
    at :
        (o : Option String)
        → ((u : String) → o ≡ some u → IsNamed u qs)
        → OfName (λ u. IsNamed u qs) o
    at none g = tt
    at (some n) g = g n refl

-- Every name of a table is one at the table.
pub all-IsNamed : (ps : List Player) → All (OfName (λ u. IsNamed u ps)) (names_of ps)
all-IsNamed ps = within-IsNamed ps ps (λ u h. h)
