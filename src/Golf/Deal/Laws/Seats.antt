-- ===== src/Golf/Deal/Laws/Seats.antt =====
-- The seats that `newGame` fills from the cards it has dealt.
use mathlib.Core.List.{perm_middle}
use mathlib.Core.List.Perm
use native.Mathlib.Numerals.{add-one}
use moon_base.Base.{
  ℕ, zero, suc, ◌+◌, ◌*◌, ◌≤◌, String, ◌≡◌, refl, ap, none, some, List, [], ◌∷◌, ◌++◌, Perm, arith,
  ◌==◌, if◌then◌else◌, length, get_elem?,
}
use moon_base.Absl.{ok}
use moon_base.Cards.{Card}
use moon_base.Golf.Player.{Player}
use moon_base.Golf.GameState.Conservation.{hands}
use moon_base.Golf.Deal.{seats}

-- The list holds `xs` from the index on.
abbrev Holds : List Card → ℕ → List Card → Type 0
Holds d i [] = Unit
Holds d i (x ∷ xs) = (get_elem? d i ≡ some x) × Holds d (suc i) xs

Holds-cons :
    (d : List Card) (y : Card) (i : ℕ) (xs : List Card) → Holds d i xs → Holds (y ∷ d) (suc i) xs
Holds-cons d y i [] h = tt
Holds-cons d y i (x ∷ xs) h = (h.0, Holds-cons d y (suc i) xs h.1)

pub Holds-left : (xs ys : List Card) → Holds (xs ++ ys) 0 xs
Holds-left [] ys = tt
Holds-left (x ∷ xs) ys = (refl, Holds-cons (xs ++ ys) x 0 xs (Holds-left xs ys))

Holds-all : (ys : List Card) → Holds ys 0 ys
Holds-all [] = tt
Holds-all (y ∷ ys) = (refl, Holds-cons ys y 0 ys (Holds-all ys))

pub Holds-right : (xs ys : List Card) → Holds (xs ++ ys) (length xs) ys
Holds-right [] ys = Holds-all ys
Holds-right (x ∷ xs) ys = Holds-cons (xs ++ ys) x (length xs) ys (Holds-right xs ys)

pub split_at :
    (n : ℕ) (xs : List Card)
    → n ≤ length xs
    → (front : List Card) × (behind : List Card) × (xs ≡ front ++ behind) × (length front ≡ n)
split_at zero xs h = ([], xs, refl, refl)
split_at (suc n) [] h = elim h [ ]
split_at (suc n) (x ∷ xs) h =
    let (front, behind, e, l) = split_at n xs (omega arith) in
    (x ∷ front, behind, ap (◌∷◌ x) e, ap suc l)

-- Player 0 has the user's name, the others have none.
abbrev pub NamedFrom : String → ℕ → List Player → Type 0
NamedFrom user_id i [] = Unit
NamedFrom user_id i (p ∷ ps) =
    (p.name ≡ (if i == 0 then some user_id else none)) × NamedFrom user_id (suc i) ps

-- The seats filled from two equal stretches of the cards dealt.
pub record Seated (user_id : String) (d : List Card) (halfway k i : ℕ) (a b : List Card)
    : Type 0 where
  pub seated : List Player
  pub result : seats user_id d halfway k i ≡ ok seated
  pub number : length seated ≡ k
  pub named : NamedFrom user_id i seated
  pub same : Perm (hands seated) (a ++ b)

interleave-perm :
    (x y z w : Card) (a b : List Card)
    → Perm (x ∷ y ∷ z ∷ w ∷ (a ++ b)) ((x ∷ y ∷ a) ++ (z ∷ w ∷ b))
interleave-perm x y z w a b =
    Perm.cons x
      (Perm.cons y (Perm.symm (Perm.trans (perm_middle a (w ∷ b)) (Perm.cons z (perm_middle a b)))))

pub seats_lem :
    (user_id : String) (d : List Card) (halfway k i : ℕ) (a b : List Card)
    → length a ≡ 2 * k
    → length b ≡ 2 * k
    → Holds d (2 * i) a
    → Holds d (2 * i + halfway) b
    → Seated user_id d halfway k i a b
unfolding seats
seats_lem user_id d halfway zero i [] [] la lb ha hb = record {
  seated = [];
  result = refl;
  number = refl;
  named = tt;
  same = Perm.refl _;
}
seats_lem user_id d halfway zero i [] (z ∷ b) la lb ha hb = absurd (omega arith)
seats_lem user_id d halfway zero i (x ∷ a) b la lb ha hb = absurd (omega arith)
seats_lem user_id d halfway (suc k) i [] b la lb ha hb = absurd (omega arith)
seats_lem user_id d halfway (suc k) i (x ∷ []) b la lb ha hb = absurd (omega arith)
seats_lem user_id d halfway (suc k) i (x ∷ y ∷ a) [] la lb ha hb = absurd (omega arith)
seats_lem user_id d halfway (suc k) i (x ∷ y ∷ a) (z ∷ []) la lb ha hb = absurd (omega arith)
seats_lem user_id d halfway (suc k) i (x ∷ y ∷ a) (z ∷ w ∷ b) la lb ha hb =
    let s =
      seats_lem user_id d halfway k (suc i) a b (omega arith) (omega arith) (rw doubled ha.1.1)
        (rw doubled_behind hb.1.1) in
    record {
      seated = _ ∷ s.seated;
      result = rw (
        add-one (2 * i),
        add-one (2 * i + halfway),
        add-one i,
        ha.0,
        ha.1.0,
        hb.0,
        hb.1.0,
        s.result,
      );
      number = ap suc s.number;
      named = (refl, s.named);
      same =
          Perm.trans (Perm.append_left (x ∷ y ∷ z ∷ w ∷ []) s.same) (interleave-perm x y z w a b);
    }
  where
    doubled : 2 * suc i ≡ suc (suc (2 * i))
    doubled = omega arith

    doubled_behind : 2 * suc i + halfway ≡ suc (suc (2 * i + halfway))
    doubled_behind = omega arith
