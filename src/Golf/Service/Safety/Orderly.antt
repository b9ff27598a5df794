-- ===== src/Golf/Service/Safety/Orderly.antt =====
-- Events of router.cc that come in order: messages over open connections, and closes of connections
-- that no message has come over.
use moon_base.Base.{ℕ, ◌≡◌, ap, true, false, inl, inr, Bool-cases, List, [], ◌∷◌, ◌==◌, arith, Perm}
use moon_base.Golf.Deal.{count_up}
use moon_base.Golf.Service.{has_connection}
use moon_base.Golf.Service.Router.{
  Event, accepted, closed, http_message, ws_message, without, closed_after,
}

-- Which connections a message has come over, after an event.
abbrev pub heard_after : Event → List ℕ → List ℕ
heard_after (accepted c) heard = heard
heard_after (closed c) heard = heard
heard_after (http_message c uri) heard = heard
heard_after (ws_message c text shuffle) heard = c ∷ heard

-- A message comes over an open connection, with a shuffle that orders the deck anew, and no connection
-- that a message has come over is closed.
abbrev pub Fits : List ℕ → List ℕ → Event → Type 0
Fits heard ds (accepted c) = Unit
Fits heard ds (closed c) = has_connection c heard ≡ false
Fits heard ds (http_message c uri) = Unit
Fits heard ds (ws_message c text shuffle) =
    Perm (shuffle (count_up 0 52)) (count_up 0 52) × (has_connection c ds ≡ false)

-- All the events fit, each after those before it.
abbrev pub Orderly : List ℕ → List ℕ → List Event → Type 0
Orderly heard ds [] = Unit
Orderly heard ds (e ∷ es) = Fits heard ds e × Orderly (heard_after e heard) (closed_after e ds) es

pub has_connection-without :
    (c d : ℕ) (ds : List ℕ) → has_connection d ds ≡ false → has_connection d (without c ds) ≡ false
has_connection-without c d [] h = h
has_connection-without c d (e ∷ ds) h =
    let less = has_connection-without c d ds in ground (arith, less)

-- A connection that is on a list is not another that is not.
pub has_connection-other :
    (c d : ℕ) (heard ds : List ℕ)
    → has_connection c heard ≡ false
    → has_connection d heard ≡ true
    → has_connection d ds ≡ false
    → has_connection d (c ∷ ds) ≡ false
has_connection-other c d heard ds new old h = elim (Bool-cases (c == d)) [
  | inl same ↦
      let one : c ≡ d = ground (arith, same) in
      let there = ap (λ x. has_connection x heard) one in cc
  | inr other ↦ rw other h
]
