-- ===== src/Golf/InMemoryGameStore/Laws/Consistency.antt =====
-- What holds between the calls of in_memory_game_store.cc.
use moon_base.Base.{
  ℕ, suc, ◌+◌, ◌≤◌, ◌<◌, String, ◌≡◌, refl, true, false, inl, inr, Option-cases, arith,
}
use moon_base.Base.Int.{int_max}
use moon_base.Base.Dict.{
  Dict, lookup, has_key, insert, lookup-insert, lookup-insert_self, Entries, Entries-lookup,
}
use moon_base.Base.Text.{to_string, to_string_inj}
use moon_base.Golf.GameState.{GameState}
use moon_base.Golf.InMemoryGameStore.{InMemoryGameStore}

-- A game as it is kept: satisfying `P`, under its own id, which the counter has given out.
pub record IsKept (P : GameState → Type 0) (n : ℕ) (key : String) (g : GameState) : Type 0 where
  pub good : P g
  pub own_id : g.game_id ≡ key
  pub number : ℕ
  pub given : number < n
  pub numbered : key ≡ to_string number

-- The invariant of the store, with room for `k` more games.
pub record IsConsistent (P : GameState → Type 0) (k : ℕ) (s : InMemoryGameStore) : Type 0 where
  pub room : s.counter + k ≤ int_max
  pub kept : Entries (IsKept P s.counter) s.games_by_id
  pub pointed : Entries (λ u id. has_key id s.games_by_id ≡ true) s.game_ids_by_user_id

pub has_key-insert :
    {V : Type 0} (k j : String) (v : V) (m : Dict V)
    → has_key j m ≡ true
    → has_key j (insert k v m) ≡ true
has_key-insert k j v m h = ground (arith, lookup-insert k j v m)

pub has_key-insert_self :
    {V : Type 0} (k : String) (v : V) (m : Dict V) → has_key k (insert k v m) ≡ true
has_key-insert_self k v m = ground (arith, lookup-insert_self k v m)

pub later :
    {P : GameState → Type 0} {n : ℕ} (key : String) (g : GameState)
    → IsKept P n key g
    → IsKept P (suc n) key g
later key g h = record {
  good = h.good;
  own_id = h.own_id;
  number = h.number;
  given = omega (arith, h.given);
  numbered = h.numbered;
}

-- An id that the counter has not given out is the key of no game.
pub unused_id :
    {P : GameState → Type 0} (k : ℕ) (s : InMemoryGameStore)
    → IsConsistent P k s
    → has_key (to_string s.counter) s.games_by_id ≡ false
unused_id {P} k s h = elim (Option-cases (lookup (to_string s.counter) s.games_by_id)) [
  | inl e ↦ rw (has_key, e) refl
  | inr (g, e) ↦
      let e' = Entries-lookup (IsKept P s.counter) _ s.games_by_id h.kept e in
      absurd (omega (arith, to_string_inj s.counter e'.number e'.numbered, e'.given))
]
