-- ===== src/Golf/InMemoryGameStore/Unordered.antt =====
-- The unordered containers of in_memory_game_store.cc hold no order: what its methods answer, the two
-- that list a whole container aside, depends only on what is in them.
pub mod Methods
use moon_base.Base.{
  ℕ, suc, String, ◌≡◌, refl, subst, ap, sym, ◌∙◌, Bool-cases, true, false, inl, inr, Option-cases,
  some, none, List, [], ◌∷◌, ◌==◌, str_eq, if◌then◌else◌,
}
use moon_base.Base.Int.{int_max}
use moon_base.Base.Dict.{Dict, lookup, has_key, insert, lookup-insert, member, member-add}
use moon_base.Base.Text.{to_string}
use moon_base.Absl.{StatusOr, StatusOr-cases, ok, err, fault}
use moon_base.Golf.Player.{Player}
use moon_base.Golf.GameState.{GameState, is_over, with_id_and_version}
use moon_base.Golf.GameStore.{Action, ◌>>=◌, attempt}
use moon_base.Golf.InMemoryGameStore.{
  InMemoryGameStore, add_user, user_exists, new_game, new_game_as, first_name, read_game,
  update_game, note_players,
}

-- Two dictionaries with the same entries.
abbrev pub SameEntries : {V : Type 0} → Dict V → Dict V → Type 0
SameEntries m n = (k : String) → lookup k m ≡ lookup k n

-- Two stores with the same users, games and ids of games, in whatever order.
pub record Same (s t : InMemoryGameStore) : Type 0 where
  pub users : (u : String) → member u s.users_online ≡ member u t.users_online
  pub ids : SameEntries s.game_ids_by_user_id t.game_ids_by_user_id
  pub games : SameEntries s.games_by_id t.games_by_id
  pub counter : s.counter ≡ t.counter

-- Two calls answer the same, and leave such stores.
pub record Agree {A : Type 0} (x y : StatusOr A × InMemoryGameStore) : Type 0 where
  pub result : x.0 ≡ y.0
  pub state : Same x.1 y.1

pub SameEntries-insert :
    {V : Type 0} (k : String) (v : V) (m n : Dict V)
    → SameEntries m n
    → SameEntries (insert k v m) (insert k v n)
SameEntries-insert k v m n h j =
    let e = h j in
    lookup-insert k j v m
    ∙ ap (λ o. if str_eq k j then some v else o) e
    ∙ sym (lookup-insert k j v n)

pub SameEntries-has_key :
    {V : Type 0} (k : String) (m n : Dict V) → SameEntries m n → has_key k m ≡ has_key k n
SameEntries-has_key k m n h = ap (λ o. elim o [ none ↦ false | some _ ↦ true ]) (h k)

pub SameEntries-note_players :
    (id : String) (ps : List Player) (m n : Dict String)
    → SameEntries m n
    → SameEntries (note_players id ps m) (note_players id ps n)
unfolding note_players
SameEntries-note_players id [] m n h = h
SameEntries-note_players id (p ∷ ps) m n h = elim (Option-cases p.name) [
  | inl e ↦ rw e (SameEntries-note_players id ps m n h)
  | inr (u, e) ↦ rw e (SameEntries-note_players id ps _ _ (SameEntries-insert u id m n h))
]

-- A call that goes on with what another has answered.
pub >>=-Agree :
    {A B : Type 0} (m : Action InMemoryGameStore A) (f : A → Action InMemoryGameStore B)
    (s t : InMemoryGameStore)
    → Agree (m s) (m t)
    → ((a : A) (s' t' : InMemoryGameStore) → Same s' t' → Agree (f a s') (f a t'))
    → Agree ((m >>= f) s) ((m >>= f) t)
>>=-Agree {A} {B} m f s t h k = go (m s).0 (m t).0 (m s).1 (m t).1 h.result h.state
  where
    same :
        (r : StatusOr A) (s' t' : InMemoryGameStore)
        → Same s' t'
        → Agree (((λ _. (r, s')) >>= f) s) (((λ _. (r, t')) >>= f) t)
    same (ok a) s' t' i = k a s' t' i
    same (err e) s' t' i = record { result = refl; state = i }
    same (fault b) s' t' i = record { result = refl; state = i }

    go :
        (r q : StatusOr A) (s' t' : InMemoryGameStore)
        → r ≡ q
        → Same s' t'
        → Agree (((λ _. (r, s')) >>= f) s) (((λ _. (q, t')) >>= f) t)
    go r q s' t' e i =
        subst (λ x. Agree (((λ _. (r, s')) >>= f) s) (((λ _. (x, t')) >>= f) t)) e (same r s' t' i)

pub attempt-Agree :
    {A B : Type 0} (m : Action InMemoryGameStore A) (f : StatusOr A → Action InMemoryGameStore B)
    (s t : InMemoryGameStore)
    → Agree (m s) (m t)
    → ((r : StatusOr A) (s' t' : InMemoryGameStore) → Same s' t' → Agree (f r s') (f r t'))
    → Agree (attempt m f s) (attempt m f t)
attempt-Agree {A} {B} m f s t h k = go (m s).0 (m t).0 (m s).1 (m t).1 h.result h.state
  where
    same :
        (r : StatusOr A) (s' t' : InMemoryGameStore)
        → Same s' t'
        → Agree (attempt (λ _. (r, s')) f s) (attempt (λ _. (r, t')) f t)
    same (ok a) s' t' i = k (ok a) s' t' i
    same (err e) s' t' i = k (err e) s' t' i
    same (fault b) s' t' i = record { result = refl; state = i }

    go :
        (r q : StatusOr A) (s' t' : InMemoryGameStore)
        → r ≡ q
        → Same s' t'
        → Agree (attempt (λ _. (r, s')) f s) (attempt (λ _. (q, t')) f t)
    go r q s' t' e i =
        subst (λ x. Agree (attempt (λ _. (r, s')) f s) (attempt (λ _. (x, t')) f t)) e
          (same r s' t' i)
