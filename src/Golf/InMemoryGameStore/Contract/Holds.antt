-- ===== src/Golf/InMemoryGameStore/Contract/Holds.antt =====
-- When the containers of in_memory_game_store.cc hold the contents that its contract speaks of.
use moon_base.Base.{
  ℕ, ◌≤◌, String, ◌≡◌, refl, ap, ◌∙◌, true, false, inl, inr, Option, Option-cases, some, List, [],
  ◌∷◌, arith, str_eq, if◌then◌else◌,
}
use moon_base.Base.Dict.{Dict, lookup, has_key, insert, lookup-insert, member, AreDistinct}
use moon_base.Base.Text.{to_string}
use moon_base.Golf.Player.{Player}
use moon_base.Golf.InMemoryGameStore.{InMemoryGameStore, empty_store, note_players}
use moon_base.Golf.InMemoryGameStore.Contract.{Contents, nothing, set_at, sits}

pub record Holds (s : InMemoryGameStore) (c : Contents) : Type 0 where
  pub users : (u : String) → member u s.users_online ≡ c.online u
  pub distinct : AreDistinct s.users_online
  pub games : (id : String) → lookup id s.games_by_id ≡ c.game id
  pub ids : (u : String) → lookup u s.game_ids_by_user_id ≡ c.id_of u
  pub counter : s.counter ≡ c.opened
  pub pointed :
      (u id : String) → lookup u s.game_ids_by_user_id ≡ some id → has_key id s.games_by_id ≡ true
  pub fresh : (n : ℕ) → s.counter ≤ n → has_key (to_string n) s.games_by_id ≡ false

pub empty_store-Holds : Holds empty_store nothing
empty_store-Holds = record {
  users = λ u. refl;
  distinct = tt;
  games = λ id. refl;
  ids = λ u. refl;
  counter = refl;
  pointed = λ u id e. cc;
  fresh = λ n h. refl;
}

-- An entry that is written is a function changed at its key.
pub insert-set_at :
    {V : Type 0} (k : String) (v : V) (m : Dict V) (f : String → Option V)
    → ((j : String) → lookup j m ≡ f j)
    → (j : String) → lookup j (insert k v m) ≡ set_at k (some v) f j
insert-set_at k v m f h j = lookup-insert k j v m ∙ ap (λ o. if str_eq k j then some v else o) (h j)

-- Every player's id is noted.
pub note_players-sits :
    (id : String) (ps : List Player) (m : Dict String) (u : String)
    → lookup u (note_players id ps m) ≡ (if sits u ps then some id else lookup u m)
unfolding note_players
note_players-sits id [] m u = refl
note_players-sits id (p ∷ ps) m u = elim (Option-cases p.name) [
  | inl e ↦ rw e (note_players-sits id ps m u)
  | inr (n, e) ↦ rw e (
      let rest = note_players-sits id ps (insert n id m) u in
      let first = lookup-insert n u id m in ground (arith, rest, first))
]
