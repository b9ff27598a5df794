-- ===== src/Golf/InMemoryGameStore/Reads.antt =====
-- What in_memory_game_store.cc gives back is what was last put into it.
use moon_base.Base.{
  inl, inr, ◌∙◌, Option-cases, ℕ, suc, ◌+◌, ◌≤◌, String, ◌≡◌, ◌≢◌, refl, false, some, arith, ◌==◌,
  ==_iff, str_eq, eq_iff,
}
use moon_base.Base.Int.{int_max}
use moon_base.Base.Dict.{lookup, has_key, insert, lookup-insert_self, lookup-insert_ne}
use moon_base.Base.Text.{to_string}
use moon_base.Absl.{ok}
use moon_base.Golf.GameState.{GameState, is_over, with_id_and_version}
use moon_base.Golf.GameStore.Safe.{HasCreator}
use moon_base.Golf.InMemoryGameStore.{
  InMemoryGameStore, first_name, new_game_as, new_game, read_game, read_game_by_user_id,
  update_game, note_players,
}
use moon_base.Golf.InMemoryGameStore.Laws.{IsConsistent, unused_id}

not_eq : (a b : String) → a ≢ b → str_eq a b ≡ false
not_eq a b h = ground (arith, eq_iff a b)

-- What is read depends on the entry alone.
read_same :
    (id : String) (s t : InMemoryGameStore)
    → lookup id t.games_by_id ≡ lookup id s.games_by_id
    → (read_game id t).0 ≡ (read_game id s).0
unfolding read_game
read_same id s t e = elim (Option-cases (lookup id s.games_by_id)) [
  | inl f ↦ let g = e ∙ f in rw (read_game, f, g) refl
  | inr (_, f) ↦ let g = e ∙ f in rw (read_game, f, g) refl
]

-- The store after `NewGame`.
abbrev with_new : String → GameState → InMemoryGameStore → InMemoryGameStore
with_new user_id g s =
    let id = to_string s.counter in
    record s {
      games_by_id = insert id (with_id_and_version g id "foo") s.games_by_id;
      game_ids_by_user_id = insert user_id id s.game_ids_by_user_id;
      counter = suc s.counter;
    }

-- In a consistent store with room for a game, a new game whose first player has a name, and is in no
-- game yet, is stored under an id that no game had, the counter's text: it is read back by that id
-- and by the player's name, and the other games are what they were.
pub new_game-read_game :
    (P : GameState → Type 0) (k : ℕ) (g : GameState) (s : InMemoryGameStore) (c : HasCreator g)
    (other : String)
    → IsConsistent P (suc k) s
    → c.creator_name ≢ ""
    → has_key c.creator_name s.game_ids_by_user_id ≡ false
    → to_string s.counter ≢ other
    → (t : InMemoryGameStore) × (new_game g s
        ≡ (ok (with_id_and_version g (to_string s.counter) "foo"), t))
      × (has_key (to_string s.counter) s.games_by_id ≡ false)
      × (read_game (to_string s.counter) t
          ≡ (ok (with_id_and_version g (to_string s.counter) "foo"), t))
      × (read_game_by_user_id c.creator_name t
          ≡ (ok (with_id_and_version g (to_string s.counter) "foo"), t))
      × ((read_game other t).0 ≡ (read_game other s).0)
unfolding new_game new_game_as first_name read_game read_game_by_user_id
new_game-read_game P k g s c other h name free ne =
    let unused = unused_id (suc k) s h in
    let some_room : s.counter == int_max ≡ false = below s.counter (omega (arith, h.room)) in
    let id = to_string s.counter in
    let kept = lookup-insert_self id (with_id_and_version g id "foo") s.games_by_id in
    let noted = lookup-insert_self c.creator_name id s.game_ids_by_user_id in
    let rest = lookup-insert_ne id other (with_id_and_version g id "foo") s.games_by_id ne in
    (
      with_new c.creator_name g s,
      rw (some_room, new_game_as, c.first, c.named, not_eq c.creator_name "" name, free, unused)
          refl,
      unused,
      rw (read_game, kept) refl,
      rw (read_game_by_user_id, noted, kept) refl,
      read_same other s _ rest,
    )
  where
    below : (n : ℕ) → n + 1 ≤ int_max → n == int_max ≡ false
    below n h = ground (arith, ==_iff n int_max)

-- A game that is stored and not over is replaced: the new state is read back by its id, and the
-- other games are what they were.
pub update_game-read_game :
    (g old : GameState) (s : InMemoryGameStore) (other : String)
    → lookup g.game_id s.games_by_id ≡ some old
    → is_over old ≡ false
    → g.game_id ≢ other
    → (t : InMemoryGameStore) × (update_game g s ≡ (ok g, t))
      × (read_game g.game_id t ≡ (ok g, t))
      × ((read_game other t).0 ≡ (read_game other s).0)
unfolding update_game read_game
update_game-read_game g old s other e on ne = (
  record s {
    game_ids_by_user_id = note_players g.game_id g.players s.game_ids_by_user_id;
    games_by_id = insert g.game_id g s.games_by_id;
  },
  rw (update_game, e, on) refl,
  rw (read_game, lookup-insert_self g.game_id g s.games_by_id) refl,
  read_same other s _ (lookup-insert_ne g.game_id other g s.games_by_id ne),
)
