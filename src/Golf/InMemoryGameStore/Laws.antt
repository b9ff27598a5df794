-- ===== src/Golf/InMemoryGameStore/Laws.antt =====
-- The invariant of in_memory_game_store.cc, and that it makes the store a safe one.
pub mod Consistency
mod Writes
use moon_base.Base.Dict.{Entries-map}
use moon_base.Base.{
  ℕ, suc, ◌+◌, ◌≤◌, ◌<◌, String, ◌≡◌, refl, sym, subst, Bool-cases, true, false, inl, inr, none,
  some, Option-cases, List, [], ◌∷◌, All, map, arith, ◌==◌, ==_iff, str_eq,
}
use moon_base.Base.Int.{int_max}
use moon_base.Base.Dict.{
  Dict, lookup, has_key, insert, lookup-insert, lookup-insert_self, Entries, Entries-lookup,
  Entries-insert, member,
}
use moon_base.Base.Text.{to_string, to_string_inj}
use moon_base.Golf.Player.{Player}
use moon_base.Golf.GameState.{GameState, is_over}
use moon_base.Golf.GameStore.Safe.{
  HasCreator, IsStable, Saved, SavedAs, Sound, returns, refuses, Safe,
}
use moon_base.Golf.InMemoryGameStore.{
  InMemoryGameStore, empty_store, add_user, user_exists, remove_user, get_users, new_game_as,
  first_name, new_game, read_game, read_game_by_user_id, read_all_games, note_players, update_game,
  in_memory_store,
}
pub use moon_base.Golf.InMemoryGameStore.Laws.Consistency.{IsKept, IsConsistent, unused_id}
use moon_base.Golf.InMemoryGameStore.Laws.Consistency.{has_key-insert, has_key-insert_self, later}
use moon_base.Golf.InMemoryGameStore.Laws.Writes.{new_game-Sound, update_game-Sound}

all_good :
    (P : GameState → Type 0) (n : ℕ) (m : Dict GameState)
    → Entries (IsKept P n) m
    → All P (map (λ e. e.1) m)
all_good P n [] h = tt
all_good P n ((k, g) ∷ m) h = (h.0.good, all_good P n m h.1)

no_key : (id : String) (m : Dict GameState) → lookup id m ≡ none → has_key id m ≡ true → ⊥
no_key id m e h = ground (arith, e, h)

-- The store in memory satisfies the laws of the interface.
pub in_memory_store-Safe : Safe in_memory_store IsConsistent
unfolding add_user user_exists remove_user get_users read_game read_game_by_user_id read_all_games
in_memory_store-Safe = record {
  weaken = λ P k s h. record { room = omega (arith, h.room); kept = h.kept; pointed = h.pointed };
  widen = λ P Q k s f h. record {
    room = h.room;
    kept =
        Entries-map s.games_by_id
          (λ id g i. record {
            good = f g i.good;
            own_id = i.own_id;
            number = i.number;
            given = i.given;
            numbered = i.numbered;
          })
          h.kept;
    pointed = h.pointed;
  };
  add_user = λ P k u s h. elim (Bool-cases (member u s.users_online)) [
    | inl e ↦ rw (add_user, e) (refuses h)
    | inr e ↦
        rw (add_user, e) (returns tt (record { room = h.room; kept = h.kept; pointed = h.pointed }))
  ];
  user_exists = λ P k u s h. returns tt h;
  remove_user =
      λ P k u s h. returns tt (record { room = h.room; kept = h.kept; pointed = h.pointed });
  get_users = λ P k s h. returns tt h;
  new_game = new_game-Sound;
  read_game = λ P k id s h. elim (Option-cases (lookup id s.games_by_id)) [
    | inl e ↦ rw (read_game, e) (refuses h)
    | inr (g, e) ↦
        rw (read_game, e)
          (returns (Entries-lookup (IsKept P s.counter) id s.games_by_id h.kept e).good h)
  ];
  read_game_by_user_id = λ P k u s h. elim (Option-cases (lookup u s.game_ids_by_user_id)) [
    | inl e ↦ rw (read_game_by_user_id, e) (refuses h)
    | inr (id, e) ↦ elim (Option-cases (lookup id s.games_by_id)) [
      | inl f ↦
          let pointed =
            Entries-lookup (λ u i. has_key i s.games_by_id ≡ true) u s.game_ids_by_user_id h.pointed
              e in
          absurd (no_key id s.games_by_id f pointed)
      | inr (g, f) ↦
          rw (read_game_by_user_id, e, f)
            (returns (Entries-lookup (IsKept P s.counter) id s.games_by_id h.kept f).good h)
    ]
  ];
  read_all_games = λ P k s h. returns (all_good P s.counter s.games_by_id h.kept) h;
  update_game = update_game-Sound;
}

-- Before any call, the store has room for as many games as there are positive ints.
pub empty_store-IsConsistent :
    (P : GameState → Type 0) (n : ℕ) → n ≤ int_max → IsConsistent P n empty_store
empty_store-IsConsistent P n h = record { room = omega (arith, h); kept = tt; pointed = tt }
