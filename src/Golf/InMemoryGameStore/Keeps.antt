-- ===== src/Golf/InMemoryGameStore/Keeps.antt =====
-- The writing methods of in_memory_game_store.cc leave a game as it is that they are not about.
use moon_base.Base.{
  suc, String, ◌≡◌, ◌≢◌, ap, sym, ◌∙◌, Bool-cases, true, false, inl, inr, Option-cases, some, arith,
  ◌==◌, str_eq,
}
use mathlib.Core.Option.{some-injective}
use moon_base.Base.Int.{int_max}
use moon_base.Base.Dict.{Dict, lookup, has_key, lookup-insert_ne}
use moon_base.Base.Text.{to_string}
use moon_base.Absl.{StatusOr-cases}
use moon_base.Golf.GameState.{GameState, is_over, with_id_and_version}
use moon_base.Golf.InMemoryGameStore.{
  InMemoryGameStore, update_game, new_game, new_game_as, first_name,
}

-- The game `g` is in the store under `id`.
abbrev pub Has : String → GameState → InMemoryGameStore → Type 0
Has id g s = lookup id s.games_by_id ≡ some g

new_key :
    {V : Type 0} (k id : String) (v : V) (m : Dict V)
    → has_key k m ≡ false
    → lookup id m ≡ some v
    → k ≢ id
new_key k id v m unused e same = let e' = ap (λ x. lookup x m) same ∙ e in ground (arith, unused)

new_game_as-Has :
    (id key : String) (g h : GameState) (s : InMemoryGameStore)
    → Has id g s
    → Has id g (new_game_as key h s).1
unfolding new_game_as
new_game_as-Has id key g h s e = elim (StatusOr-cases (first_name h)) [
  | inr (inl (x, f)) ↦ rw (new_game_as, f) e
  | inr (inr (b, f)) ↦ rw (new_game_as, f) e
  | inl (u, f) ↦ elim (Bool-cases (str_eq u "")) [
    | inl a ↦ rw (new_game_as, f, a) e
    | inr a ↦ elim (Bool-cases (has_key u s.game_ids_by_user_id)) [
      | inl b ↦ rw (new_game_as, f, a, b) e
      | inr b ↦ elim (Bool-cases (has_key key s.games_by_id)) [
        | inl c ↦ rw (new_game_as, f, a, b, c) e
        | inr c ↦
            rw (new_game_as, f, a, b, c)
              (lookup-insert_ne key id h s.games_by_id (new_key key id g s.games_by_id c e) ∙ e)
      ]
    ]
  ]
]

pub new_game-Has :
    (id : String) (g h : GameState) (s : InMemoryGameStore) → Has id g s → Has id g (new_game h s).1
unfolding new_game new_game_as
new_game-Has id g h s e = elim (Bool-cases (s.counter == int_max)) [
  | inl f ↦ rw f e
  | inr f ↦ rw f (
      new_game_as-Has id (to_string s.counter) g (with_id_and_version h (to_string s.counter) "foo")
        (record s { counter = suc s.counter }) e)
]

pub update_game-Has :
    (id : String) (g h : GameState) (s : InMemoryGameStore)
    → (h.game_id ≡ id → is_over g ≡ true)
    → Has id g s
    → Has id g (update_game h s).1
unfolding update_game
update_game-Has id g h s ended e = elim (Option-cases (lookup h.game_id s.games_by_id)) [
  | inl f ↦ rw (update_game, f) e
  | inr (old, f) ↦ elim (Bool-cases (is_over old)) [
    | inl l ↦ rw (update_game, f, l) e
    | inr l ↦
        rw (update_game, f, l)
          (lookup-insert_ne h.game_id id h s.games_by_id (λ same.
              let one = some-injective old g (sym f ∙ ap (λ k. lookup k s.games_by_id) same ∙ e) in
              let on = sym (ap is_over one) ∙ l in let off = ended same in cc)
            ∙ e)
  ]
]
