-- ===== src/Golf/InMemoryGameStore/Unordered/Methods.antt =====
-- The methods of in_memory_game_store.cc that the manager's answers depend on, on stores that hold the
-- same in another order.
use moon_base.Base.{
  ℕ, suc, String, ◌≡◌, refl, subst, ap, sym, ◌∙◌, Bool-cases, true, inl, inr, Option-cases, ◌==◌,
  str_eq, if◌then◌else◌,
}
use moon_base.Base.Int.{int_max}
use moon_base.Base.Dict.{lookup, has_key, member, member-add}
use moon_base.Base.Text.{to_string}
use moon_base.Absl.{StatusOr-cases, ok}
use moon_base.Golf.GameState.{GameState, is_over, with_id_and_version}
use moon_base.Golf.InMemoryGameStore.{
  InMemoryGameStore, add_user, user_exists, new_game, new_game_as, first_name, read_game,
  update_game,
}
use moon_base.Golf.InMemoryGameStore.Unordered.{
  Same, Agree, SameEntries-insert, SameEntries-has_key, SameEntries-note_players,
}

pub user_exists-Agree :
    (u : String) (s t : InMemoryGameStore) → Same s t → Agree (user_exists u s) (user_exists u t)
unfolding user_exists
user_exists-Agree u s t h = record { result = ap ok (h.users u); state = h }

pub read_game-Agree :
    (id : String) (s t : InMemoryGameStore) → Same s t → Agree (read_game id s) (read_game id t)
unfolding read_game
read_game-Agree id s t h = elim (Option-cases (lookup id s.games_by_id)) [
  | inl e ↦
      let f = sym (h.games id) ∙ e in rw (read_game, e, f) (record { result = refl; state = h })
  | inr (g, e) ↦
      let f = sym (h.games id) ∙ e in rw (read_game, e, f) (record { result = refl; state = h })
]

pub add_user-Agree :
    (u : String) (s t : InMemoryGameStore) → Same s t → Agree (add_user u s) (add_user u t)
unfolding add_user
add_user-Agree u s t h = elim (Bool-cases (member u s.users_online)) [
  | inl e ↦ let f = sym (h.users u) ∙ e in rw (add_user, e, f) (record { result = refl; state = h })
  | inr e ↦
      let f = sym (h.users u) ∙ e in
      rw (add_user, e, f)
        (record {
          result = refl;
          state = record {
            users = λ w.
                member-add u w s.users_online
                ∙ ap (λ b. if str_eq u w then true else b) (h.users w)
                ∙ sym (member-add u w t.users_online);
            ids = h.ids;
            games = h.games;
            counter = h.counter;
          };
        })
]

pub update_game-Agree :
    (g : GameState) (s t : InMemoryGameStore) → Same s t → Agree (update_game g s) (update_game g t)
unfolding update_game
update_game-Agree g s t h = elim (Option-cases (lookup g.game_id s.games_by_id)) [
  | inl e ↦
      let f = sym (h.games g.game_id) ∙ e in
      rw (update_game, e, f) (record { result = refl; state = h })
  | inr (old, e) ↦
      let f = sym (h.games g.game_id) ∙ e in
      elim (Bool-cases (is_over old)) [
        | inl l ↦ rw (update_game, e, f, l) (record { result = refl; state = h })
        | inr l ↦
            rw (update_game, e, f, l)
              (record {
                result = refl;
                state = record {
                  users = h.users;
                  ids = SameEntries-note_players g.game_id g.players _ _ h.ids;
                  games = SameEntries-insert g.game_id g _ _ h.games;
                  counter = h.counter;
                };
              })
      ]
]

new_game_as-Agree :
    (id : String) (g : GameState) (s t : InMemoryGameStore)
    → Same s t
    → Agree (new_game_as id g s) (new_game_as id g t)
unfolding new_game_as
new_game_as-Agree id g s t h = elim (StatusOr-cases (first_name g)) [
  | inr (inl (x, f)) ↦ rw (new_game_as, f) (record { result = refl; state = h })
  | inr (inr (b, f)) ↦ rw (new_game_as, f) (record { result = refl; state = h })
  | inl (u, f) ↦ elim (Bool-cases (str_eq u "")) [
    | inl a ↦ rw (new_game_as, f, a) (record { result = refl; state = h })
    | inr a ↦ elim (Bool-cases (has_key u s.game_ids_by_user_id)) [
      | inl b ↦
          let b' = sym (SameEntries-has_key u _ _ h.ids) ∙ b in
          rw (new_game_as, f, a, b, b') (record { result = refl; state = h })
      | inr b ↦
          let b' = sym (SameEntries-has_key u _ _ h.ids) ∙ b in
          elim (Bool-cases (has_key id s.games_by_id)) [
            | inl c ↦
                let c' = sym (SameEntries-has_key id _ _ h.games) ∙ c in
                rw (new_game_as, f, a, b, b', c, c') (record { result = refl; state = h })
            | inr c ↦
                let c' = sym (SameEntries-has_key id _ _ h.games) ∙ c in
                rw (new_game_as, f, a, b, b', c, c')
                  (record {
                    result = refl;
                    state = record {
                      users = h.users;
                      ids = SameEntries-insert u id _ _ h.ids;
                      games = SameEntries-insert id g _ _ h.games;
                      counter = h.counter;
                    };
                  })
          ]
    ]
  ]
]

pub new_game-Agree :
    (g : GameState) (s t : InMemoryGameStore) → Same s t → Agree (new_game g s) (new_game g t)
unfolding new_game
new_game-Agree g s t h = elim (Bool-cases (s.counter == int_max)) [
  | inl f ↦
      let f' = ap (λ n. n == int_max) (sym h.counter) ∙ f in
      rw (f, f') (record { result = refl; state = h })
  | inr f ↦
      let f' = ap (λ n. n == int_max) (sym h.counter) ∙ f in
      rw (f, f') (raised s.counter t.counter h.counter)
]
  where
    raised :
        (n m : ℕ)
        → n ≡ m
        → Agree
            (new_game_as
              (to_string n)
              (with_id_and_version g (to_string n) "foo")
              (record s { counter = suc n }))
            (new_game_as
              (to_string m)
              (with_id_and_version g (to_string m) "foo")
              (record t { counter = suc m }))
    raised n m e =
        subst
          (λ k.
            Agree
              (new_game_as (to_string n) (with_id_and_version g (to_string n) "foo")
                (record s { counter = suc n }))
              (new_game_as (to_string k) (with_id_and_version g (to_string k) "foo")
                (record t { counter = suc k })))
          e
          (new_game_as-Agree (to_string n) (with_id_and_version g (to_string n) "foo")
            (record s { counter = suc n }) (record t { counter = suc n })
            (record { users = h.users; ids = h.ids; games = h.games; counter = refl }))
