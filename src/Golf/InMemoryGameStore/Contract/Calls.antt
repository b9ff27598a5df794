-- ===== src/Golf/InMemoryGameStore/Contract/Calls.antt =====
-- Each method of in_memory_game_store.cc but the two that write games keeps its contract.
use moon_base.Base.{
  String, ◌≡◌, refl, ap, sym, ◌∙◌, Bool-cases, true, inl, inr, Option-cases, none, arith, str_eq,
  if◌then◌else◌,
}
use moon_base.Base.Dict.{
  Dict, lookup, has_key, member, member-add, member-erase, add-AreDistinct, erase-AreDistinct,
}
use moon_base.Absl.{StatusOr, ok, ◌>>=◌}
use moon_base.Golf.GameState.{GameState}
use moon_base.Golf.InMemoryGameStore.{
  InMemoryGameStore, add_user, user_exists, remove_user, read_game, read_game_by_user_id,
}
use moon_base.Golf.InMemoryGameStore.Contract.{
  adds_user, asks_for_user, removes_user, reads, reads_by_user, Answer, done, says, gives, Contents,
  specified,
}
use moon_base.Golf.InMemoryGameStore.Contract.Holds.{Holds}

-- What a method returns, as an answer.
abbrev pub answered : {A : Type 0} → (A → Answer) → StatusOr A → StatusOr Answer
answered f r = r >>= λ a. ok (f a)

-- A call returns what it is to answer, and leaves a store that holds what it is to hold.
pub record Keeps {A : Type 0} (f : A → Answer) (x : StatusOr A × InMemoryGameStore)
    (y : StatusOr Answer × Contents) : Type 0 where
  pub answer : answered f x.0 ≡ y.0
  pub state : Holds x.1 y.1

pub same :
    {A : Type 0} {f : A → Answer} {r : StatusOr A} {s : InMemoryGameStore} {c : Contents}
    → Holds s c
    → Keeps f (r, s) (answered f r, c)
same h = record { answer = refl; state = h }

pub adds_user-Keeps :
    (u : String) (s : InMemoryGameStore) (c : Contents)
    → Holds s c
    → Keeps (λ _. done) (add_user u s) (specified (adds_user u) c)
unfolding add_user specified
adds_user-Keeps u s c h = elim (Bool-cases (member u s.users_online)) [
  | inl e ↦ let f = sym (h.users u) ∙ e in rw (add_user, specified, e, f) (same h)
  | inr e ↦
      let f = sym (h.users u) ∙ e in
      rw (add_user, specified, e, f)
        (same (record {
          users = λ w.
              member-add u w s.users_online ∙ ap (λ b. if str_eq u w then true else b) (h.users w);
          distinct = add-AreDistinct u s.users_online h.distinct;
          games = h.games;
          ids = h.ids;
          counter = h.counter;
          pointed = h.pointed;
          fresh = h.fresh;
        }))
]

pub removes_user-Keeps :
    (u : String) (s : InMemoryGameStore) (c : Contents)
    → Holds s c
    → Keeps (λ _. done) (remove_user u s) (specified (removes_user u) c)
unfolding remove_user specified
removes_user-Keeps u s c h = same (record {
  users = λ w.
      let gone = member-erase u w s.users_online h.distinct in
      let before = h.users w in ground (arith, gone, before);
  distinct = erase-AreDistinct u s.users_online h.distinct;
  games = h.games;
  ids = h.ids;
  counter = h.counter;
  pointed = h.pointed;
  fresh = h.fresh;
})

pub asks_for_user-Keeps :
    (u : String) (s : InMemoryGameStore) (c : Contents)
    → Holds s c
    → Keeps says (user_exists u s) (specified (asks_for_user u) c)
unfolding user_exists specified
asks_for_user-Keeps u s c h = record { answer = ap (λ b. ok (says b)) (h.users u); state = h }

pub reads-Keeps :
    (id : String) (s : InMemoryGameStore) (c : Contents)
    → Holds s c
    → Keeps gives (read_game id s) (specified (reads id) c)
unfolding read_game specified
reads-Keeps id s c h = elim (Option-cases (lookup id s.games_by_id)) [
  | inl e ↦ let f = sym (h.games id) ∙ e in rw (read_game, specified, e, f) (same h)
  | inr (g, e) ↦ let f = sym (h.games id) ∙ e in rw (read_game, specified, e, f) (same h)
]

pub reads_by_user-Keeps :
    (u : String) (s : InMemoryGameStore) (c : Contents)
    → Holds s c
    → Keeps gives (read_game_by_user_id u s) (specified (reads_by_user u) c)
unfolding read_game_by_user_id specified
reads_by_user-Keeps u s c h = elim (Option-cases (lookup u s.game_ids_by_user_id)) [
  | inl e ↦ let f = sym (h.ids u) ∙ e in rw (read_game_by_user_id, specified, e, f) (same h)
  | inr (id, e) ↦
      let f = sym (h.ids u) ∙ e in
      elim (Option-cases (lookup id s.games_by_id)) [
        | inl l ↦ let there = h.pointed u id e in absurd (none_there id s.games_by_id l there)
        | inr (g, l) ↦
            let k = sym (h.games id) ∙ l in
            rw (read_game_by_user_id, specified, e, f, l, k) (same h)
      ]
]
  where
    none_there : (id : String) (m : Dict GameState) → lookup id m ≡ none → has_key id m ≡ true → ⊥
    none_there id m e h = ground (arith, e, h)
