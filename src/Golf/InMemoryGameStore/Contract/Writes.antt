-- ===== src/Golf/InMemoryGameStore/Contract/Writes.antt =====
-- The two methods of in_memory_game_store.cc that write games keep their contract.
use moon_base.Base.{
  ℕ, suc, ◌≤◌, ◌⊎◌, String, ◌≡◌, ◌≢◌, refl, ap, sym, subst, ◌∙◌, Bool-cases, true, false, inl, inr,
  Option-cases, some, List, [], ◌∷◌, arith, str_eq, eq_iff, if◌then◌else◌, ◌==◌,
}
use mathlib.Core.Option.{some-injective}
use moon_base.Base.Int.{int_max}
use moon_base.Base.Dict.{Dict, lookup, has_key, insert, lookup-insert}
use moon_base.Base.Text.{to_string, to_string_inj}
use moon_base.Golf.Player.{Player}
use moon_base.Golf.GameState.{GameState, is_over, with_id_and_version}
use moon_base.Golf.InMemoryGameStore.{
  InMemoryGameStore, new_game, new_game_as, first_name, update_game, note_players,
}
use moon_base.Golf.InMemoryGameStore.Contract.{
  opens, updates, gives, Contents, specified, opened_as, sits,
}
use moon_base.Golf.InMemoryGameStore.Contract.Holds.{Holds, insert-set_at, note_players-sits}
use moon_base.Golf.InMemoryGameStore.Contract.Calls.{Keeps, same}

has_key-set :
    {V : Type 0} (k j : String) (v : V) (m : Dict V)
    → has_key j (insert k v m) ≡ (if str_eq k j then true else has_key j m)
has_key-set k j v m = let e = lookup-insert k j v m in ground (arith, e)

-- A key that is not there is another than one that is, and stays away when that is written.
other_key :
    {V : Type 0} (k j : String) (v : V) (m : Dict V)
    → lookup k m ≡ some v
    → has_key j m ≡ false
    → k ≢ j
other_key k j v m there unused e =
    let here = ap (λ x. lookup x m) (sym e) ∙ there in ground (arith, unused, here)

fresh-insert :
    {V : Type 0} (k j : String) (v : V) (m : Dict V)
    → k ≢ j
    → has_key j m ≡ false
    → has_key j (insert k v m) ≡ false
fresh-insert k j v m apart unused =
    let e = has_key-set k j v m in ground (arith, e, eq_iff k j, apart, unused)

-- The ids of users stay those of games when a game is written under its id.
pointed-insert :
    (id : String) (g : GameState) (ids ids' : Dict String) (m : Dict GameState)
    → ((u i : String) → lookup u ids ≡ some i → has_key i m ≡ true)
    → ((u i : String) → lookup u ids' ≡ some i → (id ≡ i) ⊎ (lookup u ids ≡ some i))
    → (u i : String) → lookup u ids' ≡ some i
    → has_key i (insert id g m) ≡ true
pointed-insert id g ids ids' m old from u i e = elim (from u i e) [
  | inl mine ↦ let k = has_key-set id i g m in ground (arith, k, eq_iff id i)
  | inr before ↦
      let k = has_key-set id i g m in let there = old u i before in ground (arith, k, there)
]

updated_ids :
    (id : String) (ps : List Player) (m : Dict String) (u i : String)
    → lookup u (note_players id ps m) ≡ some i
    → (id ≡ i) ⊎ (lookup u m ≡ some i)
updated_ids id ps m u i e = elim (Bool-cases (sits u ps)) [
  | inl b ↦
      let k : lookup u (note_players id ps m) ≡ some id =
        note_players-sits id ps m u ∙ ap (λ x. if x then some id else lookup u m) b in
      inl (some-injective id i (sym k ∙ e))
  | inr b ↦
      let k : lookup u (note_players id ps m) ≡ lookup u m =
        note_players-sits id ps m u ∙ ap (λ x. if x then some id else lookup u m) b in
      inr (sym k ∙ e)
]

pub updates-Keeps :
    (g : GameState) (s : InMemoryGameStore) (c : Contents)
    → Holds s c
    → Keeps gives (update_game g s) (specified (updates g) c)
unfolding update_game specified
updates-Keeps g s c h = elim (Option-cases (lookup g.game_id s.games_by_id)) [
  | inl e ↦ let f = sym (h.games g.game_id) ∙ e in rw (update_game, specified, e, f) (same h)
  | inr (old, e) ↦
      let f = sym (h.games g.game_id) ∙ e in
      elim (Bool-cases (is_over old)) [
        | inl l ↦ rw (update_game, specified, e, f, l) (same h)
        | inr l ↦
            rw (update_game, specified, e, f, l)
              (same (record {
                users = h.users;
                distinct = h.distinct;
                games = insert-set_at g.game_id g s.games_by_id c.game h.games;
                ids = λ u.
                    note_players-sits g.game_id g.players s.game_ids_by_user_id u
                    ∙ ap (λ o. if sits u g.players then some g.game_id else o) (h.ids u);
                counter = h.counter;
                pointed =
                    pointed-insert g.game_id g s.game_ids_by_user_id _ s.games_by_id h.pointed
                      (updated_ids g.game_id g.players s.game_ids_by_user_id);
                fresh = λ n few.
                    let unused = h.fresh n few in
                    fresh-insert g.game_id (to_string n) g s.games_by_id
                      (other_key g.game_id (to_string n) old s.games_by_id e unused) unused;
              }))
      ]
]

opened_ids :
    (user id : String) (m : Dict String) (u i : String)
    → lookup u (insert user id m) ≡ some i
    → (id ≡ i) ⊎ (lookup u m ≡ some i)
opened_ids user id m u i e = go (sym (lookup-insert user u id m) ∙ e)
  where
    go : (if str_eq user u then some id else lookup u m) ≡ some i → (id ≡ i) ⊎ (lookup u m ≡ some i)
    go l = elim (Bool-cases (str_eq user u)) [
      | inl b ↦ inl (some-injective id i (rw b at l))
      | inr b ↦ inr (rw b at l)
    ]

-- `NewGame` from the new game's id on, which is the last one that has been given out.
opened_as-Keeps :
    (id : String) (g : GameState) (s : InMemoryGameStore) (c : Contents)
    → Holds s c
    → has_key id s.games_by_id ≡ false
    → ((n : ℕ) → s.counter ≤ n → id ≢ to_string n)
    → Keeps gives (new_game_as id g s) (opened_as id g g.players c)
unfolding new_game_as first_name opened_as
opened_as-Keeps id g s c h free given = go g.players refl
  where
    go :
        (ps : List Player) → g.players ≡ ps → Keeps gives (new_game_as id g s) (opened_as id g ps c)
    go [] e = rw (new_game_as, first_name, e) (same h)
    go (p ∷ ps) e = elim (Option-cases p.name) [
      | inl f ↦ rw (new_game_as, first_name, opened_as, e, f) (same h)
      | inr (u, f) ↦ elim (Bool-cases (str_eq u "")) [
        | inl a ↦ rw (new_game_as, first_name, opened_as, e, f, a) (same h)
        | inr a ↦ elim (Option-cases (lookup u s.game_ids_by_user_id)) [
          | inr (i, l) ↦
              let k = sym (h.ids u) ∙ l in
              let taken : has_key u s.game_ids_by_user_id ≡ true = rw (has_key, l) refl in
              rw (new_game_as, first_name, opened_as, e, f, a, taken, k) (same h)
          | inl l ↦
              let k = sym (h.ids u) ∙ l in
              let alone : has_key u s.game_ids_by_user_id ≡ false = rw (has_key, l) refl in
              rw (new_game_as, first_name, opened_as, e, f, a, alone, k, free)
                (same (record {
                  users = h.users;
                  distinct = h.distinct;
                  games = insert-set_at id g s.games_by_id c.game h.games;
                  ids = insert-set_at u id s.game_ids_by_user_id c.id_of h.ids;
                  counter = h.counter;
                  pointed =
                      pointed-insert id g s.game_ids_by_user_id _ s.games_by_id h.pointed
                        (opened_ids u id s.game_ids_by_user_id);
                  fresh = λ n few.
                      fresh-insert id (to_string n) g s.games_by_id (given n few) (h.fresh n few);
                }))
        ]
      ]
    ]

raised-Holds :
    (s : InMemoryGameStore) (c : Contents)
    → Holds s c
    → Holds (record s { counter = suc s.counter }) (record c { opened = suc c.opened })
raised-Holds s c h = record {
  users = h.users;
  distinct = h.distinct;
  games = h.games;
  ids = h.ids;
  counter = ap suc h.counter;
  pointed = h.pointed;
  fresh = λ n few. h.fresh n (omega (arith, few));
}

pub opens-Keeps :
    (g : GameState) (s : InMemoryGameStore) (c : Contents)
    → Holds s c
    → Keeps gives (new_game g s) (specified (opens g) c)
unfolding new_game specified
opens-Keeps g s c h = elim (Bool-cases (s.counter == int_max)) [
  | inl e ↦
      let f = ap (λ n. n == int_max) (sym h.counter) ∙ e in rw (new_game, specified, e, f) (same h)
  | inr e ↦
      let f = ap (λ n. n == int_max) (sym h.counter) ∙ e in
      rw (new_game, specified, e, f)
        (subst
          (λ n.
            Keeps gives
              (new_game_as (to_string s.counter) (with_id_and_version g (to_string s.counter) "foo")
                (record s { counter = suc s.counter }))
              (opened_as (to_string n) (with_id_and_version g (to_string n) "foo") g.players
                (record c { opened = suc c.opened })))
          h.counter
          (opened_as-Keeps (to_string s.counter) (with_id_and_version g (to_string s.counter) "foo")
            (record s { counter = suc s.counter }) (record c { opened = suc c.opened })
            (raised-Holds s c h) (h.fresh s.counter (omega arith))
            (λ n few e'. absurd (omega (arith, few, to_string_inj s.counter n e')))))
]
