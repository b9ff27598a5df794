-- ===== src/Golf/InMemoryGameStore/Laws/Writes.antt =====
-- The two methods of in_memory_game_store.cc that write games keep the store's invariant.
use moon_base.Base.Dict.{Entries-map}
use moon_base.Base.{
  ℕ, suc, String, ◌≡◌, refl, sym, subst, Bool-cases, true, false, inl, inr, some, Option-cases,
  List, [], ◌∷◌, arith, ◌==◌, ==_iff, str_eq,
}
use moon_base.Base.Int.{int_max}
use moon_base.Base.Dict.{
  Dict, lookup, has_key, lookup-insert_self, Entries, Entries-lookup, Entries-insert,
}
use moon_base.Base.Text.{to_string}
use moon_base.Golf.Player.{Player}
use moon_base.Golf.GameState.{GameState, is_over}
use moon_base.Golf.GameStore.Safe.{HasCreator, IsStable, Saved, SavedAs, Sound, returns, refuses}
use moon_base.Golf.InMemoryGameStore.{
  InMemoryGameStore, new_game_as, first_name, new_game, read_game, note_players, update_game,
  in_memory_store,
}
use moon_base.Golf.InMemoryGameStore.Laws.Consistency.{IsKept, IsConsistent, unused_id}
use moon_base.Golf.InMemoryGameStore.Laws.Consistency.{has_key-insert, has_key-insert_self, later}

lookup-Saved :
    {P : GameState → Type 0} (id : String) (g : GameState) (s : InMemoryGameStore)
    → P g
    → g.game_id ≡ id
    → lookup id s.games_by_id ≡ some g
    → Saved in_memory_store P g s
unfolding read_game
lookup-Saved id g s good own e =
    let e' = subst (λ i. lookup i s.games_by_id ≡ some g) (sym own) e in
    record { good = good; again = g; readable = rw (read_game, e') refl; players = refl }

new_game_as-Sound :
    (P : GameState → Type 0) (k : ℕ) (id : String) (g : GameState) (s : InMemoryGameStore)
    → IsKept P s.counter id g
    → HasCreator g
    → has_key id s.games_by_id ≡ false
    → IsConsistent P k s
    → Sound (IsConsistent P k) (SavedAs in_memory_store P g.players) (new_game_as id g s)
unfolding new_game_as first_name
new_game_as-Sound P k id g s kept c unused h =
    rw (new_game_as, c.first, c.named)
      (elim (Bool-cases (str_eq c.creator_name "")) [
        | inl e ↦ rw e (refuses h)
        | inr e ↦ elim (Bool-cases (has_key c.creator_name s.game_ids_by_user_id)) [
          | inl f ↦ rw (e, f) (refuses h)
          | inr f ↦
              rw (e, f, unused)
                (returns
                  (
                    lookup-Saved id g _ kept.good kept.own_id
                        (lookup-insert_self id g s.games_by_id),
                    refl,
                  )
                  record {
                    room = h.room;
                    kept = Entries-insert (IsKept P s.counter) id g s.games_by_id kept h.kept;
                    pointed =
                        Entries-insert _ c.creator_name id s.game_ids_by_user_id
                          (has_key-insert_self id g s.games_by_id)
                          (Entries-map s.game_ids_by_user_id
                            (λ u i. has_key-insert id i g s.games_by_id) h.pointed);
                  })
        ]
      ])

pub new_game-Sound :
    (P : GameState → Type 0) (k : ℕ) (g : GameState) (s : InMemoryGameStore)
    → IsStable P
    → P g
    → HasCreator g
    → IsConsistent P (suc k) s
    → Sound (IsConsistent P k) (SavedAs in_memory_store P g.players) (new_game g s)
unfolding new_game
new_game-Sound P k g s stable good c h = elim (Bool-cases (s.counter == int_max)) [
  | inl e ↦ absurd (omega (arith, (==_iff s.counter int_max).0 e, h.room))
  | inr e ↦ rw e (
      new_game_as-Sound P k (to_string s.counter) _ (record s { counter = suc s.counter })
        (record {
          good = (stable g (to_string s.counter) "foo" good).0;
          own_id = refl;
          number = s.counter;
          given = omega arith;
          numbered = refl;
        })
        (record {
          creator = c.creator;
          creator_name = c.creator_name;
          first = c.first;
          named = c.named;
        })
        (unused_id (suc k) s h)
        (record {
          room = omega (arith, h.room);
          kept = Entries-map s.games_by_id later h.kept;
          pointed = h.pointed;
        }))
]

note_players-pointed :
    {V : Type 0} (id : String) (ps : List Player) (ids : Dict String) (m : Dict V)
    → has_key id m ≡ true
    → Entries (λ u i. has_key i m ≡ true) ids
    → Entries (λ u i. has_key i m ≡ true) (note_players id ps ids)
unfolding note_players
note_players-pointed id [] ids m e h = h
note_players-pointed id (p ∷ ps) ids m e h = elim (Option-cases p.name) [
  | inl f ↦ rw f (note_players-pointed id ps ids m e h)
  | inr (n, f) ↦ rw f (note_players-pointed id ps _ m e (Entries-insert _ n id ids e h))
]

pub update_game-Sound :
    (P : GameState → Type 0) (k : ℕ) (g : GameState) (s : InMemoryGameStore)
    → IsStable P
    → P g
    → IsConsistent P k s
    → Sound (IsConsistent P k) (SavedAs in_memory_store P g.players) (update_game g s)
unfolding update_game
update_game-Sound P k g s stable good h = elim (Option-cases (lookup g.game_id s.games_by_id)) [
  | inl e ↦ rw (update_game, e) (refuses h)
  | inr (old, e) ↦ elim (Bool-cases (is_over old)) [
    | inl f ↦ rw (update_game, e, f) (refuses h)
    | inr f ↦
        let o = Entries-lookup (IsKept P s.counter) _ s.games_by_id h.kept e in
        rw (update_game, e, f)
          (returns
            (
              lookup-Saved g.game_id g _ good refl (lookup-insert_self g.game_id g s.games_by_id),
              refl,
            )
            record {
              room = h.room;
              kept =
                  Entries-insert (IsKept P s.counter) g.game_id g s.games_by_id
                    (record {
                      good = good;
                      own_id = refl;
                      number = o.number;
                      given = o.given;
                      numbered = o.numbered;
                    })
                    h.kept;
              pointed =
                  note_players-pointed g.game_id g.players s.game_ids_by_user_id _
                    (has_key-insert_self g.game_id g s.games_by_id)
                    (Entries-map s.game_ids_by_user_id
                      (λ u i. has_key-insert g.game_id i g s.games_by_id) h.pointed);
            })
  ]
]
