-- ===== src/Golf/GameManager/Frozen/Requests.antt =====
-- No request to game_manager.cc changes a frozen game in the store of in_memory_game_store.cc.
use moon_base.Base.{
  ℕ, ◌||◌, String, sym, subst, Bool, Bool-cases, true, false, inl, inr, Option-cases, List,
}
use moon_base.Base.Int.{ℤ, pos, pos_part, ltb_ℤ}
use moon_base.Base.Dict.{lookup, member}
use moon_base.Absl.{StatusOr, ok, err, fault}
use moon_base.Golf.GameState.{
  GameState, Move, peek, discard_draw, swap_draw, swap_discard, knocks, play,
}
use moon_base.Golf.GameState.Frozen.{IsFrozen}
use moon_base.Golf.GameStore.{Action, ◌>>=◌, pure, attempt}
use moon_base.Golf.GameStore.Keeps.{>>=-keeps, attempt-keeps}
use moon_base.Golf.GameStore.Full.{IsFull}
use moon_base.Golf.Deal.{dealt_game, shuffle_new_deck}
use moon_base.Golf.InMemoryGameStore.{
  InMemoryGameStore, in_memory_store, user_exists, read_game, add_user, get_users, read_all_games,
}
use moon_base.Golf.InMemoryGameStore.Laws.{IsConsistent}
use moon_base.Golf.InMemoryGameStore.Keeps.{Has, new_game-Has}
use moon_base.Golf.GameManager.{
  manager_peek, manager_swap_draw_for_discard, manager_swap_for_draw, manager_swap_for_discard,
  manager_knock, get_game_state_for_user, on_game, move_on, manager_play, join_game, take_seat,
  when_known, open_game, new_game, register_user, validate_user_id, or_else, as_value,
  get_users_online, get_games, get_game_ids_by_user_id, get_users_by_game_id, users_of,
}
use moon_base.Golf.GameManager.System.{
  Request, registers, opens, joins, reads, moves, lists_users, lists_games, lists_ids,
  lists_players, and_done, perform,
}
use moon_base.Golf.GameManager.Frozen.Updates.{reading, got, move_on-Has, take_seat-Has}

module _ (id : String) (g : GameState) (frozen : IsFrozen g) (k : ℕ) where
  -- A call that only reads.
  read-Has : (other : String) (s : InMemoryGameStore) → Has id g s → Has id g (read_game other s).1
  unfolding read_game
  read-Has other s held = elim (Option-cases (lookup other s.games_by_id)) [
    | inl e ↦ rw (read_game, e) held
    | inr (h, e) ↦ rw (read_game, e) held
  ]

  value-Has :
      {A : Type 0} (d : A) (m : Action InMemoryGameStore A) (s : InMemoryGameStore)
      → Has id g (m s).1
      → Has id g (or_else d m s).1
  value-Has d m s held = attempt-keeps (Has id g) m (as_value d) s held at
    where
      at : (r : _) (t : InMemoryGameStore) → Has id g t → Has id g (as_value d r t).1
      at (ok a) t h = h
      at (err e) t h = h
      at (fault b) t h = h

  known-Has :
      {A : Type 0} (m : Action InMemoryGameStore A) (b : Bool) (s : InMemoryGameStore)
      → Has id g s
      → Has id g (m s).1
      → Has id g (when_known in_memory_store m b s).1
  known-Has m true s held h = h
  known-Has m false s held h = held

  register-Has :
      (u : String) (s : InMemoryGameStore)
      → Has id g s
      → Has id g (register_user in_memory_store u s).1
  unfolding register_user add_user
  register-Has u s held =
      >>=-keeps (Has id g) (pure (validate_user_id u)) (λ _. add_user u >>= λ _. pure (ok u)) s held
        (λ a t h. >>=-keeps (Has id g) (add_user u) (λ _. pure (ok u)) t (add t h) (λ b w h'. h'))
    where
      add : (t : InMemoryGameStore) → Has id g t → Has id g (add_user u t).1
      add t h = elim (Bool-cases (member u t.users_online)) [
        | inl e ↦ rw (add_user, e) h
        | inr e ↦ rw (add_user, e) h
      ]

  open-Has :
      (shuffle : List ℕ → List ℕ) (u : String) (n : ℤ) (s : InMemoryGameStore)
      → Has id g s
      → Has id g (open_game in_memory_store shuffle u n s).1
  open-Has shuffle u n s held = elim (Bool-cases (ltb_ℤ n (pos 2) || ltb_ℤ (pos 5) n)) [
    | inl e ↦ rw e held
    | inr e ↦ rw e (
        >>=-keeps (Has id g) (pure (dealt_game u (pos_part n) (shuffle_new_deck shuffle)))
          in_memory_store.new_game s held (λ h t i. new_game-Has id g h t i))
  ]

  join-Has :
      (other u : String) (s : InMemoryGameStore)
      → IsConsistent IsFull k s
      → Has id g s
      → Has id g (join_game in_memory_store other u s).1
  unfolding join_game user_exists read_game
  join-Has other u s c held = elim (Bool-cases (member u s.users_online)) [
    | inr unknown ↦ rw (join_game, unknown) held
    | inl known ↦
        rw (join_game, known)
          (elim (reading other s) [
            | inl (x, e) ↦ subst after (sym e) held
            | inr (h, f, e) ↦ subst after (sym e) (take_seat-Has id g frozen k other u h s c held f)
          ])
  ]
    where
      after : StatusOr GameState × InMemoryGameStore → Type 0
      after x = Has id g (attempt (λ _. x) (take_seat in_memory_store u) s).1

  game-Has :
      (other u : String) (s : InMemoryGameStore)
      → Has id g s
      → Has id g (get_game_state_for_user in_memory_store other u s).1
  game-Has other u s held = elim (got other u s) [
    | inl (x, e) ↦ rw e held
    | inr (h, f, e) ↦ rw e held
  ]

  on_game-Has :
      (m : Move) (other u : String) (s : InMemoryGameStore)
      → IsConsistent IsFull k s
      → Has id g s
      → Has id g (on_game in_memory_store other u (play m) s).1
  unfolding on_game
  on_game-Has m other u s c held = elim (got other u s) [
    | inl (x, e) ↦ subst after (sym e) held
    | inr (h, f, e) ↦ subst after (sym e) (move_on-Has id g frozen k m other u h s c held f)
  ]
    where
      after : StatusOr GameState × InMemoryGameStore → Type 0
      after x = Has id g (attempt (λ _. x) (move_on in_memory_store u (play m)) s).1

  manager_play-Has :
      (m : Move) (other u : String) (s : InMemoryGameStore)
      → IsConsistent IsFull k s
      → Has id g s
      → Has id g (manager_play in_memory_store m other u s).1
  unfolding manager_peek manager_swap_draw_for_discard manager_swap_for_draw
      manager_swap_for_discard manager_knock play on_game
  manager_play-Has peek other u s c held = on_game-Has peek other u s c held
  manager_play-Has discard_draw other u s c held = on_game-Has discard_draw other u s c held
  manager_play-Has knocks other u s c held = on_game-Has knocks other u s c held
  manager_play-Has (swap_draw q) other u s c held = on_game-Has (swap_draw q) other u s c held
  manager_play-Has (swap_discard q) other u s c held = on_game-Has (swap_discard q) other u s c held

  done-Has :
      {A : Type 0} (m : Action InMemoryGameStore A) (s : InMemoryGameStore)
      → Has id g (m s).1
      → Has id g (and_done m s).1
  done-Has m s held = >>=-keeps (Has id g) m (λ _. pure (ok tt)) s held (λ a t h. h)

  pub perform-Has :
      (r : Request) (s : InMemoryGameStore)
      → IsConsistent IsFull k s
      → Has id g s
      → Has id g (perform in_memory_store r s).1
  unfolding perform get_users_online get_games get_game_ids_by_user_id get_users_by_game_id new_game
      get_users user_exists read_all_games
  perform-Has (registers u) s c held =
      done-Has (register_user in_memory_store u) s (register-Has u s held)
  perform-Has (opens shuffle u n) s c held = done-Has (new_game in_memory_store shuffle u n) s (
      known-Has (open_game in_memory_store shuffle u n) (member u s.users_online) s held
        (open-Has shuffle u n s held))
  perform-Has (joins other u) s c held =
      done-Has (join_game in_memory_store other u) s (join-Has other u s c held)
  perform-Has (reads other u) s c held =
      done-Has (get_game_state_for_user in_memory_store other u) s (game-Has other u s held)
  perform-Has (moves m other u) s c held =
      done-Has (manager_play in_memory_store m other u) s (manager_play-Has m other u s c held)
  perform-Has lists_users s c held = done-Has (get_users_online in_memory_store) s held
  perform-Has lists_games s c held = done-Has (get_games in_memory_store) s held
  perform-Has lists_ids s c held = done-Has (get_game_ids_by_user_id in_memory_store) s held
  perform-Has (lists_players other) s c held =
      done-Has (get_users_by_game_id in_memory_store other) s (
        attempt-keeps (Has id g) (read_game other) (users_of in_memory_store) s
          (read-Has other s held) players)
    where
      players :
          (r : StatusOr GameState) (t : InMemoryGameStore)
          → Has id g t
          → Has id g (users_of in_memory_store r t).1
      players (ok h) t i = i
      players (err e) t i = i
      players (fault b) t i = i
