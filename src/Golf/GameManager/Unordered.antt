-- ===== src/Golf/GameManager/Unordered.antt =====
-- What game_manager.cc answers over in_memory_game_store.cc does not depend on the order in which the
-- unordered containers hold what is in them.
mod Tests
use mathlib.Core.Quot
use mathlib.Core.Quot.{Quot, Quot-set}
use moon_base.Base.{
  ℕ, String, ◌≡◌, refl, ap, sym, subst, ◌∙◌, Bool, Bool-cases, true, false, ◌||◌, inl, inr, Option,
  none, some, List, [], ◌∷◌,
}
use moon_base.Base.Int.{ℤ, pos, pos_part, ltb_ℤ}
use moon_base.Absl.{StatusOr, ok, err, fault}
use moon_base.Golf.GameState.{
  GameState, Move, peek, discard_draw, swap_draw, swap_discard, knocks, play, player_index,
  all_players_present, with_players,
}
use moon_base.Golf.GameStore.{Action, ◌>>=◌, pure, attempt}
use moon_base.Golf.Deal.{dealt_game, shuffle_new_deck, claim_seat}
use moon_base.Golf.InMemoryGameStore.{
  InMemoryGameStore, in_memory_store, add_user, user_exists, read_game, update_game, get_users,
  read_all_games,
}
use moon_base.Golf.InMemoryGameStore.Unordered.{Same, Agree, >>=-Agree, attempt-Agree}
use moon_base.Golf.InMemoryGameStore.Unordered.Methods.{
  user_exists-Agree, read_game-Agree, add_user-Agree, update_game-Agree, new_game-Agree,
}
use moon_base.Golf.GameManager.{
  validate_user_id, register_user, new_game, join_game, get_game_state_for_user, update_game_state,
  on_game, when_known, open_game, take_seat, move_on, internally, as_internal, users_of,
  manager_peek, manager_swap_draw_for_discard, manager_swap_for_draw, manager_swap_for_discard,
  manager_knock, manager_play, get_users_by_game_id, get_games, get_users_online,
  get_game_ids_by_user_id,
}
use moon_base.Golf.GameManager.System.{
  Request, registers, opens, joins, reads, moves, lists_users, lists_games, lists_ids,
  lists_players, and_done, perform, survivor, serve,
}

-- A call that depends on no order.
abbrev pub Agrees : {A : Type 0} → Action InMemoryGameStore A → Type 0
Agrees m = (s t : InMemoryGameStore) → Same s t → Agree (m s) (m t)

pub pure-Agrees : {A : Type 0} (r : StatusOr A) → Agrees (pure r)
pure-Agrees r s t h = record { result = refl; state = h }

exists-Agrees : (u : String) → Agrees (internally (user_exists u))
exists-Agrees u s t h =
    attempt-Agree (user_exists u) as_internal s t (user_exists-Agree u s t h) (λ r. internal r)
  where
    internal : (r : StatusOr Bool) → Agrees (as_internal r)
    internal (ok a) = pure-Agrees _
    internal (err e) = pure-Agrees _
    internal (fault b) = pure-Agrees _

when_known-Agrees :
    {A : Type 0} (m : Action InMemoryGameStore A)
    → Agrees m
    → (b : Bool) → Agrees (when_known in_memory_store m b)
when_known-Agrees m k true = k
when_known-Agrees m k false = pure-Agrees _

pub register_user-Agrees : (u : String) → Agrees (register_user in_memory_store u)
unfolding register_user
register_user-Agrees u s t h =
    >>=-Agree (pure (validate_user_id u)) (λ _. add_user u >>= λ _. pure (ok u)) s t
      (pure-Agrees (validate_user_id u) s t h)
      (λ _ s' t' i.
        >>=-Agree (add_user u) (λ _. pure (ok u)) s' t' (add_user-Agree u s' t' i)
          (λ _. pure-Agrees (ok u)))

open_game-Agrees :
    (shuffle : List ℕ → List ℕ) (u : String) (n : ℤ)
    → Agrees (open_game in_memory_store shuffle u n)
open_game-Agrees shuffle u n s t h = elim (Bool-cases (ltb_ℤ n (pos 2) || ltb_ℤ (pos 5) n)) [
  | inl e ↦ rw e (record { result = refl; state = h })
  | inr e ↦ rw e (
      >>=-Agree (pure (dealt_game u (pos_part n) (shuffle_new_deck shuffle)))
        in_memory_store.new_game s t (pure-Agrees _ s t h) new_game-Agree)
]

pub new_game-Agrees :
    (shuffle : List ℕ → List ℕ) (u : String) (n : ℤ) → Agrees (new_game in_memory_store shuffle u n)
unfolding new_game
new_game-Agrees shuffle u n s t h =
    >>=-Agree (user_exists u) (when_known in_memory_store (open_game in_memory_store shuffle u n)) s
      t (user_exists-Agree u s t h) (when_known-Agrees _ (open_game-Agrees shuffle u n))

take_seat-Agrees : (u : String) (r : StatusOr GameState) → Agrees (take_seat in_memory_store u r)
take_seat-Agrees u (err e) s t h = pure-Agrees _ s t h
take_seat-Agrees u (fault b) s t h = pure-Agrees _ s t h
take_seat-Agrees u (ok g) s t h = elim (Bool-cases (all_players_present g)) [
  | inl e ↦ rw e (record { result = refl; state = h })
  | inr e ↦ rw e (
      >>=-Agree (pure (claim_seat u false g.players)) (λ ps. update_game (with_players g ps)) s t
        (pure-Agrees _ s t h) (λ ps. update_game-Agree (with_players g ps)))
]

pub join_game-Agrees : (id u : String) → Agrees (join_game in_memory_store id u)
unfolding join_game
join_game-Agrees id u s t h =
    >>=-Agree (internally (user_exists u))
      (when_known in_memory_store (attempt (read_game id) (take_seat in_memory_store u))) s t
      (exists-Agrees u s t h)
      (when_known-Agrees _ (λ s' t' i.
        attempt-Agree (read_game id) (take_seat in_memory_store u) s' t'
          (read_game-Agree id s' t' i) (take_seat-Agrees u)))

pub get_game_state_for_user-Agrees :
    (id u : String) → Agrees (get_game_state_for_user in_memory_store id u)
unfolding get_game_state_for_user
get_game_state_for_user-Agrees id u s t h =
    >>=-Agree (internally (user_exists u)) (when_known in_memory_store (read_game id)) s t
      (exists-Agrees u s t h) (when_known-Agrees _ (read_game-Agree id))

move_on-Agrees :
    (u : String) (move : GameState → ℤ → StatusOr GameState) (r : StatusOr GameState)
    → Agrees (move_on in_memory_store u move r)
unfolding move_on update_game_state
move_on-Agrees u move (err e) = pure-Agrees _
move_on-Agrees u move (fault b) = pure-Agrees _
move_on-Agrees u move (ok g) = updated (move g (player_index g u))
  where
    updated : (r : StatusOr GameState) → Agrees (update_game_state in_memory_store r)
    updated (ok h) = update_game-Agree h
    updated (err e) = pure-Agrees _
    updated (fault b) = pure-Agrees _

on_game-Agrees :
    (id u : String) (move : GameState → ℤ → StatusOr GameState)
    → Agrees (on_game in_memory_store id u move)
unfolding on_game
on_game-Agrees id u move s t h =
    attempt-Agree (get_game_state_for_user in_memory_store id u) (move_on in_memory_store u move) s
      t (get_game_state_for_user-Agrees id u s t h) (move_on-Agrees u move)

pub manager_play-Agrees : (m : Move) (id u : String) → Agrees (manager_play in_memory_store m id u)
unfolding manager_peek manager_swap_draw_for_discard manager_swap_for_draw manager_swap_for_discard
    manager_knock play
manager_play-Agrees peek id u = on_game-Agrees id u (play peek)
manager_play-Agrees discard_draw id u = on_game-Agrees id u (play discard_draw)
manager_play-Agrees knocks id u = on_game-Agrees id u (play knocks)
manager_play-Agrees (swap_draw q) id u = on_game-Agrees id u (play (swap_draw q))
manager_play-Agrees (swap_discard q) id u = on_game-Agrees id u (play (swap_discard q))

pub get_users_by_game_id-Agrees : (id : String) → Agrees (get_users_by_game_id in_memory_store id)
unfolding get_users_by_game_id
get_users_by_game_id-Agrees id s t h =
    attempt-Agree (read_game id) (users_of in_memory_store) s t (read_game-Agree id s t h) users
  where
    users : (r : StatusOr GameState) → Agrees (users_of in_memory_store r)
    users (ok g) = pure-Agrees _
    users (err e) = pure-Agrees _
    users (fault b) = pure-Agrees _

-- On two stores with the same users, games, ids of games and counter, in whatever order, the calls that
-- register a user, open a game, join one, read one, make a move and list the players of a game answer
-- the same, errors and faults included, and leave two such stores.
pub calls-Agree :
    (s t : InMemoryGameStore)
    → Same s t
    → ((u : String) → Agree (register_user in_memory_store u s) (register_user in_memory_store u t))
      × ((shuffle : List ℕ → List ℕ) (u : String) (n : ℤ)
          → Agree (new_game in_memory_store shuffle u n s) (new_game in_memory_store shuffle u n t))
      × ((id u : String)
          → Agree (join_game in_memory_store id u s) (join_game in_memory_store id u t))
      × ((id u : String)
          → Agree
              (get_game_state_for_user in_memory_store id u s)
              (get_game_state_for_user in_memory_store id u t))
      × ((m : Move) (id u : String)
          → Agree (manager_play in_memory_store m id u s) (manager_play in_memory_store m id u t))
      × ((id : String)
          → Agree
              (get_users_by_game_id in_memory_store id s)
              (get_users_by_game_id in_memory_store id t))
calls-Agree s t h = (
  λ u. register_user-Agrees u s t h,
  λ shuffle u n. new_game-Agrees shuffle u n s t h,
  λ id u. join_game-Agrees id u s t h,
  λ id u. get_game_state_for_user-Agrees id u s t h,
  λ m id u. manager_play-Agrees m id u s t h,
  λ id. get_users_by_game_id-Agrees id s t h,
)
