-- ===== src/Golf/GameManager/System.antt =====
-- Runs of the game manager: the requests of game_manager.h one after another, each on the state that
-- the one before left. An error ends its request; a fault ends the process.
pub mod Safety
pub mod InMemory
use moon_base.Base.{ℕ, String, Option, none, some, List, [], ◌∷◌, Perm}
use moon_base.Base.Int.{ℤ}
use moon_base.Absl.{StatusOr, ok, err, fault}
use moon_base.Golf.GameState.{GameState, Move, peek, discard_draw, swap_draw, swap_discard, knocks}
use moon_base.Golf.GameStore.{GameStore, Action, ◌>>=◌, pure, attempt}
use moon_base.Golf.Deal.{count_up}
use moon_base.Golf.GameManager.{
  register_user, new_game, join_game, get_game_state_for_user, manager_peek,
  manager_swap_draw_for_discard, manager_swap_for_draw, manager_swap_for_discard, manager_knock,
  manager_play, get_users_online, get_games, get_game_ids_by_user_id, get_users_by_game_id,
}

-- The public methods of `GameManager` that have a definition; `newGame` comes with what its shuffle does.
pub data Request : Type 0 where
  registers : String → Request
  opens : (List ℕ → List ℕ) → String → ℤ → Request
  joins : String → String → Request
  reads : String → String → Request
  moves : Move → String → String → Request
  lists_users lists_games lists_ids : Request
  lists_players : String → Request

-- The result is thrown away: its state is what the next request sees.
abbrev pub and_done : {S A : Type 0} → Action S A → Action S (Unit {0})
and_done m = m >>= λ _. pure (ok tt)

-- The state after a request that did not end the process.
abbrev pub survivor : {S A : Type 0} → StatusOr A × S → Option S
survivor (ok a, s) = some s
survivor (err e, s) = some s
survivor (fault b, s) = none

module _ {S : Type 0} (store : GameStore S) where
  unfoldable pub perform : Request → Action S (Unit {0})
  perform (registers u) = and_done (register_user store u)
  perform (opens shuffle u n) = and_done (new_game store shuffle u n)
  perform (joins game_id u) = and_done (join_game store game_id u)
  perform (reads game_id u) = and_done (get_game_state_for_user store game_id u)
  perform (moves m game_id u) = and_done (manager_play store m game_id u)
  perform lists_users = and_done (get_users_online store)
  perform lists_games = and_done (get_games store)
  perform lists_ids = and_done (get_game_ids_by_user_id store)
  perform (lists_players game_id) = and_done (get_users_by_game_id store game_id)

  -- The state after the requests, unless one of them ended the process.
  unfoldable pub serve : List Request → S → Option S
  unfolding perform
  serve [] s = some s
  serve (r ∷ rs) s = elim (survivor (perform r s)) [ none ↦ none | some t ↦ serve rs t ]

-- What a shuffle does is to order the deck anew.
abbrev pub Shuffles : Request → Type 0
Shuffles (opens shuffle u n) = Perm (shuffle (count_up 0 52)) (count_up 0 52)
Shuffles r = Unit
