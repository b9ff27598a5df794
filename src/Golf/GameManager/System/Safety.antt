-- ===== src/Golf/GameManager/System/Safety.antt =====
-- Over a safe store no request to game_manager.cc faults, and every game is a sound one.
use moon_base.Base.{ℕ, suc, String, ◌≡◌, refl, some, List, [], ◌∷◌, All, length, ◌+◌, arith, subst}
use moon_base.Absl.{StatusOr, ok}
use moon_base.Golf.GameState.{GameState}
use moon_base.Golf.GameStore.{GameStore, Action, pure}
use moon_base.Golf.GameStore.Safe.{Sound, returns, refuses, Any, Safe, >>=-Sound, attempt-Sound}
use moon_base.Golf.GameManager.{
  register_user, new_game, join_game, get_game_state_for_user, all_ids_into, users_of,
  get_users_online, get_games, get_game_ids_by_user_id, get_users_by_game_id, manager_play,
}
use moon_base.Golf.GameManager.System.{
  Request, registers, opens, joins, reads, moves, lists_users, lists_games, lists_ids,
  lists_players, and_done, perform, survivor, serve, Shuffles,
}
use moon_base.Golf.GameStore.Full.{IsClosed}
use moon_base.Golf.GameManager.Safety.{
  register_user-Sound, get_game_state_for_user-Sound, join_game-Sound, new_game-Sound,
  or_else-Sound, moved-Sound, got_games-Sound,
}

-- A sound call leaves a state.
pub survives :
    {S A : Type 0} {J : S → Type 0} {Q : A → S → Type 0} {x : StatusOr A × S}
    → Sound J Q x
    → (t : S) × (survivor x ≡ some t) × J t
survives (returns q i) = (_, refl, i)
survives (refuses i) = (_, refl, i)

module _ {S : Type 0} (store : GameStore S) (I : (GameState → Type 0) → ℕ → S → Type 0)
    (safe : Safe store I) (P : GameState → Type 0) (closed : (u : String) → IsClosed P u) where
  done-Sound :
      {A : Type 0} {J : S → Type 0} {Q : A → S → Type 0} (m : Action S A) (s : S)
      → Sound J Q (m s)
      → Sound J Any (and_done m s)
  done-Sound m s h = >>=-Sound m _ s h (λ t i. i) (λ a t q i. returns tt i)

  pub perform-Sound :
      (k : ℕ) (r : Request) (s : S)
      → Shuffles r
      → I P (suc k) s
      → Sound (I P k) Any (perform store r s)
  unfolding perform register_user get_users_online get_games get_game_ids_by_user_id
      get_users_by_game_id
  perform-Sound k (registers u) s p h =
      done-Sound (register_user store u) s
        (register_user-Sound store I safe P k u s (safe.weaken P k s h))
  perform-Sound k (opens shuffle u n) s p h =
      done-Sound (new_game store shuffle u n) s
        (new_game-Sound store I safe P k shuffle u n s (closed u) p h)
  perform-Sound k (joins id u) s p h =
      done-Sound (join_game store id u) s
        (join_game-Sound store I safe P k id u s (closed u) (safe.weaken P k s h))
  perform-Sound k (reads id u) s p h =
      done-Sound (get_game_state_for_user store id u) s
        (get_game_state_for_user-Sound store I safe P k id u s (safe.weaken P k s h))
  perform-Sound k (moves m id u) s p h =
      done-Sound (manager_play store m id u) s
        (moved-Sound store I safe P k m id u s (closed u) (safe.weaken P k s h))
  perform-Sound k lists_users s p h =
      done-Sound (get_users_online store) s (
        or_else-Sound (I P k) Any [] store.get_users s (safe.get_users P k s (safe.weaken P k s h)))
  perform-Sound k lists_games s p h =
      done-Sound (get_games store) s (got_games-Sound store I safe P k s (safe.weaken P k s h))
  perform-Sound k lists_ids s p h = done-Sound {Q = Any} (get_game_ids_by_user_id store) s (
      >>=-Sound (get_games store) (λ gs. pure (ok (all_ids_into gs []))) s
        (got_games-Sound store I safe P k s (safe.weaken P k s h)) (λ t i. i)
        (λ a t q i. returns tt i))
  perform-Sound k (lists_players id) s p h =
      done-Sound {Q = Any} (get_users_by_game_id store id) s (
        attempt-Sound (store.read_game id) (users_of store) s
          (safe.read_game P k id s (safe.weaken P k s h)) (λ a t q i. returns tt i)
          (λ e t i. returns tt i))

  -- Over a safe store with room for as many games as there are requests, and for `k` more, if every
  -- shuffle orders the deck anew, no request faults: all of them are served, and the store stays a
  -- safe one.
  pub serve_room :
      (k : ℕ) (rs : List Request) (s : S)
      → All Shuffles rs
      → I P (length rs + k) s
      → (t : S) × (serve store rs s ≡ some t) × I P k t
  unfolding serve
  serve_room k [] s p h = (s, refl, subst (λ n. I P n s) (omega arith) h)
  serve_room k (r ∷ rs) s p h =
      let (t, e, i) =
        survives (perform-Sound (length rs + k) r s p.0 (subst (λ n. I P n s) (omega arith) h)) in
      let (t', e', i') = serve_room k rs t p.1 i in (t', rw (serve, e) e', i')

  pub serve_lem :
      (rs : List Request) (s : S)
      → All Shuffles rs
      → I P (length rs) s
      → (t : S) × (serve store rs s ≡ some t) × I P 0 t
  serve_lem rs s p h = serve_room 0 rs s p (subst (λ k. I P k s) (omega arith) h)
