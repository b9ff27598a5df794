-- ===== src/Golf/GameManager/Safety.antt =====
-- Over a safe store no method of game_manager.cc faults, and what holds of every game stays so.
use moon_base.Base.{
  ℕ, suc, ◌≤◌, String, ◌≡◌, refl, sym, subst, Bool, Bool-cases, true, false, ◌||◌, inl, inr, List,
  [], All, arith, Perm, ◌<◌,
}
use moon_base.Base.Int.{ℤ, pos, pos_part, ltb_ℤ}
use moon_base.Absl.{StatusOr, StatusOr-cases, ok, fault, Fault}
use moon_base.Golf.GameState.{
  GameState, Move, peek, discard_draw, swap_draw, swap_discard, knocks, play, player_index,
  all_players_present,
}
use moon_base.Golf.Player.{Player}
use moon_base.Golf.GameState.Names.{IsNamed}
use moon_base.Golf.GameStore.{GameStore, Action, ◌>>=◌, pure, attempt}
use moon_base.Golf.GameStore.Safe.{
  Holds, Saved, SavedAs, Sound, map-Sound, returns, refuses, Any, Safe, >>=-Sound, attempt-Sound,
}
use moon_base.Golf.Deal.{count_up}
use moon_base.Golf.Deal.Join.{claim_seat_lem, seat_first}
use moon_base.Golf.GameManager.{
  validate_user_id, register_user, new_game, join_game, get_game_state_for_user, update_game_state,
  on_game, when_known, open_game, take_seat, move_on, internally, as_internal, or_else, as_value,
  manager_peek, manager_swap_draw_for_discard, manager_swap_for_draw, manager_swap_for_discard,
  manager_knock, get_games, manager_play,
}
use moon_base.Golf.GameStore.Full.{IsClosed, seat_first-IsNamed}

module _ {S : Type 0} where
  pub validate-Sound :
      (J : S → Type 0) (u : String) (s : S) → J s → Sound J Any (pure (validate_user_id u) s)
  unfolding validate_user_id
  validate-Sound J u s h = elim (StatusOr-cases (validate_user_id u)) [
    | inl (_, e) ↦ rw e (returns tt h)
    | inr (inl (_, e)) ↦ rw e (refuses h)
    | inr (inr (b, e)) ↦ absurd (no_fault u b e)
  ]
    where
      no_fault : (u : String) (b : Fault) → validate_user_id u ≡ fault b → ⊥
      no_fault u b e = ground (arith, e)

  -- An error of the call turned into another one.
  pub internally-Sound :
      {A : Type 0} {J : S → Type 0} {Q : A → S → Type 0} (m : Action S A) (s : S)
      → Sound J Q (m s)
      → Sound J Q (internally m s)
  internally-Sound m s h =
      attempt-Sound m as_internal s h (λ a t q i. returns q i) (λ e t i. refuses i)

  pub known-Sound :
      (store : GameStore S) {A : Type 0} (J : S → Type 0) (Q : A → S → Type 0) (m : Action S A)
      (exists : Bool) (s : S)
      → Sound J Q (m s)
      → J s
      → Sound J Q (when_known store m exists s)
  known-Sound store J Q m true s h i = h
  known-Sound store J Q m false s h i = refuses i

  pub or_else-Sound :
      {A : Type 0} (J : S → Type 0) (Q : A → S → Type 0) (d : A) (m : Action S A) (s : S)
      → Sound J Q (m s)
      → Sound J Any (or_else d m s)
  or_else-Sound J Q d m s h =
      attempt-Sound m (as_value d) s h (λ a t q i. returns tt i) (λ e t i. returns tt i)

module _ {S : Type 0} (store : GameStore S) (I : (GameState → Type 0) → ℕ → S → Type 0)
    (safe : Safe store I) (P : GameState → Type 0) where
  pub get_game_state_for_user-Sound :
      (k : ℕ) (id u : String) (s : S)
      → I P k s
      → Sound (I P k) (Holds P) (get_game_state_for_user store id u s)
  unfolding get_game_state_for_user
  get_game_state_for_user-Sound k id u s h =
      >>=-Sound (internally (store.user_exists u)) (when_known store (store.read_game id)) s
        (internally-Sound (store.user_exists u) s (safe.user_exists P k u s h)) (λ t i. i)
        (λ exists t q i.
          known-Sound store (I P k) (Holds P) _ exists t (safe.read_game P k id t i) i)

  -- The call's user sits at the table that it comes to.
  abbrev pub Seated : String → GameState → S → Type 0
  Seated u g s = Saved store P g s × IsNamed u g.players

  seated :
      {k : ℕ} (u : String) (ps : List Player) {x : StatusOr GameState × S}
      → IsNamed u ps
      → Sound (I P k) (SavedAs store P ps) x
      → Sound (I P k) (Seated u) x
  seated u ps n h = map-Sound (λ a t q. (q.0, subst (IsNamed u) (sym q.1) n)) h

  pub on_game-Sound :
      (k : ℕ) (id u : String) (m : Move) (s : S)
      → IsClosed P u
      → I P k s
      → Sound (I P k) (Seated u) (on_game store id u (play m) s)
  unfolding update_game_state move_on on_game
  on_game-Sound k id u m s c h =
      attempt-Sound (get_game_state_for_user store id u) (move_on store u (play m)) s
        (get_game_state_for_user-Sound k id u s h)
        (λ g t f i. elim (c.played m g (player_index g u) f) [
          | inl (g', e, f') ↦
              rw (update_game_state, e)
                (seated u g'.players (c.named m g f e) (safe.update_game P k g' t c.stable f' i))
          | inr (e', e) ↦ rw (update_game_state, e) (refuses i)
        ])
        (λ e t i. refuses i)

  pub take_seat-Sound :
      (k : ℕ) (u : String) (g : GameState) (s : S)
      → IsClosed P u
      → P g
      → I P k s
      → Sound (I P k) (Seated u) (take_seat store u (ok g) s)
  take_seat-Sound k u g s c f h = elim (Bool-cases (all_players_present g)) [
    | inl e ↦ rw (take_seat, e) (refuses h)
    | inr e ↦
        rw (take_seat, e, claim_seat_lem u g.players)
          (seated u (seat_first u g.players) (seat_first-IsNamed u g.players e)
            (safe.update_game P k _ s c.stable (c.seated g f) h))
  ]

  pub join_game-Sound :
      (k : ℕ) (id u : String) (s : S)
      → IsClosed P u
      → I P k s
      → Sound (I P k) (Seated u) (join_game store id u s)
  unfolding join_game
  join_game-Sound k id u s c h =
      >>=-Sound (internally (store.user_exists u))
        (when_known store (attempt (store.read_game id) (take_seat store u))) s
        (internally-Sound (store.user_exists u) s (safe.user_exists P k u s h)) (λ t i. i)
        (λ exists t q i.
          known-Sound store (I P k) (Seated u) _ exists t
            (attempt-Sound (store.read_game id) (take_seat store u) t (safe.read_game P k id t i)
              (λ g t' f j. take_seat-Sound k u g t' c f j) (λ e t' j. refuses j))
            i)

  pub open_game-Sound :
      (k : ℕ) (shuffle : List ℕ → List ℕ) (u : String) (n : ℤ) (s : S)
      → IsClosed P u
      → Perm (shuffle (count_up 0 52)) (count_up 0 52)
      → I P (suc k) s
      → Sound (I P k) (Seated u) (open_game store shuffle u n s)
  open_game-Sound k shuffle u z s c p h = elim (Bool-cases (ltb_ℤ z (pos 2) || ltb_ℤ (pos 5) z)) [
    | inl e ↦ rw (open_game, e) (refuses (safe.weaken P k s h))
    | inr e ↦
        let o = c.opened shuffle (pos_part z) p (few z e) (many z e) in
        rw (open_game, e, o.result)
          (seated u o.game.players o.seat (safe.new_game P k o.game s c.stable o.good o.creator h))
  ]
    where
      few : (z : ℤ) → ltb_ℤ z (pos 2) || ltb_ℤ (pos 5) z ≡ false → 1 < pos_part z
      few z e = ground (arith, e)

      many : (z : ℤ) → ltb_ℤ z (pos 2) || ltb_ℤ (pos 5) z ≡ false → pos_part z ≤ 5
      many z e = ground (arith, e)

  pub new_game-Sound :
      (k : ℕ) (shuffle : List ℕ → List ℕ) (u : String) (n : ℤ) (s : S)
      → IsClosed P u
      → Perm (shuffle (count_up 0 52)) (count_up 0 52)
      → I P (suc k) s
      → Sound (I P k) (Seated u) (new_game store shuffle u n s)
  unfolding new_game
  new_game-Sound k shuffle u n s c p h =
      >>=-Sound (store.user_exists u) (when_known store (open_game store shuffle u n)) s
        (safe.user_exists P (suc k) u s h) (safe.weaken P k)
        (λ exists t q i.
          known-Sound store (I P k) (Seated u) _ exists t (open_game-Sound k shuffle u n t c p i)
            (safe.weaken P k t i))

  pub moved-Sound :
      (k : ℕ) (m : Move) (id u : String) (s : S)
      → IsClosed P u
      → I P k s
      → Sound (I P k) (Seated u) (manager_play store m id u s)
  unfolding manager_peek manager_swap_draw_for_discard manager_swap_for_draw
      manager_swap_for_discard manager_knock play on_game
  moved-Sound k peek id u s c h = on_game-Sound k id u peek s c h
  moved-Sound k discard_draw id u s c h = on_game-Sound k id u discard_draw s c h
  moved-Sound k knocks id u s c h = on_game-Sound k id u knocks s c h
  moved-Sound k (swap_draw q) id u s c h = on_game-Sound k id u (swap_draw q) s c h
  moved-Sound k (swap_discard q) id u s c h = on_game-Sound k id u (swap_discard q) s c h

  pub got_games-Sound : (k : ℕ) (s : S) → I P k s → Sound (I P k) Any (get_games store s)
  unfolding get_games
  got_games-Sound k s h =
      or_else-Sound (I P k) (Holds (All P)) [] store.read_all_games s (safe.read_all_games P k s h)

  pub register_user-Sound :
      (k : ℕ) (u : String) (s : S)
      → I P k s
      → Sound (I P k) (Holds (λ r. r ≡ u)) (register_user store u s)
  unfolding register_user
  register_user-Sound k u s h =
      >>=-Sound (pure (validate_user_id u)) (λ _. store.add_user u >>= λ _. pure (ok u)) s
        (validate-Sound (I P k) u s h) (λ t i. i)
        (λ a t q i.
          >>=-Sound {Q = Any} (store.add_user u) (λ _. pure (ok u)) t (safe.add_user P k u t i)
            (λ t i. i) (λ a t q i. returns refl i))
