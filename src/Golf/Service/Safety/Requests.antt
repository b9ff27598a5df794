-- ===== src/Golf/Service/Safety/Requests.antt =====
-- Over a safe store every request of handlers.cc is answered.
use moon_base.Base.{ℕ, suc, String, ◌≡◌, refl, false, inl, inr, Bool-cases, some}
use moon_base.Base.Int.{ℤ}
use moon_base.Base.Dict.{lookup, has_key}
use moon_base.Absl.{StatusOr}
use moon_base.Golf.Player.{Position}
use moon_base.Golf.GameState.{GameState, Move}
use moon_base.Golf.GameStore.{GameStore, attempt}
use moon_base.Golf.GameStore.Full.{IsClosed}
use moon_base.Golf.GameStore.Safe.{Sound, returns, refuses, Any, Safe, map-Sound}
use moon_base.Golf.GameManager
use moon_base.Golf.GameManager.{manager_play}
use moon_base.Golf.GameManager.Safety.{register_user-Sound, moved-Sound}
use moon_base.Golf.Service.{Service, with_store, connect, insert_new, register_user_request}
use moon_base.Golf.Service.Handlers.{
  Json, Shuffle, invalid_request, is_registered, welcome, register_user, for_user, for_position,
}
use moon_base.Golf.Service.Known.{KnownTo, KnownTo-IsClosed}
use moon_base.Golf.Service.Connections.{
  lookup_after_new, AllOpen-insert_new, Alone-insert_new, KnownTo-insert_new, All-insert_new,
}
use moon_base.Golf.Service.Invariant.{error, welcomes}
use moon_base.Golf.Service.Answers.{outside, IsReady, IsAnswered, send-IsAnswered}
use moon_base.Golf.Service.Safety.{
  stored-IsReady, weaken-IsServing, weaken-IsReady, for_user-IsAnswered, for_position-IsAnswered,
}

module _ {S : Type 0} (store : GameStore S) (I : (GameState → Type 0) → ℕ → S → Type 0)
    (safe : Safe store I) (json : Json) where
  -- A new user is connected; nobody else loses a connection by it.
  connected-IsReady :
      (k c : ℕ) (user : String) (v : Service S)
      → is_registered c v.connections_by_user ≡ false
      → IsReady json I k c v
      → IsReady json I k c
          (record v { connections_by_user = insert_new user c v.connections_by_user })
  connected-IsReady k c user v fresh h =
      let conns = v.connections_by_user in
      record {
        serving = record {
          stored =
              safe.widen (KnownTo conns) (KnownTo (insert_new user c conns)) k v.store
                (KnownTo-insert_new user c conns) h.serving.stored;
          alone = Alone-insert_new user c conns h.serving.alone fresh;
          live = AllOpen-insert_new user c conns v.closed h.live h.serving.live;
          allowed = All-insert_new json user c conns v.sent h.serving.allowed;
        };
        live = h.live;
      }

  -- What is answered after a new user is connected is answered.
  connected-IsAnswered :
      (k c : ℕ) (user : String) (v : Service S) (x : StatusOr (Unit {0}) × Service S)
      → IsAnswered json I k c (insert_new user c v.connections_by_user, v.closed, v.sent) x
      → IsAnswered json I k c (outside v) x
  connected-IsAnswered k c user v x a = record {
    after = a.after;
    ends = a.ends;
    serving = a.serving;
    outputs = a.outputs;
    sent = a.sent;
    still = a.still;
    grown = λ u d e. elim (a.grown u d e) [
      | inl f ↦ lookup_after_new user c v.connections_by_user u d f
      | inr f ↦ inr f
    ];
    answer = a.answer;
  }

  welcomed :
      (k c : ℕ) (v : Service S) (x : StatusOr String × S)
      → is_registered c v.connections_by_user ≡ false
      → IsReady json I k c v
      → Sound (I (KnownTo v.connections_by_user) k) Any x
      → IsAnswered json I k c (outside v) (attempt (with_store (λ _. x)) (welcome store json c) v)
  unfolding connect
  welcomed k c v _ fresh h (returns {a = user} {s = s} q i) = connected-IsAnswered k c user v _ (
      send-IsAnswered json I k c _ _ (welcomes user refl) (
        connected-IsReady k c user (record v { store = s }) fresh
          (stored-IsReady store I safe json k k c v s h i)))
  welcomed k c v _ fresh h (refuses {e = e} {s = s} i) =
      send-IsAnswered json I k c _ _ (error e.message refl)
        (stored-IsReady store I safe json k k c v s h i)

  pub register-IsAnswered :
      (k c : ℕ) (u : String) (shuffle : Shuffle) (v : Service S)
      → IsReady json I k c v
      → IsAnswered json I k c
          (outside v)
          (register_user store json shuffle (register_user_request u) c v)
  unfolding register_user
  register-IsAnswered k c u shuffle v h =
      elim (Bool-cases (is_registered c v.connections_by_user)) [
        | inl e ↦
            rw (register_user, e)
              (send-IsAnswered json I k c _ v (error "already registered" refl) h)
        | inr e ↦
            rw (register_user, e)
              (welcomed k c v (GameManager.register_user store u v.store) e h (
                map-Sound (λ a s q. tt)
                  (register_user-Sound store I safe (KnownTo v.connections_by_user) k u v.store
                    h.serving.stored)))
      ]

  pub refused :
      (k c : ℕ) (v : Service S)
      → IsReady json I (suc k) c v
      → IsAnswered json I k c (outside v) (invalid_request store json c v)
  unfolding invalid_request
  refused k c v h =
      send-IsAnswered json I k c _ v (error "invalid request" refl)
        (weaken-IsReady store I safe json k c v h)

  pub keeps :
      (v : Service S) (u : String) (c : ℕ)
      → lookup u v.connections_by_user ≡ some c
      → IsClosed (KnownTo v.connections_by_user) u
  keeps v u c at = KnownTo-IsClosed v.connections_by_user u (rw (has_key, at) refl)

  -- A move for a user, by the method of the manager that the handler calls.
  pub move-IsAnswered :
      (m : Move) (k c : ℕ) (u id : String) (v : Service S)
      → IsReady json I (suc k) c v
      → IsAnswered json I k c (outside v) (for_user store json u c (manager_play store m id u) v)
  move-IsAnswered m k c u id v h =
      for_user-IsAnswered store I safe json k c u (manager_play store m id u) v h (λ at.
        moved-Sound store I safe (KnownTo v.connections_by_user) k m id u v.store (keeps v u c at)
          (weaken-IsServing store I safe json k v h.serving).stored)

  pub swap-IsAnswered :
      (m : Position → Move) (k c : ℕ) (u id : String) (z : ℤ) (v : Service S)
      → IsReady json I (suc k) c v
      → IsAnswered json I k c
          (outside v)
          (for_position store json u c z (λ q. manager_play store (m q) id u) v)
  swap-IsAnswered m k c u id z v h =
      for_position-IsAnswered store I safe json k c u z (λ q. manager_play store (m q) id u) v h
        (λ at q.
          moved-Sound store I safe (KnownTo v.connections_by_user) k (m q) id u v.store
            (keeps v u c at) (weaken-IsServing store I safe json k v h.serving).stored)
