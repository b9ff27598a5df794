-- ===== src/Golf/Service/Safety.antt =====
-- Over a safe store every request for a user in handlers.cc is answered, and never faults.
pub mod Requests
pub mod Messages
pub mod Orderly
pub mod Polling
use moon_base.Base.{
  ℕ, suc, String, ◌≡◌, refl, ap, sym, subst, inl, inr, Bool-cases, Option, Option-cases, none, some,
  arith, false, ◌++◌,
}
use moon_base.Base.Int.{ℤ}
use moon_base.Base.Dict.{lookup}
use moon_base.Absl.{StatusOr, ok, err, invalid_argument_error}
use moon_base.Golf.Player.{Position}
use moon_base.Golf.GameState.{GameState}
use moon_base.Golf.GameStore.{GameStore, Action, ◌>>=◌, pure, attempt}
use moon_base.Golf.GameStore.Safe.{Sound, returns, refuses, Safe}
use moon_base.Golf.GameManager.Safety.{Seated}
use moon_base.Golf.Service.{Service, has_connection, send_open, with_store}
use moon_base.Golf.Service.Handlers.{
  Json, handle_game_manager_result, username_mismatch, unless_mismatch, is_other, validate_position,
  position_of_proto, for_user, for_position, when_valid,
}
use moon_base.Golf.Service.Telling.{handle_game_manager_result_lem}
use moon_base.Golf.Service.Guard.{mismatched}
use moon_base.Golf.Service.Known.{KnownTo}
use moon_base.Golf.Service.Invariant.{error, IsServing, sent-IsServing}
use moon_base.Golf.Service.Answers.{
  outside, IsReady, IsAnswered, shows_all, notified-IsAnswered, send-IsAnswered, ShowsAll-IsAllowed,
}

module _ {S : Type 0} (store : GameStore S) (I : (GameState → Type 0) → ℕ → S → Type 0)
    (safe : Safe store I) (json : Json) where
  pub stored-IsServing :
      (j k : ℕ) (v : Service S) (s : S)
      → IsServing json I j v
      → I (KnownTo v.connections_by_user) k s
      → IsServing json I k (record v { store = s })
  stored-IsServing j k v s h i = record {
    stored = i;
    alone = h.alone;
    live = h.live;
    allowed = h.allowed;
  }

  -- The same for a service that may take a message.
  pub stored-IsReady :
      (j k c : ℕ) (v : Service S) (s : S)
      → IsReady json I j c v
      → I (KnownTo v.connections_by_user) k s
      → IsReady json I k c (record v { store = s })
  stored-IsReady j k c v s h i = record {
    serving = stored-IsServing j k v s h.serving i;
    live = h.live;
  }

  -- Room for one game fewer.
  pub weaken-IsServing : (k : ℕ) (v : Service S) → IsServing json I (suc k) v → IsServing json I k v
  weaken-IsServing k v h =
      stored-IsServing (suc k) k v v.store h
        (safe.weaken (KnownTo v.connections_by_user) k v.store h.stored)

  pub weaken-IsReady : (k c : ℕ) (v : Service S) → IsReady json I (suc k) c v → IsReady json I k c v
  weaken-IsReady k c v h = record { serving = weaken-IsServing k v h.serving; live = h.live }

  -- Whatever a call of the manager for a user came to, the user's connection is answered by it.
  pub result-IsAnswered :
      (j k c : ℕ) (u : String) (m : Action S GameState) (v : Service S)
      → IsReady json I j c v
      → lookup u v.connections_by_user ≡ some c
      → Sound
          (I (KnownTo v.connections_by_user) k)
          (Seated store I safe (KnownTo v.connections_by_user) u)
          (m v.store)
      → IsAnswered json I k c
          (outside v)
          (attempt (with_store m) (handle_game_manager_result store json c) v)
  unfolding handle_game_manager_result
  result-IsAnswered j k c u m v h at sound = go (m v.store) sound
    where
      go :
          (x : StatusOr GameState × S)
          → Sound
              (I (KnownTo v.connections_by_user) k)
              (Seated store I safe (KnownTo v.connections_by_user) u)
              x
          → IsAnswered json I k c
              (outside v)
              (attempt (with_store (λ _. x)) (handle_game_manager_result store json c) v)
      go _ (refuses {e = e} {s = s} i) =
          send-IsAnswered json I k c _ (record v { store = s }) (error e.message refl)
            (stored-IsReady j k c v s h i)
      go _ (returns {a = g} {s = s} (saved, seat) i) =
          let w = record v { store = s } in
          let (users, os, e, shows, distinct, present, seated) =
            handle_game_manager_result_lem store json c g saved.again w saved.good.full.valid
              saved.readable saved.players saved.good.known h.serving.live in
          record {
            after = record w { sent = v.sent ++ os };
            ends = e;
            serving =
                sent-IsServing json I k w os
                  (ShowsAll-IsAllowed json v.connections_by_user g users os saved.good.full seated
                    shows)
                  (stored-IsServing j k v s h.serving i);
            outputs = os;
            sent = refl;
            still = refl;
            grown = λ w d e. inl e;
            answer = shows_all (record {
              game = g;
              full = saved.good.full;
              sender = u;
              own = at;
              seat = seat;
              users = users;
              distinct = distinct;
              present = present;
              seated = seated;
              shows = shows;
            });
          }

  matched :
      (u : String) (c : ℕ) (v : Service S)
      → is_other c (lookup u v.connections_by_user) ≡ false
      → username_mismatch store json u c v ≡ (ok false, v)
  unfolding username_mismatch
  matched u c v e = rw (username_mismatch, e) refl

  -- A request for a user goes on only on that user's own connection.
  own_connection-IsAnswered :
      (k c : ℕ) (u : String) (m : Action (Service S) (Unit {0})) (v : Service S)
      → IsReady json I k c v
      → (lookup u v.connections_by_user ≡ some c → IsAnswered json I k c (outside v) (m v))
      → IsAnswered json I k c
          (outside v)
          ((username_mismatch store json u c >>= unless_mismatch store json m) v)
  own_connection-IsAnswered k c u m v h answered =
      elim (Bool-cases (is_other c (lookup u v.connections_by_user))) [
        | inl e ↦
            notified-IsAnswered json I k c "error|username mismatch" v _
              (error "username mismatch" refl)
              (ap (λ x. ((λ _. x) >>= unless_mismatch store json m) v)
                (mismatched store json u c v h.live e))
              h
        | inr e ↦
            subst (IsAnswered json I k c (outside v))
              (sym (ap (λ x. ((λ _. x) >>= unless_mismatch store json m) v) (matched u c v e)))
              (answered (own _ e))
      ]
    where
      own : (o : Option ℕ) → is_other c o ≡ false → o ≡ some c
      own none e = cc
      own (some d) e = ground (arith, e)

  -- A call of the manager that keeps to known games, for a user on that user's connection.
  pub for_user-IsAnswered :
      (k c : ℕ) (u : String) (call : Action S GameState) (v : Service S)
      → IsReady json I (suc k) c v
      → (lookup u v.connections_by_user ≡ some c
          → Sound
              (I (KnownTo v.connections_by_user) k)
              (Seated store I safe (KnownTo v.connections_by_user) u)
              (call v.store))
      → IsAnswered json I k c (outside v) (for_user store json u c call v)
  unfolding for_user
  for_user-IsAnswered k c u call v h sound =
      own_connection-IsAnswered k c u _ v (weaken-IsReady k c v h)
        (λ at. result-IsAnswered (suc k) k c u call v h at (sound at))

  pub for_position-IsAnswered :
      (k c : ℕ) (u : String) (z : ℤ) (call : Position → Action S GameState) (v : Service S)
      → IsReady json I (suc k) c v
      → (lookup u v.connections_by_user ≡ some c
          → (q : Position)
          → Sound
              (I (KnownTo v.connections_by_user) k)
              (Seated store I safe (KnownTo v.connections_by_user) u)
              (call q v.store))
      → IsAnswered json I k c (outside v) (for_position store json u c z call v)
  unfolding for_position validate_position
  for_position-IsAnswered k c u z call v h sound =
      own_connection-IsAnswered k c u _ v (weaken-IsReady k c v h) (λ at.
        elim (Option-cases (position_of_proto z)) [
          | inl e ↦
              rw (validate_position, e)
                (notified-IsAnswered json I k c "error|invalid position" v _
                  (error "invalid position" refl)
                  (ap
                    (λ x.
                      attempt
                        ((λ _. x) >>= λ _. pure (err (invalid_argument_error "invalid position")))
                        (when_valid store json c call) v)
                    (send_open c "error|invalid position" v h.live))
                  (weaken-IsReady k c v h))
          | inr (q, e) ↦
              rw (validate_position, e)
                (result-IsAnswered (suc k) k c u (call q) v h at (sound at q))
        ])
