-- ===== src/Golf/Service/Reused.antt =====
-- handlers.cc forgets no connection when it is closed: what comes of it when mongoose uses the address of
-- its mg_connection again.
use moon_base.Base.{
  ℕ, String, Bool, ◌≡◌, refl, ap, inl, inr, Bool-cases, ==_iff, false, true, some, push_back, List,
  [], ◌∷◌, arith,
}
use moon_base.Golf.GameStore.{GameStore}
use moon_base.Base.Dict.{Dict, lookup}
use moon_base.Absl.{ok}
use moon_base.Golf.Service.Connections.{is_registered-lookup}
use moon_base.Golf.Service.{Service, sends, register_user_request, has_connection, send_open}
use moon_base.Golf.Service.Handlers.{
  Json, Shuffle, is_registered, username_mismatch, register_user, handle_disconnect,
}
use moon_base.Golf.Service.Router.{Event, accepted, closed, without, route, poll}

without-other : (c : ℕ) (ds : List ℕ) → has_connection c ds ≡ false → without c ds ≡ ds
without-other c [] h = refl
without-other c (d ∷ ds) h = let rest = without-other c ds in ground (arith, h, rest)

without-closed : (c : ℕ) (ds : List ℕ) → has_connection c ds ≡ false → without c (c ∷ ds) ≡ ds
without-closed c ds h = let rest = without-other c ds h in ground (arith, rest)

is_registered-true :
    (c : ℕ) (conns : Dict ℕ) (u : String) → lookup u conns ≡ some c → is_registered c conns ≡ true
is_registered-true c conns u at = elim (Bool-cases (is_registered c conns)) [
  | inl e ↦ e
  | inr e ↦ absurd (is_registered-lookup c conns u e at)
]

-- When the open connection of a user is closed, and then one is accepted at the same address, the
-- service goes on from there, whatever the events, as if neither had happened. So whoever is on the new
-- connection passes as the old user, and is refused when they would register as another, or again.
pub poll-accepted :
    {S : Type 0} (store : GameStore S) (json : Json) (matches : String → String → Bool) (u : String)
    (c : ℕ) (es : List Event) (v : Service S)
    → lookup u v.connections_by_user ≡ some c
    → has_connection c v.closed ≡ false
    → (poll store json matches (closed c ∷ accepted c ∷ es) v ≡ poll store json matches es v)
      × (username_mismatch store json u c v ≡ (ok false, v))
      × ((name : String) (shuffle : Shuffle)
          → register_user store json shuffle (register_user_request name) c v
            ≡ (ok tt, record v { sent = push_back v.sent (sends c "error|already registered") }))
unfolding poll route handle_disconnect username_mismatch register_user
poll-accepted store json matches u c es v at h = (
  ap (λ ds. poll store json matches es (record v { closed = ds })) (without-closed c v.closed h),
  (let same = (==_iff c c).1 refl in rw (username_mismatch, at, same) refl),
  λ name shuffle.
      rw (register_user, is_registered-true c v.connections_by_user u at)
        (send_open c "error|already registered" v h),
)
