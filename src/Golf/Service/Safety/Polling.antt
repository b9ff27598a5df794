-- ===== src/Golf/Service/Safety/Polling.antt =====
-- Over a safe store the events of router.cc are served, however many, as long as no connection is closed
-- that a message has come over.
use moon_base.Base.{
  ℕ, suc, String, ◌≡◌, refl, ap, ◌∙◌, Bool, true, ◌++◌, push_back, subst, sym, arith, inl, inr,
  Bool-cases, some, List, [], ◌∷◌,
}
use mathlib.Core.List.{append-nil}
use moon_base.Base.Dict.{lookup}
use moon_base.Absl.{StatusOr, ok}
use moon_base.Golf.GameState.{GameState}
use moon_base.Golf.GameStore.{GameStore}
use moon_base.Golf.GameStore.Safe.{Safe}
use moon_base.Golf.Service.{Service, Output, has_connection}
use moon_base.Golf.Service.Handlers.{Json, Shuffle, handle_message, handle_disconnect}
use moon_base.Golf.Service.Answers.{outside, IsAnswered}
use moon_base.Golf.Service.Router.{
  Event, accepted, closed, http_message, ws_message, put, without, closed_after, mark, route, poll,
}
use moon_base.Golf.Service.Known.{AllOpen}
use moon_base.Golf.Service.Invariant.{
  IsAllowed, upgraded, replied, served, IsServing, sent-IsServing,
}
use moon_base.Golf.Service.Safety.Orderly.{
  heard_after, Fits, Orderly, has_connection-without, has_connection-other,
}
use moon_base.Golf.Service.Safety.{weaken-IsServing}
use moon_base.Golf.Service.Safety.Messages.{handle_message-IsAnswered}

-- Room for a game of each event, and for `k` more.
abbrev pub room : List Event → ℕ → ℕ
room [] k = k
room (e ∷ es) k = suc (room es k)

module _ {S : Type 0} (store : GameStore S) (I : (GameState → Type 0) → ℕ → S → Type 0)
    (safe : Safe store I) (json : Json) (matches : String → String → Bool) where
  -- The service is as it should be, and a message has come over the connection of every user.
  record IsPolling (heard : List ℕ) (k : ℕ) (v : Service S) : Type 0 where
    serving : IsServing json I k v
    known :
        (u : String) (c : ℕ)
        → lookup u v.connections_by_user ≡ some c
        → has_connection c heard ≡ true

  -- An event has been served.
  abbrev IsServed : List ℕ → ℕ → Event → List ℕ → StatusOr (Unit {0}) × Service S → Type 0
  IsServed heard k e ds x =
      (w : Service S) × (x ≡ (ok tt, w))
      × (w.closed ≡ ds)
      × IsPolling (heard_after e heard) k (mark e w)

  weaken-IsPolling :
      (heard : List ℕ) (k : ℕ) (v : Service S) → IsPolling heard (suc k) v → IsPolling heard k v
  weaken-IsPolling heard k v h = record {
    serving = weaken-IsServing store I safe json k v h.serving;
    known = h.known;
  }

  put-IsServed :
      (heard : List ℕ) (k c : ℕ) (uri : String) (o : Output) (v : Service S)
      → IsAllowed json v.connections_by_user o
      → IsPolling heard (suc k) v
      → IsServed heard k (http_message c uri) v.closed (put o v)
  put-IsServed heard k c uri o v a h = (
    record v { sent = push_back v.sent o },
    refl,
    refl,
    record {
      serving =
          sent-IsServing json I k v (o ∷ []) (a, tt)
            (weaken-IsServing store I safe json k v h.serving);
      known = h.known;
    },
  )

  -- The connections that are closed change, but none of a user's is closed.
  marked-IsPolling :
      (heard : List ℕ) (k : ℕ) (v : Service S) (ds : List ℕ)
      → AllOpen v.connections_by_user ds
      → IsPolling heard k v
      → IsPolling heard k (record v { closed = ds })
  marked-IsPolling heard k v ds live h = record {
    serving = record {
      stored = h.serving.stored;
      alone = h.serving.alone;
      live = live;
      allowed = h.serving.allowed;
    };
    known = h.known;
  }

  answered-IsServed :
      (heard : List ℕ) (k c : ℕ) (text : String) (shuffle : Shuffle) (v : Service S)
      (x : StatusOr (Unit {0}) × Service S)
      → IsPolling heard (suc k) v
      → IsAnswered json I k c (outside v) x
      → IsServed heard k (ws_message c text shuffle) v.closed x
  answered-IsServed heard k c text shuffle v x h a = (
    a.after,
    a.ends,
    a.still,
    record {
      serving = a.serving;
      known = λ u d e. elim (a.grown u d e) [
        | inl f ↦ let old = h.known u d f in ground (arith, old)
        | inr f ↦ rw f (ground arith)
      ];
    },
  )

  route-IsServed :
      (heard : List ℕ) (k : ℕ) (e : Event) (v : Service S)
      → Fits heard v.closed e
      → IsPolling heard (suc k) v
      → IsServed heard k e v.closed (route store json matches e v)
  unfolding route handle_disconnect
  route-IsServed heard k (accepted c) v p h = (
    v,
    refl,
    refl,
    marked-IsPolling heard k v (without c v.closed)
        (λ u d e. has_connection-without c d v.closed (h.serving.live u d e))
        (weaken-IsPolling heard k v h),
  )
  route-IsServed heard k (closed c) v p h = (
    v,
    refl,
    refl,
    marked-IsPolling heard k v (c ∷ v.closed)
        (λ u d e.
          let old = h.known u d e in
          let live = h.serving.live u d e in has_connection-other c d heard v.closed p old live)
        (weaken-IsPolling heard k v h),
  )
  route-IsServed heard k (ws_message c text shuffle) v p h =
      answered-IsServed heard k c text shuffle v _ h (
        handle_message-IsAnswered store I safe json k c text shuffle v p.0
          (record { serving = h.serving; live = p.1 }))
  route-IsServed heard k (http_message c uri) v p h = elim (Bool-cases (matches uri "/golf/ws")) [
    | inl e ↦ rw (route, e) (put-IsServed heard k c uri _ v upgraded h)
    | inr e ↦ elim (Bool-cases (matches uri "/golf/stats")) [
      | inl f ↦ rw (route, e, f) (put-IsServed heard k c uri _ v replied h)
      | inr f ↦ elim (Bool-cases (matches uri "/golf/ui")) [
        | inl l ↦ rw (route, e, f, l) (put-IsServed heard k c uri _ v served h)
        | inr l ↦ rw (route, e, f, l) (put-IsServed heard k c uri _ v replied h)
      ]
    ]
  ]

  -- The events are served one after another, and what comes after them fits.
  poll-IsPolling :
      (es rest : List Event) (heard : List ℕ) (k : ℕ) (v : Service S)
      → Orderly heard v.closed (es ++ rest)
      → IsPolling heard (room es k) v
      → (later : List ℕ) × (w : Service S) × (poll store json matches es v ≡ some w)
        × IsPolling later k w
        × Orderly later w.closed rest
  unfolding poll
  poll-IsPolling [] rest heard k v p h = (heard, v, refl, h, p)
  poll-IsPolling (e ∷ es) rest heard k v p h =
      let (t, f, same, i) = route-IsServed heard (room es k) e v p.0 h in
      let (later, w, f', i', p') =
        poll-IsPolling es rest (heard_after e heard) k (mark e t)
          (subst (λ ds. Orderly (heard_after e heard) (closed_after e ds) (es ++ rest)) (sym same)
            p.1)
          i in
      (later, w, rw (poll, f) f', i', p')

  -- At the start nobody has a connection yet.
  started-IsPolling :
      (k : ℕ) (v : Service S) → v.connections_by_user ≡ [] → IsServing json I k v → IsPolling [] k v
  started-IsPolling k v none_yet h = record {
    serving = h;
    known = λ u c e. let e' = sym (ap (lookup u) none_yet) ∙ e in cc;
  }

  pub poll_lem :
      (es : List Event) (k : ℕ) (v : Service S)
      → v.connections_by_user ≡ []
      → Orderly [] v.closed es
      → IsServing json I (room es k) v
      → (w : Service S) × (poll store json matches es v ≡ some w) × IsServing json I k w
  poll_lem es k v none_yet p h =
      let (later, w, e, i, _) =
        poll-IsPolling es [] [] k v (subst (Orderly [] v.closed) (sym (append-nil es)) p)
          (started-IsPolling (room es k) v none_yet h) in
      (w, e, i.serving)

  -- After the events, one more message is answered.
  pub poll-IsAnswered :
      (es : List Event) (v : Service S) (text : String) (shuffle : Shuffle) (c : ℕ)
      → v.connections_by_user ≡ []
      → Orderly [] v.closed (es ++ ws_message c text shuffle ∷ [])
      → IsServing json I (room es 1) v
      → (w : Service S) × (poll store json matches es v ≡ some w)
        × IsAnswered json I 0 c (outside w) (handle_message store json text shuffle c w)
  poll-IsAnswered es v text shuffle c none_yet p h =
      let (later, w, e, i, p') =
        poll-IsPolling es (ws_message c text shuffle ∷ []) [] 1 v p
          (started-IsPolling (room es 1) v none_yet h) in
      (
        w,
        e,
        handle_message-IsAnswered store I safe json 0 c text shuffle w p'.0.0
            (record { serving = i.serving; live = p'.0.1 }),
      )
