-- ===== src/Golf/Service/Answers.antt =====
-- How a message to the service of cpp/golf_service is answered.
use moon_base.Base.{
  ℕ, String, ◌≡◌, false, inl, ◌⊎◌, refl, push_back, sym, subst, true, some, List, [], ◌∷◌, ◌++◌,
  All,
}
use moon_base.Base.Dict.{Dict, lookup, member, AreDistinct}
use moon_base.Absl.{StatusOr, ok}
use moon_base.Golf.GameState.{GameState}
use moon_base.Golf.GameState.Names.{IsNamed}
use moon_base.Golf.GameStore.Full.{IsFull}
use moon_base.Golf.Service.{Service, Output, sends, has_connection, send, send_open}
use moon_base.Golf.Service.Handlers.{Json}
use moon_base.Golf.Service.Telling.{ShowsAll}
use moon_base.Golf.Service.Invariant.{IsNotice, IsAllowed, notice, view, IsServing, sent-IsServing}

-- The user of the connection `c` sits at a full game, which is shown to all who sit at it, once each.
pub record IsShown (json : Json) (conns : Dict ℕ) (c : ℕ) (os : List Output) : Type 0 where
  pub game : GameState
  pub full : IsFull game
  pub sender : String
  pub own : lookup sender conns ≡ some c
  pub seat : IsNamed sender game.players
  pub users : List String
  pub distinct : AreDistinct users
  pub present : (u : String) → IsNamed u game.players → member u users ≡ true
  pub seated : All (λ u. IsNamed u game.players) users
  pub shows : ShowsAll json conns game users os

-- What a message on the connection `c` is answered by: one notice on `c`, or the views of a game.
pub data IsAnswer (json : Json) (conns : Dict ℕ) (c : ℕ) (os : List Output) : Type 0 where
  notifies :
      (text : String) → IsNotice json text → os ≡ sends c text ∷ [] → IsAnswer json conns c os
  shows_all : IsShown json conns c os → IsAnswer json conns c os

-- What a call finds apart from the store: the users' connections, which ones are closed, and what has
-- been sent.
abbrev pub outside : {S : Type 0} → Service S → Dict ℕ × List ℕ × List Output
outside v = (v.connections_by_user, v.closed, v.sent)

-- The service, with room for `k` more games, may take a message on the connection `c`, which is open.
pub record IsReady {S : Type 0} (json : Json) (I : (GameState → Type 0) → ℕ → S → Type 0) (k c : ℕ)
    (v : Service S) : Type 0 where
  pub serving : IsServing json I k v
  pub live : has_connection c v.closed ≡ false

-- A call came to its end, and a message on `c` was answered by it: no connection was closed by it, and
-- `c` is the only one that a user may have been given.
pub record IsAnswered {S : Type 0} (json : Json) (I : (GameState → Type 0) → ℕ → S → Type 0)
    (k c : ℕ) (before : Dict ℕ × List ℕ × List Output) (x : StatusOr (Unit {0}) × Service S)
    : Type 0 where
  pub after : Service S
  pub ends : x ≡ (ok tt, after)
  pub serving : IsServing json I k after
  pub outputs : List Output
  pub sent : after.sent ≡ before.2 ++ outputs
  pub still : after.closed ≡ before.1
  pub grown :
      (u : String) (d : ℕ)
      → lookup u after.connections_by_user ≡ some d
      → (lookup u before.0 ≡ some d) ⊎ (d ≡ c)
  pub answer : IsAnswer json after.connections_by_user c outputs

module _ {S : Type 0} (json : Json) (I : (GameState → Type 0) → ℕ → S → Type 0) where
  pub notified-IsAnswered :
      (k c : ℕ) (text : String) (v : Service S) (x : StatusOr (Unit {0}) × Service S)
      → IsNotice json text
      → x ≡ (ok tt, record v { sent = push_back v.sent (sends c text) })
      → IsReady json I k c v
      → IsAnswered json I k c (outside v) x
  notified-IsAnswered k c text v x n e h = record {
    after = record v { sent = push_back v.sent (sends c text) };
    ends = e;
    serving = sent-IsServing json I k v (sends c text ∷ []) (notice n, tt) h.serving;
    outputs = sends c text ∷ [];
    sent = refl;
    still = refl;
    grown = λ u d e. inl e;
    answer = notifies text n refl;
  }

  pub send-IsAnswered :
      (k c : ℕ) (text : String) (v : Service S)
      → IsNotice json text
      → IsReady json I k c v
      → IsAnswered json I k c (outside v) (send c text v)
  send-IsAnswered k c text v n h = notified-IsAnswered k c text v _ n (send_open c text v h.live) h

-- What a game shows to those at its table may go out to them.
pub ShowsAll-IsAllowed :
    (json : Json) (conns : Dict ℕ) (g : GameState) (us : List String) (os : List Output)
    → IsFull g
    → All (λ u. IsNamed u g.players) us
    → ShowsAll json conns g us os
    → All (IsAllowed json conns) os
ShowsAll-IsAllowed json conns g [] [] f a s = tt
ShowsAll-IsAllowed json conns g [] (o ∷ os) f a s = absurd s
ShowsAll-IsAllowed json conns g (u ∷ us) [] f a s = absurd s
ShowsAll-IsAllowed json conns g (u ∷ us) (o ∷ os) f a s = (
  subst (IsAllowed json conns) (sym s.0.sending) (
      view u s.0.own (record {
        game = g;
        full = f;
        seat = a.0;
        response = s.0.response;
        shown = s.0.shown;
        written = refl;
      })),
  ShowsAll-IsAllowed json conns g us os f a.1 s.1,
)
