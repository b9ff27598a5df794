-- ===== src/Golf/Service/Known.antt =====
-- The games whose players all have a connection: what handlers.cc relies on when it looks one up.
use moon_base.Base.{
  ℕ, suc, String, ◌≡◌, sym, subst, true, false, inl, inr, Bool-cases, Option, none, some, List, [],
  ◌∷◌, ◌==◌, if◌then◌else◌, All,
}
use moon_base.Base.Dict.{Dict, lookup, has_key, add, All-add}
use moon_base.Golf.Player.{Player, is_present}
use moon_base.Golf.GameState.{GameState}
use moon_base.Golf.GameState.Names.{names_of, play-names_of, OfName}
use moon_base.Golf.Deal.Laws.{NamedFrom}
use moon_base.Golf.Deal.Join.{seat_first}
use moon_base.Golf.GameStore.Full.{IsFull, IsClosed, IsFull-IsClosed, dealt_game-Opens}
use moon_base.Golf.GameManager.{names_into}
use moon_base.Golf.Service.{has_connection}

abbrev pub HasConnection : Dict ℕ → String → Type 0
HasConnection conns u = has_key u conns ≡ true

-- No connection of a user is closed.
abbrev pub AllOpen : Dict ℕ → List ℕ → Type 0
AllOpen conns closed =
    (u : String) (c : ℕ) → lookup u conns ≡ some c → has_connection c closed ≡ false

-- A full game, all of whose players have a connection.
pub record KnownTo (conns : Dict ℕ) (g : GameState) : Type 0 where
  pub full : IsFull g
  pub known : All (OfName (HasConnection conns)) (names_of g.players)

seat_first_known :
    (conns : Dict ℕ) (u : String) (ps : List Player)
    → HasConnection conns u
    → All (OfName (HasConnection conns)) (names_of ps)
    → All (OfName (HasConnection conns)) (names_of (seat_first u ps))
seat_first_known conns u [] h a = tt
seat_first_known conns u (p ∷ ps) h a = elim (Bool-cases (is_present p)) [
  | inl e ↦ rw e (a.0, seat_first_known conns u ps h a.1)
  | inr e ↦ rw e (h, a.1)
]

dealt_known :
    (conns : Dict ℕ) (u : String) (i : ℕ) (ps : List Player)
    → HasConnection conns u
    → NamedFrom u i ps
    → All (OfName (HasConnection conns)) (names_of ps)
dealt_known conns u i [] h n = tt
dealt_known conns u i (p ∷ ps) h n = (at (i == 0) p.name n.0, dealt_known conns u (suc i) ps h n.1)
  where
    at :
        (b : _) (o : Option String)
        → o ≡ (if b then some u else none)
        → OfName (HasConnection conns) o
    at true o e = rw e h
    at false o e = rw e tt

-- The requests of a user with a connection keep to such games.
pub KnownTo-IsClosed :
    (conns : Dict ℕ) (u : String) → HasConnection conns u → IsClosed (KnownTo conns) u
KnownTo-IsClosed conns u h =
    let c = IsFull-IsClosed u in
    record {
      stable = λ g id version k. (
        record { full = (c.stable g id version k.full).0; known = k.known },
        record { full = (c.stable g id version k.full).1; known = k.known },
      );
      played = λ m g z k. elim (c.played m g z k.full) [
        | inr refused ↦ inr refused
        | inl (h', r, f) ↦ inl (
          h',
          r,
          record {
            full = f;
            known =
                subst (All (OfName (HasConnection conns)))
                  (sym (play-names_of m g z k.full.valid r)) k.known;
          },
        )
      ];
      named = λ m g k e. c.named m g k.full e;
      seated = λ g k. record {
        full = c.seated g k.full;
        known = seat_first_known conns u g.players h k.known;
      };
      opened = λ shuffle n p few many.
          let o = dealt_game-Opens shuffle u n p few many in
          record {
            game = o.game;
            result = o.result;
            good = record {
              full = o.good.0;
              known = dealt_known conns u 0 o.game.players h o.good.1;
            };
            creator = o.creator;
            seat = o.seat;
          };
    }

-- What holds of the names of a table holds of the users that `getUsersByGameId` collects.
pub All-names_into :
    (Q : String → Type 0) (ps : List Player) (us : List String)
    → All (OfName Q) (names_of ps)
    → All Q us
    → All Q (names_into ps us)
All-names_into Q [] us h a = a
All-names_into Q (p ∷ ps) us h a = All-names_into Q ps _ h.1 (step p.name h.0)
  where
    step : (o : Option String) → OfName Q o → All Q (elim o [ none ↦ us | some n ↦ add n us ])
    step none q = a
    step (some n) q = All-add Q n us q a
