-- ===== src/Golf/Service/Telling.antt =====
-- What handlers.cc does with a game that a move has come to: everyone at the table is shown it.
use mathlib.Core.List.{append_assoc, append-nil}
use mathlib.Core.Option.{some-injective}
use moon_base.Base.{
  ℕ, String, ◌≡◌, refl, ap, sym, ◌∙◌, true, false, inl, inr, Option, none, some, List, [], ◌∷◌,
  ◌++◌, All, All-both, push_back, arith, eq_iff,
}
use moon_base.Base.Dict.{
  AreDistinct, add-AreDistinct, Dict, lookup, has_key-lookup, member, add, member-add,
}
use moon_base.Absl.{ok}
use moon_base.Golf.Player.{Player}
use moon_base.Golf.GameState.{GameState}
use moon_base.Golf.GameState.Valid.{IsValid}
use moon_base.Golf.GameState.Names.{names_of, IsNamed, all-IsNamed, OfName, player_index-IsNamed}
use moon_base.Golf.GameStore.{GameStore, ◌>>=◌, attempt}
use moon_base.Golf.GameManager.{names_into, get_users_by_game_id, users_of}
use moon_base.Golf.StateMapper.{GameStateResponse, game_state_to_proto}
use moon_base.Golf.StateMapper.Views.{game_state_to_proto_lem}
use moon_base.Golf.Service.{Service, Output, sends, with_store, has_connection, send_open}
use moon_base.Golf.Service.Handlers.{
  Json, user_state_to_json, tell_users, handle_game_manager_result,
}
use moon_base.Golf.Service.Known.{HasConnection, AllOpen, All-names_into}

-- What the user `u` is sent of the game `g`: the JSON of what the game shows to `u`, on the
-- connection of `u`.
pub record Shows (json : Json) (conns : Dict ℕ) (g : GameState) (u : String) (o : Output)
    : Type 0 where
  pub connection : ℕ
  pub own : lookup u conns ≡ some connection
  pub response : GameStateResponse
  pub shown : game_state_to_proto g u ≡ ok response
  pub sending :
      o ≡ sends connection (elim (json.to_json response) [ some t ↦ t | none ↦ "UNKNOWN" ])

-- One output for each user, in their order.
abbrev pub ShowsAll : Json → Dict ℕ → GameState → List String → List Output → Type 0
ShowsAll json conns g [] [] = Unit
ShowsAll json conns g [] (o ∷ os) = ⊥
ShowsAll json conns g (u ∷ us) [] = ⊥
ShowsAll json conns g (u ∷ us) (o ∷ os) = Shows json conns g u o × ShowsAll json conns g us os

-- The users that are collected from a table are its names, each once.
names_into-AreDistinct :
    (ps : List Player) (us : List String) → AreDistinct us → AreDistinct (names_into ps us)
names_into-AreDistinct [] us h = h
names_into-AreDistinct (p ∷ ps) us h = names_into-AreDistinct ps _ (step p.name)
  where
    step : (o : Option String) → AreDistinct (elim o [ none ↦ us | some n ↦ add n us ])
    step none = h
    step (some n) = add-AreDistinct n us h

names_into_keep :
    (u : String) (ps : List Player) (us : List String)
    → member u us ≡ true
    → member u (names_into ps us) ≡ true
names_into_keep u [] us h = h
names_into_keep u (p ∷ ps) us h = names_into_keep u ps _ (step p.name)
  where
    step : (o : Option String) → member u (elim o [ none ↦ us | some n ↦ add n us ]) ≡ true
    step none = h
    step (some n) = ground (arith, member-add n u us)

pub names_into-IsNamed :
    (u : String) (ps : List Player) (us : List String)
    → IsNamed u ps
    → member u (names_into ps us) ≡ true
names_into-IsNamed u [] us h = absurd h
names_into-IsNamed u (p ∷ ps) us (inl e) = names_into_keep u ps _ (here u us p.name e)
  where
    here :
        (u : String) (us : List String) (o : Option String)
        → o ≡ some u
        → member u (elim o [ none ↦ us | some n ↦ add n us ]) ≡ true
    here u us none e = cc
    here u us (some n) e =
        let same = some-injective n u e in ground (arith, member-add n u us, eq_iff n u)
names_into-IsNamed u (p ∷ ps) us (inr h) = names_into-IsNamed u ps _ h

-- The users of a table that the store reads back with the same players.
pub users_found :
    {S : Type 0} (store : GameStore S) (g again : GameState) (s : S)
    → store.read_game g.game_id s ≡ (ok again, s)
    → again.players ≡ g.players
    → get_users_by_game_id store g.game_id s ≡ (ok (names_into g.players []), s)
unfolding get_users_by_game_id
users_found store g again s reads same =
    ap (λ x. attempt (λ _. x) (users_of store) s) reads ∙ ap (λ ps. (ok (names_into ps []), s)) same

-- All of them have connections, if the table's players do, and sit at it.
pub users_told :
    (conns : Dict ℕ) (g : GameState)
    → All (OfName (HasConnection conns)) (names_of g.players)
    → All (λ u. HasConnection conns u × IsNamed u g.players) (names_into g.players [])
users_told conns g known =
    All-both (HasConnection conns) (λ u. IsNamed u g.players) (names_into g.players [])
      (All-names_into (HasConnection conns) g.players [] known tt)
      (All-names_into (λ u. IsNamed u g.players) g.players [] (all-IsNamed g.players) tt)

module _ {S : Type 0} (store : GameStore S) (json : Json) where
  pub told :
      (g : GameState) (u : String) (us : List String) (r : GameStateResponse) (d : ℕ)
      (v : Service S)
      → game_state_to_proto g u ≡ ok r
      → lookup u v.connections_by_user ≡ some d
      → has_connection d v.closed ≡ false
      → tell_users store json g (u ∷ us) v
        ≡ tell_users store json g us (record v {
          sent =
              push_back v.sent (sends d (elim (json.to_json r) [ some t ↦ t | none ↦ "UNKNOWN" ]));
        })
  unfolding tell_users user_state_to_json
  told g u us r d v shown at quiet =
      rw (user_state_to_json, shown, at)
        (ap (λ x. ((λ _. x) >>= λ _. tell_users store json g us) v) (send_open d _ v quiet))

  tell_users_lem :
      (g : GameState) (us : List String) (v : Service S)
      → IsValid g
      → All (λ u. HasConnection v.connections_by_user u × IsNamed u g.players) us
      → AllOpen v.connections_by_user v.closed
      → (os : List Output) × (tell_users store json g us v
          ≡ (ok tt, record v { sent = v.sent ++ os }))
        × ShowsAll json v.connections_by_user g us os
  unfolding tell_users
  tell_users_lem g [] v valid a quiet =
      ([], ap (λ x. (ok tt, record v { sent = x })) (sym (append-nil v.sent)), tt)
  tell_users_lem g (u ∷ us) v valid a quiet =
      let (p, seat, _) = player_index-IsNamed u g a.0.1 in
      let (r, shown, _, _, _) = game_state_to_proto_lem g u p valid seat in
      let (d, at) = has_key-lookup u v.connections_by_user a.0.0 in
      let o = sends d (elim (json.to_json r) [ some t ↦ t | none ↦ "UNKNOWN" ]) in
      let (os, e, s) =
        tell_users_lem g us (record v { sent = push_back v.sent o }) valid a.1 quiet in
      (
        o ∷ os,
        told g u us r d v shown at (quiet u d at)
            ∙ e
            ∙ ap (λ x. (ok tt, record v { sent = x })) (append_assoc v.sent (o ∷ []) os),
        (record { connection = d; own = at; response = r; shown = shown; sending = refl }, s),
      )

  -- When the manager returns a well-formed game that the store reads back with the same players, all
  -- of them connected, and no connection of a user is closed, then each user who has a name at the table is sent
  -- one text, on that user's own connection: the JSON of what the game shows to that user. Nothing else
  -- is sent, and the store and the connections stay as they are.
  pub handle_game_manager_result_lem :
      (c : ℕ) (g again : GameState) (v : Service S)
      → IsValid g
      → store.read_game g.game_id v.store ≡ (ok again, v.store)
      → again.players ≡ g.players
      → All (OfName (HasConnection v.connections_by_user)) (names_of g.players)
      → AllOpen v.connections_by_user v.closed
      → (users : List String) × (os : List Output) × (handle_game_manager_result store json c
            (ok g)
            v
          ≡ (ok tt, record v { sent = v.sent ++ os }))
        × ShowsAll json v.connections_by_user g users os
        × AreDistinct users
        × ((u : String) → IsNamed u g.players → member u users ≡ true)
        × All (λ u. IsNamed u g.players) users
  unfolding handle_game_manager_result get_users_by_game_id
  handle_game_manager_result_lem c g again v valid reads same known quiet =
      let users = names_into g.players [] in
      let (os, e, shows) =
        tell_users_lem g users v valid (users_told v.connections_by_user g known) quiet in
      (
        users,
        os,
        ap (λ x. (with_store (λ _. x) >>= tell_users store json g) v)
              (users_found store g again v.store reads same)
            ∙ e,
        shows,
        names_into-AreDistinct g.players [] tt,
        (λ u n. names_into-IsNamed u g.players [] n),
        All-names_into (λ u. IsNamed u g.players) g.players [] (all-IsNamed g.players) tt,
      )
