-- ===== src/Golf/Service/Closing.antt =====
-- handlers.cc forgets no connection when it is closed: what comes of it when a game is told of.
use moon_base.Base.{
  ℕ, String, Bool, ◌≡◌, refl, ap, sym, ◌∙◌, true, false, ◌||◌, inl, inr, Bool-cases, some, List, [],
  ◌∷◌, All, str_eq, eq_iff,
}
use mathlib.Core.Option.{some-injective}
use moon_base.Base.Dict.{lookup, has_key-lookup, member}
use moon_base.Absl.{ok, fault, undefined}
use moon_base.Golf.GameState.{GameState}
use moon_base.Golf.GameState.Valid.{IsValid}
use moon_base.Golf.GameState.Names.{names_of, IsNamed, OfName, player_index-IsNamed}
use moon_base.Golf.GameStore.{GameStore, ◌>>=◌}
use moon_base.Golf.GameManager.{names_into, get_users_by_game_id}
use moon_base.Golf.StateMapper.{GameStateResponse, game_state_to_proto}
use moon_base.Golf.StateMapper.Views.{game_state_to_proto_lem}
use moon_base.Golf.Service.{Service, has_connection, send, with_store}
use moon_base.Golf.Service.Handlers.{
  Json, user_state_to_json, tell_users, handle_game_manager_result,
}
use moon_base.Golf.Service.Known.{HasConnection}
use moon_base.Golf.Service.Telling.{told, names_into-IsNamed, users_found, users_told}

send_closed :
    {S : Type 0} (c : ℕ) (text : String) (v : Service S)
    → has_connection c v.closed ≡ true
    → send c text v ≡ (fault undefined, v)
unfolding send
send_closed c text v h = rw (send, h) refl

module _ {S : Type 0} (store : GameStore S) (json : Json) where
  faults_at :
      (g : GameState) (u : String) (us : List String) (r : GameStateResponse) (d : ℕ)
      (v : Service S)
      → game_state_to_proto g u ≡ ok r
      → lookup u v.connections_by_user ≡ some d
      → has_connection d v.closed ≡ true
      → (tell_users store json g (u ∷ us) v).0 ≡ fault undefined
  unfolding tell_users user_state_to_json
  faults_at g u us r d v shown at gone =
      rw (user_state_to_json, shown, at)
        (ap (λ x. (((λ _. x) >>= λ _. tell_users store json g us) v).0) (send_closed d _ v gone))

  tell_users_faults :
      (g : GameState) (u : String) (d : ℕ) (us : List String) (v : Service S)
      → IsValid g
      → All (λ w. HasConnection v.connections_by_user w × IsNamed w g.players) us
      → member u us ≡ true
      → lookup u v.connections_by_user ≡ some d
      → has_connection d v.closed ≡ true
      → (tell_users store json g us v).0 ≡ fault undefined
  tell_users_faults g u d [] v valid a m at gone = cc
  tell_users_faults g u d (w ∷ us) v valid a m at gone =
      let (p, seat, _) = player_index-IsNamed w g a.0.1 in
      let (r, shown, _, _, _) = game_state_to_proto_lem g w p valid seat in
      let (e, here) = has_key-lookup w v.connections_by_user a.0.0 in
      elim (Bool-cases (has_connection e v.closed)) [
        | inl closed ↦ faults_at g w us r e v shown here closed
        | inr still ↦
            ap (λ x. x.0) (told store json g w us r e v shown here still)
            ∙ tell_users_faults g u d us _ valid a.1 (later e here still) at gone
      ]
    where
      later :
          (e : ℕ)
          → lookup w v.connections_by_user ≡ some e
          → has_connection e v.closed ≡ false
          → member u us ≡ true
      later e here still = go (str_eq w u) refl m
        where
          go : (b : Bool) → str_eq w u ≡ b → b || member u us ≡ true → member u us ≡ true
          go false s x = x
          go true s x =
              let same = (eq_iff w u).0 s in
              let one =
                some-injective d e
                  (sym at ∙ sym (ap (λ k. lookup k v.connections_by_user) same) ∙ here) in
              let gone' : has_connection e v.closed ≡ true = rw (sym one) gone in cc

  -- When the manager returns a well-formed game that the store reads back with the same players, all
  -- of whom are in the handler's table of connections, and the connection there of one of them is
  -- closed, then telling the users of the game ends in undefined behaviour.
  pub handle_game_manager_result_faults :
      (c : ℕ) (g again : GameState) (v : Service S) (u : String) (d : ℕ)
      → IsValid g
      → store.read_game g.game_id v.store ≡ (ok again, v.store)
      → again.players ≡ g.players
      → All (OfName (HasConnection v.connections_by_user)) (names_of g.players)
      → IsNamed u g.players
      → lookup u v.connections_by_user ≡ some d
      → has_connection d v.closed ≡ true
      → (handle_game_manager_result store json c (ok g) v).0 ≡ fault undefined
  unfolding handle_game_manager_result get_users_by_game_id
  handle_game_manager_result_faults c g again v u d valid reads same known n at gone =
      ap (λ x. ((with_store (λ _. x) >>= tell_users store json g) v).0)
        (users_found store g again v.store reads same)
      ∙ tell_users_faults g u d (names_into g.players []) v valid
          (users_told v.connections_by_user g known) (names_into-IsNamed u g.players [] n) at gone
