-- ===== src/Golf/Service/Missing.antt =====
-- handlers.cc looks up a connection for every user at a table: what comes of it when there is none, as
-- after a new start of the service, which forgets the connections where the database keeps the games.
use moon_base.Base.{
  ℕ, String, Bool, ◌≡◌, refl, ap, ◌∙◌, true, false, ◌||◌, inl, inr, none, some, Option-cases, List,
  [], ◌∷◌, All, str_eq, eq_iff,
}
use moon_base.Base.Dict.{lookup, member}
use moon_base.Absl.{ok, fault, throws_out_of_range}
use moon_base.Golf.GameState.{GameState}
use moon_base.Golf.GameState.Valid.{IsValid}
use moon_base.Golf.GameState.Names.{IsNamed, all-IsNamed, player_index-IsNamed}
use moon_base.Golf.GameStore.{GameStore, ◌>>=◌}
use moon_base.Golf.GameManager.{names_into, get_users_by_game_id}
use moon_base.Golf.StateMapper.Views.{game_state_to_proto_lem}
use moon_base.Golf.Service.{Service, with_store}
use moon_base.Golf.Service.Handlers.{
  Json, user_state_to_json, tell_users, handle_game_manager_result,
}
use moon_base.Golf.Service.Known.{AllOpen, All-names_into}
use moon_base.Golf.Service.Telling.{told, names_into-IsNamed, users_found}

module _ {S : Type 0} (store : GameStore S) (json : Json) where
  tell_users_throws :
      (g : GameState) (u : String) (us : List String) (v : Service S)
      → IsValid g
      → All (λ w. IsNamed w g.players) us
      → member u us ≡ true
      → lookup u v.connections_by_user ≡ none
      → AllOpen v.connections_by_user v.closed
      → (tell_users store json g us v).0 ≡ fault throws_out_of_range
  unfolding tell_users user_state_to_json
  tell_users_throws g u [] v valid a m missing quiet = cc
  tell_users_throws g u (w ∷ us) v valid a m missing quiet =
      let (p, seat, _) = player_index-IsNamed w g a.0 in
      let (r, shown, _, _, _) = game_state_to_proto_lem g w p valid seat in
      elim (Option-cases (lookup w v.connections_by_user)) [
        | inl e ↦ rw (user_state_to_json, shown, e) refl
        | inr (d, e) ↦
            ap (λ x. x.0) (told store json g w us r d v shown e (quiet w d e))
            ∙ tell_users_throws g u us _ valid a.1 (later d e) missing quiet
      ]
    where
      later : (d : ℕ) → lookup w v.connections_by_user ≡ some d → member u us ≡ true
      later d e = go (str_eq w u) refl m
        where
          go : (b : Bool) → str_eq w u ≡ b → b || member u us ≡ true → member u us ≡ true
          go false s x = x
          go true s x =
              let same = (eq_iff w u).0 s in
              let known = ap (λ k. lookup k v.connections_by_user) same in cc

  -- When the manager returns a well-formed game that the store reads back with the same players, one
  -- of them has no connection in the handler's table, and no connection of a user is closed, then telling the
  -- users of the game throws std::out_of_range, which nothing catches, whoever else has a
  -- connection.
  pub handle_game_manager_result_throws :
      (c : ℕ) (g again : GameState) (v : Service S) (u : String)
      → IsValid g
      → store.read_game g.game_id v.store ≡ (ok again, v.store)
      → again.players ≡ g.players
      → IsNamed u g.players
      → lookup u v.connections_by_user ≡ none
      → AllOpen v.connections_by_user v.closed
      → (handle_game_manager_result store json c (ok g) v).0 ≡ fault throws_out_of_range
  unfolding handle_game_manager_result get_users_by_game_id
  handle_game_manager_result_throws c g again v u valid reads same n missing quiet =
      ap (λ x. ((with_store (λ _. x) >>= tell_users store json g) v).0)
        (users_found store g again v.store reads same)
      ∙ tell_users_throws g u (names_into g.players []) v valid
          (All-names_into (λ w. IsNamed w g.players) g.players [] (all-IsNamed g.players) tt)
          (names_into-IsNamed u g.players [] n) missing quiet
