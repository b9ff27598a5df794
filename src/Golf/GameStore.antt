-- ===== src/Golf/GameStore.antt =====
-- cpp/cards/golf/game_store.h: the interface between the game manager and what keeps the games.
-- A method takes the store's state and returns what the C++ method returns, with the state after.
pub mod Safe
pub mod Full
pub mod Keeps
use moon_base.Base.{String, Bool, List}
use moon_base.Absl.{StatusOr, ok, err, fault}
use moon_base.Golf.GameState.{GameState}

-- A call against a state: the state stays changed when the call fails.
abbrev pub Action : Type 0 → Type 0 → Type 0
Action S A = S → StatusOr A × S

infixl 5 ◌>>=◌
abbrev pub ◌>>=◌ : {S A B : Type 0} → Action S A → (A → Action S B) → Action S B
◌>>=◌ m f s =
    let (r, s') = m s in elim r [ ok a ↦ f a s' | err e ↦ (err e, s') | fault b ↦ (fault b, s') ]

abbrev pub pure : {S A : Type 0} → StatusOr A → Action S A
pure r s = (r, s)

-- The outcome of a call, an error included, for the caller to look at. A fault goes on.
abbrev pub attempt : {S A B : Type 0} → Action S A → (StatusOr A → Action S B) → Action S B
attempt m f s =
    let (r, s') = m s in
    elim r [ ok a ↦ f (ok a) s' | err e ↦ f (err e) s' | fault b ↦ (fault b, s') ]

-- `GameStoreInterface`
pub record GameStore (S : Type 0) : Type 0 where
  pub add_user : String → Action S (Unit {0})
  pub user_exists : String → Action S Bool
  pub remove_user : String → Action S (Unit {0})
  pub get_users : Action S (List String)
  pub new_game : GameState → Action S GameState
  pub read_game : String → Action S GameState
  pub read_game_by_user_id : String → Action S GameState
  pub read_all_games : Action S (List GameState)
  pub update_game : GameState → Action S GameState
