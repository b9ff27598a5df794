-- ===== src/Golf/GameManager.antt =====
-- cpp/cards/golf/game_manager.h and game_manager.cc, over any game store.
pub mod Safety
pub mod System
pub mod Refusals
pub mod Frozen
pub mod Unordered
use Prim.Native.String.{len}
use moon_base.Base.{
  ℕ, String, Bool, true, false, ◌||◌, none, some, List, [], ◌∷◌, ltb, ◌==◌, if◌then◌else◌, all_of,
}
use moon_base.Base.Int.{ℤ, pos, pos_part, ltb_ℤ}
use moon_base.Base.Dict.{Dict, insert, add}
use moon_base.Base.Text.{codes}
use moon_base.Absl.{StatusOr, ok, err, fault, invalid_argument_error, internal_error}
use moon_base.Golf.Player.{Player, Position}
use moon_base.Golf.GameState.{
  GameState, all_players_present, player_index, with_players, peek_at_draw_pile,
  swap_draw_for_discard_pile, swap_for_draw_pile, swap_for_discard_pile, knock, Move, peek,
  discard_draw, swap_draw, swap_discard, knocks,
}
use moon_base.Golf.GameStore.{GameStore, Action, ◌>>=◌, pure, attempt}
use moon_base.Golf.Deal.{shuffle_new_deck, dealt_game, claim_seat}

-- `allowedChars`
abbrev pub allowed_chars : String
allowed_chars = "ABCDEFGHIJKLMNOPQRSTUVWXYZabcdefghijklmnopqrstuvwxyz0123456789_-"

abbrev pub has_code : ℕ → List ℕ → Bool
has_code c [] = false
has_code c (d ∷ ds) = d == c || has_code c ds

-- `validate_user_id`: the size is in bytes; a character outside ASCII is not allowed.
unfoldable pub validate_user_id : String → StatusOr (Unit {0})
validate_user_id user_id =
    if ltb (len user_id) 4 || ltb 15 (len user_id)
    then err (invalid_argument_error "username length must be between 4 and 15 chars")
    else if all_of (λ c. has_code c (codes allowed_chars)) (codes user_id)
    then ok tt
    else err (invalid_argument_error "only alphanumeric, underscore, or dash allowed in username")

-- The names of a game's players, collected into a set.
abbrev pub names_into : List Player → List String → List String
names_into [] users = users
names_into (p ∷ ps) users = names_into ps (elim p.name [ none ↦ users | some n ↦ add n users ])

abbrev pub ids_into : String → List Player → Dict String → Dict String
ids_into game_id [] ids = ids
ids_into game_id (p ∷ ps) ids =
    ids_into game_id ps (elim p.name [ none ↦ ids | some n ↦ insert n game_id ids ])

abbrev pub all_ids_into : List GameState → Dict String → Dict String
all_ids_into [] ids = ids
all_ids_into (g ∷ gs) ids = all_ids_into gs (ids_into g.game_id g.players ids)

-- `return InternalError("internal error")` on any error of the call.
abbrev pub as_internal : {S A : Type 0} → StatusOr A → Action S A
as_internal (ok a) = pure (ok a)
as_internal (err e) = pure (err (internal_error "internal error"))
as_internal (fault b) = pure (fault b)

abbrev pub internally : {S A : Type 0} → Action S A → Action S A
internally m = attempt m as_internal

-- A value in place of any error of the call.
abbrev pub as_value : {S A : Type 0} → A → StatusOr A → Action S A
as_value d (ok a) = pure (ok a)
as_value d (err e) = pure (ok d)
as_value d (fault b) = pure (fault b)

abbrev pub or_else : {S A : Type 0} → A → Action S A → Action S A
or_else d m = attempt m (as_value d)

module _ {S : Type 0} (store : GameStore S) where
  -- `GameManager::registerUser`
  unfoldable pub register_user : String → Action S String
  register_user user_id = do
    _ ← pure (validate_user_id user_id)
    _ ← store.add_user user_id
    pure (ok user_id)

  -- What a request does for a user who is registered, and is refused to others.
  abbrev pub when_known : {A : Type 0} → Action S A → Bool → Action S A
  when_known m true = m
  when_known m false = pure (err (invalid_argument_error "unknown user"))

  -- `newGame` once the user is known: an int that is not from 2 to 5 is refused.
  abbrev pub open_game : (List ℕ → List ℕ) → String → ℤ → Action S GameState
  open_game shuffle user_id number_of_players =
      if ltb_ℤ number_of_players (pos 2) || ltb_ℤ (pos 5) number_of_players
      then pure (err (invalid_argument_error "2 to 5 players"))
      else (pure (dealt_game user_id (pos_part number_of_players) (shuffle_new_deck shuffle))
          >>= store.new_game)

  -- `GameManager::newGame`
  unfoldable pub new_game : (List ℕ → List ℕ) → String → ℤ → Action S GameState
  new_game shuffle user_id number_of_players =
      store.user_exists user_id >>= when_known (open_game shuffle user_id number_of_players)

  -- `joinGame` once the game has been read.
  abbrev pub take_seat : String → StatusOr GameState → Action S GameState
  take_seat user_id (err e) = pure (err (invalid_argument_error "unknown game id"))
  take_seat user_id (fault b) = pure (fault b)
  take_seat user_id (ok g) =
      if all_players_present g
      then pure (err (invalid_argument_error "no spots available"))
      else (pure (claim_seat user_id false g.players) >>= λ ps.
          store.update_game (with_players g ps))

  -- `GameManager::joinGame`
  unfoldable pub join_game : String → String → Action S GameState
  join_game game_id user_id =
      internally (store.user_exists user_id)
      >>= when_known (attempt (store.read_game game_id) (take_seat user_id))

  -- `GameManager::getGameStateForUser`
  unfoldable pub get_game_state_for_user : String → String → Action S GameState
  get_game_state_for_user game_id user_id =
      internally (store.user_exists user_id) >>= when_known (store.read_game game_id)

  -- `GameManager::updateGameState`
  unfoldable pub update_game_state : StatusOr GameState → Action S GameState
  update_game_state (ok g) = store.update_game g
  update_game_state (err e) = pure (err (invalid_argument_error e.message))
  update_game_state (fault b) = pure (fault b)

  -- A move once the game has been read.
  pub move_on :
      String → (GameState → ℤ → StatusOr GameState) → StatusOr GameState → Action S GameState
  unfolding update_game_state
  move_on user_id move (err e) = pure (err (invalid_argument_error e.message))
  move_on user_id move (fault b) = pure (fault b)
  move_on user_id move (ok g) = update_game_state (move g (player_index g user_id))

  -- What the five methods for moves have in common.
  pub on_game : String → String → (GameState → ℤ → StatusOr GameState) → Action S GameState
  unfolding get_game_state_for_user move_on
  on_game game_id user_id move =
      attempt (get_game_state_for_user game_id user_id) (move_on user_id move)

  -- `GameManager::peekAtDrawPile`
  unfoldable pub manager_peek : String → String → Action S GameState
  unfolding on_game
  manager_peek game_id user_id = on_game game_id user_id peek_at_draw_pile

  -- `GameManager::swapDrawForDiscardPile`
  unfoldable pub manager_swap_draw_for_discard : String → String → Action S GameState
  unfolding on_game
  manager_swap_draw_for_discard game_id user_id = on_game game_id user_id swap_draw_for_discard_pile

  -- `GameManager::swapForDrawPile`
  unfoldable pub manager_swap_for_draw : String → String → Position → Action S GameState
  unfolding on_game
  manager_swap_for_draw game_id user_id position =
      on_game game_id user_id (λ g i. swap_for_draw_pile g i position)

  -- `GameManager::swapForDiscardPile`
  unfoldable pub manager_swap_for_discard : String → String → Position → Action S GameState
  unfolding on_game
  manager_swap_for_discard game_id user_id position =
      on_game game_id user_id (λ g i. swap_for_discard_pile g i position)

  -- `GameManager::knock`
  unfoldable pub manager_knock : String → String → Action S GameState
  unfolding on_game
  manager_knock game_id user_id = on_game game_id user_id knock

  -- `GameManager::getUsersOnline`
  unfoldable pub get_users_online : Action S (List String)
  get_users_online = or_else [] store.get_users

  -- `GameManager::getGames`
  unfoldable pub get_games : Action S (List GameState)
  get_games = or_else [] store.read_all_games

  -- `GameManager::getGameIdsByUserId`
  unfoldable pub get_game_ids_by_user_id : Action S (Dict String)
  unfolding get_games
  get_game_ids_by_user_id = do gs ← get_games; pure (ok (all_ids_into gs []))

  -- `getUsersByGameId` once the game has been read.
  abbrev pub users_of : StatusOr GameState → Action S (List String)
  users_of (ok g) = pure (ok (names_into g.players []))
  users_of (err e) = pure (ok [])
  users_of (fault b) = pure (fault b)

  -- `GameManager::getUsersByGameId`
  unfoldable pub get_users_by_game_id : String → Action S (List String)
  get_users_by_game_id game_id = attempt (store.read_game game_id) users_of

  -- A player's move, by its method.
  abbrev pub manager_play : Move → String → String → Action S GameState
  manager_play peek game_id u = manager_peek game_id u
  manager_play discard_draw game_id u = manager_swap_draw_for_discard game_id u
  manager_play (swap_draw q) game_id u = manager_swap_for_draw game_id u q
  manager_play (swap_discard q) game_id u = manager_swap_for_discard game_id u q
  manager_play knocks game_id u = manager_knock game_id u
