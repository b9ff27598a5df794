-- ===== src/Golf/GameManager/Refusals.antt =====
-- What game_manager.cc answers to a move that the game refuses: nothing is written.
use moon_base.Base.{ℕ, ◌<◌, String, ◌≡◌, ap, ◌∙◌, some, get_elem?}
use moon_base.Base.Int.{pos}
use moon_base.Absl.{ok, err, invalid_argument_error}
use moon_base.Golf.Player.{Player}
use moon_base.Golf.GameState.{
  GameState, Move, peek, discard_draw, swap_draw, swap_discard, knocks, play, player_index,
}
use moon_base.Golf.GameState.Rules.{refusal}
use moon_base.Golf.GameState.Rules.Refusals.{refused}
use moon_base.Golf.GameState.Seats.{shared_name_refusal}
use moon_base.Golf.GameStore.{GameStore, attempt}
use moon_base.Golf.GameManager.{
  get_game_state_for_user, update_game_state, move_on, on_game, manager_peek,
  manager_swap_draw_for_discard, manager_swap_for_draw, manager_swap_for_discard, manager_knock,
  manager_play,
}

module _ {S : Type 0} (store : GameStore S) where
  on_game_refuses :
      (m : Move) (id u msg : String) (g : GameState) (s t : S)
      → get_game_state_for_user store id u s ≡ (ok g, t)
      → refusal m g (player_index g u) ≡ some msg
      → on_game store id u (play m) s ≡ (err (invalid_argument_error msg), t)
  unfolding on_game move_on update_game_state
  on_game_refuses m id u msg g s t reads e =
      ap (λ x. attempt (λ _. x) (move_on store u (play m)) s) reads
      ∙ ap (λ r. update_game_state store r t) (refused m g (player_index g u) msg e)

  pub manager_play_refuses :
      (m : Move) (id u msg : String) (g : GameState) (s t : S)
      → get_game_state_for_user store id u s ≡ (ok g, t)
      → refusal m g (player_index g u) ≡ some msg
      → manager_play store m id u s ≡ (err (invalid_argument_error msg), t)
  unfolding manager_peek manager_swap_draw_for_discard manager_swap_for_draw
      manager_swap_for_discard manager_knock play on_game
  manager_play_refuses peek id u msg g s t r e = on_game_refuses peek id u msg g s t r e
  manager_play_refuses discard_draw id u msg g s t r e =
      on_game_refuses discard_draw id u msg g s t r e
  manager_play_refuses knocks id u msg g s t r e = on_game_refuses knocks id u msg g s t r e
  manager_play_refuses (swap_draw q) id u msg g s t r e =
      on_game_refuses (swap_draw q) id u msg g s t r e
  manager_play_refuses (swap_discard q) id u msg g s t r e =
      on_game_refuses (swap_discard q) id u msg g s t r e

  -- When it is the turn of a seat, and an earlier seat has the same name, then whatever user makes
  -- whatever move, over any store that gives the game to this user, the move is refused by a rule of
  -- the game, and the store is left as the reading left it.
  pub manager_play_stuck :
      (m : Move) (id u : String) (g : GameState) (s t : S) (i j : ℕ) (p q : Player)
      → get_game_state_for_user store id u s ≡ (ok g, t)
      → get_elem? g.players i ≡ some p
      → get_elem? g.players j ≡ some q
      → p.name ≡ q.name
      → i < j
      → g.whose_turn ≡ pos j
      → (msg : String) × (refusal m g (player_index g u) ≡ some msg)
        × (manager_play store m id u s ≡ (err (invalid_argument_error msg), t))
  manager_play_stuck m id u g s t i j p q reads a b same lt turn =
      let (msg, e) = shared_name_refusal m g i j p q u a b same lt turn in
      (msg, e, manager_play_refuses m id u msg g s t reads e)
