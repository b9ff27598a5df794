-- ===== src/Golf/GameState/Frozen.antt =====
-- The games that no move of game_state.cc leads on from, whoever makes it.
use moon_base.Base.{ℕ, ◌<◌, String, ◌≡◌, refl, true, some, get_elem?}
use moon_base.Base.Int.{ℤ, pos}
use moon_base.Absl.{ok}
use moon_base.Golf.Player.{Player}
use moon_base.Golf.GameState.{GameState, Move, play, player_index, is_over, all_players_present}
use moon_base.Golf.GameState.Valid.{IsValid}
use moon_base.Golf.GameState.Rules.{
  refusal, Step, play-Step, peeks, discards, swaps_draw, swaps_discard, knocked,
}
use moon_base.Golf.GameState.Rules.Refusals.{over_refusal}
use moon_base.Golf.GameState.Seats.{shared_name_refusal}

-- A game that is over, or one with all seats taken in which it is the turn of a seat that an earlier
-- seat shares its name with.
pub data IsFrozen (g : GameState) : Type 0 where
  over : is_over g ≡ true → IsFrozen g
  shared :
      (i j : ℕ) (p q : Player)
      → all_players_present g ≡ true
      → get_elem? g.players i ≡ some p
      → get_elem? g.players j ≡ some q
      → p.name ≡ q.name
      → i < j
      → g.whose_turn ≡ pos j
      → IsFrozen g

pub IsFrozen-refusal :
    (m : Move) (g : GameState) (u : String)
    → IsFrozen g
    → (msg : String) × (refusal m g (player_index g u) ≡ some msg)
IsFrozen-refusal m g u (over e) = over_refusal m g (player_index g u) e
IsFrozen-refusal m g u (shared i j p q all a b same lt turn) =
    shared_name_refusal m g i j p q u a b same lt turn

Step-game_id : {g h : GameState} (m : Move) → Step g h m → h.game_id ≡ g.game_id
Step-game_id m (peeks r u e) = rw e refl
Step-game_id m (discards c r top e) = rw e refl
Step-game_id m (swaps_draw c p q r top seat e) = rw e refl
Step-game_id m (swaps_discard c p q r u top seat e) = rw e refl
Step-game_id m (knocked r u f e) = rw e refl

-- No move gives a game another id.
pub play-game_id :
    (m : Move) (g : GameState) (z : ℤ) {h : GameState}
    → IsValid g
    → play m g z ≡ ok h
    → h.game_id ≡ g.game_id
play-game_id m g z v e = Step-game_id m (play-Step g v m z e).1
