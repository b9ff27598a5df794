-- ===== src/Golf/Deal/Join.antt =====
-- The loop of `joinGame` in game_manager.cc gives the first free seat to the user, cards and all.
use moon_base.Base.{
  String, ◌≡◌, refl, true, false, some, List, [], ◌∷◌, arith, length, if◌then◌else◌,
}
use moon_base.Absl.{ok}
use moon_base.Golf.Player.{Player, is_present, claim_hand}
use moon_base.Golf.GameState.Conservation.{hands}
use moon_base.Golf.Deal.{claim_seat}

-- The players with the first free seat taken.
abbrev pub seat_first : String → List Player → List Player
seat_first user_id [] = []
seat_first user_id (p ∷ ps) =
    if is_present p then p ∷ seat_first user_id ps else record p { name = some user_id } ∷ ps

claim_seat_added : (user_id : String) (ps : List Player) → claim_seat user_id true ps ≡ ok ps
unfolding claim_seat
claim_seat_added user_id [] = refl
claim_seat_added user_id (p ∷ ps) = ground (arith, claim_seat_added user_id ps)

-- `joinGame` never dereferences a claim that failed: its loop seats the user in the first free seat
-- and changes nothing else.
pub claim_seat_lem :
    (user_id : String) (ps : List Player) → claim_seat user_id false ps ≡ ok (seat_first user_id ps)
unfolding claim_seat claim_hand
claim_seat_lem user_id [] = refl
claim_seat_lem user_id (p ∷ ps) =
    ground (arith, claim_seat_lem user_id ps, claim_seat_added user_id ps)

pub hands-seat_first :
    (user_id : String) (ps : List Player) → hands (seat_first user_id ps) ≡ hands ps
hands-seat_first user_id [] = refl
hands-seat_first user_id (p ∷ ps) = ground (arith, hands-seat_first user_id ps)

pub length-seat_first :
    (user_id : String) (ps : List Player) → length (seat_first user_id ps) ≡ length ps
length-seat_first user_id [] = refl
length-seat_first user_id (p ∷ ps) = ground (arith, length-seat_first user_id ps)
