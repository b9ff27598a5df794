-- ===== src/Golf/GameState/Valid.antt =====
-- The well-formed game states, and the moves' arithmetic on them: no int overflows, no index is out
-- of range, and the loop that copies the players is a write at the current player's index.
use moon_base.Base.{
  ℕ, zero, suc, ◌+◌, ◌%◌, ◌≤◌, ◌<◌, ◌≡◌, refl, sym, ap, ◌∙◌, true, false, List, [], ◌∷◌, arith,
  length, set, is_empty,
}
use moon_base.Base.Int.{ℤ, pos, negsuc, pos_part, ◌+ℤ◌, int_max, to_size, to_int}
use moon_base.Absl.{ok}
use moon_base.Golf.Player.{Player}
use moon_base.Golf.GameState.{GameState, next_turn, updated_players}

-- The int is an index below `n`.
abbrev pub Below : ℕ → ℤ → Type 0
Below n (pos i) = i < n
Below n (negsuc i) = ⊥

-- The int is -1 or an index below `n`.
abbrev pub IsKnocker : ℕ → ℤ → Type 0
IsKnocker n (pos i) = i < n
IsKnocker n (negsuc i) = i ≡ 0

pub record IsValid (g : GameState) : Type 0 where
  pub crowd : length g.players ≤ int_max
  pub turn : Below (length g.players) g.whose_turn
  pub knocker : IsKnocker (length g.players) g.who_knocked
  pub discards : is_empty g.discard_pile ≡ false
  pub peeks : g.peeked_at_draw_pile ≡ true → is_empty g.draw_pile ≡ false

-- The index of the player whose turn it is.
abbrev pub turn_index : GameState → ℕ
turn_index g = pos_part g.whose_turn

pub whose_turn-turn_index : (g : GameState) → IsValid g → g.whose_turn ≡ pos (turn_index g)
whose_turn-turn_index g v = ground arith

to_int-lt : (n : ℕ) → n ≤ int_max → to_int n ≡ pos n
to_int-lt n h = ground arith

pub next_index-lt : (t n : ℕ) → t < n → (t + 1) % n < n
next_index-lt t n h = omega arith

turn_arith :
    (t n : ℕ) → t < n → n ≤ int_max → to_int (to_size (pos t +ℤ pos 1) % n) ≡ pos ((t + 1) % n)
unfolding ◌+ℤ◌
turn_arith t n h k = ground (arith, to_int-lt ((t + 1) % n), next_index-lt t n h)

-- On a well-formed state the next turn is that of the next index, modulo the number of players: no
-- int overflows, and nothing is divided by zero.
pub next_turn_lem :
    (g : GameState) → IsValid g → next_turn g ≡ ok (pos ((turn_index g + 1) % length g.players))
unfolding next_turn
next_turn_lem g v = ground (arith, turn_arith (turn_index g) (length g.players))

updated_players_past :
    (i t : ℕ) (p : Player) (qs : List Player)
    → t < i
    → i + length qs ≤ suc int_max
    → updated_players i (pos t) p qs ≡ qs
unfolding updated_players
updated_players_past i t p [] h k = refl
updated_players_past i t p (q ∷ qs) h k =
    ground (arith, to_int-lt i, updated_players_past (suc i) t p qs)

-- The loop over the players writes the updated one at the index of the turn.
updated_players-set :
    (i k : ℕ) (p : Player) (qs : List Player)
    → i + length qs ≤ suc int_max
    → updated_players i (pos (i + k)) p qs ≡ set qs k p
unfolding updated_players
updated_players-set i k p [] h = refl
updated_players-set i zero p (q ∷ qs) h =
    ground (arith, to_int-lt i, updated_players_past (suc i) i p qs)
updated_players-set i (suc k) p (q ∷ qs) h =
    ground (arith, to_int-lt i, updated_players-set (suc i) k p qs)

-- On a well-formed state the loop that copies the players writes the updated one at the index of the
-- turn and leaves the others.
pub updated_players_lem :
    (g : GameState) (p : Player)
    → IsValid g
    → updated_players 0 g.whose_turn p g.players ≡ set g.players (turn_index g) p
updated_players_lem g p v =
    ap (λ z. updated_players 0 z p g.players) (whose_turn-turn_index g v ∙ ap pos (sym zero_plus))
    ∙ updated_players-set 0 (turn_index g) p g.players (omega (arith, v.crowd))
  where
    zero_plus : 0 + turn_index g ≡ turn_index g
    zero_plus = omega arith
