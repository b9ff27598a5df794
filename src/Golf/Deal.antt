-- ===== src/Golf/Deal.antt =====
-- The dealing of cpp/cards/golf/game_manager.cc: `shuffleNewDeck`, and `newGame` between its checks
-- and its call of the store. What std::shuffle does with a random device is the argument `shuffle`.
pub mod Laws
pub mod Join
use moon_base.Base.{
  ℕ, zero, suc, ◌+◌, ◌*◌, String, Bool, true, false, ◌||◌, Option, none, some, List, [], ◌∷◌, map,
  ◌==◌, if◌then◌else◌, get_elem?, back, pop_back, push_back,
}
use moon_base.Base.Int.{pos, negsuc}
use moon_base.Absl.{StatusOr, ok, err, fault, ◌>>=◌, or_fault, throws_out_of_range, undefined}
use moon_base.Cards.{Card, card_of_index}
use moon_base.Golf.Player.{Player, is_present, claim_hand}
use moon_base.Golf.GameState.{GameState}

-- `n` numbers from `i` on.
abbrev pub count_up : ℕ → ℕ → List ℕ
count_up i zero = []
count_up i (suc n) = i ∷ count_up (suc i) n

-- `GameManager::shuffleNewDeck`
unfoldable pub shuffle_new_deck : (List ℕ → List ℕ) → List Card
shuffle_new_deck shuffle = map card_of_index (shuffle (count_up 0 52))

-- The loop that deals `k` cards off the back of the pile.
pub deal : ℕ → List Card → List Card → StatusOr (List Card × List Card)
deal zero draw dealt = ok (dealt, draw)
deal (suc k) draw dealt = do
  c ← or_fault (back draw) undefined
  deal k (pop_back draw) (push_back dealt c)

-- The loop that seats `k` players from index `i` on. Only player 0 has a name.
pub seats : String → List Card → ℕ → ℕ → ℕ → StatusOr (List Player)
seats user_id dealt halfway zero i = ok []
seats user_id dealt halfway (suc k) i = do
  tl ← or_fault (get_elem? dealt (2 * i)) throws_out_of_range
  tr ← or_fault (get_elem? dealt (2 * i + 1)) throws_out_of_range
  bl ← or_fault (get_elem? dealt (2 * i + halfway)) throws_out_of_range
  br ← or_fault (get_elem? dealt (2 * i + halfway + 1)) throws_out_of_range
  rest ← seats user_id dealt halfway k (i + 1)
  ok (
      record {
        name = if i == 0 then some user_id else none;
        top_left_card = tl;
        top_right_card = tr;
        bottom_left_card = bl;
        bottom_right_card = br;
      }
      ∷ rest)

-- The state that `newGame` makes of what has been dealt.
abbrev pub opening : List Card → Card → List Player → GameState
opening draw top players = record {
  draw_pile = draw;
  discard_pile = top ∷ [];
  players = players;
  peeked_at_draw_pile = false;
  whose_turn = pos 0;
  who_knocked = negsuc 0;
  game_id = "";
  version_id = "";
}

-- The game that `newGame` hands to the store, for a deck and a number of players.
unfoldable pub dealt_game : String → ℕ → List Card → StatusOr GameState
unfolding deal seats
dealt_game user_id n deck = do
  (dealt, draw) ← deal (n * 4) deck []
  players ← seats user_id dealt (n * 2) n 0
  top ← or_fault (back draw) undefined
  ok (opening (pop_back draw) top players)

-- `*claim`, of a claim that failed, does not return.
abbrev deref {ℓ} : {A : Type ℓ} → StatusOr A → StatusOr A
deref (ok a) = ok a
deref (err e) = fault undefined
deref (fault b) = fault b

-- The loop of `joinGame`: the first free seat goes to the user.
unfoldable pub claim_seat : String → Bool → List Player → StatusOr (List Player)
claim_seat user_id player_added [] = ok []
claim_seat user_id player_added (p ∷ ps) =
    if is_present p || player_added
    then (claim_seat user_id player_added ps >>= λ rest. ok (p ∷ rest))
    else (deref (claim_hand p user_id) >>= λ q.
        claim_seat user_id true ps >>= λ rest. ok (q ∷ rest))
