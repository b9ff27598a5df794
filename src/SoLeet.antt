-- ===== src/SoLeet.antt =====
-- cpp/so_leet/so_leet.cc: running sums, and the best single trade.
pub mod Sums
pub mod Trades
mod Tests
use moon_base.Base.{Bool, List, [], ◌∷◌, ◌&&◌, leb, ◌+◌, if◌then◌else◌}
use moon_base.Base.Int.{ℤ, pos, pos_part, neg_part, ◌+ℤ◌, ◌-ℤ◌, ltb_ℤ, int_max}
use moon_base.Absl.{StatusOr, ok, fault, undefined, ◌>>=◌}

abbrev pub is_int : ℤ → Bool
is_int z = leb (pos_part z) int_max && leb (neg_part z) (int_max + 1)

-- The result of an operation on ints: undefined where it is not an int.
unfoldable pub in_int : ℤ → StatusOr ℤ
in_int z = if is_int z then ok z else fault undefined

-- `std::inclusive_scan` from a first sum on.
unfoldable pub scan : ℤ → List ℤ → StatusOr (List ℤ)
unfolding in_int ◌+ℤ◌
scan sum [] = ok []
scan sum (num ∷ nums) = do next ← in_int (sum +ℤ num); output ← scan next nums; ok (next ∷ output)

-- `running_sum`
unfoldable pub running_sum : List ℤ → StatusOr (List ℤ)
unfolding scan
running_sum [] = ok []
running_sum (num ∷ nums) = do output ← scan num nums; ok (num ∷ output)

-- `std::min` and `std::max`
abbrev pub min_ℤ : ℤ → ℤ → ℤ
min_ℤ a b = if ltb_ℤ b a then b else a

abbrev pub max_ℤ : ℤ → ℤ → ℤ
max_ℤ a b = if ltb_ℤ a b then b else a

-- The loop of `buy_and_sell_stock`.
unfoldable pub trades_loop : ℤ → ℤ → List ℤ → StatusOr ℤ
unfolding in_int ◌-ℤ◌
trades_loop min_so_far best_profit [] = ok best_profit
trades_loop min_so_far best_profit (price ∷ prices) =
    let lowest = min_ℤ min_so_far price in
    in_int (price -ℤ lowest) >>= λ profit. trades_loop lowest (max_ℤ best_profit profit) prices

-- `buy_and_sell_stock`
unfoldable pub buy_and_sell_stock : List ℤ → StatusOr ℤ
unfolding trades_loop
buy_and_sell_stock prices = trades_loop (pos int_max) (pos 0) prices
