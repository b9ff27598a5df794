-- ===== src/SoLeet/Tests.antt =====
-- The lists of cpp/so_leet/so_leet_test.cc, and the theorems at them.
use moon_base.Base.{ℕ, ◌+◌, ◌≤◌, ◌≡◌, refl, ◌⊎◌, some, List, [], ◌∷◌, map, get_elem?, arith}
use moon_base.Base.Int.{ℤ, pos, ◌+ℤ◌, ◌-ℤ◌}
use moon_base.Absl.{ok}
use moon_base.SoLeet.{in_int, scan, running_sum, trades_loop, buy_and_sell_stock}
use moon_base.SoLeet.Sums.{prefix_sums, all_ints, running_sum_lem}
use moon_base.SoLeet.Trades.{Trade, buy_and_sell_stock_lem}

abbrev nums : List ℤ
nums = pos 1 ∷ pos 2 ∷ pos 3 ∷ pos 4 ∷ []

running_sum-nums : running_sum nums ≡ ok (pos 1 ∷ pos 3 ∷ pos 6 ∷ pos 10 ∷ [])
unfolding running_sum scan in_int ◌+ℤ◌
running_sum-nums = refl

running_sum_lem_example : running_sum nums ≡ all_ints (prefix_sums nums)
running_sum_lem_example = running_sum_lem nums refl

abbrev prices : List ℕ
prices = 7 ∷ 1 ∷ 5 ∷ 3 ∷ 6 ∷ 4 ∷ []

buy_and_sell_stock-prices : buy_and_sell_stock (map pos prices) ≡ ok (pos 5)
unfolding buy_and_sell_stock trades_loop in_int ◌-ℤ◌
buy_and_sell_stock-prices = refl

buy_and_sell_stock_lem_example :
    (r : ℕ) × (buy_and_sell_stock (map pos prices) ≡ ok (pos r))
    × ((i j p q : ℕ)
        → i ≤ j
        → get_elem? prices i ≡ some p
        → get_elem? prices j ≡ some q
        → q ≤ p + r)
    × ((r ≡ 0) ⊎ Trade prices r)
buy_and_sell_stock_lem_example =
    buy_and_sell_stock_lem prices
      (omega arith, (omega arith, (omega arith, (omega arith, (omega arith, (omega arith, tt))))))
