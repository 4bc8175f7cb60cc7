-- ===== src/Tests/Money.antt =====
-- Amounts as texts and as money.
use junglegaming_test.Base.{ℕ, Bool, ◌≡◌, refl, ok, true, some, IsOk, ◌↔◌, ◌≤◌}
use junglegaming_test.Base.Int.{ℤ, pos, abs, ◌+ℤ◌}
use junglegaming_test.Decimal.{decimal_text}
use junglegaming_test.Decimal.Scaled.{scaled, scaled_laws, parse, require}
use junglegaming_test.Currency
use junglegaming_test.Money
use junglegaming_test.Money.{parse_money, matches_amount, add}
use junglegaming_test.Money.Laws.{max_cents, add-IsOk_iff}
use junglegaming_test.Money.Parse.{parse_money-IsOk_iff, parse_money-cents}
use junglegaming_test.Tests.Data.{brl, cash}

-- The longest amount, and texts that are no amounts.
matches_longest : matches_amount "999999999999999999.99" ≡ true
unfolding matches_amount
matches_longest = refl

matches_none :
    (matches_amount "1000000000000000000.00" ≡ Bool.false)
    × (matches_amount "10.5" ≡ Bool.false)
    × (matches_amount "01.00" ≡ Bool.false)
    × (matches_amount "-1.00" ≡ Bool.false)
    × (matches_amount ".50" ≡ Bool.false)
unfolding matches_amount
matches_none = (refl, refl, refl, refl, refl)

parse_money-brl : parse_money {A = ℤ} "25.00" brl ≡ ok (cash 2500)
unfolding parse_money Money.new_money_from Money.new_money Money.is_amount_in_range
    Currency.is_valid matches_amount parse require
parse_money-brl = refl

parse_money-IsOk_iff_example :
    IsOk (parse_money {A = ℤ} "10.5" brl)
    ↔ ((Currency.is_valid brl ≡ true) × (matches_amount "10.5" ≡ true))
parse_money-IsOk_iff_example = parse_money-IsOk_iff ℤ "10.5" brl

parse_money-cents_example :
    (v : ℕ) × (decimal_text "25.00" ≡ some v)
    × (pos 2500 ≡ pos v)
    × (Money.is_valid (cash 2500) ≡ true)
    × (brl ≡ brl)
parse_money-cents_example = parse_money-cents "25.00" brl parse_money-brl

add-IsOk_iff_example : IsOk (add (cash 99999999999999999999) (cash 1)) ↔ (
    (Money.is_valid (cash 99999999999999999999) ≡ true)
    × (Money.is_valid (cash 1) ≡ true)
    × (brl.code ≡ brl.code)
    × (abs (pos 99999999999999999999 +ℤ pos 1) ≤ max_cents))
add-IsOk_iff_example = add-IsOk_iff (cash 99999999999999999999) (cash 1)
