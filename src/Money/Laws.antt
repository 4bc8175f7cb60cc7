-- ===== src/Money/Laws.antt =====
-- internal/domain/money.go: what the operations do to the number of cents.
use junglegaming_test.Base.{ℕ, ◌≤◌, ◌≡◌, ◌↔◌, refl, ◌∙◌, ap, true, ok, IsOk, arith, eq_iff, leb}
use junglegaming_test.Base.Int.{ℤ, pos, abs, ◌+ℤ◌, ◌-ℤ◌, compare_ℤ, int_laws}
use junglegaming_test.Base.Int
use junglegaming_test.Decimal.{Decimal, DecimalLaws, decimal_text, is_lt, is_eq, is_gt}
use junglegaming_test.Currency
use junglegaming_test.Currency.{Currency}
use junglegaming_test.Money.{
  Money, max_money_text, is_amount_in_range, is_valid, new_money, zero_money, add, sub, compare,
  equal, is_zero, is_positive, is_negative,
}

-- `maxMoneyAmount` in cents.
abbrev pub max_cents : ℕ
max_cents = 99999999999999999999

max_money_cents :
    {A : Type 0} (decimal : Decimal A) (laws : DecimalLaws A decimal)
    → laws.cents (decimal.require_from_string max_money_text) ≡ pos max_cents
unfolding decimal_text
max_money_cents decimal laws =
    let (a, parsed, value) = laws.parses max_money_text max_cents refl in
    ap laws.cents (laws.requires max_money_text a parsed) ∙ value

module _ {A : Type 0} ⦃decimal : Decimal A⦄ ⦃laws : DecimalLaws A decimal⦄ where
  -- The value of an amount of money, in hundredths of the currency's unit.
  abbrev pub cents : Money A → ℤ
  cents m = laws.cents m.amount

  pub is_amount_in_range-cents : (a : A) → is_amount_in_range a ≡ leb (abs (laws.cents a)) max_cents
  unfolding is_amount_in_range
  is_amount_in_range-cents a = ground (
    arith,
    laws.cmp-cents (decimal.absolute a) (decimal.require_from_string max_money_text),
    laws.cents-absolute a,
    max_money_cents decimal laws,
  )

  -- Valid money has a well-formed currency and at most 18 digits before the point.
  pub is_valid-cents :
      (m : Money A)
      → (is_valid m ≡ true) ↔ ((Currency.is_valid m.currency ≡ true) × (abs (cents m) ≤ max_cents))
  unfolding is_valid
  is_valid-cents m = ground (arith, is_amount_in_range-cents m.amount)

  pub is_positive-cents : (m : Money A) → is_positive m ≡ is_gt (compare_ℤ (cents m) (pos 0))
  unfolding is_positive
  is_positive-cents m = laws.is_positive-cents m.amount

  pub is_negative-cents : (m : Money A) → is_negative m ≡ is_lt (compare_ℤ (cents m) (pos 0))
  unfolding is_negative
  is_negative-cents m = laws.is_negative-cents m.amount

  pub is_zero-cents : (m : Money A) → is_zero m ≡ is_eq (compare_ℤ (cents m) (pos 0))
  unfolding is_zero
  is_zero-cents m = laws.is_zero-cents m.amount

  -- Equal money has one currency and one value.
  pub equal-cents :
      (m n : Money A)
      → (equal m n ≡ true) ↔ ((m.currency.code ≡ n.currency.code) × (cents m ≡ cents n))
  unfolding equal Currency.equal
  equal-cents m n = ground (
    arith,
    eq_iff m.currency.code n.currency.code,
    laws.equal-cents m.amount n.amount,
    Int.eq_of_parts (cents m) (cents n),
  )

  -- `Add` succeeds for just two valid amounts of one currency whose sum is within the limit.
  pub add-IsOk_iff :
      (m n : Money A)
      → IsOk (add m n) ↔ (
          (is_valid m ≡ true)
          × (is_valid n ≡ true)
          × (m.currency.code ≡ n.currency.code)
          × (abs (cents m +ℤ cents n) ≤ max_cents))
  unfolding add Currency.equal new_money is_valid
  add-IsOk_iff m n = ground (
    arith,
    eq_iff m.currency.code n.currency.code,
    is_amount_in_range-cents (decimal.add m.amount n.amount),
    laws.cents-add m.amount n.amount,
  )

  -- The sum is valid, keeps the currency and adds the cents.
  pub add-cents :
      (m n : Money A) {r : Money A}
      → add m n ≡ ok r
      → (is_valid r ≡ true) × (r.currency ≡ m.currency) × (cents r ≡ cents m +ℤ cents n)
  unfolding add new_money is_valid
  add-cents m n h = ground (arith, laws.cents-add m.amount n.amount)

  pub sub-IsOk_iff :
      (m n : Money A)
      → IsOk (sub m n) ↔ (
          (is_valid m ≡ true)
          × (is_valid n ≡ true)
          × (m.currency.code ≡ n.currency.code)
          × (abs (cents m -ℤ cents n) ≤ max_cents))
  unfolding sub Currency.equal new_money is_valid
  sub-IsOk_iff m n = ground (
    arith,
    eq_iff m.currency.code n.currency.code,
    is_amount_in_range-cents (decimal.sub m.amount n.amount),
    laws.cents-sub m.amount n.amount,
  )

  pub sub-cents :
      (m n : Money A) {r : Money A}
      → sub m n ≡ ok r
      → (is_valid r ≡ true) × (r.currency ≡ m.currency) × (cents r ≡ cents m -ℤ cents n)
  unfolding sub new_money is_valid
  sub-cents m n h = ground (arith, laws.cents-sub m.amount n.amount)

  -- For valid money of one currency the comparison is that of the cents.
  pub compare-cents :
      (m n : Money A)
      → is_valid m ≡ true
      → is_valid n ≡ true
      → m.currency.code ≡ n.currency.code
      → compare m n ≡ ok (compare_ℤ (cents m) (cents n))
  unfolding compare Currency.equal
  compare-cents m n vm vn same =
      ground (arith, eq_iff m.currency.code n.currency.code, laws.cmp-cents m.amount n.amount)

  pub zero_money-cents :
      (c : Currency)
      → Currency.is_valid c ≡ true
      → (z : Money A) × (zero_money c ≡ ok z) × (z.currency ≡ c) × (cents z ≡ pos 0)
  unfolding zero_money
  zero_money-cents c valid = (
    record { amount = decimal.zero_value; currency = c },
    ground arith,
    refl,
    laws.cents-zero_value,
  )
