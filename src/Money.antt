-- ===== src/Money.antt =====
-- internal/domain/money.go: money is a decimal amount in a currency. The decimals are those of
-- the interface `Decimal`.
pub mod Laws
pub mod Parse
use junglegaming_test.Base.{
  ℕ, zero, suc, String, Bool, true, false, not, ◌&&◌, ◌||◌, Option, none, some, List, [], ◌∷◌,
  Ordering, Result, ok, err, ◌>>=◌, ◌>>◌, fail_if, if◌then◌else◌, ◌==◌, is_digit, codes,
}
use junglegaming_test.Decimal.{Decimal}
use junglegaming_test.Errors.{DomainError, invalid_currency, invalid_money, currency_mismatch}
use junglegaming_test.Currency
use junglegaming_test.Currency.{Currency}

pub record Money (A : Type 0) : Type 0 where
  pub amount : A
  pub currency : Currency

-- The part `\.[0-9]{2}$` of the pattern.
unfoldable pub fraction : List ℕ → Bool
fraction (p ∷ d ∷ e ∷ []) = p == b'.' && is_digit d && is_digit e
fraction other = false

-- At most `n` more digits of the integer part, then the fraction.
unfoldable pub more_digits : ℕ → List ℕ → Bool
unfolding fraction
more_digits zero cs = fraction cs
more_digits (suc n) [] = false
more_digits (suc n) (c ∷ cs) =
    let rest = more_digits n cs in if is_digit c then rest else fraction (c ∷ cs)

unfoldable pub amount_codes : List ℕ → Bool
unfolding more_digits
amount_codes [] = false
amount_codes (c ∷ cs) =
    if c == b'0' then fraction cs else if is_digit c then more_digits 17 cs else false

-- `moneyAmountPattern.MatchString`, for `^(0|[1-9][0-9]{0,17})\.[0-9]{2}$`.
unfoldable pub matches_amount : String → Bool
unfolding amount_codes
matches_amount s = amount_codes (codes s)

abbrev pub max_money_text : String
max_money_text = "999999999999999999.99"

module _ {A : Type 0} ⦃decimal : Decimal A⦄ where
  -- `isMoneyAmountInRange`
  unfoldable pub is_amount_in_range : A → Bool
  is_amount_in_range a =
      elim (decimal.cmp (decimal.absolute a) (decimal.require_from_string max_money_text)) [
        | Ordering.gt ↦ false
        | _ ↦ true
      ]

  -- `Money.IsValid`
  unfoldable pub is_valid : Money A → Bool
  is_valid m = Currency.is_valid m.currency && is_amount_in_range m.amount

  -- `newMoney`
  unfoldable pub new_money : A → Currency → Result DomainError (Money A)
  new_money amount currency = do
    fail_if (not (Currency.is_valid currency)) invalid_currency
    fail_if (not (is_amount_in_range amount)) invalid_money
    ok (record { amount = amount; currency = currency })

  -- `decimal.NewFromString` with its error replaced, then `newMoney`.
  unfoldable pub new_money_from : Option A → Currency → Result DomainError (Money A)
  new_money_from none currency = err invalid_money
  new_money_from (some value) currency = new_money value currency

  -- `ParseMoney`
  unfoldable pub parse_money : String → Currency → Result DomainError (Money A)
  parse_money amount currency = do
    fail_if (not (Currency.is_valid currency)) invalid_currency
    fail_if (not (matches_amount amount)) invalid_money
    new_money_from (decimal.new_from_string amount) currency

  -- `Zero`
  unfoldable pub zero_money : Currency → Result DomainError (Money A)
  zero_money currency = do
    fail_if (not (Currency.is_valid currency)) invalid_currency
    ok (record { amount = decimal.zero_value; currency = currency })

  -- `validateOperation`
  unfoldable pub validate_operation : Money A → Money A → Result DomainError (Unit {0})
  validate_operation m other = do
    fail_if (not (is_valid m) || not (is_valid other)) invalid_money
    fail_if (not (Currency.equal m.currency other.currency)) currency_mismatch

  unfoldable pub add : Money A → Money A → Result DomainError (Money A)
  unfolding validate_operation
  add m other = do
    validate_operation m other
    new_money (decimal.add m.amount other.amount) m.currency

  unfoldable pub sub : Money A → Money A → Result DomainError (Money A)
  unfolding validate_operation
  sub m other = do
    validate_operation m other
    new_money (decimal.sub m.amount other.amount) m.currency

  unfoldable pub negate : Money A → Result DomainError (Money A)
  negate m = do
    fail_if (not (is_valid m)) invalid_money
    new_money (decimal.neg m.amount) m.currency

  -- `Money.Compare`: -1, 0 and 1 as an ordering.
  unfoldable pub compare : Money A → Money A → Result DomainError Ordering
  unfolding validate_operation
  compare m other = do validate_operation m other; ok (decimal.cmp m.amount other.amount)

  -- `Money.Equal`
  unfoldable pub equal : Money A → Money A → Bool
  equal m other = Currency.equal m.currency other.currency && decimal.equal m.amount other.amount

  unfoldable pub is_zero : Money A → Bool
  is_zero m = decimal.is_zero m.amount

  unfoldable pub is_positive : Money A → Bool
  is_positive m = decimal.is_positive m.amount

  unfoldable pub is_negative : Money A → Bool
  is_negative m = decimal.is_negative m.amount
