-- ===== src/Currency.antt =====
-- internal/domain/currency.go: a currency is its code; the pattern is `^[A-Z]{3}$`.
use junglegaming_test.Base.{
  String, Bool, false, ◌&&◌, List, [], ◌∷◌, ℕ, is_upper, codes, str_eq, Result, ok, err,
  if◌then◌else◌,
}
use junglegaming_test.Errors.{DomainError, invalid_currency}

pub record Currency : Type 0 where
  pub code : String

three_upper : List ℕ → Bool
three_upper (a ∷ b ∷ c ∷ []) = is_upper a && is_upper b && is_upper c
three_upper other = false

-- `currencyCodePattern.MatchString`
unfoldable pub matches_currency : String → Bool
unfolding three_upper
matches_currency s = three_upper (codes s)

unfoldable pub new_currency : String → Result DomainError Currency
unfolding matches_currency
new_currency code =
    if matches_currency code then ok (record { code = code }) else err invalid_currency

-- `Currency.IsValid`
unfoldable pub is_valid : Currency → Bool
unfolding matches_currency
is_valid c = matches_currency c.code

-- `Currency.Equal`
unfoldable pub equal : Currency → Currency → Bool
equal c other = str_eq c.code other.code
