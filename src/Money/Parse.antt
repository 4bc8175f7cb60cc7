-- ===== src/Money/Parse.antt =====
-- internal/domain/money.go, `ParseMoney`: the pattern accepts the texts of amounts in range.
use native.Mathlib.Nat.{le_trans, pow-suc}
use junglegaming_test.Base.{
  inl, inr, ◌==◌, ℕ, zero, suc, ◌+◌, ◌-◌, ◌*◌, ◌^◌, ◌≤◌, ◌≡◌, refl, ◌↔◌, true, some, List, [], ◌∷◌,
  ok, IsOk, Bool-cases, arith, String, is_digit, codes,
}
use junglegaming_test.Base.Int.{pos}
use junglegaming_test.Decimal.{Decimal, DecimalLaws, decimal_text, hundredths, starts_digit}
use junglegaming_test.Currency
use junglegaming_test.Currency.{Currency}
use junglegaming_test.Money.{
  Money, fraction, more_digits, is_amount_in_range, amount_codes, matches_amount, is_valid,
  new_money, new_money_from, parse_money,
}
use junglegaming_test.Money.Laws.{cents, max_cents, is_amount_in_range-cents}

-- A point, two digits and the end: at most 99 is added to the hundreds.
fraction-hundredths :
    (acc : ℕ) (cs : List ℕ)
    → fraction cs ≡ true
    → (v : ℕ) × (hundredths acc cs ≡ some v) × (v + 1 ≤ (acc + 1) * 100)
unfolding fraction hundredths
fraction-hundredths acc (p ∷ d ∷ e ∷ []) h =
    (acc * 100 + (d - 48) * 10 + (e - 48), ground arith, ground arith)
fraction-hundredths acc _ h = cc

-- One more digit at the end of the integer part.
digit_step :
    (acc c p v : ℕ)
    → is_digit c ≡ true
    → v + 1 ≤ (acc * 10 + (c - 48) + 1) * p * 100
    → v + 1 ≤ (acc + 1) * (p * 10) * 100
digit_step acc c p v d h =
    let small : acc * 10 + (c - 48) + 1 ≤ (acc + 1) * 10 = ground arith in le_trans h (grind arith)

pow_pos : (n : ℕ) → 1 ≤ 10 ^ n
pow_pos zero = omega arith
pow_pos (suc n) = rw (pow-suc 10 n) (omega (arith, pow_pos n))

more_room : (a p v : ℕ) → v + 1 ≤ a * 100 → 1 ≤ p → v + 1 ≤ a * p * 100
more_room a p v h one = le_trans h (grind arith)

-- With at most `n` more digits the number stays below `(acc + 1) * 10 ^ n` units.
more_digits-hundredths :
    (n acc : ℕ) (cs : List ℕ)
    → more_digits n cs ≡ true
    → (v : ℕ) × (hundredths acc cs ≡ some v) × (v + 1 ≤ (acc + 1) * 10 ^ n * 100)
unfolding more_digits hundredths
more_digits-hundredths zero acc cs h =
    let (v, e, b) = fraction-hundredths acc cs h in (v, e, omega arith)
more_digits-hundredths (suc n) acc [] h = cc
more_digits-hundredths (suc n) acc (c ∷ cs) h = elim (Bool-cases (is_digit c)) [
  | inl digit ↦
      let (v, e, b) = more_digits-hundredths n (acc * 10 + (c - 48)) cs (ground arith) in
      (v, ground (arith, e), rw (pow-suc 10 n) (digit_step acc c (10 ^ n) v digit b))
  | inr other ↦
      let (v, e, b) = fraction-hundredths acc (c ∷ cs) (ground arith) in
      (v, e, more_room (acc + 1) (10 ^ suc n) v b (pow_pos (suc n)))
]

zero_first :
    (c : ℕ) (cs : List ℕ)
    → (c == b'0') ≡ true
    → fraction cs ≡ true
    → (v : ℕ) × (hundredths 0 (c ∷ cs) ≡ some v) × (v + 1 ≤ (0 + 1) * 100)
unfolding hundredths
zero_first c cs z h = let (v, e, b) = fraction-hundredths 0 cs h in (v, ground (arith, e), b)

first_digit :
    (n c : ℕ) (cs : List ℕ)
    → is_digit c ≡ true
    → more_digits n cs ≡ true
    → (v : ℕ) × (hundredths 0 (c ∷ cs) ≡ some v) × (v + 1 ≤ (0 + 1) * (10 ^ n * 10) * 100)
unfolding hundredths
first_digit n c cs digit h =
    let (v, e, b) = more_digits-hundredths n (0 * 10 + (c - 48)) cs h in
    (v, rw digit e, digit_step 0 c (10 ^ n) v digit b)

-- The pattern accepts only texts of an amount, of at most 18 digits before the point.
amount_codes-hundredths :
    (cs : List ℕ) → amount_codes cs ≡ true → (v : ℕ) × (hundredths 0 cs ≡ some v) × (v ≤ max_cents)
unfolding amount_codes
amount_codes-hundredths [] h = cc
amount_codes-hundredths (c ∷ cs) h = elim (Bool-cases (c == b'0')) [
  | inl zero_digit ↦
      let (v, e, b) = zero_first c cs zero_digit (ground arith) in (v, e, omega (arith, b))
  | inr other ↦
      let (v, e, b) = first_digit 17 c cs (ground arith) (ground arith) in (v, e, omega (arith, b))
]

amount_codes-starts_digit : (cs : List ℕ) → amount_codes cs ≡ true → starts_digit cs ≡ true
unfolding amount_codes starts_digit
amount_codes-starts_digit [] h = cc
amount_codes-starts_digit (c ∷ cs) h = ground arith

pub matches_amount-decimal_text :
    (s : String) → matches_amount s ≡ true → (v : ℕ) × (decimal_text s ≡ some v) × (v ≤ max_cents)
unfolding matches_amount decimal_text
matches_amount-decimal_text s h =
    let (v, e, b) = amount_codes-hundredths (codes s) h in
    (v, ground (arith, amount_codes-starts_digit (codes s), e), b)

module _ {A : Type 0} ⦃decimal : Decimal A⦄ ⦃laws : DecimalLaws A decimal⦄ where
  -- A text of the pattern, in a valid currency, is parsed to valid money of the value it spells.
  parse_matching :
      (s : String) (c : Currency)
      → Currency.is_valid c ≡ true
      → matches_amount s ≡ true
      → (v : ℕ) × (m : Money A) × (parse_money s c ≡ ok m)
        × (decimal_text s ≡ some v)
        × (cents m ≡ pos v)
        × (is_valid m ≡ true)
        × (m.currency ≡ c)
  unfolding parse_money new_money_from new_money is_valid
  parse_matching s c valid h =
      let (v, spelled, bound) = matches_amount-decimal_text s h in
      let (a, parsed, value) = laws.parses s v spelled in
      let m : Money A = record { amount = a; currency = c } in
      let fits : is_amount_in_range a ≡ true = ground (arith, is_amount_in_range-cents a) in
      (v, m, ground (arith, parsed, fits), spelled, value, ground (arith, fits), refl)

  -- What `ParseMoney` has checked when it succeeds.
  parse_money_guards :
      (s : String) (c : Currency) {m : Money A}
      → parse_money s c ≡ ok m
      → (Currency.is_valid c ≡ true) × (matches_amount s ≡ true)
  unfolding parse_money
  parse_money_guards s c h = ground arith

  -- A successful `ParseMoney` gives valid money, in the currency, of the value that the text spells.
  pub parse_money-cents :
      (s : String) (c : Currency) {m : Money A}
      → parse_money s c ≡ ok m
      → (v : ℕ) × (decimal_text s ≡ some v)
        × (cents m ≡ pos v)
        × (is_valid m ≡ true)
        × (m.currency ≡ c)
  parse_money-cents s c {m} h =
      let (valid, matching) = parse_money_guards s c h in
      let (v, m', parsed, spelled, value, fits, same) = parse_matching s c valid matching in
      let e : m' ≡ m = cc in (v, spelled, rw (← e) value, rw (← e) fits, rw (← e) same)

-- `ParseMoney` succeeds for just the texts of the pattern, in a valid currency.
pub parse_money-IsOk_iff :
    (A : Type 0) ⦃decimal : Decimal A⦄ ⦃laws : DecimalLaws A decimal⦄ (s : String) (c : Currency)
    → IsOk (parse_money {A = A} s c) ↔ ((Currency.is_valid c ≡ true) × (matches_amount s ≡ true))
unfolding parse_money
parse_money-IsOk_iff A s c = (
  λ h. ground arith,
  λ (valid, matching).
      let (v, m, parsed, _, _, _, _) = parse_matching {A = A} s c valid matching in rw parsed tt,
)
