-- ===== src/Decimal/Scaled.antt =====
-- A concrete implementation of the decimal interface, by integers that count hundredths. It
-- shows that the laws can be met; the witnesses and tests run on it.
use junglegaming_test.Base.{ℕ, String, Option, none, some, ◌≡◌, refl}
use junglegaming_test.Base.Int.{ℤ, pos, ◌+ℤ◌, ◌-ℤ◌, negate, abs, compare_ℤ}
use junglegaming_test.Decimal.Text.{decimal_text}
use junglegaming_test.Decimal.{Decimal, DecimalLaws, is_lt, is_eq, is_gt}

unfoldable pub parse : String → Option ℤ
unfolding decimal_text
parse s = elim (decimal_text s) [ none ↦ none | some n ↦ some (pos n) ]

unfoldable pub require : Option ℤ → ℤ
require none = pos 0
require (some a) = a

instance abbrev pub scaled : Decimal ℤ
scaled = record {
  zero_value = pos 0;
  add = λ a b. a +ℤ b;
  sub = λ a b. a -ℤ b;
  neg = λ a. negate a;
  absolute = λ a. pos (abs a);
  cmp = λ a b. compare_ℤ a b;
  equal = λ a b. is_eq (compare_ℤ a b);
  is_zero = λ a. is_eq (compare_ℤ a (pos 0));
  is_positive = λ a. is_gt (compare_ℤ a (pos 0));
  is_negative = λ a. is_lt (compare_ℤ a (pos 0));
  new_from_string = λ s. parse s;
  require_from_string = λ s. require (parse s);
}

pub parses : (s : String) (n : ℕ) → decimal_text s ≡ some n → parse s ≡ some (pos n)
unfolding parse
parses s n h = rw (h, parse)

pub requires : (s : String) (a : ℤ) → parse s ≡ some a → require (parse s) ≡ a
unfolding require
requires s a h = rw h

instance abbrev pub scaled_laws : DecimalLaws ℤ scaled
scaled_laws = record {
  cents = λ a. a;
  cents-zero_value = refl;
  cents-add = λ a b. refl;
  cents-sub = λ a b. refl;
  cents-neg = λ a. refl;
  cents-absolute = λ a. refl;
  cmp-cents = λ a b. refl;
  equal-cents = λ a b. refl;
  is_zero-cents = λ a. refl;
  is_positive-cents = λ a. refl;
  is_negative-cents = λ a. refl;
  parses = λ s n h. (pos n, parses s n h, refl);
  requires = requires;
}
