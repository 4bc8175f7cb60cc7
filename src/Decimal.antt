-- ===== src/Decimal.antt =====
-- The package github.com/shopspring/decimal, which the repository only calls: an interface.
-- `Decimal` has the functions that internal/domain/money.go calls, `DecimalLaws` what it relies
-- on: each decimal stands for a number, here in hundredths, since every decimal that the program
-- builds has at most two places, and the functions are exact on these numbers.
mod Text
pub mod Scaled
unfoldable pub use Text.*
use junglegaming_test.Base.{String, Bool, true, false, Option, some, ◌≡◌, compare, Ordering}
use junglegaming_test.Base.Int.{ℤ, pos, ◌+ℤ◌, ◌-ℤ◌, negate, abs, compare_ℤ}

pub record Decimal (A : Type 0) : Type 0 where
  pub zero_value : A
  pub add : A → A → A
  pub sub : A → A → A
  pub neg : A → A
  pub absolute : A → A
  pub cmp : A → A → Ordering
  pub equal : A → A → Bool
  pub is_zero : A → Bool
  pub is_positive : A → Bool
  pub is_negative : A → Bool
  pub new_from_string : String → Option A
  pub require_from_string : String → A

abbrev pub is_lt : Ordering → Bool
is_lt Ordering.lt = true
is_lt Ordering.eq = false
is_lt Ordering.gt = false

abbrev pub is_eq : Ordering → Bool
is_eq Ordering.lt = false
is_eq Ordering.eq = true
is_eq Ordering.gt = false

abbrev pub is_gt : Ordering → Bool
is_gt Ordering.lt = false
is_gt Ordering.eq = false
is_gt Ordering.gt = true

pub record DecimalLaws (A : Type 0) (decimal : Decimal A) : Type 0 where
  pub cents : A → ℤ
  pub cents-zero_value : cents decimal.zero_value ≡ pos 0
  pub cents-add : (a b : A) → cents (decimal.add a b) ≡ cents a +ℤ cents b
  pub cents-sub : (a b : A) → cents (decimal.sub a b) ≡ cents a -ℤ cents b
  pub cents-neg : (a : A) → cents (decimal.neg a) ≡ negate (cents a)
  pub cents-absolute : (a : A) → cents (decimal.absolute a) ≡ pos (abs (cents a))
  pub cmp-cents : (a b : A) → decimal.cmp a b ≡ compare_ℤ (cents a) (cents b)
  pub equal-cents : (a b : A) → decimal.equal a b ≡ is_eq (compare_ℤ (cents a) (cents b))
  pub is_zero-cents : (a : A) → decimal.is_zero a ≡ is_eq (compare_ℤ (cents a) (pos 0))
  pub is_positive-cents : (a : A) → decimal.is_positive a ≡ is_gt (compare_ℤ (cents a) (pos 0))
  pub is_negative-cents : (a : A) → decimal.is_negative a ≡ is_lt (compare_ℤ (cents a) (pos 0))
  pub parses :
      (s : String) (n : _)
      → decimal_text s ≡ some n
      → (a : A) × (decimal.new_from_string s ≡ some a) × (cents a ≡ pos n)
  pub requires :
      (s : String) (a : A) → decimal.new_from_string s ≡ some a → decimal.require_from_string s ≡ a
