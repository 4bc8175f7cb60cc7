-- ===== src/Decimal/Text.antt =====
-- The number that a decimal text with exactly two places spells, in hundredths.
use junglegaming_test.Base.{
  ℕ, ◌+◌, ◌-◌, ◌*◌, String, Bool, ◌&&◌, Option, none, some, List, [], ◌∷◌, ◌==◌, if◌then◌else◌,
  is_digit, codes,
}

-- Two digits and the end, after an integer part of value `acc`.
unfoldable pub two_places : ℕ → List ℕ → Option ℕ
two_places acc (d ∷ e ∷ []) =
    if is_digit d && is_digit e then some (acc * 100 + (d - 48) * 10 + (e - 48)) else none
two_places acc rest = none

-- Digits, a point, two digits.
unfoldable pub hundredths : ℕ → List ℕ → Option ℕ
unfolding two_places
hundredths acc [] = none
hundredths acc (c ∷ cs) =
    let rest = hundredths (acc * 10 + (c - 48)) cs in
    if is_digit c then rest else if c == b'.' then two_places acc cs else none

unfoldable pub starts_digit : List ℕ → Bool
starts_digit [] = Bool.false
starts_digit (c ∷ cs) = is_digit c

unfoldable pub decimal_text : String → Option ℕ
unfolding hundredths starts_digit
decimal_text s = if starts_digit (codes s) then hundredths 0 (codes s) else none
