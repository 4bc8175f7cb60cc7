-- ===== src/Base/Text.antt =====
-- Texts as the program looks into them: code points, digits and white space.
use Prim.Native.Nat.{ℕ, compare, Ordering}
use Prim.Native.Char.{code}
use Prim.Native.String.{String}
use mathlib.Core.Bool.{Bool, true, false, ◌&&◌, ◌||◌}
use mathlib.Core.List.{List, [], ◌∷◌}

abbrev in_range : ℕ → ℕ → ℕ → Bool
in_range lo hi c = elim (compare c lo) [
  | Ordering.lt ↦ false
  | _ ↦ elim (compare c hi) [ Ordering.gt ↦ false | _ ↦ true ]
]

abbrev pub codes : String → List ℕ
codes String.[] = []
codes (String.◌∷◌ c s) = code c ∷ codes s

abbrev pub is_digit : ℕ → Bool
is_digit c = in_range b'0' b'9' c

abbrev pub is_upper : ℕ → Bool
is_upper c = in_range b'A' b'Z' c

-- Go's `unicode.IsSpace`.
unfoldable pub is_space : ℕ → Bool
is_space c =
    in_range 9 13 c
    || in_range 32 32 c
    || in_range 133 133 c
    || in_range 160 160 c
    || in_range 5760 5760 c
    || in_range 8192 8202 c
    || in_range 8232 8233 c
    || in_range 8239 8239 c
    || in_range 8287 8287 c
    || in_range 12288 12288 c

all_space : List ℕ → Bool
unfolding is_space
all_space [] = true
all_space (c ∷ cs) = is_space c && all_space cs

-- `strings.TrimSpace(s) == ""`: nothing but white space.
unfoldable pub is_blank : String → Bool
unfolding all_space
is_blank s = all_space (codes s)
