-- ===== src/Prelude/Text.antt =====
-- Python texts that the program only compares and tests for being blank.
use Prim.Native.Char.{code}
use Prim.Native.Nat.{ℕ}
use Prim.Native.String.{String, ◌++◌}
use mathlib.Core.Bool.{Bool, true, false, ◌&&◌, ◌||◌}
use mathlib.Core.List.{List, [], ◌∷◌, reverse}
use cbrain.Prelude.Tests.{leb, ◌==◌, if◌then◌else◌}
pub use text.Mathlib.Text.{◌==◌ as str_eq}
pub use text.Mathlib.TextEquality.{eq_iff}
pub use text.Mathlib.TextPositions.{eq_refl}
use text.Mathlib.TextLemmas.{cons-append, nil-append}
use mathlib.Core.Path.{◌≡◌}
use native.Mathlib.Omega.{arith}

-- The code points of a text. `String` has its own `[]` and `∷`.
abbrev pub codes : String → List ℕ
codes String.[] = []
codes (String.◌∷◌ c s) = code c ∷ codes s

-- The characters that `str.strip` and `str.split` remove: Python's `str.isspace`.
unfoldable pub is_space : ℕ → Bool
is_space c =
    (leb 0x09 c && leb c 0x0d)
    || (leb 0x1c c && leb c 0x20)
    || c == 0x85
    || c == 0xa0
    || c == 0x1680
    || (leb 0x2000 c && leb c 0x200a)
    || c == 0x2028
    || c == 0x2029
    || c == 0x202f
    || c == 0x205f
    || c == 0x3000

unfoldable pub all_space : List ℕ → Bool
unfolding is_space
all_space [] = true
all_space (c ∷ cs) = is_space c && all_space cs

-- `not value.strip()`
unfoldable pub is_blank : String → Bool
unfolding all_space
is_blank s = all_space (codes s)

all_space-append :
    (s t : String) → all_space (codes (s ++ t)) ≡ (all_space (codes s) && all_space (codes t))
unfolding all_space
all_space-append String.[] t = rw nil-append
all_space-append (String.◌∷◌ c s) t = rw cons-append (ground (arith, all_space-append s t))

-- A text is not blank if it begins with one that is not.
pub is_blank-append : (s t : String) → is_blank s ≡ false → is_blank (s ++ t) ≡ false
unfolding is_blank
is_blank-append s t h = rw all_space-append (rw h)

-- Equality of texts that are lists of code points.
unfoldable pub codes_eq : List ℕ → List ℕ → Bool
codes_eq [] [] = true
codes_eq (a ∷ l) (b ∷ m) = a == b && codes_eq l m
codes_eq _ _ = false

drop_space : List ℕ → List ℕ
drop_space [] = []
drop_space (c ∷ cs) = let rest = drop_space cs in if is_space c then rest else c ∷ cs

-- `value.strip()`, on code points.
unfoldable pub strip : List ℕ → List ℕ
unfolding drop_space is_space
strip cs = reverse (drop_space (reverse (drop_space cs)))
