-- ===== src/Prelude/Text.antt =====
-- The operations of `str` that the code uses, over the code points of a text.
use Prim.Native.Nat.{ℕ, zero, suc, ◌+◌, ◌-◌}
use Prim.Native.String.{String}
use Prim.Native.Char.{code}
use mathlib.Core.Bool.{Bool, true, false, ◌&&◌, ◌||◌}
use mathlib.Core.List.{List, [], ◌∷◌, ◌++◌, map}
use hype_trigger_twap.Prelude.Tests.{leb, ◌==◌, if◌then◌else◌}
use hype_trigger_twap.Prelude.Lists.{length}

abbrev pub codes : String → List ℕ
codes (String.◌∷◌ letter rest) = code letter ∷ codes rest
codes String.[] = []

-- `to_ascii_lowercase`
abbrev pub lower : ℕ → ℕ
lower c = if leb b'A' c && leb c b'Z' then c + 32 else c

unfoldable pub to_ascii_lowercase : List ℕ → List ℕ
to_ascii_lowercase = map lower

unfoldable pub codes_eq : List ℕ → List ℕ → Bool
codes_eq [] [] = true
codes_eq (x ∷ xs) (y ∷ ys) = x == y && codes_eq xs ys
codes_eq _ _ = false

unfoldable pub starts_with : List ℕ → List ℕ → Bool
starts_with [] ys = true
starts_with (x ∷ xs) [] = false
starts_with (x ∷ xs) (y ∷ ys) = x == y && starts_with xs ys

unfoldable pub contains : List ℕ → List ℕ → Bool
unfolding starts_with
contains p [] = starts_with p []
contains p (x ∷ xs) = starts_with p (x ∷ xs) || contains p xs

-- `replace`, from left to right with no overlap: `skip` characters of a match are still to pass.
unfoldable pub replace_from : List ℕ → List ℕ → ℕ → List ℕ → List ℕ
unfolding starts_with
replace_from p r skip [] = []
replace_from p r (suc skip) (x ∷ xs) = replace_from p r skip xs
replace_from p r zero (x ∷ xs) =
    let hit = starts_with p (x ∷ xs) in
    let rest = replace_from p r (if hit then length p - 1 else 0) xs in
    if hit then r ++ rest else x ∷ rest

unfoldable pub replace : List ℕ → List ℕ → List ℕ → List ℕ
unfolding replace_from
replace p r xs = replace_from p r 0 xs

-- `eq_ignore_ascii_case`
unfoldable pub eq_ignore_ascii_case : String → String → Bool
unfolding codes_eq to_ascii_lowercase
eq_ignore_ascii_case s t = codes_eq (to_ascii_lowercase (codes s)) (to_ascii_lowercase (codes t))
