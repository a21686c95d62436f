-- ===== src/Prelude/Text.antt =====
-- Text as the source formats it: concatenation for `format!`, decimal numbers, `Path::join`.
use Prim.Native.Nat.{ℕ, zero, suc, ◌/◌, ◌%◌}
use Prim.Native.Char.{code}
use Prim.Native.String
use Prim.Native.String.{String}
use mathlib.Core.Bool.{Bool, true, false, ◌||◌}
use mathlib.Core.List.{List, [], ◌∷◌}
use vasal.Prelude.Tests.{◌==◌, if◌then◌else◌}
use vasal.Prelude.Lists.{get_or}

-- The pieces of a `format!`, in order.
abbrev pub format : List String → String
format [] = ""
format (piece ∷ pieces) = String.◌++◌ piece (format pieces)

abbrev digit : ℕ → String
digit d = get_or ("0" ∷ "1" ∷ "2" ∷ "3" ∷ "4" ∷ "5" ∷ "6" ∷ "7" ∷ "8" ∷ "9" ∷ []) d "?"

-- At most `fuel` digits before `rest`.
digits_before : ℕ → ℕ → String → String
digits_before zero n rest = rest
digits_before (suc fuel) n rest =
    let longer = digits_before fuel (n / 10) (String.◌++◌ (digit (n % 10)) rest) in
    if n == 0 then rest else longer

-- The decimal form of a number below 10 ^ 40, which every 128-bit number is.
unfoldable pub decimal : ℕ → String
unfolding digits_before
decimal n = if n == 0 then "0" else digits_before 40 n ""

abbrev pub FilePath : Type 0
FilePath = String

ends_with_slash : String → Bool
ends_with_slash String.[] = false
ends_with_slash (String.◌∷◌ c String.[]) = code c == b'/'
ends_with_slash (String.◌∷◌ c (String.◌∷◌ d s)) = ends_with_slash (String.◌∷◌ d s)

starts_with_slash : String → Bool
starts_with_slash String.[] = false
starts_with_slash (String.◌∷◌ c s) = code c == b'/'

is_empty : String → Bool
is_empty String.[] = true
is_empty (String.◌∷◌ c s) = false

-- `Path::join`: an absolute right part replaces the left one.
unfoldable pub join : FilePath → String → FilePath
unfolding ends_with_slash starts_with_slash is_empty
join dir name =
    if starts_with_slash name || is_empty dir
    then name
    else if ends_with_slash dir
    then String.◌++◌ dir name
    else format (dir ∷ "/" ∷ name ∷ [])
