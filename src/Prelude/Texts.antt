-- ===== src/Prelude/Texts.antt =====
-- The functions of Go's `strings` that the source calls, for ASCII text: case and spaces outside
-- ASCII are left as they are.
use Prim.Native.Char.{Char, code}
use Prim.Native.Nat.{ℕ, zero, suc, ◌/◌, ◌%◌}
use Prim.Native.String.{String, ◌++◌}
use mathlib.Core.Bool.{Bool, ◌&&◌, ◌||◌}
use mathlib.Core.List.{List, [], ◌∷◌}
use text.Mathlib.Text.{◌==◌, starts_with}
use comrad.Prelude.Tests.{ltb, eqb, leb, if◌then◌else◌}

-- The character of the second text that stands where the first one has `c`.
translated : String → String → Char → Char
translated String.[] to c = c
translated (String.◌∷◌ u from) String.[] c = c
translated (String.◌∷◌ u from) (String.◌∷◌ l to) c =
    let rest = translated from to c in if eqb (code u) (code c) then l else rest

translate : String → String → String → String
unfolding translated
translate from to String.[] = ""
translate from to (String.◌∷◌ c s) = String.◌∷◌ (translated from to c) (translate from to s)

unfoldable pub to_lower : String → String
unfolding translate
to_lower = translate "ABCDEFGHIJKLMNOPQRSTUVWXYZ" "abcdefghijklmnopqrstuvwxyz"

-- `strings.NewReplacer("/", "_", ":", "_").Replace`.
unfoldable pub replace_separators : String → String
unfolding translate
replace_separators = translate "/:" "__"

abbrev is_space : Char → Bool
is_space c = eqb (code c) 32 || (leb 9 (code c) && leb (code c) 13)

trim_left : String → String
trim_left String.[] = ""
trim_left (String.◌∷◌ c s) = let rest = trim_left s in if is_space c then rest else String.◌∷◌ c s

trim_right : String → String
trim_right String.[] = ""
trim_right (String.◌∷◌ c s) =
    let rest = trim_right s in if rest == "" && is_space c then "" else String.◌∷◌ c rest

unfoldable pub trim_space : String → String
unfolding trim_left trim_right
trim_space s = trim_right (trim_left s)

-- `strings.Join(items, ",")`.
unfoldable pub join_commas : List String → String
join_commas [] = ""
join_commas (x ∷ []) = x
join_commas (x ∷ y ∷ xs) = x ++ "," ++ join_commas (y ∷ xs)

-- `NormalizeSHA256` of internal/comrad/util.go.
unfoldable pub normalize_sha256 : String → String
unfolding to_lower trim_space
normalize_sha256 s =
    let t = trim_space (to_lower s) in
    if t == "" then "" else if starts_with t "sha256:" then t else "sha256:" ++ t

digit : ℕ → String
digit n =
    if eqb n 0
    then "0"
    else if eqb n 1
    then "1"
    else if eqb n 2
    then "2"
    else if eqb n 3
    then "3"
    else if eqb n 4
    then "4"
    else if eqb n 5
    then "5"
    else if eqb n 6
    then "6"
    else if eqb n 7
    then "7"
    else if eqb n 8
    then "8"
    else "9"

decimal_fuel : ℕ → ℕ → String
unfolding digit
decimal_fuel zero n = ""
decimal_fuel (suc fuel) n =
    let high = decimal_fuel fuel (n / 10) in if ltb n 10 then digit n else high ++ digit (n % 10)

-- `%d` of a number: each digit takes one unit of fuel, and a number has fewer digits than `suc n`.
unfoldable pub decimal : ℕ → String
unfolding decimal_fuel
decimal n = decimal_fuel (suc n) n
