-- ===== src/Prelude/Words.antt =====
-- Go's `int` and `int64`: a value is its 64-bit two's-complement pattern, a number below 2^64.
-- Sums and differences wrap; the order is that of the signed values.
use Prim.Native.Nat.{ℕ, ◌+◌, ◌-◌, ◌%◌, ◌<◌}
use Prim.Native.Nat.{max}
use mathlib.Core.Path.{◌≡◌}
use mathlib.Core.Bool.{Bool, true}
use native.Mathlib.Omega.{arith}
use comrad.Prelude.Tests.{ltb, leb, if◌then◌else◌}

abbrev pub Int64 : Type 0
Int64 = ℕ

abbrev pub word : ℕ
word = 18446744073709551616

abbrev pub half_word : ℕ
half_word = 9223372036854775808

-- The order-preserving map of the signed values onto the numbers.
abbrev pub rank : Int64 → ℕ
rank a = (a + half_word) % word

abbrev pub lt64 : Int64 → Int64 → Bool
lt64 a b = ltb (rank a) (rank b)

abbrev pub le64 : Int64 → Int64 → Bool
le64 a b = leb (rank a) (rank b)

abbrev pub add64 : Int64 → Int64 → Int64
add64 a b = (a + b) % word

abbrev pub sub64 : Int64 → Int64 → Int64
sub64 a b = (a + (word - b % word)) % word

unfoldable pub max64 : Int64 → Int64 → Int64
max64 a b = if lt64 b a then a else b

abbrev pub neg64 : Int64 → Int64
neg64 a = (word - a % word) % word

-- A pattern, and a value that is not negative.
abbrev pub IsWord : Int64 → Type 0
IsWord a = a < word

abbrev pub IsNatural : Int64 → Type 0
IsNatural a = a < half_word

pub lt64→lt : (a b : Int64) → IsNatural a → IsNatural b → lt64 a b ≡ true → a < b
lt64→lt a b ha hb h = ground arith

pub sub64-add64 : (a b : Int64) → IsWord a → sub64 (add64 a b) b ≡ a
sub64-add64 a b h = omega arith

pub le64_trans : (a b c : Int64) → le64 a b ≡ true → le64 b c ≡ true → le64 a c ≡ true
le64_trans a b c h k = ground arith

-- On values that are not negative, the signed maximum is that of the numbers.
pub max64-max : (a b : Int64) → IsNatural a → IsNatural b → max64 a b ≡ max a b
unfolding max64
max64-max a b ha hb = ground arith
