-- ===== src/Base/Words.antt =====
-- `uint32` and `int32` arithmetic. A word is a number below `2 ^ 32`; an `int32` is the word with its bits. The
-- sum of a `uint32` and an `int32` is that of two words; that of two `int32` may be undefined.
use Prim.Native.Nat.{ℕ, ◌+◌, ◌-◌, ◌%◌, ◌^◌, ◌≤◌, ◌<◌}
use mathlib.Core.Path.{◌≡◌}
use mathlib.Core.Bool.{Bool, not, ◌&&◌}
use mathlib.Core.Option.{Option, none, some}
use dpscalclua.Base.Tests.{leb, if◌then◌else◌}
use native.Mathlib.Omega.{arith}

abbrev pub word_mod : ℕ
word_mod = 2 ^ 32

abbrev pub add32 : ℕ → ℕ → ℕ
add32 a b = (a + b) % word_mod

abbrev pub sub32 : ℕ → ℕ → ℕ
sub32 a b = (a + word_mod - b) % word_mod

abbrev pub is_negative : ℕ → Bool
is_negative a = leb (2 ^ 31) a

-- `int32 + int32`; `none` is the overflow, which is undefined in C++.
abbrev pub add_int : ℕ → ℕ → Option ℕ
add_int a b =
    let sum = add32 a b in
    let overflows =
      if is_negative a
      then is_negative b && not (is_negative sum)
      else not (is_negative b) && is_negative sum in
    if overflows then none else some sum

pub add32-lt : (a b : ℕ) → add32 a b < word_mod
add32-lt a b = omega arith

pub add32_exact : (a b : ℕ) → a + b < word_mod → add32 a b ≡ a + b
add32_exact a b h = omega arith

pub sub32_exact : (a b : ℕ) → a < word_mod → b ≤ a → sub32 a b ≡ a - b
sub32_exact a b h le = omega arith
