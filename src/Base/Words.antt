-- ===== src/Base/Words.antt =====
-- Machine integers: the arithmetic of `u64`, `u32` and of `usize` on a 64-bit target.
use Prim.Native.Nat.{ℕ, ◌+◌, ◌-◌, ◌*◌, ◌%◌, ◌/◌, ◌≤◌, ◌<◌}
use mathlib.Core.Path.{◌≡◌, ap}
use mathlib.Core.Logic.{◌⊎◌, inl, inr}
use mathlib.Core.Option.{Option, none, some}
use native.Mathlib.Nat.{div-add-mod', mod-lt}
use native.Mathlib.Omega.{arith}
use last_audio_memory_buffer.Base.Tests.{ltb, ◌==◌, if◌then◌else◌}

-- 2 ^ 64, written out.
abbrev pub u64_mod : ℕ
u64_mod = 18446744073709551616

-- `u64::MAX`
abbrev pub u64_max : ℕ
u64_max = 18446744073709551615

-- `u32::MAX`
abbrev pub u32_max : ℕ
u32_max = 4294967295

-- `a + b` on `u64`, which wraps in a release build.
unfoldable pub add_u64 : ℕ → ℕ → ℕ
add_u64 a b = (a + b) % u64_mod

-- `a - b` on `u64`, which wraps in a release build.
unfoldable pub sub_u64 : ℕ → ℕ → ℕ
sub_u64 a b = (a + (u64_mod - b)) % u64_mod

-- 2 ^ 32, written out.
abbrev pub u32_mod : ℕ
u32_mod = 4294967296

-- `a + b` on `u32`, with `b` cast to it first.
unfoldable pub add_u32 : ℕ → ℕ → ℕ
add_u32 a b = (a + b) % u32_mod

-- `a * b` on `usize`, and on `u64`.
unfoldable pub mul_u64 : ℕ → ℕ → ℕ
mul_u64 a b = (a * b) % u64_mod

-- `div_ceil`
unfoldable pub div_ceil : ℕ → ℕ → ℕ
div_ceil a b = if a % b == 0 then a / b else a / b + 1

-- `checked_add` and `checked_mul` on `u64` and `usize`.
unfoldable pub checked_add : ℕ → ℕ → Option ℕ
checked_add a b = if ltb (a + b) u64_mod then some (a + b) else none

unfoldable pub checked_mul : ℕ → ℕ → Option ℕ
checked_mul a b = if ltb (a * b) u64_mod then some (a * b) else none

-- `checked_sub`
unfoldable pub checked_sub : ℕ → ℕ → Option ℕ
checked_sub a b = if ltb a b then none else some (a - b)

pub add_u64_lem : (a b : ℕ) → a + b < u64_mod → add_u64 a b ≡ a + b
unfolding add_u64
add_u64_lem a b h = omega arith

pub add_u32_lem : (a b : ℕ) → a + b < u32_mod → add_u32 a b ≡ a + b
unfolding add_u32
add_u32_lem a b h = omega arith

pub mul_u64_lem : (a b : ℕ) → a * b < u64_mod → mul_u64 a b ≡ a * b
unfolding mul_u64
mul_u64_lem a b h = omega arith

pub checked_add_lem : (a b : ℕ) → a + b < u64_mod → checked_add a b ≡ some (a + b)
unfolding checked_add
checked_add_lem a b h = ground arith

pub checked_add-none : (a b : ℕ) → u64_mod ≤ a + b → checked_add a b ≡ none
unfolding checked_add
checked_add-none a b h = ground arith

pub checked_add-eq_some :
    (a b : ℕ) {c : ℕ} → checked_add a b ≡ some c → (c ≡ a + b) × (a + b < u64_mod)
unfolding checked_add
checked_add-eq_some a b h = ground arith

pub checked_mul_lem : (a b : ℕ) → a * b < u64_mod → checked_mul a b ≡ some (a * b)
unfolding checked_mul
checked_mul_lem a b h = ground arith

pub checked_mul-eq_some :
    (a b : ℕ) {c : ℕ} → checked_mul a b ≡ some c → (c ≡ a * b) × (a * b < u64_mod)
unfolding checked_mul
checked_mul-eq_some a b h = ground arith

div_ceil_cases :
    (a b : ℕ) → (a % b ≡ 0) × (div_ceil a b ≡ a / b) ⊎ (0 < a % b) × (div_ceil a b ≡ a / b + 1)
unfolding div_ceil
div_ceil_cases a b = ground arith

-- The least number of parts of size `b` that hold `a`.
pub div_ceil-le_mul : (a b : ℕ) → 0 < b → a ≤ div_ceil a b * b
div_ceil-le_mul a b h = elim (div_ceil_cases a b) [
  | inl e ↦ omega (arith, div-add-mod' a b, ap (λ t. t * b) e.1)
  | inr e ↦ omega (arith, div-add-mod' a b, mod-lt a h, ap (λ t. t * b) e.1)
]

pub div_ceil-mul_lt : (a b : ℕ) → 0 < b → div_ceil a b * b < a + b
div_ceil-mul_lt a b h = elim (div_ceil_cases a b) [
  | inl e ↦ omega (arith, div-add-mod' a b, ap (λ t. t * b) e.1)
  | inr e ↦ omega (arith, div-add-mod' a b, mod-lt a h, ap (λ t. t * b) e.1)
]

pub lt-or-le : (a b : ℕ) → (a < b) ⊎ (b ≤ a)
lt-or-le a b = omega arith

pub checked_sub-eq_some : (a b : ℕ) {c : ℕ} → checked_sub a b ≡ some c → (c ≡ a - b) × (b ≤ a)
unfolding checked_sub
checked_sub-eq_some a b h = ground arith

pub sub_u64_lem : (a b : ℕ) → b ≤ a → a < u64_mod → sub_u64 a b ≡ a - b
unfolding sub_u64
sub_u64_lem a b h small = omega arith
