-- ===== src/Ring/Blocks.antt =====
-- Arithmetic of blocks: block `k` is the frames from `k * f` on, `f` of them, and chunk `k % n` of
-- `n` chunks is the one that holds it.
use native.Mathlib.Nat.{
  div-add-mod', mod-add-mod, mod-eq_of_lt, lt_of_mul-lt-mul_right, mul-add-mod_self_right,
}
use last_audio_memory_buffer.Base.{ℕ, suc, ◌+◌, ◌*◌, ◌%◌, ◌/◌, ◌<◌, ◌≤◌, ◌≡◌, ◌∙◌, sym, ap, arith}

-- A block that starts before the end of block `q` is `q` or an earlier one.
pub block-le : (f g k q : ℕ) → k * f < g → g ≤ q * f + f → k ≤ q
block-le f g k q h e = omega (arith, lt_of_mul-lt-mul_right f {m = k} {n = suc q} (omega arith))

-- An earlier block is complete.
pub block_full : (f g k q : ℕ) → k < q → q * f ≤ g → k * f + f ≤ g
block_full f g k q h e = grind arith

-- Two blocks less than `n` apart that lie in one chunk are one.
pub block_unique : (n a b : ℕ) → a % n ≡ b % n → a < b + n → b < a + n → a ≡ b
block_unique n a b e h k = sym (div-add-mod' a n) ∙ same ∙ div-add-mod' b n
  where
    le : a / n ≤ b / n
    le =
        block-le n (b / n * n + n) (a / n) (b / n)
          (omega (arith, div-add-mod' a n, div-add-mod' b n)) (omega arith)

    ge : b / n ≤ a / n
    ge =
        block-le n (a / n * n + n) (b / n) (a / n)
          (omega (arith, div-add-mod' a n, div-add-mod' b n)) (omega arith)

    quotients : a / n ≡ b / n
    quotients = omega (arith, le, ge)

    same : a / n * n + a % n ≡ b / n * n + b % n
    same = omega (arith, ap (λ t. t * n) quotients, e)

pub next_index : (n q : ℕ) → (q % n + 1) % n ≡ (q + 1) % n
next_index n q = mod-add-mod q n 1

-- The place in its block of a frame, and its block.
pub mod_of_block : (f q o : ℕ) → o < f → (q * f + o) % f ≡ o
mod_of_block f q o h = mul-add-mod_self_right q f o ∙ mod-eq_of_lt h

pub div_of_block : (f q o : ℕ) → o < f → (q * f + o) / f ≡ q
div_of_block f q o h = omega (arith, le, ge)
  where
    x : ℕ
    x = q * f + o

    le : x / f ≤ q
    le = block-le f (q * f + f) (x / f) q (omega (arith, div-add-mod' x f)) (omega arith)

    ge : q ≤ x / f
    ge =
        block-le f (x / f * f + f) q (x / f) (omega (arith, div-add-mod' x f, mod_of_block f q o h))
          (omega arith)

pub mul-right_cancel : (a b f : ℕ) → 0 < f → a * f ≡ b * f → a ≡ b
mul-right_cancel a b f h e = omega (arith, le, ge)
  where
    le : a ≤ b
    le = block-le f (b * f + f) a b (omega (arith, e)) (omega arith)

    ge : b ≤ a
    ge = block-le f (a * f + f) b a (omega (arith, e)) (omega arith)
