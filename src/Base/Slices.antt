-- ===== src/Base/Slices.antt =====
-- Contiguous parts of a list: Rust's `xs[a..a + n]`, and `copy_from_slice` into such a part.
use Prim.Native.Nat.{ℕ, zero, suc, ◌+◌, ◌-◌, ◌≤◌}
use mathlib.Core.Path.{◌≡◌, refl, ap, ap₂, sym, ◌∙◌}
use mathlib.Core.List.{List, [], ◌∷◌, ◌++◌, append_assoc}
use mathlib.Core.Option.{Option, none, some}
use native.Mathlib.Omega.{arith}
use last_audio_memory_buffer.Base.Tests.{leb, if◌then◌else◌}
use last_audio_memory_buffer.Base.Lists.{
  length, take, drop, length-append, length-take, length-drop,
}

module _ {ℓ} {A : Type ℓ} where
  -- The `n` elements from index `a` on, fewer where the list ends.
  unfoldable pub slice : List A → ℕ → ℕ → List A
  slice xs a n = take n (drop a xs)

  -- `&xs[a..a + n]`; `none` is the panic of a slice out of range.
  unfoldable pub slice? : List A → ℕ → ℕ → Option (List A)
  slice? xs a n = if leb (a + n) (length xs) then some (slice xs a n) else none

  -- `xs[a..a + ys.len()].copy_from_slice(ys)`; `none` is the panic out of range.
  unfoldable pub splice? : List A → ℕ → List A → Option (List A)
  splice? xs a ys =
      if leb (a + length ys) (length xs)
      then some (take a xs ++ (ys ++ drop (a + length ys) xs))
      else none

module _ {ℓ} {A : Type ℓ} where
  pub take-append : (n : ℕ) (xs ys : List A) → n ≤ length xs → take n (xs ++ ys) ≡ take n xs
  take-append zero xs ys h = refl
  take-append (suc n) [] ys h = elim h [ ]
  take-append (suc n) (x ∷ xs) ys h = ap (λ l. x ∷ l) (take-append n xs ys (omega arith))

  pub take-all : (n : ℕ) (xs : List A) → length xs ≤ n → take n xs ≡ xs
  take-all zero [] h = refl
  take-all zero (x ∷ xs) h = absurd (omega arith)
  take-all (suc n) [] h = refl
  take-all (suc n) (x ∷ xs) h = ap (λ l. x ∷ l) (take-all n xs (omega arith))

  pub drop-append : (n : ℕ) (xs ys : List A) → n ≤ length xs → drop n (xs ++ ys) ≡ drop n xs ++ ys
  drop-append zero xs ys h = refl
  drop-append (suc n) [] ys h = elim h [ ]
  drop-append (suc n) (x ∷ xs) ys h = drop-append n xs ys (omega arith)

  pub drop-length : (xs ys : List A) → drop (length xs) (xs ++ ys) ≡ ys
  drop-length [] ys = refl
  drop-length (x ∷ xs) ys = drop-length xs ys

  pub take-length : (xs ys : List A) → take (length xs) (xs ++ ys) ≡ xs
  take-length [] ys = refl
  take-length (x ∷ xs) ys = ap (λ l. x ∷ l) (take-length xs ys)

  pub take_of_length : (n : ℕ) (xs ys : List A) → length xs ≡ n → take n (xs ++ ys) ≡ xs
  take_of_length zero [] ys h = refl
  take_of_length zero (x ∷ xs) ys h = absurd (omega arith)
  take_of_length (suc n) [] ys h = absurd (omega arith)
  take_of_length (suc n) (x ∷ xs) ys h = ap (λ l. x ∷ l) (take_of_length n xs ys (omega arith))

  pub drop_of_length : (n : ℕ) (xs ys : List A) → length xs ≡ n → drop n (xs ++ ys) ≡ ys
  drop_of_length zero [] ys h = refl
  drop_of_length zero (x ∷ xs) ys h = absurd (omega arith)
  drop_of_length (suc n) [] ys h = absurd (omega arith)
  drop_of_length (suc n) (x ∷ xs) ys h = drop_of_length n xs ys (omega arith)

  take-take : (m n : ℕ) (xs : List A) → m ≤ n → take m (take n xs) ≡ take m xs
  take-take zero n xs h = refl
  take-take (suc m) zero xs h = elim h [ ]
  take-take (suc m) (suc n) [] h = refl
  take-take (suc m) (suc n) (x ∷ xs) h = ap (λ l. x ∷ l) (take-take m n xs (omega arith))

  pub slice-length : (xs : List A) (a n : ℕ) → a + n ≤ length xs → length (slice xs a n) ≡ n
  unfolding slice
  slice-length xs a n h = omega (arith, length-take n (drop a xs), length-drop a xs)

  -- A list that grows keeps its slices.
  pub slice-append :
      (xs ys : List A) (a n : ℕ) → a + n ≤ length xs → slice (xs ++ ys) a n ≡ slice xs a n
  unfolding slice
  slice-append xs ys zero n h = take-append n xs ys (omega arith)
  slice-append [] ys (suc a) n h = absurd (omega arith)
  slice-append (x ∷ xs) ys (suc a) n h = slice-append xs ys a n (omega arith)

  take-++ : (m n k : ℕ) (xs : List A) → k ≡ m + n → take m xs ++ take n (drop m xs) ≡ take k xs
  take-++ zero n k xs e = ap (λ j. take j xs) (omega arith)
  take-++ (suc m) zero zero [] e = refl
  take-++ (suc m) (suc n) zero [] e = refl
  take-++ (suc m) zero (suc k) [] e = refl
  take-++ (suc m) (suc n) (suc k) [] e = refl
  take-++ (suc m) n zero (x ∷ xs) e = absurd (omega arith)
  take-++ (suc m) n (suc k) (x ∷ xs) e = ap (λ l. x ∷ l) (take-++ m n k xs (omega arith))

  drop-take : (c b k : ℕ) (xs : List A) → b ≡ c + k → drop c (take b xs) ≡ take k (drop c xs)
  drop-take zero b k xs e = ap (λ j. take j xs) (omega arith)
  drop-take (suc c) zero k xs e = absurd (omega arith)
  drop-take (suc c) (suc b) zero [] e = refl
  drop-take (suc c) (suc b) (suc k) [] e = refl
  drop-take (suc c) (suc b) k (x ∷ xs) e = drop-take c b k xs (omega arith)

  pub drop-drop : (a c k : ℕ) (xs : List A) → k ≡ a + c → drop c (drop a xs) ≡ drop k xs
  drop-drop zero c k xs e = ap (λ j. drop j xs) (omega arith)
  drop-drop (suc a) c zero xs e = absurd (omega arith)
  drop-drop (suc a) zero (suc k) [] e = refl
  drop-drop (suc a) (suc c) (suc k) [] e = refl
  drop-drop (suc a) c (suc k) (x ∷ xs) e = drop-drop a c k xs (omega arith)

  -- Two adjacent slices are one.
  pub slice-++ :
      (xs : List A) (a b m n k : ℕ)
      → b ≡ a + m
      → k ≡ m + n
      → slice xs a m ++ slice xs b n ≡ slice xs a k
  unfolding slice
  slice-++ xs a b m n k e e' =
      ap (λ l. take m (drop a xs) ++ take n l) (sym (drop-drop a m b xs e))
      ∙ take-++ m n k (drop a xs) e'

  -- A slice of a slice is a slice.
  pub slice-slice :
      (xs : List A) (a b c n k : ℕ)
      → c + n ≤ b
      → k ≡ a + c
      → slice (slice xs a b) c n ≡ slice xs k n
  unfolding slice
  slice-slice xs a b c n k h e =
      ap (take n) (drop-take c b (b - c) (drop a xs) (omega arith))
      ∙ take-take n (b - c) (drop c (drop a xs)) (omega arith)
      ∙ ap (take n) (drop-drop a c k xs e)

  -- The part of a grown list past its old end.
  pub slice-append_right :
      (xs ys : List A) (a n : ℕ) → length xs ≡ a → slice (xs ++ ys) a n ≡ take n ys
  unfolding slice
  slice-append_right xs ys a n h = ap (take n) (drop_of_length a xs ys h)

  pub slice-zero : (xs : List A) (a : ℕ) → slice xs a 0 ≡ []
  unfolding slice
  slice-zero xs a = refl

  -- A splice in range keeps the length, holds the new part, and keeps what stands before it.
  pub splice?_lem :
      (xs : List A) (a : ℕ) (ys : List A)
      → a + length ys ≤ length xs
      → splice? xs a ys ≡ some (take a xs ++ (ys ++ drop (a + length ys) xs))
  unfolding splice?
  splice?_lem xs a ys h = ground arith

  pub slice?_lem : (xs : List A) (a n : ℕ) → a + n ≤ length xs → slice? xs a n ≡ some (slice xs a n)
  unfolding slice?
  slice?_lem xs a n h = ground arith

  pub length-splice :
      (xs : List A) (a : ℕ) (ys : List A)
      → a + length ys ≤ length xs
      → length (take a xs ++ (ys ++ drop (a + length ys) xs)) ≡ length xs
  length-splice xs a ys h = omega (
    arith,
    length-append (take a xs) (ys ++ drop (a + length ys) xs),
    length-append ys (drop (a + length ys) xs),
    length-take a xs,
    length-drop (a + length ys) xs,
  )

  pub take-splice :
      (xs : List A) (a k : ℕ) (ys : List A)
      → a + length ys ≤ length xs
      → k ≡ a + length ys
      → take k (take a xs ++ (ys ++ drop (a + length ys) xs)) ≡ take a xs ++ ys
  take-splice xs a k ys h e =
      ap (take k) (sym (append_assoc (take a xs) ys (drop (a + length ys) xs)))
      ∙ take_of_length k (take a xs ++ ys) (drop (a + length ys) xs)
          (omega (arith, length-append (take a xs) ys, length-take a xs))

  pub slice-take : (xs : List A) (b c n : ℕ) → c + n ≤ b → slice (take b xs) c n ≡ slice xs c n
  unfolding slice
  slice-take xs b c n h = slice-slice xs 0 b c n c h (omega arith)

  -- Two splices side by side are one.
  pub splice-next :
      (xs front ys : List A) (a k : ℕ)
      → length front ≡ a
      → k ≡ a + length ys
      → take a (front ++ drop a xs) ++ (ys ++ drop k (front ++ drop a xs))
        ≡ (front ++ ys) ++ drop k xs
  splice-next xs front ys a k e e' =
      ap₂ (λ l m. l ++ (ys ++ m)) (take_of_length a front (drop a xs) e)
        (sym (drop-drop a (length ys) k (front ++ drop a xs) e')
          ∙ ap (drop (length ys)) (drop_of_length a front (drop a xs) e)
          ∙ drop-drop a (length ys) k xs e')
      ∙ sym (append_assoc front ys (drop k xs))

  pub drop-all : (n : ℕ) (xs : List A) → length xs ≤ n → drop n xs ≡ []
  drop-all zero [] h = refl
  drop-all zero (x ∷ xs) h = absurd (omega arith)
  drop-all (suc n) [] h = refl
  drop-all (suc n) (x ∷ xs) h = drop-all n xs (omega arith)
