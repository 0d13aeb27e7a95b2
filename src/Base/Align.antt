-- ===== src/Base/Align.antt =====
-- `AlignSize` and `AlignSizeTruncate` by a power of two.
use native.Mathlib.Nat.{one-le-pow, div-add-mod, mod-lt, mul-suc, mod-eq_of_lt, mul-le-mul_left}
use Prim.Native.Nat.{bit_and}
use scal_base.Prelude.{ℕ, zero, suc, ◌+◌, ◌-◌, ◌*◌, ◌/◌, ◌^◌, ◌≤◌, ◌<◌, ◌≡◌, ap, ◌∙◌, arith}
use scal_base.Prelude.Words.{u64}
use scal_base.Prelude.Bits.{bit_and_clear}
use scal_base.Base.{align_size, align_size_truncate, complement64}

mul_pred : (a b : ℕ) → 1 ≤ b → a * (b - 1) + a ≡ a * b
mul_pred a zero h = absurd (omega arith)
mul_pred a (suc c) h = omega (arith, mul-suc a c, ap (λ (t : ℕ). a * t) (pred_suc c))
  where
    pred_suc : (x : ℕ) → suc x - 1 ≡ x
    pred_suc x = omega arith

div_bounds : (m x : ℕ) → 0 < m → (m * (x / m) ≤ x) × (x < m * (x / m) + m)
div_bounds m x h = omega (arith, div-add-mod x m, mod-lt x h)

-- An alignment of 2 ^ k, where 2 ^ k and 2 ^ d make up the 2 ^ 64 values of a `size_t`.
module _ (k d : ℕ) (word : 2 ^ k * 2 ^ d ≡ 2 ^ 64) where
  mask : u64 (2 ^ k + (2 ^ 64 - 1)) ≡ 2 ^ k - 1
  mask =
      let pos = one-le-pow k 2 (omega arith) in
      let pos' = one-le-pow d 2 (omega arith) in
      let le : 2 ^ k * 1 ≤ 2 ^ k * 2 ^ d = mul-le-mul_left (2 ^ k) pos' in omega arith

  high : complement64 (2 ^ k - 1) ≡ 2 ^ k * (2 ^ d - 1)
  high = omega (
    arith,
    word,
    one-le-pow k 2 (omega arith),
    mul_pred (2 ^ k) (2 ^ d) (one-le-pow d 2 (omega arith)),
  )

  clear : (x : ℕ) → x < 2 ^ 64 → bit_and x (complement64 (2 ^ k - 1)) ≡ 2 ^ k * (x / 2 ^ k)
  clear x h = ap (bit_and x) high ∙ bit_and_clear k d x (omega (arith, word))

  -- `AlignSizeTruncate` rounds down to the alignment.
  pub align_size_truncate_lem :
      (size : ℕ) → size < 2 ^ 64 → align_size_truncate size (2 ^ k) ≡ 2 ^ k * (size / 2 ^ k)
  unfolding align_size_truncate
  align_size_truncate_lem size h = rw mask (clear size h)

  -- For an alignment of 2 ^ k, which 2 ^ d makes up to 2 ^ 64, and a size that does not reach 2 ^
  -- 64 with it, `AlignSize` gives a multiple of the alignment, and the least that is not below the
  -- size.
  pub align_size_lem :
      (size : ℕ)
      → size + 2 ^ k ≤ 2 ^ 64
      → (q : ℕ) × (align_size size (2 ^ k) ≡ 2 ^ k * q)
        × (size ≤ 2 ^ k * q)
        × (2 ^ k * q < size + 2 ^ k)
  unfolding align_size
  align_size_lem size h =
      let pos = one-le-pow k 2 (omega arith) in
      let bounds = div_bounds (2 ^ k) (size + (2 ^ k - 1)) pos in
      let sum : u64 (size + (2 ^ k - 1)) ≡ size + (2 ^ k - 1) = mod-eq_of_lt (omega arith) in
      (
        (size + (2 ^ k - 1)) / 2 ^ k,
        rw (mask, sum) (clear (size + (2 ^ k - 1)) (omega arith)),
        omega arith,
        omega arith,
      )
