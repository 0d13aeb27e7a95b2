-- ===== src/Base/Power.antt =====
-- Powers of two: the rounding loops, the test, and the modulus by a mask.
use native.Mathlib.Nat.{pow-suc, one-le-pow, mod-eq_of_lt, mul-le-mul_left, mul_comm, mod-lt}
use native.Mathlib.Decide.{ℕ_discrete, dec_lt}
use scal_base.Prelude.{
  ℕ, zero, suc, ◌+◌, ◌-◌, ◌*◌, ◌/◌, ◌%◌, ◌^◌, ◌≤◌, ◌<◌, ◌≡◌, ap, sym, ◌∙◌, arith, true, false, ◌==◌,
  ◌↔◌, ◌≢◌, leb, Bool-cases, inl, inr,
}
use Prim.Native.Nat.{bit_and}
use scal_base.Prelude.Words.{bit_and_step}
use scal_base.Prelude.Bits.{bit_and_self, bit_and-mask}
use scal_base.Base.{
  shift_loop, align_pow_two, align_pow_two_ceil, align_pow_two_ceil32, is_power_of2, fast_modulo,
}

double_pow : (p j : ℕ) → p * 2 * 2 ^ j ≡ p * 2 ^ suc j
double_pow p j = omega (arith, ap (λ (t : ℕ). p * t) (pow-suc 2 j))

two_pow_mono : (a b : ℕ) → a ≤ b → 2 ^ a ≤ 2 ^ b
two_pow_mono a zero h = ground arith
two_pow_mono a (suc b) h = elim (ℕ_discrete a (suc b)) [
  | yes e ↦ rw e (omega arith)
  | no ne ↦ omega (arith, two_pow_mono a b (omega arith), pow-suc 2 b)
]

-- Between a power of two and its double there is no other.
two_pow_gap : (a b : ℕ) → 2 ^ a < 2 * 2 ^ b → 2 ^ a ≤ 2 ^ b
two_pow_gap a b h = elim (dec_lt b a) [
  | yes lt ↦ absurd (omega (arith, two_pow_mono (suc b) a lt, pow-suc 2 b))
  | no ge ↦ two_pow_mono a b (omega arith)
]

shift_loop-last :
    (modulus fuel num power : ℕ) → num / 2 ≡ 0 → shift_loop modulus (suc fuel) num power ≡ power
unfolding shift_loop
shift_loop-last modulus fuel num power e = ground arith

shift_loop-more :
    (modulus fuel num power : ℕ)
    → num / 2 ≢ 0
    → shift_loop modulus (suc fuel) num power
      ≡ shift_loop modulus fuel (num / 2) (power * 2 % modulus)
unfolding shift_loop
shift_loop-more modulus fuel num power ne = ground arith

-- The loop doubles `power` once for each halving of `num` down to 1, without leaving the range.
shift_loop_lem :
    (modulus fuel num power : ℕ)
    → 0 < num
    → num < 2 ^ fuel
    → power * num < modulus
    → (j : ℕ) × (shift_loop modulus fuel num power ≡ power * 2 ^ j)
      × (2 ^ j ≤ num)
      × (num < 2 * 2 ^ j)
shift_loop_lem modulus zero num power pos small fits = absurd (omega arith)
shift_loop_lem modulus (suc fuel) num power pos small fits = elim (ℕ_discrete (num / 2) 0) [
  | yes last ↦
      (0, shift_loop-last modulus fuel num power last ∙ omega arith, omega arith, omega arith)
  | no more ↦
      let room : power * (2 * (num / 2)) ≤ power * num = mul-le-mul_left power (omega arith) in
      let twice : power * (2 * 1) ≤ power * (2 * (num / 2)) = mul-le-mul_left power (omega arith) in
      let no_wrap : power * 2 % modulus ≡ power * 2 = mod-eq_of_lt (omega arith) in
      let (j, run, lo, hi) =
        shift_loop_lem modulus fuel (num / 2) (power * 2) (omega arith)
          (omega (arith, pow-suc 2 fuel)) (omega arith) in
      (
        suc j,
        shift_loop-more modulus fuel num power more
            ∙ ap (shift_loop modulus fuel (num / 2)) no_wrap
            ∙ run
            ∙ double_pow power j,
        omega (arith, pow-suc 2 j),
        omega (arith, pow-suc 2 j),
      )
]

module _ (modulus fuel : ℕ) where
  ceil_lem :
      (x : ℕ)
      → 1 < x
      → x ≤ 2 ^ fuel
      → 2 * (x - 1) < modulus
      → (k : ℕ) × (shift_loop modulus fuel (x - 1) 2 ≡ 2 ^ k)
        × (x ≤ 2 ^ k)
        × ((j : ℕ) → x ≤ 2 ^ j → 2 ^ k ≤ 2 ^ j)
  ceil_lem x lo hi fits =
      let (j, run, below, above) =
        shift_loop_lem modulus fuel (x - 1) 2 (omega arith) (omega arith) fits in
      let twice : 2 ^ suc j ≡ 2 * 2 ^ j = omega (arith, pow-suc 2 j) in
      (suc j, run ∙ sym twice, omega arith, λ i h. two_pow_gap (suc j) i (omega arith))

-- For `x` up to 2 ^ 31 the result of `AlignPowTwoCeil32` is a power of two, no less than `x`, and
-- the least such power.
pub align_pow_two_ceil32_lem :
    (x : ℕ)
    → x ≤ 2 ^ 31
    → (k : ℕ) × (align_pow_two_ceil32 x ≡ 2 ^ k)
      × (x ≤ 2 ^ k)
      × ((j : ℕ) → x ≤ 2 ^ j → 2 ^ k ≤ 2 ^ j)
unfolding align_pow_two_ceil32
align_pow_two_ceil32_lem x h = elim (Bool-cases (leb x 1)) [
  | inl tiny ↦ (0, rw tiny, ground arith, λ j le. one-le-pow j 2 (omega arith))
  | inr more ↦
      let (k, run, hi, least) = ceil_lem (2 ^ 32) 32 x (ground arith) (omega arith) (omega arith) in
      (k, rw more run, hi, least)
]

-- For `x` up to 2 ^ 63 so does `AlignPowTwoCeil`.
pub align_pow_two_ceil_lem :
    (x : ℕ)
    → x ≤ 2 ^ 63
    → (k : ℕ) × (align_pow_two_ceil x ≡ 2 ^ k) × (x ≤ 2 ^ k) × ((j : ℕ) → x ≤ 2 ^ j → 2 ^ k ≤ 2 ^ j)
unfolding align_pow_two_ceil
align_pow_two_ceil_lem x h = elim (Bool-cases (leb x 1)) [
  | inl tiny ↦ (0, rw tiny, ground arith, λ j le. one-le-pow j 2 (omega arith))
  | inr more ↦
      let (k, run, hi, least) = ceil_lem (2 ^ 64) 64 x (ground arith) (omega arith) (omega arith) in
      (k, rw more run, hi, least)
]

-- For a `size_t` above 0 the result of `AlignPowTwo` is the greatest power of two that is no greater.
pub align_pow_two_lem :
    (x : ℕ)
    → 0 < x
    → x < 2 ^ 64
    → (k : ℕ) × (align_pow_two x ≡ 2 ^ k) × (2 ^ k ≤ x) × ((j : ℕ) → 2 ^ j ≤ x → 2 ^ j ≤ 2 ^ k)
unfolding align_pow_two
align_pow_two_lem x pos small =
    let (k, run, below, above) = shift_loop_lem (2 ^ 64) 64 x 1 pos small (omega arith) in
    let nonzero : (x == 0) ≡ false = ground arith in
    (k, rw nonzero (run ∙ omega arith), below, λ j h. two_pow_gap j k (omega arith))

-- `IsPowerOf2` holds of the powers of two.
and_pred_pow : (k : ℕ) → bit_and (2 ^ k) (2 ^ k - 1) ≡ 0
and_pred_pow k = omega (
  arith,
  bit_and-mask k 1 0 (one-le-pow k 2 (omega arith)),
  ap (λ (t : ℕ). bit_and t (2 ^ k - 1)) same,
)
  where
    same : 1 * 2 ^ k + 0 ≡ 2 ^ k
    same = omega arith

pow_of_and : (fuel n : ℕ) → n ≤ fuel → 0 < n → bit_and n (n - 1) ≡ 0 → (k : ℕ) × (n ≡ 2 ^ k)
pow_of_and zero n h pos e = absurd (omega arith)
pow_of_and (suc fuel) n h pos e = elim (ℕ_discrete (n % 2) 0) [
  | yes even ↦
      let half : (n - 1) / 2 ≡ n / 2 - 1 = omega arith in
      let (k, e') =
        pow_of_and fuel (n / 2) (omega arith) (omega arith)
          (omega (arith, bit_and_step n (n - 1), ap (bit_and (n / 2)) half)) in
      (suc k, omega (arith, pow-suc 2 k))
  | no odd ↦
      let half : (n - 1) / 2 ≡ n / 2 = omega arith in
      (0, omega (arith, bit_and_step n (n - 1), ap (bit_and (n / 2)) half, bit_and_self (n / 2)))
]

-- `IsPowerOf2` answers true for the powers of two, and for nothing else.
pub is_power_of2_iff : (n : ℕ) → (is_power_of2 n ≡ true) ↔ ((k : ℕ) × (n ≡ 2 ^ k))
unfolding is_power_of2
is_power_of2_iff n = (
  λ h. pow_of_and n n (omega arith) (ground arith) (ground arith),
  λ (k, e).
      ground (
        arith,
        e,
        and_pred_pow k,
        one-le-pow k 2 (omega arith),
        ap (λ (t : ℕ). bit_and t (t - 1)) e,
      ),
)

-- `FastModulo` by a power of two is the remainder.
pub fast_modulo_lem : (k v : ℕ) → fast_modulo v (2 ^ k) ≡ v % 2 ^ k
unfolding fast_modulo
fast_modulo_lem k v =
    ap (λ (t : ℕ). bit_and t (2 ^ k - 1)) (omega (arith, mul_comm (2 ^ k) (v / 2 ^ k)))
    ∙ bit_and-mask k (v / 2 ^ k) (v % 2 ^ k) (mod-lt v (one-le-pow k 2 (omega arith)))
