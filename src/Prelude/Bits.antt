-- ===== src/Prelude/Bits.antt =====
-- Laws of `bit_and` at every width.
use Prim.Native.Nat.{ℕ, zero, suc, ◌+◌, ◌-◌, ◌*◌, ◌/◌, ◌%◌, ◌^◌, ◌≤◌, ◌<◌, bit_and}
use mathlib.Core.Path.{◌≡◌, ap, sym, ◌∙◌, ◌≡⟨◌⟩◌, ◌∎}
use native.Mathlib.Omega.{arith}
use native.Mathlib.Nat.{
  pow-suc, pow-succ', one-le-pow, div-div-eq-div-mul, div-lt_iff_lt-mul, mul_comm,
}
use scal_base.Prelude.Words.{bit_and_step, bit_and-zero}

bit_and-self_fuel : (n a : ℕ) → a ≤ n → bit_and a a ≡ a
bit_and-self_fuel n zero h = bit_and-zero 0
bit_and-self_fuel zero (suc a) h = absurd (omega arith)
bit_and-self_fuel (suc n) (suc a) h =
    omega (arith, bit_and_step (suc a) (suc a), bit_and-self_fuel n (suc a / 2) (omega arith))

pub bit_and_self : (a : ℕ) → bit_and a a ≡ a
bit_and_self a = bit_and-self_fuel a a (omega arith)

-- A mask of `k` low bits is the remainder by 2 ^ k.
pub bit_and-mask : (k q r : ℕ) → r < 2 ^ k → bit_and (q * 2 ^ k + r) (2 ^ k - 1) ≡ r
bit_and-mask zero q r h = ground (arith, bit_and-zero (q * 1 + r))
bit_and-mask (suc k) q r h = ground (
  arith,
  bit_and_step (q * 2 ^ suc k + r) (2 ^ suc k - 1),
  ap (λ (t : ℕ). q * t) (pow-suc 2 k),
  pow-suc 2 k,
  one-le-pow k 2,
  bit_and-mask k q (r / 2) (omega (arith, pow-suc 2 k)),
)

bit_and-double : (x c : ℕ) → bit_and x (2 * c) ≡ 2 * bit_and (x / 2) c
bit_and-double x c =
    let half : 2 * c / 2 ≡ c = omega arith in
    let even : 2 * c % 2 ≡ 0 = omega arith in
    omega (arith, bit_and_step x (2 * c), ap (bit_and (x / 2)) half)

-- A multiple of 2 ^ k keeps none of the `k` low bits.
pub bit_and-shift : (k x b : ℕ) → bit_and x (2 ^ k * b) ≡ 2 ^ k * bit_and (x / 2 ^ k) b
bit_and-shift zero x b =
    let one : 1 * b ≡ b = omega arith in
    let same : x / 1 ≡ x = omega arith in rw (one, same) (omega arith)
bit_and-shift (suc k) x b =
    bit_and x (2 ^ suc k * b)
    ≡⟨ ap (bit_and x) (omega (arith, pow-suc 2 k, ap (λ (t : ℕ). t * b) (pow-suc 2 k))) ⟩
      bit_and x (2 * (2 ^ k * b))
    ≡⟨ bit_and-double x (2 ^ k * b) ⟩ 2 * bit_and (x / 2) (2 ^ k * b)
    ≡⟨ ap (λ (t : ℕ). 2 * t) (bit_and-shift k (x / 2) b) ⟩ 2 * (2 ^ k * bit_and (x / 2 / 2 ^ k) b)
    ≡⟨ ap (λ (t : ℕ). 2 * (2 ^ k * bit_and t b))
        (div-div-eq-div-mul x 2 (2 ^ k) ∙ ap (λ (t : ℕ). x / t) (sym (pow-succ' 2 k))) ⟩
      2 * (2 ^ k * bit_and (x / 2 ^ suc k) b)
    ≡⟨ omega (arith, ap (λ (t : ℕ). t * bit_and (x / 2 ^ suc k) b) (pow-suc 2 k)) ⟩
      2 ^ suc k * bit_and (x / 2 ^ suc k) b ∎

-- Clearing the `k` low bits of a word of `k + d` bits rounds it down to a multiple of 2 ^ k.
pub bit_and_clear :
    (k d x : ℕ) → x < 2 ^ k * 2 ^ d → bit_and x (2 ^ k * (2 ^ d - 1)) ≡ 2 ^ k * (x / 2 ^ k)
bit_and_clear k d x h =
    bit_and-shift k x (2 ^ d - 1)
    ∙ ap (λ (t : ℕ). 2 ^ k * t)
        (ap (λ (t : ℕ). bit_and t (2 ^ d - 1)) (omega arith)
          ∙ bit_and-mask d 0 (x / 2 ^ k) (
              (div-lt_iff_lt-mul (one-le-pow k 2 (omega arith))).1
                (omega (arith, mul_comm (2 ^ k) (2 ^ d)))))
