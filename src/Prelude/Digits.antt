-- ===== src/Prelude/Digits.antt =====
-- The binary digits of the results of bit operations.
use Prim.Native.Nat.{
  ℕ, zero, suc, ◌+◌, ◌-◌, ◌*◌, ◌/◌, ◌%◌, ◌^◌, ◌≤◌, ◌<◌, min, max, bit_and, bit_or, bit_xor, digits,
  differ, bit_or-bitwise, bit_xor-bitwise,
}
use mathlib.Core.Path.{◌≡◌, refl, ap, sym, ◌∙◌}
use native.Mathlib.Omega.{arith}
use native.Mathlib.Nat.{pow-suc, div-div-eq-div-mul, pow-succ'}
use scal_base.Prelude.Tests.{◌==◌, if◌then◌else◌}
use scal_base.Prelude.Words.{bit_and_step, bit_and-zero}

-- The digit `i` of a number, the lowest one first.
unfoldable pub digit : ℕ → ℕ → ℕ
digit zero x = x % 2
digit (suc i) x = digit i (x / 2)

pub digit-shift : (i x : ℕ) → x / 2 ^ i % 2 ≡ digit i x
unfolding digit
digit-shift zero x = let same : x / 1 ≡ x = omega arith in rw same refl
digit-shift (suc i) x =
    ap (λ (t : ℕ). x / t % 2) (pow-succ' 2 i)
    ∙ ap (λ (t : ℕ). t % 2) (sym (div-div-eq-div-mul x 2 (2 ^ i)))
    ∙ digit-shift i (x / 2)

pub digit-lt : (i x : ℕ) → digit i x < 2
unfolding digit
digit-lt zero x = omega arith
digit-lt (suc i) x = digit-lt i (x / 2)

-- An operation that works digit by digit.
digit-bitwise :
    (op f : ℕ → ℕ → ℕ)
    → ((a b : ℕ) → op a b ≡ op (a / 2) (b / 2) * 2 + f (a % 2) (b % 2))
    → ((x y : ℕ) → x < 2 → y < 2 → f x y < 2)
    → (i a b : ℕ) → digit i (op a b) ≡ f (digit i a) (digit i b)
unfolding digit
digit-bitwise op f step small zero a b =
    omega (arith, step a b, small (a % 2) (b % 2) (omega arith) (omega arith))
digit-bitwise op f step small (suc i) a b =
    let half : op a b / 2 ≡ op (a / 2) (b / 2) =
      omega (arith, step a b, small (a % 2) (b % 2) (omega arith) (omega arith)) in
    rw half (digit-bitwise op f step small i (a / 2) (b / 2))

module _ (f : ℕ → ℕ → ℕ) (unit : (y : ℕ) → f 0 y ≡ y) where
  -- The digits below a count of rounds, for an operation that keeps the second number when the first
  -- has run out.
  abbrev joined : ℕ → ℕ → ℕ → ℕ
  joined = digits (λ b. b) f

  joined-suc : (rounds x y : ℕ) → x ≤ rounds → joined (suc rounds) x y ≡ joined rounds x y
  joined-suc rounds zero y h = ran_out rounds
    where
      ran_out : (r : ℕ) → joined (suc r) 0 y ≡ joined r 0 y
      ran_out zero = refl
      ran_out (suc r) = refl
  joined-suc zero (suc x) y h = absurd (omega arith)
  joined-suc (suc rounds) (suc x) y h =
      ap (λ (t : ℕ). t * 2 + f (suc x % 2) (y % 2))
        (joined-suc rounds (suc x / 2) (y / 2) (omega arith))

  joined_extra :
      (extra rounds x y : ℕ) → x ≤ rounds → joined (extra + rounds) x y ≡ joined rounds x y
  joined_extra zero rounds x y h = let same : 0 + rounds ≡ rounds = omega arith in rw same refl
  joined_extra (suc extra) rounds x y h =
      let shift : suc extra + rounds ≡ suc (extra + rounds) = omega arith in
      rw shift (joined-suc (extra + rounds) x y (omega arith) ∙ joined_extra extra rounds x y h)

  joined_step : (a b : ℕ) → joined a a b ≡ joined (a / 2) (a / 2) (b / 2) * 2 + f (a % 2) (b % 2)
  joined_step zero b = omega (arith, unit (b % 2))
  joined_step (suc a) b =
      let half = suc a / 2 in
      let enough : joined a half (b / 2) ≡ joined half half (b / 2) =
        let split : a ≡ a - half + half = omega arith in
        ap (λ r. joined r half (b / 2)) split
        ∙ joined_extra (a - half) half half (b / 2) (omega arith) in
      ap (λ (t : ℕ). t * 2 + f (suc a % 2) (b % 2)) enough

zero_max : (y : ℕ) → max 0 y ≡ y
zero_max y = omega arith

pub bit_or_step : (a b : ℕ) → bit_or a b ≡ bit_or (a / 2) (b / 2) * 2 + max (a % 2) (b % 2)
bit_or_step a b =
    bit_or-bitwise a b
    ∙ joined_step max zero_max a b
    ∙ ap (λ (t : ℕ). t * 2 + max (a % 2) (b % 2)) (sym (bit_or-bitwise (a / 2) (b / 2)))

bit_xor_step : (a b : ℕ) → bit_xor a b ≡ bit_xor (a / 2) (b / 2) * 2 + differ (a % 2) (b % 2)
bit_xor_step a b =
    bit_xor-bitwise a b
    ∙ joined_step differ (λ y. refl) a b
    ∙ ap (λ (t : ℕ). t * 2 + differ (a % 2) (b % 2)) (sym (bit_xor-bitwise (a / 2) (b / 2)))

pub digit-bit_or : (i a b : ℕ) → digit i (bit_or a b) ≡ max (digit i a) (digit i b)
digit-bit_or = digit-bitwise bit_or max bit_or_step (λ x y hx hy. omega arith)

pub digit-bit_and : (i a b : ℕ) → digit i (bit_and a b) ≡ min (digit i a) (digit i b)
digit-bit_and = digit-bitwise bit_and min bit_and_step (λ x y hx hy. omega arith)

differ-lt : (x y : ℕ) → x < 2 → y < 2 → differ x y < 2
differ-lt zero y hx hy = hy
differ-lt (suc x) zero hx hy = hx
differ-lt (suc zero) (suc y) hx hy = omega arith
differ-lt (suc (suc x)) (suc y) hx hy = absurd (omega arith)

pub digit-bit_xor : (i a b : ℕ) → digit i (bit_xor a b) ≡ differ (digit i a) (digit i b)
digit-bit_xor = digit-bitwise bit_xor differ bit_xor_step differ-lt

pub digit-zero : (i : ℕ) → digit i 0 ≡ 0
unfolding digit
digit-zero zero = refl
digit-zero (suc i) = digit-zero i

-- The digits of a power of two.
pub digit-power : (i j : ℕ) → digit j (2 ^ i) ≡ (if i == j then 1 else 0)
unfolding digit
digit-power zero zero = refl
digit-power zero (suc j) = digit-zero j ∙ ground arith
digit-power (suc i) zero = ground (arith, pow-suc 2 i)
digit-power (suc i) (suc j) =
    let half : 2 ^ suc i / 2 ≡ 2 ^ i = omega (arith, pow-suc 2 i) in
    rw half (digit-power i j ∙ ground arith)

-- The digits of the complement within `n` bits.
pub digit-complement : (n i x : ℕ) → x < 2 ^ n → i < n → digit i (2 ^ n - 1 - x) ≡ 1 - digit i x
unfolding digit
digit-complement zero i x small h = absurd (omega arith)
digit-complement (suc n) zero x small h = omega (arith, pow-suc 2 n, small)
digit-complement (suc n) (suc i) x small h =
    let half : (2 ^ suc n - 1 - x) / 2 ≡ 2 ^ n - 1 - x / 2 = omega (arith, pow-suc 2 n, small) in
    rw half (digit-complement n i (x / 2) (omega (arith, pow-suc 2 n, small)) (omega arith))

pub bit_and-one : (x : ℕ) → bit_and x 1 ≡ x % 2
bit_and-one x = omega (arith, bit_and_step x 1, bit_and-zero (x / 2))
