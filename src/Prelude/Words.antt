-- ===== src/Prelude/Words.antt =====
-- Unsigned words as native numbers, and the facts on `bit_and` that the hash tables need.
use Prim.Native.Nat.{
  ℕ, zero, suc, ◌+◌, ◌-◌, ◌*◌, ◌/◌, ◌%◌, ◌^◌, ◌≤◌, min, bit_and, digits, bit_and-bitwise,
}
use mathlib.Core.Path.{◌≡◌, refl, ap, sym, ◌∙◌}
use native.Mathlib.Omega.{arith}

abbrev pub u16 : ℕ → ℕ
u16 x = x % 2 ^ 16

abbrev pub u32 : ℕ → ℕ
u32 x = x % 2 ^ 32

abbrev pub u64 : ℕ → ℕ
u64 x = x % 2 ^ 64

-- The digits below a count of rounds; a round more changes nothing once the number has run out.
abbrev common : ℕ → ℕ → ℕ → ℕ
common = digits (λ rest. zero) min

common-suc : (rounds x y : ℕ) → x ≤ rounds → common (suc rounds) x y ≡ common rounds x y
common-suc rounds zero y h = ran_out rounds
  where
    ran_out : (r : ℕ) → common (suc r) 0 y ≡ common r 0 y
    ran_out zero = refl
    ran_out (suc r) = refl
common-suc zero (suc x) y h = absurd (omega arith)
common-suc (suc rounds) (suc x) y h =
    ap (λ (t : ℕ). t * 2 + min (suc x % 2) (y % 2))
      (common-suc rounds (suc x / 2) (y / 2) (omega arith))

common_extra : (extra rounds x y : ℕ) → x ≤ rounds → common (extra + rounds) x y ≡ common rounds x y
common_extra zero rounds x y h = let same : 0 + rounds ≡ rounds = omega arith in rw same refl
common_extra (suc extra) rounds x y h =
    let shift : suc extra + rounds ≡ suc (extra + rounds) = omega arith in
    rw shift (common-suc (extra + rounds) x y (omega arith) ∙ common_extra extra rounds x y h)

nothing_common : (y : ℕ) → bit_and 0 y ≡ 0
nothing_common y = bit_and-bitwise 0 y

-- `bit_and` works digit by digit.
pub bit_and_step : (a b : ℕ) → bit_and a b ≡ bit_and (a / 2) (b / 2) * 2 + min (a % 2) (b % 2)
bit_and_step zero b = omega (arith, nothing_common b, nothing_common (b / 2))
bit_and_step (suc a) b =
    let half = suc a / 2 in
    let enough : common a half (b / 2) ≡ common half half (b / 2) =
      let split : a ≡ a - half + half = omega arith in
      ap (λ r. common r half (b / 2)) split
      ∙ common_extra (a - half) half half (b / 2) (omega arith) in
    bit_and-bitwise (suc a) b
    ∙ ap (λ (t : ℕ). t * 2 + min (suc a % 2) (b % 2)) (enough ∙ sym (bit_and-bitwise half (b / 2)))

under_mask : (bound a b : ℕ) → a ≤ bound → bit_and a b ≤ b
under_mask bound zero b h = omega (arith, nothing_common b)
under_mask zero (suc a) b h = absurd (omega arith)
under_mask (suc bound) (suc a) b h =
    omega (arith, bit_and_step (suc a) b, under_mask bound (suc a / 2) (b / 2) (omega arith))

-- A mask bounds its result.
pub bit_and-le : (a b : ℕ) → bit_and a b ≤ b
bit_and-le a b = under_mask a a b (omega arith)

pub bit_and-zero : (a : ℕ) → bit_and a 0 ≡ 0
bit_and-zero a = omega (arith, bit_and-le a 0)
