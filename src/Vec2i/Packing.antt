-- ===== src/Vec2i/Packing.antt =====
-- The round trip of the packing, and what breaks it.
use Prim.Native.Nat.{bit_or, max}
use native.Mathlib.Nat.{
  pow-suc, pow-succ', one-le-pow, div-div-eq-div-mul, div-add-mod', mod-lt, mod-eq_of_lt, mul_assoc,
  mul_comm, mul-add-mod_self_left,
}
use native.Mathlib.Decide.{dec_lt}
use scal_base.Prelude.{
  ℕ, zero, suc, ◌+◌, ◌-◌, ◌*◌, ◌/◌, ◌%◌, ◌^◌, ◌<◌, ◌≡◌, refl, ap, sym, ◌∙◌, arith, true, false, ltb,
  if◌then◌else◌,
}
use scal_base.Prelude.Words.{u32, u64}
use scal_base.Prelude.Digits.{bit_or_step}
use scal_base.Vec2i.{Vec2i, sign_extend, pack_int64, unpack_int64}

zero_or : (k : ℕ) (y : ℕ) → y < 2 ^ k → bit_or 0 y ≡ y
zero_or zero y small = let none : y ≡ 0 = omega (arith, small) in rw none refl
zero_or (suc k) y small =
    omega (arith, bit_or_step 0 y, zero_or k (y / 2) (omega (arith, pow-suc 2 k, small)))

or_zero : (k : ℕ) (a : ℕ) → a < 2 ^ k → bit_or a 0 ≡ a
or_zero zero a small = let none : a ≡ 0 = omega (arith, small) in rw none refl
or_zero (suc k) a small =
    omega (arith, bit_or_step a 0, or_zero k (a / 2) (omega (arith, pow-suc 2 k, small)))

-- A word within the `k` low bits, all of which are set in the other.
or_full : (k a : ℕ) → a < 2 ^ k → bit_or a (2 ^ k - 1) ≡ 2 ^ k - 1
or_full zero a small = let none : a ≡ 0 = omega (arith, small) in rw none refl
or_full (suc k) a small =
    let half : (2 ^ suc k - 1) / 2 ≡ 2 ^ k - 1 =
      omega (arith, pow-suc 2 k, one-le-pow k 2 (omega arith)) in
    let odd : (2 ^ suc k - 1) % 2 ≡ 1 = omega (arith, pow-suc 2 k, one-le-pow k 2 (omega arith)) in
    let step = bit_or_step a (2 ^ suc k - 1) in
    let rest = or_full k (a / 2) (omega (arith, pow-suc 2 k, small)) in
    rw (half, odd, rest) at step ∙ omega (arith, pow-suc 2 k, one-le-pow k 2 (omega arith))

-- The low `suc k` bits, as the lowest one and the others.
low_bits : (k n : ℕ) → n % 2 ^ suc k ≡ n / 2 % 2 ^ k * 2 + n % 2
low_bits k n =
    let M = 2 ^ k in
    let q = n / 2 / M in
    let parts = div-add-mod' (n / 2) M in
    let rem = mod-lt (n / 2) {m = M} (one-le-pow k 2 (omega arith)) in
    let split : n ≡ 2 * M * q + (n / 2 % M * 2 + n % 2) =
      omega (arith, parts, mul_assoc 2 M q, mul_comm M q) in
    ap (λ (t : ℕ). n % t) (pow-succ' 2 k)
    ∙ ap (λ (t : ℕ). t % (2 * M)) split
    ∙ mul-add-mod_self_left (2 * M) q (n / 2 % M * 2 + n % 2)
    ∙ mod-eq_of_lt (omega (arith, rem))

-- The halves of the result are those of the operands.
or_halves :
    (k a b : ℕ)
    → (bit_or a b / 2 ^ k ≡ bit_or (a / 2 ^ k) (b / 2 ^ k))
      × (bit_or a b % 2 ^ k ≡ bit_or (a % 2 ^ k) (b % 2 ^ k))
or_halves zero a b =
    let one : (n : ℕ) → n / 1 ≡ n = λ n. omega arith in
    let none : (n : ℕ) → n % 1 ≡ 0 = λ n. omega arith in
    (one (bit_or a b) ∙ rw (one a, one b) refl, none (bit_or a b) ∙ rw (none a, none b) refl)
or_halves (suc k) a b =
    let (high, low) = or_halves k (a / 2) (b / 2) in
    let step = bit_or_step a b in
    let bound : max (a % 2) (b % 2) < 2 = omega arith in
    let half : bit_or a b / 2 ≡ bit_or (a / 2) (b / 2) = omega (arith, step, bound) in
    let parity : bit_or a b % 2 ≡ max (a % 2) (b % 2) = omega (arith, step, bound) in
    let shift : (n : ℕ) → n / 2 ^ suc k ≡ n / 2 / 2 ^ k =
      λ n. ap (λ (t : ℕ). n / t) (pow-succ' 2 k) ∙ sym (div-div-eq-div-mul n 2 (2 ^ k)) in
    let a' = a % 2 ^ suc k in
    let b' = b % 2 ^ suc k in
    let half_a : a' / 2 ≡ a / 2 % 2 ^ k = omega (arith, low_bits k a) in
    let half_b : b' / 2 ≡ b / 2 % 2 ^ k = omega (arith, low_bits k b) in
    let odd_a : a' % 2 ≡ a % 2 = omega (arith, low_bits k a) in
    let odd_b : b' % 2 ≡ b % 2 = omega (arith, low_bits k b) in
    (
      rw (shift (bit_or a b), shift a, shift b, half) high,
      low_bits k (bit_or a b)
          ∙ rw (half, parity, low) (sym (rw (half_a, half_b, odd_a, odd_b) at (bit_or_step a' b'))),
    )

high_half : (x : ℕ) → x < 2 ^ 32 → u64 (sign_extend x * 2 ^ 32) ≡ x * 2 ^ 32
unfolding sign_extend
high_half x small = elim (dec_lt x (2 ^ 31)) [
  | yes positive ↦ let test : ltb x (2 ^ 31) ≡ true = ground arith in rw test (omega arith)
  | no negative ↦
      let test : ltb x (2 ^ 31) ≡ false = ground arith in rw test (omega (arith, negative))
]

-- The halves of a packed vector, by the high half of the extended `y`.
unpacked :
    (v : Vec2i) (high x : ℕ)
    → v.x < 2 ^ 32
    → v.y < 2 ^ 32
    → sign_extend v.y ≡ high * 2 ^ 32 + v.y
    → bit_or v.x high ≡ x
    → x < 2 ^ 32
    → unpack_int64 (pack_int64 v) ≡ record { x = x; y = v.y }
unfolding unpack_int64 pack_int64
unpacked v high x small small' extended joins word =
    let (upper, lower) = or_halves 32 (v.x * 2 ^ 32) (high * 2 ^ 32 + v.y) in
    let a : v.x * 2 ^ 32 / 2 ^ 32 ≡ v.x = omega arith in
    let b : (high * 2 ^ 32 + v.y) / 2 ^ 32 ≡ high = omega arith in
    let c : v.x * 2 ^ 32 % 2 ^ 32 ≡ 0 = omega arith in
    let d : (high * 2 ^ 32 + v.y) % 2 ^ 32 ≡ v.y = omega arith in
    let top = rw (a, b) at upper ∙ joins in
    let bottom = rw (c, d) at lower ∙ zero_or 32 v.y small' in
    let cut : u32 x ≡ x = omega arith in rw (high_half v.x small, extended, top, bottom, cut) refl

-- For the words of two `int`, `Vec2iUnpackInt64` of `Vec2iPackInt64` gives a vector back whose `y`
-- is not negative; for a negative `y` it gives -1 for `x`, whatever `x` was.
pub unpack_int64-pack_int64 :
    (v : Vec2i)
    → v.x < 2 ^ 32
    → v.y < 2 ^ 32
    → unpack_int64 (pack_int64 v)
      ≡ record { x = if ltb v.y (2 ^ 31) then v.x else 2 ^ 32 - 1; y = v.y }
unfolding sign_extend
unpack_int64-pack_int64 v word small = elim (dec_lt v.y (2 ^ 31)) [
  | yes positive ↦
      let test : ltb v.y (2 ^ 31) ≡ true = ground arith in
      rw test (unpacked v 0 v.x word small (rw test (omega arith)) (or_zero 32 v.x word) word)
  | no negative ↦
      let test : ltb v.y (2 ^ 31) ≡ false = ground arith in
      rw test (
        unpacked v (2 ^ 32 - 1) (2 ^ 32 - 1) word small (rw test (omega arith))
          (or_full 32 v.x word) (omega arith))
]
