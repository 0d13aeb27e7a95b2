-- ===== src/Base/Tests.antt =====
-- Runs of the functions of Base.h at small inputs.
use scal_base.Prelude.{ok, ◌≡◌, refl, true, false, [], ◌∷◌}
use Prim.Native.Nat.{ℕ, ◌^◌, ◌≤◌}
use native.Mathlib.Omega.{arith}
use scal_base.Base.Power.{align_pow_two_ceil32_lem}
use scal_base.Base.{
  shift_loop, fnv_hash64, fnv_hash64_cstr, align_pow_two, align_pow_two_ceil, align_pow_two_ceil32,
  is_power_of2, align_size, align_size_truncate,
}

powers : (align_pow_two 100 ≡ 64) × (align_pow_two_ceil 100 ≡ 128) × (align_pow_two_ceil32 48 ≡ 64)
unfolding align_pow_two align_pow_two_ceil align_pow_two_ceil32 shift_loop
powers = (refl, refl, refl)

aligned : (align_size 100 64 ≡ 128) × (align_size 128 64 ≡ 128) × (align_size_truncate 100 64 ≡ 64)
unfolding align_size align_size_truncate
aligned = (refl, refl, refl)

tests_of_power : (is_power_of2 64 ≡ true) × (is_power_of2 48 ≡ false) × (is_power_of2 0 ≡ false)
unfolding is_power_of2
tests_of_power = (refl, refl, refl)

-- The published FNV-1a value of the text "a".
hash_of_a : fnv_hash64 (0x61 ∷ []) ≡ 0xaf63dc4c8601ec8c
unfolding fnv_hash64
hash_of_a = refl

align_pow_two_ceil32_lem_example :
    (k : ℕ) × (align_pow_two_ceil32 100 ≡ 2 ^ k)
    × (100 ≤ 2 ^ k)
    × ((j : ℕ) → 100 ≤ 2 ^ j → 2 ^ k ≤ 2 ^ j)
align_pow_two_ceil32_lem_example = align_pow_two_ceil32_lem 100 (omega arith)

-- The same text with its terminator.
hash_of_text_a : fnv_hash64_cstr (0x61 ∷ 0 ∷ []) ≡ ok 0xaf63dc4c8601ec8c
unfolding fnv_hash64_cstr
hash_of_text_a = refl
