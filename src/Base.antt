-- ===== src/Base.antt =====
-- Base.h: hashing, alignment and powers of two. A `size_t` or `u64` is a number below 2 ^ 64; the
-- operations that can leave the range keep their wrap-around.
pub mod Align
pub mod Power
mod Tests
use Prim.Native.Nat.{bit_and, bit_xor}
use scal_base.Prelude.{
  Run, ok, fault, ℕ, zero, suc, ◌+◌, ◌-◌, ◌*◌, ◌/◌, ◌%◌, ◌^◌, Bool, false, true, ◌&&◌, List, [],
  ◌∷◌, ltb, leb, ◌==◌, if◌then◌else◌,
}
use scal_base.Prelude.Words.{u64}

abbrev pub offset_basis : ℕ
offset_basis = 0xcbf29ce484222325

abbrev pub prime : ℕ
prime = 0x100000001b3

fnv_loop : ℕ → List ℕ → ℕ
fnv_loop val [] = val
fnv_loop val (byte ∷ bytes) = fnv_loop (u64 (bit_xor val byte * prime)) bytes

-- `FNVHash64` over the bytes behind `data`.
unfoldable pub fnv_hash64 : List ℕ → ℕ
unfolding fnv_loop
fnv_hash64 bytes = fnv_loop offset_basis bytes

-- The loop of `FNVHash64_CStr`. A `char` is signed, so a byte from 128 on is extended by ones; text without
-- an end is read past its end.
fnv_cstr_loop : ℕ → List ℕ → Run ℕ
fnv_cstr_loop val [] = fault
fnv_cstr_loop val (c ∷ rest) =
    let wide = if ltb c 128 then c else 2 ^ 64 - 256 + c in
    let hash = fnv_cstr_loop (u64 (bit_xor val wide * prime)) rest in
    if c == 0 then ok val else hash

unfoldable pub fnv_hash64_cstr : List ℕ → Run ℕ
unfolding fnv_cstr_loop
fnv_hash64_cstr name = fnv_cstr_loop offset_basis name

-- `FastModulo`. Its callers pass a capacity above 0, so `capacity - 1` does not wrap.
unfoldable pub fast_modulo : ℕ → ℕ → ℕ
fast_modulo value capacity = bit_and value (capacity - 1)

-- The loop `while (num >>= 1) power <<= 1` on words below `modulus`, with fuel; as many rounds as
-- `num` has bits are enough.
unfoldable pub shift_loop : ℕ → ℕ → ℕ → ℕ → ℕ
shift_loop modulus zero num power = power
shift_loop modulus (suc fuel) num power =
    let rest = shift_loop modulus fuel (num / 2) (power * 2 % modulus) in
    if num / 2 == 0 then power else rest

unfoldable pub align_pow_two : ℕ → ℕ
align_pow_two num = if num == 0 then 0 else shift_loop (2 ^ 64) 64 num 1

unfoldable pub align_pow_two_ceil : ℕ → ℕ
align_pow_two_ceil x = if leb x 1 then 1 else shift_loop (2 ^ 64) 64 (x - 1) 2

unfoldable pub align_pow_two_ceil32 : ℕ → ℕ
align_pow_two_ceil32 x = if leb x 1 then 1 else shift_loop (2 ^ 32) 32 (x - 1) 2

unfoldable pub is_power_of2 : ℕ → Bool
is_power_of2 num = ltb 0 num && bit_and num (num - 1) == 0

-- `~x` of a `size_t`.
abbrev pub complement64 : ℕ → ℕ
complement64 x = 2 ^ 64 - 1 - x

unfoldable pub align_size_truncate : ℕ → ℕ → ℕ
align_size_truncate size alignment = bit_and size (complement64 (u64 (alignment + (2 ^ 64 - 1))))

unfoldable pub align_size : ℕ → ℕ → ℕ
align_size size alignment =
    let mask = u64 (alignment + (2 ^ 64 - 1)) in bit_and (u64 (size + mask)) (complement64 mask)
