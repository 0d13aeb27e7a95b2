-- ===== src/BitMap.antt =====
-- Lib/BitMap.h, in a build without asserts: sets of bits in one word and in an array of words. A shift
-- by an index that is no less than the width of a `u64` is undefined in the source, and a fault here.
pub mod Members
mod Tests
use Prim.Native.Nat.{bit_and, bit_or, bit_xor}
use scal_base.Prelude.{
  ℕ, zero, suc, ◌+◌, ◌-◌, ◌*◌, ◌/◌, ◌%◌, ◌^◌, Bool, true, false, not, ltb, ◌==◌, if◌then◌else◌, Run,
  ok, fault, ◌>>=◌, load, update,
}

-- `1ULL << bit`
unfoldable pub bit_at : ℕ → Run ℕ
bit_at bit = if ltb bit 64 then ok (2 ^ bit) else fault

-- `BitGet`, as a truth value.
unfoldable pub bit_get : ℕ → ℕ → Run Bool
bit_get state bit = if ltb bit 64 then ok (bit_and (state / 2 ^ bit) 1 == 1) else fault

unfoldable pub bit_set : ℕ → ℕ → Run ℕ
unfolding bit_at
bit_set state bit = bit_at bit >>= λ one. ok (bit_or state one)

unfoldable pub bit_clear : ℕ → ℕ → Run ℕ
unfolding bit_at
bit_clear state bit = bit_at bit >>= λ one. ok (bit_and state (2 ^ 64 - 1 - one))

unfoldable pub bit_toggle : ℕ → ℕ → Run ℕ
unfolding bit_at
bit_toggle state bit = bit_at bit >>= λ one. ok (bit_xor state one)

-- `Flag8`, `Flag32` and `Flag64`: `width` bits, to which an assignment truncates.
pub record Flag : Type 0 where
  pub width : ℕ
  pub flags : ℕ

unfoldable pub assign : Flag → Run ℕ → Run Flag
assign f value = value >>= λ v. ok (record f { flags = v % 2 ^ f.width })

unfoldable pub flag_get : Flag → ℕ → Run Bool
unfolding bit_get
flag_get f index = bit_get f.flags index

-- `FlagTrue`
unfoldable pub flag_mask : Flag → ℕ → Bool
flag_mask f mask = bit_and f.flags mask == mask

unfoldable pub flag_toggle : Flag → ℕ → Run Flag
unfolding assign bit_toggle
flag_toggle f index = assign f (bit_toggle f.flags index)

unfoldable pub flag_true : Flag → ℕ → Run Flag
unfolding assign bit_set
flag_true f index = assign f (bit_set f.flags index)

unfoldable pub flag_false : Flag → ℕ → Run Flag
unfolding assign bit_clear
flag_false f index = assign f (bit_clear f.flags index)

unfoldable pub flag_set : Flag → ℕ → Bool → Run Flag
unfolding assign bit_set bit_clear
flag_set f index value = assign f (if value then bit_set f.flags index else bit_clear f.flags index)

-- `ElementCount`, which the source computes in float, is a field.
pub record BitArray : Type 0 where
  pub memory : ℕ → ℕ
  pub element_count : ℕ

unfoldable pub clear_words : ℕ → (ℕ → ℕ) → ℕ → ℕ
clear_words zero memory = memory
clear_words (suc n) memory = update (clear_words n memory) n 0

unfoldable pub bits_reset : BitArray → BitArray
unfolding clear_words
bits_reset b = record b { memory = clear_words b.element_count b.memory }

unfoldable pub bits_get : BitArray → ℕ → Run Bool
unfolding bit_get
bits_get b bit = load b.memory b.element_count (bit / 64) >>= λ word. bit_get word (bit % 64)

-- The common text of `Set`, `Clear` and `Toggle`.
unfoldable pub change_word : (ℕ → ℕ → Run ℕ) → BitArray → ℕ → Run BitArray
change_word change b bit = load b.memory b.element_count (bit / 64) >>= λ word.
    change word (bit % 64) >>= λ new_word.
    ok (record b { memory = update b.memory (bit / 64) new_word })

unfoldable pub bits_set : BitArray → ℕ → Run BitArray
unfolding change_word bit_set
bits_set = change_word bit_set

unfoldable pub bits_clear : BitArray → ℕ → Run BitArray
unfolding change_word bit_clear
bits_clear = change_word bit_clear

unfoldable pub bits_toggle : BitArray → ℕ → Run BitArray
unfolding change_word bit_toggle
bits_toggle = change_word bit_toggle
