-- ===== src/BitMap/Tests.antt =====
-- Runs of the bit sets.
use scal_base.Prelude.{arith, not, Returns, ◌≡◌, refl, true, false, ok, ◌>>=◌}
use scal_base.BitMap.Members.{after, bits_get_changed}
use scal_base.BitMap.{
  Flag, BitArray, bit_at, bit_get, bit_set, bit_clear, bit_toggle, assign, flag_get, flag_mask,
  flag_true, flag_false, flag_toggle, flag_set, change_word, clear_words, bits_get, bits_set,
  bits_clear, bits_toggle, bits_reset,
}

abbrev flag8 : Flag
flag8 = record { width = 8; flags = 0x14 }

flag_runs :
    (flag_get flag8 4 ≡ ok true)
    × (flag_mask flag8 0x14 ≡ true)
    × (flag_true flag8 0 ≡ ok (record { width = 8; flags = 0x15 }))
    × (flag_false flag8 4 ≡ ok (record { width = 8; flags = 0x04 }))
    × (flag_toggle flag8 2 ≡ ok (record { width = 8; flags = 0x10 }))
    × (flag_set flag8 9 true ≡ ok flag8)
unfolding flag_get flag_mask flag_true flag_false flag_toggle flag_set assign bit_get bit_set
    bit_clear bit_toggle bit_at
flag_runs = (refl, refl, refl, refl, refl, refl)

abbrev bits : BitArray
bits = record { memory = λ i. 0; element_count = 2 }

array_run :
    (bits_set bits 70 >>= λ b. bits_toggle b 3 >>= λ c. bits_clear c 3 >>= λ d. bits_get d 70)
    ≡ ok true
unfolding bits_set bits_toggle bits_clear bits_get change_word bit_get bit_set bit_clear bit_toggle
    bit_at
array_run = refl

reset_run : (bits_set bits 70 >>= λ b. bits_get (bits_reset b) 70) ≡ ok false
unfolding bits_set bits_reset bits_get change_word clear_words bit_get bit_set bit_at
reset_run = refl

bits_get_changed_example :
    Returns
      (λ r. bits_get r 70 ≡ (bits_get bits 70 >>= λ old. ok (after (λ v. true) 70 70 old)))
      (bits_set bits 70)
    × Returns
        (λ r. bits_get r 70 ≡ (bits_get bits 70 >>= λ old. ok (after (λ v. false) 70 70 old)))
        (bits_clear bits 70)
    × Returns
        (λ r. bits_get r 70 ≡ (bits_get bits 70 >>= λ old. ok (after not 70 70 old)))
        (bits_toggle bits 70)
bits_get_changed_example = bits_get_changed bits 70 70 (omega arith) (omega arith)
