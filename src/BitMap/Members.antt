-- ===== src/BitMap/Members.antt =====
-- `BitArray` as a set of indices.
use Prim.Native.Nat.{bit_and, bit_or, bit_xor, differ}
use native.Mathlib.Decide.{ℕ_discrete}
use native.Mathlib.Nat.{pow-le-pow_right}
use scal_base.Prelude.{
  ℕ, zero, suc, ◌-◌, ◌*◌, ◌/◌, ◌%◌, ◌^◌, ◌≤◌, ◌<◌, ◌≡◌, refl, ap, ◌∙◌, arith, Bool, true, false,
  not, ltb, ◌==◌, if◌then◌else◌, Run, ok, ◌>>=◌, load-ok, update, update_self, update_ne, Returns,
  returns, Bool-cases, inl, inr,
}
use scal_base.Prelude.Digits.{
  digit, digit-shift, digit-lt, digit-bit_or, digit-bit_and, digit-bit_xor, digit-zero, digit-power,
  digit-complement, bit_and-one,
}
use scal_base.BitMap.{
  BitArray, clear_words, bits_reset, bit_at, bit_get, bit_set, bit_clear, bit_toggle, bits_get,
  change_word, bits_set, bits_clear, bits_toggle,
}

bit_get-digit : (x j : ℕ) → j < 64 → bit_get x j ≡ ok (digit j x == 1)
unfolding bit_get
bit_get-digit x j lt =
    let inside : ltb j 64 ≡ true = ground arith in
    rw (inside, bit_and-one (x / 2 ^ j), digit-shift j x) refl

-- What a change of one word, which makes `g b` of the bit `b` at `i`, leaves of the bit at `j`.
abbrev pub after : (Bool → Bool) → ℕ → ℕ → Bool → Bool
after g i j b = if i == j then g b else b

-- The change makes `g b` of the bit `b`, and keeps the others.
record Changes (change : ℕ → ℕ → Run ℕ) (g : Bool → Bool) : Type 0 where
  new : ℕ → ℕ → ℕ
  run : (x i : ℕ) → i < 64 → change x i ≡ ok (new x i)
  bit : (x i j : ℕ) → i < 64 → j < 64 → (digit j (new x i) == 1) ≡ after g i j (digit j x == 1)

bit_set-Changes : Changes bit_set (λ b. true)
unfolding bit_set bit_at
bit_set-Changes = record {
  new = λ x i. bit_or x (2 ^ i);
  run = λ x i lt. let inside : ltb i 64 ≡ true = ground arith in rw inside refl;
  bit =
      λ x i j lt lt'. rw (digit-bit_or j x (2 ^ i), digit-power i j) (ground (arith, digit-lt j x));
}

bit_clear-Changes : Changes bit_clear (λ b. false)
unfolding bit_clear bit_at
bit_clear-Changes = record {
  new = λ x i. bit_and x (2 ^ 64 - 1 - 2 ^ i);
  run = λ x i lt. let inside : ltb i 64 ≡ true = ground arith in rw inside refl;
  bit = λ x i j lt lt'.
      let most : 2 ^ i ≤ 2 ^ 63 = pow-le-pow_right {n = 2} (omega arith) {j = 63} (omega arith) in
      let below : 2 ^ i < 2 ^ 64 = omega (arith, most) in
      rw
        (
          digit-bit_and j x (2 ^ 64 - 1 - 2 ^ i),
          digit-complement 64 j (2 ^ i) below lt',
          digit-power i j,
        )
        (ground (arith, digit-lt j x));
}

differ-one :
    (d b : ℕ) → d < 2 → b < 2 → (differ d b == 1) ≡ (if b == 1 then not (d == 1) else d == 1)
differ-one zero zero hd hb = refl
differ-one zero (suc zero) hd hb = refl
differ-one (suc zero) zero hd hb = refl
differ-one (suc zero) (suc zero) hd hb = refl
differ-one (suc (suc d)) b hd hb = absurd (omega arith)
differ-one d (suc (suc b)) hd hb = absurd (omega arith)

bit_toggle-Changes : Changes bit_toggle not
unfolding bit_toggle bit_at
bit_toggle-Changes = record {
  new = λ x i. bit_xor x (2 ^ i);
  run = λ x i lt. let inside : ltb i 64 ≡ true = ground arith in rw inside refl;
  bit = λ x i j lt lt'.
      digit_xor x i j
      ∙ differ-one (digit j x) (if i == j then 1 else 0) (digit-lt j x) (ground arith)
      ∙ elim (Bool-cases (i == j)) [ inl same ↦ rw same refl | inr other ↦ rw other refl ];
}
  where
    digit_xor :
        (x i j : ℕ)
        → (digit j (bit_xor x (2 ^ i)) == 1) ≡ (differ (digit j x) (if i == j then 1 else 0) == 1)
    digit_xor x i j = rw (digit-bit_xor j x (2 ^ i), digit-power i j) refl

bits_get-digit :
    (b : BitArray) (bit : ℕ)
    → bit < 64 * b.element_count
    → bits_get b bit ≡ ok (digit (bit % 64) (b.memory (bit / 64)) == 1)
unfolding bits_get
bits_get-digit b bit inside =
    rw (load-ok b.memory b.element_count (bit / 64) (omega (arith, inside)))
      (bit_get-digit (b.memory (bit / 64)) (bit % 64) (omega arith))

module _ {change : ℕ → ℕ → Run ℕ} {g : Bool → Bool} (c : Changes change g) where
  changed_digit :
      (memory : ℕ → ℕ) (bit other : ℕ)
      → (digit
            (other % 64)
            (update memory (bit / 64) (c.new (memory (bit / 64)) (bit % 64)) (other / 64))
          == 1)
        ≡ after g bit other (digit (other % 64) (memory (other / 64)) == 1)
  changed_digit memory bit other = elim (ℕ_discrete (bit / 64) (other / 64)) [
    | yes same ↦
        let test : (bit % 64 == other % 64) ≡ (bit == other) = ground (arith, same) in
        rw (same, update_self memory (other / 64) (c.new (memory (other / 64)) (bit % 64)))
          (c.bit (memory (other / 64)) (bit % 64) (other % 64) (omega arith) (omega arith)
            ∙ ap
                (λ t.
                  if t
                  then g (digit (other % 64) (memory (other / 64)) == 1)
                  else digit (other % 64) (memory (other / 64)) == 1)
                test)
    | no differ_words ↦
        let test : (bit == other) ≡ false = ground (arith, differ_words) in
        rw
          (
            update_ne memory (bit / 64) (c.new (memory (bit / 64)) (bit % 64)) (other / 64)
                differ_words,
            test,
          )
          refl
  ]

  bits_get-change_word :
      (b : BitArray) (bit other : ℕ)
      → bit < 64 * b.element_count
      → other < 64 * b.element_count
      → Returns
          (λ r. bits_get r other ≡ (bits_get b other >>= λ old. ok (after g bit other old)))
          (change_word change b bit)
  unfolding change_word
  bits_get-change_word b bit other inside within =
      let new = c.new (b.memory (bit / 64)) (bit % 64) in
      let r : BitArray = record b { memory = update b.memory (bit / 64) new } in
      rw
        (
          load-ok b.memory b.element_count (bit / 64) (omega (arith, inside)),
          c.run (b.memory (bit / 64)) (bit % 64) (omega arith),
        )
        (returns (
          bits_get-digit r other within
          ∙ rw (bits_get-digit b other within) (ap (λ v. ok v) (changed_digit b.memory bit other))))

-- `Set`, `Clear` and `Toggle` of a bit of a `BitArray`, for indices within its words: `Get` of
-- that bit then gives true, false and the opposite of what it gave, and `Get` of any other bit
-- what it gave before.
pub bits_get_changed :
    (b : BitArray) (bit other : ℕ)
    → bit < 64 * b.element_count
    → other < 64 * b.element_count
    → Returns
        (λ r. bits_get r other ≡ (bits_get b other >>= λ old. ok (after (λ v. true) bit other old)))
        (bits_set b bit)
      × Returns
          (λ r.
            bits_get r other ≡ (bits_get b other >>= λ old. ok (after (λ v. false) bit other old)))
          (bits_clear b bit)
      × Returns
          (λ r. bits_get r other ≡ (bits_get b other >>= λ old. ok (after not bit other old)))
          (bits_toggle b bit)
unfolding bits_set bits_clear bits_toggle
bits_get_changed b bit other inside within = (
  bits_get-change_word bit_set-Changes b bit other inside within,
  bits_get-change_word bit_clear-Changes b bit other inside within,
  bits_get-change_word bit_toggle-Changes b bit other inside within,
)

cleared_words : (n : ℕ) (memory : ℕ → ℕ) (i : ℕ) → i < n → clear_words n memory i ≡ 0
unfolding clear_words
cleared_words zero memory i h = absurd (omega arith)
cleared_words (suc n) memory i h = elim (ℕ_discrete n i) [
  | yes last ↦ rw (last, update_self (clear_words i memory) i 0) refl
  | no before ↦
      update_ne (clear_words n memory) n 0 i before
      ∙ cleared_words n memory i (omega (arith, before))
]

-- After `Reset`, `Get` of every bit gives false.
pub bits_get-bits_reset :
    (b : BitArray) (bit : ℕ) → bit < 64 * b.element_count → bits_get (bits_reset b) bit ≡ ok false
unfolding bits_reset
bits_get-bits_reset b bit inside =
    bits_get-digit (record b { memory = clear_words b.element_count b.memory }) bit inside
    ∙ rw
        (
          cleared_words b.element_count b.memory (bit / 64) (omega (arith, inside)),
          digit-zero (bit % 64),
        )
        refl
