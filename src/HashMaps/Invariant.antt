-- ===== src/HashMaps/Invariant.antt =====
-- The Robin Hood invariant of the buckets, and what it says of a probe.
use scal_base.Prelude.{
  ℕ, zero, suc, ◌+◌, ◌-◌, ◌≤◌, ◌<◌, ◌≡◌, ◌≢◌, ap, arith, true, false, ◌^◌, if◌then◌else◌,
}
use native.Mathlib.Nat.{add-zero}
use native.Mathlib.Decide.{dec_lt}
use scal_base.HashMaps.{Bucket, next}
use scal_base.HashMaps.Walk.{walk, walk-lt, walk-reaches}

module _ {ℓ} {K V : Type ℓ} where
  -- The cell holds an entry.
  abbrev pub Used : (ℕ → Bucket K V) → ℕ → Type 0
  Used t i = (t i).is_used ≡ true

  -- `k` is stored with the value `v` in one of the `n` buckets.
  abbrev pub Holds : ℕ → (ℕ → Bucket K V) → K → V → Type ℓ
  Holds n t k v = (i : ℕ) × (i < n) × Used t i × ((t i).key ≡ k) × ((t i).value ≡ v)

  abbrev pub Absent : ℕ → (ℕ → Bucket K V) → K → Type ℓ
  Absent n t k = (i : ℕ) → i < n → Used t i → (t i).key ≢ k

  unfoldable pub used_count : (ℕ → Bucket K V) → ℕ → ℕ
  used_count t zero = 0
  used_count t (suc n) = (if (t n).is_used then 1 else 0) + used_count t n

module _ {ℓ} {K V : Type ℓ} (h : K → ℕ) (n : ℕ) where
  -- Each entry lies `probe_length` steps past its home; the probe lengths grow by one at most from a
  -- bucket to the next, and start at an entry's home; no key is stored twice.
  pub record RobinHood (t : ℕ → Bucket K V) : Type ℓ where
    pub placed : (i : ℕ) → i < n → Used t i → walk n (h (t i).key) (t i).probe_length ≡ i
    pub bounded : (i : ℕ) → i < n → Used t i → (t i).probe_length < n
    pub graded :
        (i : ℕ)
        → i < n
        → Used t (next n i)
        → 0 < (t (next n i)).probe_length
        → Used t i × ((t (next n i)).probe_length ≤ (t i).probe_length + 1)
    pub distinct : (i j : ℕ) → i < n → j < n → Used t i → Used t j → (t i).key ≡ (t j).key → i ≡ j

  -- A probe of length `p` from home `a` has come past entries that are as far from their homes.
  abbrev pub Led : (ℕ → Bucket K V) → ℕ → ℕ → Type 0
  Led t a zero = Unit
  Led t a (suc q) = Used t (walk n a q) × (q ≤ (t (walk n a q)).probe_length)

  module _ (small : n ≤ 2 ^ 16) {t : ℕ → Bucket K V} (rh : RobinHood t) (a : ℕ) (ha : a < n) where
    pub chain : (d j : ℕ) → Led t a (suc (j + d)) → Led t a (suc j)
    unfolding walk
    chain zero j led = rw (add-zero j) at led
    chain (suc d) j led =
        let (u, le) = chain d (suc j) (rw (← shift) led) in
        let (v, le') = rh.graded (walk n a j) (walk-lt small a j ha) u (omega arith) in
        (v, omega arith)
      where
        shift : j + suc d ≡ suc j + d
        shift = omega arith

    -- With a free bucket a probe stays shorter than the table.
    pub probe_bound : (f p : ℕ) → f < n → (t f).is_used ≡ false → Led t a p → p < n
    probe_bound f zero hf free led = omega arith
    probe_bound f (suc q) hf free led =
        let (j, hj, e) = walk-reaches small a f ha hf in
        elim (dec_lt q j) [
          | yes lt ↦ omega arith
          | no ge ↦
              let d : q ≡ j + (q - j) = omega arith in
              let (u, le) = chain (q - j) j (rw (← d) led) in cc (ap (λ i. (t i).is_used) e)
        ]
