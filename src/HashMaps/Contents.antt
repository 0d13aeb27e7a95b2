-- ===== src/HashMaps/Contents.antt =====
-- What one write does to the number of used buckets and to the stored entries.
use native.Mathlib.Decide.{ℕ_discrete}
use scal_base.Prelude.{
  ℕ, zero, suc, ◌+◌, ◌≤◌, ◌<◌, ◌≡◌, refl, ap, ◌⊎◌, inl, inr, arith, Bool, true, false, update,
  Bool-cases,
}
use scal_base.HashMaps.{Bucket}
use scal_base.HashMaps.Invariant.{Used, Holds, used_count}

abbrev pub flag : Bool → ℕ
flag true = 1
flag false = 0

module _ {ℓ} {K V : Type ℓ} (t : ℕ → Bucket K V) where
  used_count-update_ge :
      (n i : ℕ) (x : Bucket K V) → n ≤ i → used_count (update t i x) n ≡ used_count t n
  unfolding used_count
  used_count-update_ge zero i x h = refl
  used_count-update_ge (suc n) i x h = ground (arith, used_count-update_ge n i x)

  -- A write trades the old bucket's flag for the new one's.
  pub used_count-update :
      (n i : ℕ) (x : Bucket K V)
      → i < n
      → used_count (update t i x) n + flag (t i).is_used ≡ used_count t n + flag x.is_used
  unfolding used_count
  used_count-update zero i x h = absurd (omega arith)
  used_count-update (suc n) i x h = elim (ℕ_discrete i n) [
    | yes e ↦ ground (arith, e, used_count-update_ge n i x, ap (λ k. (t k).is_used) e)
    | no ne ↦ ground (arith, ne, used_count-update n i x)
  ]

  -- Fewer entries than buckets leave a free bucket.
  pub free_bucket : (n : ℕ) → used_count t n < n → (f : ℕ) × (f < n) × ((t f).is_used ≡ false)
  unfolding used_count
  free_bucket zero h = absurd (omega arith)
  free_bucket (suc n) h = elim (Bool-cases (t n).is_used) [
    | inl u ↦ let (f, hf, e) = free_bucket n (ground (arith, u)) in (f, omega arith, e)
    | inr e ↦ (n, omega arith, e)
  ]

  pub used_count_le : (n : ℕ) → used_count t n ≤ n
  unfolding used_count
  used_count_le zero = omega arith
  used_count_le (suc n) = ground (arith, used_count_le n)

  module _ (n idx : ℕ) (inside : idx < n) (x : Bucket K V) (k : K) (v : V) where
    -- The written entry is stored.
    pub Holds-here : x.is_used ≡ true → x.key ≡ k → x.value ≡ v → Holds n (update t idx x) k v
    Holds-here u e e' = (idx, inside, ground (arith, u), ground (arith, e), ground (arith, e'))

    -- A stored entry is the written one or an old one.
    pub Holds-before : Holds n (update t idx x) k v → ((x.key ≡ k) × (x.value ≡ v)) ⊎ Holds n t k v
    Holds-before (i, hi, u, e, e') = elim (ℕ_discrete idx i) [
      | yes same ↦ inl (ground (arith, same, e), ground (arith, same, e'))
      | no ne ↦ inr (i, hi, ground (arith, ne, u), ground (arith, ne, e), ground (arith, ne, e'))
    ]

    -- An old entry stays, or it was the one that is written over.
    pub Holds-after :
        Holds n t k v
        → (Used t idx × ((t idx).key ≡ k) × ((t idx).value ≡ v)) ⊎ Holds n (update t idx x) k v
    Holds-after (i, hi, u, e, e') = elim (ℕ_discrete idx i) [
      | yes same ↦ inl (rw same (u, e, e'))
      | no ne ↦ inr (i, hi, ground (arith, ne, u), ground (arith, ne, e), ground (arith, ne, e'))
    ]
