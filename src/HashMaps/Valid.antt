-- ===== src/HashMaps/Valid.antt =====
-- The state of a StaticHashMap between calls, and the search that its specification rests on.
use native.Mathlib.Decide.{ℕ_discrete}
use scal_base.Prelude.{
  ℕ, zero, suc, ◌-◌, ◌≤◌, ◌<◌, ◌≡◌, ◌⊎◌, inl, inr, arith, ◌^◌, Bool-cases, ◌&&◌, Eq, List,
}
use scal_base.Prelude.Words.{bit_and-le}
use scal_base.Base.{fnv_hash64, fast_modulo}
use scal_base.HashMaps.{Bucket, StaticHashMap, home}
use scal_base.HashMaps.Invariant.{Used, Absent, RobinHood, used_count}

-- The home of a key is a bucket of the table.
pub home-lt {ℓ} : {K : Type ℓ} (bytes : K → List ℕ) (n : ℕ) (k : K) → 0 < n → home bytes n k < n
unfolding home fast_modulo
home-lt bytes n k h = omega (arith, bit_and-le (fnv_hash64 (bytes k)) (n - 1))

module _ {ℓ} {K V : Type ℓ} (bytes : K → List ℕ) where
  -- The buckets are in order, `Count` counts them, and `MaxCount` does not exceed `Capacity`. The
  -- 16 bits of a probe length serve tables of up to 65536 buckets.
  pub record IsValid (m : StaticHashMap K V) : Type ℓ where
    pub small : m.capacity ≤ 2 ^ 16
    pub nonempty : 0 < m.capacity
    pub order : RobinHood (home bytes m.capacity) m.capacity m.buckets
    pub counted : used_count m.buckets m.capacity ≡ m.count
    pub below : m.count ≤ m.max_count
    pub limit : m.max_count ≤ m.capacity

module _ {ℓ} {K V : Type ℓ} where
  -- No entry is counted where there is none.
  pub Absent-of_zero : (t : ℕ → Bucket K V) (n : ℕ) (k : K) → used_count t n ≡ 0 → Absent n t k
  unfolding used_count
  Absent-of_zero t zero k e i hi u = absurd (omega arith)
  Absent-of_zero t (suc n) k e i hi u = elim (ℕ_discrete i n) [
    | yes same ↦ ground (arith, same)
    | no ne ↦ Absent-of_zero t n k (ground arith) i (omega arith) u
  ]

  -- A stored entry is counted.
  pub counts : (t : ℕ → Bucket K V) (n i : ℕ) → i < n → Used t i → 0 < used_count t n
  unfolding used_count
  counts t zero i hi u = absurd (omega arith)
  counts t (suc n) i hi u = elim (ℕ_discrete i n) [
    | yes same ↦ ground (arith, same)
    | no ne ↦ ground (arith, counts t n i (omega arith) u)
  ]

module _ {ℓ} {K V : Type ℓ} ⦃eq : Eq K⦄ where
  -- Whether a key is stored, and where.
  pub search_key :
      (t : ℕ → Bucket K V) (n : ℕ) (k : K)
      → ((i : ℕ) × (i < n) × Used t i × ((t i).key ≡ k)) ⊎ Absent n t k
  search_key t zero k = inr (λ i hi. absurd (omega arith))
  search_key t (suc n) k = elim (Bool-cases ((t n).is_used && eq.beq (t n).key k)) [
    | inl here ↦ inl (n, omega arith, ground arith, (eq.beq_iff (t n).key k).0 (ground arith))
    | inr not_here ↦ elim (search_key t n k) [
      | inl (i, hi, u, e) ↦ inl (i, omega arith, u, e)
      | inr none_below ↦ inr (λ i hi u e. elim (ℕ_discrete i n) [
        | yes same ↦ let last = (eq.beq_iff (t n).key k).1 (rw same at e) in ground (arith, same)
        | no ne ↦ none_below i (omega arith) u e
      ])
    ]
  ]
