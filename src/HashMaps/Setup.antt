-- ===== src/HashMaps/Setup.antt =====
-- `Init` and `Clear`, and a table on which `Remove` does not end.
use native.Mathlib.Decide.{ℕ_discrete}
use scal_base.Prelude.{
  ℕ, zero, suc, ◌+◌, ◌≤◌, ◌<◌, ◌≡◌, refl, sym, ◌∙◌, inl, inr, arith, false, ◌^◌, Bool-cases, Eq,
  List, if◌then◌else◌, out_of_fuel,
}
use scal_base.Base.{is_power_of2, align_pow_two_ceil32}
use scal_base.Base.Power.{align_pow_two_ceil32_lem, is_power_of2_iff}
use scal_base.HashMaps.Walk.{next-lt}
use scal_base.HashMaps.Contents.{used_count_le}
use scal_base.HashMaps.{Bucket, next, StaticHashMap, init, clear, clear_loop, home, remove_loop}
use scal_base.HashMaps.Invariant.{Used, Absent, RobinHood, used_count}
use scal_base.HashMaps.Valid.{IsValid, home-lt}
use scal_base.HashMaps.Removing.{remove_loop-out_of_fuel}

-- The rounding of `Init` gives the least power of two that is not below its argument.
pub round_up :
    (c : ℕ)
    → c ≤ 2 ^ 31
    → let r = if is_power_of2 c then c else align_pow_two_ceil32 c in
      ((k : ℕ) × (r ≡ 2 ^ k)) × (c ≤ r) × ((j : ℕ) → c ≤ 2 ^ j → r ≤ 2 ^ j)
round_up c h = elim (Bool-cases (is_power_of2 c)) [
  | inl power ↦ rw power ((is_power_of2_iff c).0 power, omega arith, λ j le. le)
  | inr other ↦
      let (k, run, le, least) = align_pow_two_ceil32_lem c h in
      rw (other, run) ((k, refl), le, least)
]

module _ {ℓ} {K V : Type ℓ} where
  -- No bucket below `n` holds an entry.
  abbrev pub IsFree : ℕ → (ℕ → Bucket K V) → Type 0
  IsFree n t = (i : ℕ) → i < n → (t i).is_used ≡ false

  IsFree-RobinHood :
      (h : K → ℕ) (n : ℕ) (t : ℕ → Bucket K V) → n ≤ 2 ^ 16 → IsFree n t → RobinHood h n t
  IsFree-RobinHood h n t small free = record {
    placed = λ i hi u. ground (arith, free i hi);
    bounded = λ i hi u. ground (arith, free i hi);
    graded = λ i hi u pos. absurd (ground (arith, free (next n i) (next-lt small i hi)));
    distinct = λ i j hi hj u v e. ground (arith, free i hi);
  }

  used_count_free : (n : ℕ) (t : ℕ → Bucket K V) → IsFree n t → used_count t n ≡ 0
  unfolding used_count
  used_count_free zero t free = refl
  used_count_free (suc n) t free =
      ground (arith, free n (omega arith), used_count_free n t (λ i hi. free i (omega arith)))

  all-Used : (n : ℕ) (t : ℕ → Bucket K V) → used_count t n ≡ n → (i : ℕ) → i < n → Used t i
  unfolding used_count
  all-Used zero t full i hi = absurd (omega arith)
  all-Used (suc n) t full i hi = elim (ℕ_discrete i n) [
    | yes last ↦ rw last (ground (arith, used_count_le t n))
    | no other ↦ all-Used n t (ground (arith, used_count_le t n)) i (omega arith)
  ]

  clear_loop_below :
      (rounds i : ℕ) (t : ℕ → Bucket K V) (j : ℕ) → j < i → clear_loop rounds i t j ≡ t j
  unfolding clear_loop
  clear_loop_below zero i t j h = refl
  clear_loop_below (suc rounds) i t j h =
      clear_loop_below rounds (i + 1) _ j (omega arith) ∙ ground arith

  clear_loop_free :
      (rounds i : ℕ) (t : ℕ → Bucket K V) (j : ℕ)
      → i ≤ j
      → j < i + rounds
      → (clear_loop rounds i t j).is_used ≡ false
  unfolding clear_loop
  clear_loop_free zero i t j lo hi = absurd (omega arith)
  clear_loop_free (suc rounds) i t j lo hi = elim (ℕ_discrete i j) [
    | yes here ↦ rw (clear_loop_below rounds (i + 1) _ j (omega arith)) (ground (arith, here))
    | no there ↦ clear_loop_free rounds (i + 1) _ j (omega arith) (omega arith)
  ]

  module _ (bytes : K → List ℕ) where
    -- A table with no entry and a sound limit is valid.
    free-IsValid :
        (m : StaticHashMap K V)
        → m.capacity ≤ 2 ^ 16
        → 0 < m.capacity
        → m.max_count ≤ m.capacity
        → m.count ≡ 0
        → IsFree m.capacity m.buckets
        → IsValid bytes m
    free-IsValid m small pos limit none_yet free = record {
      small = small;
      nonempty = pos;
      order = IsFree-RobinHood (home bytes m.capacity) m.capacity m.buckets small free;
      counted = used_count_free m.capacity m.buckets free ∙ sym none_yet;
      below = omega arith;
      limit = limit;
    }

    -- `Init` with a capacity from 1 to 2 ^ 16, over a block with no used bucket and with a load
    -- factor of at most 1, makes a valid table with no entry and the limit that the load factor
    -- sets; its capacity is the least power of two that is not below the one asked for.
    pub init-IsValid :
        (scale : ℕ → ℕ) (memory : ℕ → Bucket K V) (capacity : ℕ)
        → ((c : ℕ) → scale c ≤ c)
        → 0 < capacity
        → capacity ≤ 2 ^ 16
        → IsFree (2 ^ 16) memory
        → let m = init scale memory capacity in
          IsValid bytes m
          × (m.count ≡ 0)
          × (m.max_count ≡ scale m.capacity)
          × ((k : ℕ) × (m.capacity ≡ 2 ^ k))
          × (capacity ≤ m.capacity)
          × ((j : ℕ) → capacity ≤ 2 ^ j → m.capacity ≤ 2 ^ j)
    unfolding init
    init-IsValid scale memory capacity load pos small free =
        let (power, le, least) = round_up capacity (omega arith) in
        let m = init scale memory capacity in
        let fits : m.capacity ≤ 2 ^ 16 = least 16 small in
        let bound = load m.capacity in
        (
          free-IsValid m fits (omega arith) (omega arith) refl (λ i hi. free i (omega arith)),
          refl,
          omega arith,
          power,
          le,
          least,
        )

    -- `Clear` of a valid table leaves a valid table of the same capacity with no entry and no used
    -- bucket.
    pub clear-IsValid :
        {m : StaticHashMap K V}
        → IsValid bytes m
        → IsValid bytes (clear m)
          × ((clear m).count ≡ 0)
          × ((clear m).capacity ≡ m.capacity)
          × IsFree m.capacity (clear m).buckets
    unfolding clear
    clear-IsValid {m} v =
        let free = λ (i : ℕ) (hi : i < m.capacity).
          clear_loop_free m.capacity 0 m.buckets i (omega arith) (omega arith) in
        (free-IsValid (clear m) v.small v.nonempty v.limit refl free, refl, refl, free)

module _ {ℓ} {K V : Type ℓ} ⦃eq : Eq K⦄ (bytes : K → List ℕ) where
  -- On a valid table whose every bucket is used, the search loop of `Remove` for a key that is not
  -- stored uses up any number of rounds: the call does not end.
  pub remove_diverges :
      {m : StaticHashMap K V}
      → IsValid bytes m
      → m.count ≡ m.capacity
      → (k : K) → Absent m.capacity m.buckets k
      → (fuel : ℕ) → remove_loop fuel m k (home bytes m.capacity k) ≡ out_of_fuel
  remove_diverges {m} v full k absent fuel =
      remove_loop-out_of_fuel fuel m k (home bytes m.capacity k) v.small
        (home-lt bytes m.capacity k v.nonempty) absent
        (all-Used m.capacity m.buckets (v.counted ∙ full))
