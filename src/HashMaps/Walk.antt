-- ===== src/HashMaps/Walk.antt =====
-- The positions that a probe passes, in the order of the loops of StaticHashMap.
use scal_base.Prelude.{
  ℕ, zero, suc, ◌+◌, ◌-◌, ◌≤◌, ◌<◌, ◌≡◌, ◌≢◌, refl, ap, arith, ltb, if◌then◌else◌, ◌^◌,
}
use scal_base.HashMaps.{next}

-- `j` steps from index `a`.
unfoldable pub walk : ℕ → ℕ → ℕ → ℕ
walk n a zero = a
walk n a (suc j) = next n (walk n a j)

module _ {n : ℕ} (small : n ≤ 2 ^ 16) where
  pub next-lt : (i : ℕ) → i < n → next n i < n
  unfolding next
  next-lt i h = ground arith

  pub next_inj : (i j : ℕ) → i < n → j < n → next n i ≡ next n j → i ≡ j
  unfolding next
  next_inj i j hi hj e = ground arith

  pub next-ne : (i j : ℕ) → i < n → j < n → i ≢ j → next n i ≢ i
  unfolding next
  next-ne i j hi hj ne e = ground arith

  pub walk-lt : (a j : ℕ) → a < n → walk n a j < n
  unfolding walk
  walk-lt a zero h = h
  walk-lt a (suc j) h = next-lt (walk n a j) (walk-lt a j h)

  -- Where fewer than `n` steps lead.
  walk_lem : (a j : ℕ) → a < n → j < n → walk n a j ≡ (if ltb (a + j) n then a + j else a + j - n)
  unfolding walk next
  walk_lem a zero h hj = ground arith
  walk_lem a (suc j) h hj = ground (arith, walk_lem a j h (omega arith))

  -- Fewer than `n` steps lead to different indices.
  pub walk_inj : (a j k : ℕ) → a < n → j < n → k < n → walk n a j ≡ walk n a k → j ≡ k
  walk_inj a j k h hj hk e = ground (arith, walk_lem a j h hj, walk_lem a k h hk, e)

  -- Every index is met within `n` steps.
  pub walk-reaches : (a i : ℕ) → a < n → i < n → (j : ℕ) × (j < n) × (walk n a j ≡ i)
  walk-reaches a i h hi = (
    if ltb i a then i + n - a else i - a,
    ground arith,
    ground (arith, walk_lem a (if ltb i a then i + n - a else i - a) h (ground arith)),
  )

pub walk-next : (n a j : ℕ) → walk n (next n a) j ≡ walk n a (suc j)
unfolding walk
walk-next n a zero = refl
walk-next n a (suc j) = ap (next n) (walk-next n a j)
