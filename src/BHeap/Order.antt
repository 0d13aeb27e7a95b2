-- ===== src/BHeap/Order.antt =====
-- The heap order, for an abstract relation between the keys of a parent and of a child.
use native.Mathlib.Decide.{ℕ_discrete}
use scal_base.Prelude.{
  ℕ, zero, suc, ◌+◌, ◌≤◌, ◌<◌, ◌≡◌, refl, ◌&&◌, ◌==◌, arith, update, if◌then◌else◌, ap,
}
use scal_base.BHeap.{BHeapItem, Items, parent}

-- How often an item stands in the first `n` cells.
abbrev pub same_item : BHeapItem → BHeapItem → ℕ
same_item a b = if a.key == b.key && a.user == b.user then 1 else 0

unfoldable pub occurrences : BHeapItem → Items → ℕ → ℕ
occurrences a items zero = 0
occurrences a items (suc n) = same_item (items n) a + occurrences a items n

pub occurrences-update_ge :
    (a : BHeapItem) (items : Items) (n i : ℕ) (x : BHeapItem)
    → n ≤ i
    → occurrences a (update items i x) n ≡ occurrences a items n
unfolding occurrences
occurrences-update_ge a items zero i x h = refl
occurrences-update_ge a items (suc n) i x h = ground (arith, occurrences-update_ge a items n i x)

-- A write trades the old item for the new one.
pub occurrences-update :
    (a : BHeapItem) (items : Items) (n i : ℕ) (x : BHeapItem)
    → i < n
    → occurrences a (update items i x) n + same_item (items i) a
      ≡ occurrences a items n + same_item x a
unfolding occurrences
occurrences-update a items zero i x h = absurd (omega arith)
occurrences-update a items (suc n) i x h = elim (ℕ_discrete i n) [
  | yes last ↦
      ground
        (arith, last, occurrences-update_ge a items n i x, ap (λ k. same_item (items k) a) last)
  | no other ↦ ground (arith, other, occurrences-update a items n i x)
]

module _ (R : ℕ → ℕ → Type 0) where
  abbrev pub IsHeap : Items → ℕ → Type 0
  IsHeap items n = (c : ℕ) → 0 < c → c < n → R (items (parent c)).key (items c).key

  module _ (trans : (a b c : ℕ) → R a b → R b c → R a c) (reflexive : (a : ℕ) → R a a) where
    root_below :
        (k : ℕ) (items : Items) (n : ℕ)
        → IsHeap items n
        → (i : ℕ) → i < k
        → i < n
        → R (items 0).key (items i).key
    root_below zero items n heap i h hi = absurd (omega arith)
    root_below (suc k) items n heap i h hi = elim (ℕ_discrete i 0) [
      | yes top ↦ rw top (reflexive (items 0).key)
      | no below ↦
          trans _ _ _ (root_below k items n heap (parent i) (omega arith) (omega arith))
            (heap i (omega arith) hi)
    ]

    -- The root is related to every item.
    pub root_lem :
        (items : Items) (n : ℕ) → IsHeap items n → (i : ℕ) → i < n → R (items 0).key (items i).key
    root_lem items n heap i hi = root_below (suc i) items n heap i (omega arith) hi
