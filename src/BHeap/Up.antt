-- ===== src/BHeap/Up.antt =====
-- The loop of `PushMin` and `PushMax` restores the heap order.
use scal_base.Prelude.{
  ℕ, zero, suc, ◌≤◌, ◌<◌, ◌≡◌, ◌≢◌, refl, Bool, true, false, arith, update, ok, load-ok, Returns,
  returns, Returns-map, Bool-cases, inl, inr, ◌∙◌,
}
use native.Mathlib.Decide.{ℕ_discrete}
use scal_base.BHeap.{BHeapItem, Items, parent, sift_up}
use scal_base.BHeap.Order.{IsHeap, occurrences, occurrences-update}

-- `r` is a heap of the items of `items`.
pub record Sifted (R : ℕ → ℕ → Type 0) (items : Items) (n : ℕ) (r : Items) : Type 0 where
  pub heap : IsHeap R r n
  pub same : (a : BHeapItem) → occurrences a r n ≡ occurrences a items n

module _ (R : ℕ → ℕ → Type 0) (trans : (a b c : ℕ) → R a b → R b c → R a c) (above : ℕ → ℕ → Bool)
    (rises : (a b : ℕ) → above a b ≡ true → R a b)
    (stays : (a b : ℕ) → above a b ≡ false → R b a) where
  -- All edges but the one above `i` are in order, and those past `i` too.
  pub record UpInv (items : Items) (n i : ℕ) : Type 0 where
    pub inside : i < n
    pub edges : (c : ℕ) → 0 < c → c < n → c ≢ i → R (items (parent c)).key (items c).key
    pub bridged :
        (c : ℕ) → 0 < c → c < n → parent c ≡ i → 0 < i → R (items (parent i)).key (items c).key

  swapped : Items → ℕ → Items
  swapped items i = update (update items i (items (parent i))) (parent i) (items i)

  occurrences-swapped :
      (a : BHeapItem) (items : Items) (n i : ℕ)
      → i < n
      → occurrences a (swapped items i) n ≡ occurrences a items n
  unfolding swapped
  occurrences-swapped a items n i hi =
      let b = update items i (items (parent i)) in
      ground (
        arith,
        occurrences-update a items n i (items (parent i)) hi,
        occurrences-update a b n (parent i) (items i) (omega arith),
      )

  rise-UpInv :
      {items : Items} {n i : ℕ}
      → UpInv items n i
      → 0 < i
      → R (items i).key (items (parent i)).key
      → UpInv (swapped items i) n (parent i)
  unfolding swapped
  rise-UpInv {items} {n} {i} v pos r = record {
    inside = omega (arith, v.inside);
    edges = λ c hc hn ne. ground (
      arith,
      v.edges c,
      v.bridged c,
      trans (items i).key (items (parent i)).key (items c).key,
      r,
    );
    bridged = λ c hc hn e hp. ground (
      arith,
      v.edges c,
      v.edges (parent i),
      trans (items (parent (parent i))).key (items (parent i)).key (items c).key,
    );
  }

  pub sift_up-Sifted :
      (capacity fuel n : ℕ) (items : Items) (i : ℕ)
      → n ≤ capacity
      → i < fuel
      → UpInv items n i
      → Returns (Sifted R items n) (sift_up above capacity fuel items i)
  unfolding sift_up swapped
  sift_up-Sifted capacity zero n items i le f v = absurd (omega arith)
  sift_up-Sifted capacity (suc fuel) n items i le f v = elim (ℕ_discrete i 0) [
    | yes top ↦
        let heap : IsHeap R items n = λ c hc hn. v.edges c hc hn (omega arith) in
        let stop : sift_up above capacity (suc fuel) items i ≡ ok items = ground (arith, top) in
        rw stop (returns (record { heap = heap; same = λ a. refl }))
    | no below ↦
        let here = load-ok items capacity i (omega (arith, v.inside)) in
        let up = load-ok items capacity (parent i) (omega (arith, v.inside)) in
        elim (Bool-cases (above (items i).key (items (parent i)).key)) [
          | inl rise ↦
              let rest =
                sift_up-Sifted capacity fuel n (swapped items i) (parent i) le (omega arith)
                  (rise-UpInv v (omega arith) (rises _ _ rise)) in
              let round : sift_up above capacity (suc fuel) items i
                  ≡ sift_up above capacity fuel (swapped items i) (parent i) =
                ground (arith, here, up, rise, below) in
              rw round (
                Returns-map rest λ r s. record {
                  heap = s.heap;
                  same = λ a. s.same a ∙ occurrences-swapped a items n i v.inside;
                })
          | inr stay ↦
              let heap : IsHeap R items n = λ c hc hn. elim (ℕ_discrete c i) [
                | yes same ↦ rw same (stays _ _ stay)
                | no other ↦ v.edges c hc hn other
              ] in
              let round : sift_up above capacity (suc fuel) items i ≡ ok items =
                ground (arith, here, up, stay, below) in
              rw round (returns (record { heap = heap; same = λ a. refl }))
        ]
  ]
