-- ===== src/BHeap/Down.antt =====
-- The loop of `HeapifyMin` and `HeapifyMax` restores the heap order.
use scal_base.Prelude.{
  ℕ, zero, suc, ◌+◌, ◌*◌, ◌^◌, ◌≤◌, ◌<◌, ◌≡◌, ◌≢◌, refl, Bool, true, false, ◌==◌, arith, update,
  if◌then◌else◌, ltb, ok, load-ok, Returns, returns, Returns-map, Bool-cases, inl, inr, ◌⊎◌, ◌∙◌,
}
use native.Mathlib.Decide.{ℕ_discrete, dec_lt}
use scal_base.BHeap.{BHeapItem, Items, parent, heapify}
use scal_base.BHeap.Order.{occurrences, occurrences-update}
use scal_base.BHeap.Up.{Sifted}

module _ (R : ℕ → ℕ → Type 0) (trans : (a b c : ℕ) → R a b → R b c → R a c)
    (reflexive : (a : ℕ) → R a a) (above : ℕ → ℕ → Bool)
    (rises : (a b : ℕ) → above a b ≡ true → R a b)
    (stays : (a b : ℕ) → above a b ≡ false → R b a) where
  -- The index that a round chooses among `i` and its children.
  abbrev pick : Items → ℕ → ℕ → ℕ
  pick items n i =
      let first = if above (items (2 * i + 1)).key (items i).key then 2 * i + 1 else i in
      if ltb (2 * i + 2) n
      then (if above (items (2 * i + 2)).key (items first).key then 2 * i + 2 else first)
      else first

  -- The chosen item is related to the item at `i` and to its children.
  record Best (items : Items) (n i k : ℕ) : Type 0 where
    among : (k ≡ i) ⊎ ((k < n) × (0 < k) × (parent k ≡ i))
    here : R (items k).key (items i).key
    left : R (items k).key (items (2 * i + 1)).key
    right : 2 * i + 2 < n → R (items k).key (items (2 * i + 2)).key

  -- The choice between `first` and the right child.
  pick_right :
      (items : Items) (n i first : ℕ)
      → (first ≡ i) ⊎ (first ≡ 2 * i + 1)
      → 2 * i + 1 < n
      → R (items first).key (items i).key
      → R (items first).key (items (2 * i + 1)).key
      → Best items n i (
          if ltb (2 * i + 2) n
          then (if above (items (2 * i + 2)).key (items first).key then 2 * i + 2 else first)
          else first)
  pick_right items n i first from h a b =
      let child : (first ≡ i) ⊎ ((first < n) × (0 < first) × (parent first ≡ i)) =
        ground (arith, from) in
      elim (dec_lt (2 * i + 2) n) [
        | no none ↦
            let stop : ltb (2 * i + 2) n ≡ false = ground arith in
            rw stop (record { among = child; here = a; left = b; right = λ lt. absurd (none lt) })
        | yes some ↦
            let go : ltb (2 * i + 2) n ≡ true = ground arith in
            rw go (elim (Bool-cases (above (items (2 * i + 2)).key (items first).key)) [
              | inl win ↦
                  let up = rises _ _ win in
                  rw win (record {
                    among = inr (some, omega arith, omega arith);
                    here = trans _ _ _ up a;
                    left = trans _ _ _ up b;
                    right = λ lt. reflexive _;
                  })
              | inr lose ↦
                  rw lose
                    (record { among = child; here = a; left = b; right = λ lt. stays _ _ lose })
            ])
      ]

  pick_lem : (items : Items) (n i : ℕ) → 2 * i + 1 < n → Best items n i (pick items n i)
  pick_lem items n i h = elim (Bool-cases (above (items (2 * i + 1)).key (items i).key)) [
    | inl lx ↦ rw lx (pick_right items n i (2 * i + 1) (inr refl) h (rises _ _ lx) (reflexive _))
    | inr xl ↦ rw xl (pick_right items n i i (inl refl) h (reflexive _) (stays _ _ xl))
  ]

  -- All edges are in order but those below `i`, and those past `i` too.
  pub record DownInv (items : Items) (n i : ℕ) : Type 0 where
    pub edges : (c : ℕ) → 0 < c → c < n → parent c ≢ i → R (items (parent c)).key (items c).key
    pub bridged :
        (c : ℕ) → 0 < c → c < n → parent c ≡ i → 0 < i → R (items (parent i)).key (items c).key

  abbrev sunk : Items → ℕ → ℕ → Items
  sunk items i k = update (update items i (items k)) k (items i)

  sink-DownInv :
      {items : Items} {n i k : ℕ}
      → DownInv items n i
      → Best items n i k
      → (k < n) × (0 < k) × (parent k ≡ i)
      → DownInv (sunk items i k) n k
  sink-DownInv {items} {n} {i} {k} v best (kn, kp, ki) = record {
    edges = λ c hc hn ne. elim (ℕ_discrete (parent c) i) [
      | no apart ↦ elim (ℕ_discrete c i) [
        | yes here ↦
            let edge = v.bridged k kp kn ki (omega (arith, here, hc)) in
            ground (arith, here, edge, ki, hc, apart, ne)
        | no other ↦ ground (arith, v.edges c hc hn apart, other, apart, ne, ki)
      ]
      | yes under ↦ elim (ℕ_discrete c (2 * i + 1)) [
        | yes l ↦ ground (arith, best.left, best.here, l, under, ki)
        | no r ↦
            let side : c ≡ 2 * i + 2 = omega (arith, r, under, hc) in
            ground (arith, best.right, best.here, side, under, ki, hn)
      ]
    ];
    bridged = λ c hc hn e hk. ground (arith, v.edges c hc hn, ki, e);
  }

  heapify-step :
      (capacity n fuel : ℕ) (item : BHeapItem) (items : Items) (i : ℕ)
      → n ≤ capacity
      → 2 * i + 1 < n
      → 2 * i + 1 < 2 ^ 31
      → heapify above capacity n (suc fuel) item items i ≡ (
          if pick items n i == i
          then ok items
          else heapify above capacity n fuel item
              (update (update items i (items (pick items n i))) (pick items n i) item)
              (pick items n i))
  unfolding heapify
  heapify-step capacity n fuel item items i le h word = ground (
    arith,
    load-ok items capacity i (omega arith),
    load-ok items capacity (2 * i + 1) (omega arith),
  )

  occurrences-sunk :
      (a : BHeapItem) (items : Items) (n i k : ℕ)
      → i < n
      → k < n
      → occurrences a (sunk items i k) n ≡ occurrences a items n
  occurrences-sunk a items n i k hi hk =
      let b = update items i (items k) in
      ground (
        arith,
        occurrences-update a items n i (items k) hi,
        occurrences-update a b n k (items i) hk,
      )

  -- No child is left, or none is chosen: the order holds.
  settled :
      {items : Items} {n i : ℕ}
      → DownInv items n i
      → ((c : ℕ) → 0 < c → c < n → parent c ≡ i → R (items i).key (items c).key)
      → Sifted R items n items
  settled {items} {n} {i} v below = record {
    heap = λ c hc hn. elim (ℕ_discrete (parent c) i) [
      | yes under ↦ ground (arith, below c hc hn under, under)
      | no apart ↦ v.edges c hc hn apart
    ];
    same = λ a. refl;
  }

  at_rest :
      {items : Items} {n i k : ℕ}
      → Best items n i k
      → k ≡ i
      → (c : ℕ) → 0 < c
      → c < n
      → parent c ≡ i
      → R (items i).key (items c).key
  at_rest {items} {n} {i} {k} best top c hc hn under = elim (ℕ_discrete c (2 * i + 1)) [
    | yes l ↦ ground (arith, best.left, l, top)
    | no r ↦
        let side : c ≡ 2 * i + 2 = omega (arith, r, under, hc) in
        ground (arith, best.right, side, hn, top)
  ]

  pub heapify-Sifted :
      (capacity fuel n : ℕ) (item : BHeapItem) (items : Items) (i : ℕ)
      → n ≤ capacity
      → n < 2 ^ 30
      → 2 * i + 1 < 2 ^ 31
      → 0 < fuel
      → n < fuel + i
      → item ≡ items i
      → DownInv items n i
      → Returns (Sifted R items n) (heapify above capacity n fuel item items i)
  unfolding heapify
  heapify-Sifted capacity zero n item items i le small word pos f same v = absurd (omega arith)
  heapify-Sifted capacity (suc fuel) n item items i le small word pos f same v =
      elim (dec_lt (2 * i + 1) n) [
        | no leaf ↦
            let stop : heapify above capacity n (suc fuel) item items i ≡ ok items = ground arith in
            rw stop (returns (settled v (λ c hc hn under. absurd (omega arith))))
        | yes inner ↦
            let k = pick items n i in
            let best : Best items n i k = pick_lem items n i inner in
            let step = heapify-step capacity n fuel item items i le inner word in
            elim best.among [
              | inl top ↦
                  let round : heapify above capacity n (suc fuel) item items i ≡ ok items =
                    step ∙ ground (arith, top) in
                  rw round (returns (settled v (at_rest best top)))
              | inr down ↦
                  let (kn, kp, ki) = down in
                  let rest =
                    heapify-Sifted capacity fuel n (items i) (sunk items i k) k le small
                      (omega arith) (omega arith) (omega arith) (ground arith)
                      (sink-DownInv v best down) in
                  let round : heapify above capacity n (suc fuel) item items i
                      ≡ heapify above capacity n fuel (items i) (sunk items i k) k =
                    step ∙ ground (arith, same, kp, ki) in
                  rw round (
                    Returns-map rest λ r s. record {
                      heap = s.heap;
                      same = λ a. s.same a ∙ occurrences-sunk a items n i k (omega arith) kn;
                    })
            ]
      ]
