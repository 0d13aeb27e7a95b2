-- ===== src/BHeap/Queue.antt =====
-- `Push` and `Pop` keep the heap order and the items, and `Pop` returns the extreme item.
use scal_base.Prelude.{
  ℕ, zero, suc, ◌+◌, ◌-◌, ◌^◌, ◌≤◌, ◌<◌, ◌≡◌, refl, Bool, true, false, not, arith, update, ltb, ok,
  load-ok, Returns, returns, Returns-inv,
}
use scal_base.Prelude.Int.{is_neg}
use scal_base.BHeap.{
  BHeapItem, BHeap, Items, push_with, pop_with, push_min, push_max, pop_min, pop_max,
}
use scal_base.BHeap.Order.{
  IsHeap, occurrences, occurrences-update, occurrences-update_ge, same_item, root_lem,
}
use scal_base.BHeap.Up.{UpInv, sift_up-Sifted}
use scal_base.BHeap.Down.{DownInv, heapify-Sifted}

-- `r` is the heap `bh` with one item more.
pub record Pushed (R : ℕ → ℕ → Type 0) (bh : BHeap) (item : BHeapItem) (r : BHeap) : Type 0 where
  pub heap : IsHeap R r.items r.count
  pub count : r.count ≡ bh.count + 1
  pub capacity : r.capacity ≡ bh.capacity
  pub same :
      (a : BHeapItem)
      → occurrences a r.items r.count ≡ same_item item a + occurrences a bh.items bh.count

-- `result` is an extreme item of `bh`, and `r` is the heap of the others.
pub record Popped (R : ℕ → ℕ → Type 0) (bh : BHeap) (answer : BHeapItem × BHeap) : Type 0 where
  pub heap : IsHeap R answer.1.items answer.1.count
  pub count : answer.1.count + 1 ≡ bh.count
  pub capacity : answer.1.capacity ≡ bh.capacity
  pub extreme : (i : ℕ) → i < bh.count → R answer.0.key (bh.items i).key
  pub same :
      (a : BHeapItem)
      → occurrences a bh.items bh.count
        ≡ same_item answer.0 a + occurrences a answer.1.items answer.1.count

-- The last item over the root: the root is gone.
occurrences-drop :
    (a : BHeapItem) (items : Items) (n : ℕ)
    → occurrences a items (suc n)
      ≡ same_item (items 0) a + occurrences a (update items 0 (items n)) n
unfolding occurrences
occurrences-drop a items zero = refl
occurrences-drop a items (suc n) =
    ground (arith, occurrences-update a items (suc n) 0 (items (suc n)) (omega arith))

module _ (R : ℕ → ℕ → Type 0) (trans : (a b c : ℕ) → R a b → R b c → R a c)
    (reflexive : (a : ℕ) → R a a) where
  push_with-Pushed :
      (above : BHeap → ℕ → ℕ → Bool) (bh : BHeap) (key user : ℕ)
      → ((a b : ℕ) → above bh a b ≡ true → R a b)
      → ((a b : ℕ) → above bh a b ≡ false → R b a)
      → IsHeap R bh.items bh.count
      → bh.count < bh.capacity
      → Returns (Pushed R bh (record { key = key; user = user })) (push_with above bh key user)
  unfolding push_with occurrences
  push_with-Pushed above bh key user rises stays heap room =
      let item : BHeapItem = record { key = key; user = user } in
      let items = update bh.items bh.count item in
      let start : UpInv R trans (above bh) rises stays items (bh.count + 1) bh.count = record {
        inside = omega arith;
        edges = λ c hc hn ne. ground (arith, heap c hc, ne, hn);
        bridged = λ c hc hn e hp. absurd (omega arith);
      } in
      let run =
        sift_up-Sifted R trans (above bh) rises stays bh.capacity (bh.count + 1) (bh.count + 1)
          items bh.count (omega arith) (omega arith) start in
      let (after, eq, sifted) = Returns-inv run in
      let round : push_with above bh key user
          ≡ ok (record bh { items = after; count = bh.count + 1 }) =
        ground (arith, eq) in
      rw round (
        returns record {
          heap = sifted.heap;
          count = refl;
          capacity = refl;
          same = λ a. ground (
            arith,
            sifted.same a,
            occurrences-update_ge a bh.items bh.count bh.count item (omega arith),
          );
        })

  pop_with-Popped :
      (above : ℕ → ℕ → Bool) (bh : BHeap)
      → ((a b : ℕ) → above a b ≡ true → R a b)
      → ((a b : ℕ) → above a b ≡ false → R b a)
      → IsHeap R bh.items bh.count
      → 0 < bh.count
      → bh.count ≤ bh.capacity
      → bh.count ≤ 2 ^ 30
      → Returns (Popped R bh) (pop_with above bh)
  unfolding pop_with occurrences
  pop_with-Popped above bh rises stays heap some le small =
      let last = bh.items (bh.count - 1) in
      let items = update bh.items 0 last in
      let start : DownInv R trans reflexive above rises stays items (bh.count - 1) 0 = record {
        edges = λ c hc hn ne. ground (arith, heap c hc, ne, hn);
        bridged = λ c hc hn e hp. absurd (omega arith);
      } in
      let (after, eq, sifted) = Returns-inv (
        heapify-Sifted R trans reflexive above rises stays bh.capacity (bh.count + 1) (bh.count - 1)
          last items 0 (omega arith) (omega arith) (omega arith) (omega arith) (omega arith) refl
          start) in
      let answer : BHeapItem × BHeap =
        (bh.items 0, record bh { items = after; count = bh.count - 1 }) in
      let round : pop_with above bh ≡ ok answer = ground (
        arith,
        eq,
        load-ok bh.items bh.capacity 0 (omega arith),
        load-ok bh.items bh.capacity (bh.count - 1) (omega arith),
      ) in
      rw round (
        returns record {
          heap = sifted.heap;
          count = omega arith;
          capacity = refl;
          extreme = root_lem R trans reflexive bh.items bh.count heap;
          same = λ a. ground (arith, sifted.same a, occurrences-drop a bh.items (bh.count - 1));
        })

-- A compare function that orders keys by their addresses, as `HeapifyMin` and `HeapifyMax` do.
abbrev pub ComparesAddresses : BHeap → Type 0
ComparesAddresses bh = (a b : ℕ) → is_neg (bh.compare_func a b) ≡ ltb a b

abbrev pub AtMost : ℕ → ℕ → Type 0
AtMost a b = a ≤ b

abbrev pub AtLeast : ℕ → ℕ → Type 0
AtLeast a b = b ≤ a

AtMost-trans : (a b c : ℕ) → AtMost a b → AtMost b c → AtMost a c
AtMost-trans a b c p q = omega arith

AtLeast-trans : (a b c : ℕ) → AtLeast a b → AtLeast b c → AtLeast a c
AtLeast-trans a b c p q = omega arith

-- For a compare function that orders keys by their addresses, `PushMin` on a min heap that is not
-- full ends without a fault and makes a min heap of the same items and the new one.
pub push_min-Pushed :
    (bh : BHeap) (key user : ℕ)
    → ComparesAddresses bh
    → IsHeap AtMost bh.items bh.count
    → bh.count < bh.capacity
    → Returns (Pushed AtMost bh (record { key = key; user = user })) (push_min bh key user)
unfolding push_min
push_min-Pushed bh key user agree =
    push_with-Pushed AtMost AtMost-trans (λ a. omega arith) (λ bh a b. is_neg (bh.compare_func a b))
      bh key user (λ a b h. ground (arith, agree a b, h)) (λ a b h. ground (arith, agree a b, h))

-- For a compare function that orders keys by their addresses, `PushMax` on a max heap that is not
-- full ends without a fault and makes a max heap of the same items and the new one.
pub push_max-Pushed :
    (bh : BHeap) (key user : ℕ)
    → ComparesAddresses bh
    → IsHeap AtLeast bh.items bh.count
    → bh.count < bh.capacity
    → Returns (Pushed AtLeast bh (record { key = key; user = user })) (push_max bh key user)
unfolding push_max
push_max-Pushed bh key user agree =
    push_with-Pushed AtLeast AtLeast-trans (λ a. omega arith)
      (λ bh a b. not (is_neg (bh.compare_func a b))) bh key user
      (λ a b h. ground (arith, agree a b, h)) (λ a b h. ground (arith, agree a b, h))

-- `PopMin` of a min heap that is not empty, whose count is at most its capacity and at most 2 ^
-- 30, ends without a fault, returns an item whose key address is the least, and leaves a min heap
-- of exactly the other items.
pub pop_min-Popped :
    (bh : BHeap)
    → IsHeap AtMost bh.items bh.count
    → 0 < bh.count
    → bh.count ≤ bh.capacity
    → bh.count ≤ 2 ^ 30
    → Returns (Popped AtMost bh) (pop_min bh)
unfolding pop_min
pop_min-Popped bh heap some le small =
    let popped =
      pop_with-Popped AtMost AtMost-trans (λ a. omega arith) ltb bh (λ a b h. ground arith)
        (λ a b h. ground arith) heap some le small in
    let guard : pop_min bh ≡ pop_with ltb bh = ground arith in rw guard popped

-- `PopMax` of a max heap that is not empty, whose count is at most its capacity and at most 2 ^ 30,
-- ends without a
-- fault, returns an item whose key address is the greatest, and leaves a max heap of exactly the
-- other items.
pub pop_max-Popped :
    (bh : BHeap)
    → IsHeap AtLeast bh.items bh.count
    → 0 < bh.count
    → bh.count ≤ bh.capacity
    → bh.count ≤ 2 ^ 30
    → Returns (Popped AtLeast bh) (pop_max bh)
unfolding pop_max
pop_max-Popped bh heap some le small =
    let popped =
      pop_with-Popped AtLeast AtLeast-trans (λ a. omega arith) (λ a b. ltb b a) bh
        (λ a b h. ground arith) (λ a b h. ground arith) heap some le small in
    let guard : pop_max bh ≡ pop_with (λ a b. ltb b a) bh = ground arith in rw guard popped
