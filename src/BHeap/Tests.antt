-- ===== src/BHeap/Tests.antt =====
-- A session with the min heap and the max heap, and the theorems at small heaps.
use scal_base.Prelude.{
  ℕ, ◌≡◌, refl, arith, ltb, update, if◌then◌else◌, Run, ok, fault, ◌>>=◌, Returns,
}
use scal_base.Prelude.Int.{ℤ, pos, negsuc, is_neg}
use scal_base.BHeap.{BHeap, sift_up, heapify, push_with, pop_with, push_min, pop_min}
use scal_base.BHeap.Order.{IsHeap}
use scal_base.BHeap.Queue.{Pushed, Popped, AtMost, AtLeast, push_min-Pushed, pop_min-Popped}

abbrev by_address : ℕ → ℕ → ℤ
by_address a b = if ltb a b then negsuc 0 else pos 0

abbrev empty : BHeap
empty = record {
  compare_func = by_address;
  items = λ i. record { key = 0; user = 0 };
  count = 0;
  capacity = 4;
}

abbrev two : BHeap
two = record empty {
  items =
      update (update empty.items 1 (record { key = 7; user = 1 })) 0 (record { key = 3; user = 2 });
  count = 2;
}

abbrev two_max : BHeap
two_max = record empty {
  items =
      update (update empty.items 0 (record { key = 7; user = 1 })) 1 (record { key = 3; user = 2 });
  count = 2;
}

agrees : (a b : ℕ) → is_neg (by_address a b) ≡ ltb a b
agrees a b = ground arith

two_IsHeap : IsHeap AtMost two.items two.count
two_IsHeap c above small = let one : c ≡ 1 = omega arith in rw one (omega arith)

two_max_IsHeap : IsHeap AtLeast two_max.items two_max.count
two_max_IsHeap c above small = let one : c ≡ 1 = omega arith in rw one (omega arith)

abbrev session : Run (ℕ × ℕ × ℕ)
session = do
  a ← push_min empty 5 1
  b ← push_min a 3 2
  c ← push_min b 4 3
  p ← pop_min c
  q ← pop_min p.1
  r ← pop_min q.1
  ok (p.0.key, q.0.key, r.0.key)

session_result : session ≡ ok (3, 4, 5)
unfolding push_min pop_min push_with pop_with sift_up heapify
session_result = refl

underflow : pop_min empty ≡ fault
unfolding pop_min
underflow = refl

push_min-Pushed_example :
    Returns (Pushed AtMost two (record { key = 2; user = 9 })) (push_min two 2 9)
push_min-Pushed_example = push_min-Pushed two 2 9 agrees two_IsHeap (omega arith)

pop_min-Popped_example : Returns (Popped AtMost two) (pop_min two)
pop_min-Popped_example = pop_min-Popped two two_IsHeap (omega arith) (omega arith) (omega arith)
