-- ===== src/Pool/Cells.antt =====
-- The cells that `Get` hands out.
use scal_base.Prelude.{
  ℕ, zero, suc, ◌+◌, ◌-◌, ◌%◌, ◌^◌, ◌≤◌, ◌<◌, ◌≡◌, refl, sym, ◌∙◌, arith, true, false, ltb, lt→ltb,
  ◌==◌, if◌then◌else◌, update_self, Returns, returns, Option, none, some,
}
use native.Mathlib.Decide.{ℕ_discrete}
use scal_base.Pool.{Pool, stack_push, stack_pop, reset_loop, reset, init, get, give_back}

-- The pointer to the cell below index `n`.
abbrev below : ℕ → Option ℕ
below n = if n == 0 then none else some (n - 1)

below_some : (n i : ℕ) → n ≡ suc i → below n ≡ some i
below_some n i e = ground (arith, e, pred_suc i)
  where
    pred_suc : (n : ℕ) → suc n - 1 ≡ n
    pred_suc n = omega arith

-- The free list runs through the cells from `n - 1` down to 0.
record Chained (n : ℕ) (p : Pool) : Type 0 where
  first : p.free_list ≡ below n
  rest : (i : ℕ) → i < n → p.next i ≡ below i

reset_loop-Chained :
    (n : ℕ) (p : Pool)
    → p.free_list ≡ none
    → Chained n (reset_loop n p)
      × ((reset_loop n p).count ≡ p.count)
      × ((reset_loop n p).capacity ≡ p.capacity)
unfolding reset_loop stack_push
reset_loop-Chained zero p bare =
    (record { first = bare ∙ ground arith; rest = λ i hi. absurd (omega arith) }, refl, refl)
reset_loop-Chained (suc n) p bare =
    let (chained, count, capacity) = reset_loop-Chained n p bare in
    let q = reset_loop n p in
    let top : below (suc n) ≡ some n = ground (arith, pred_suc n) in
    (
      record {
        first = sym top;
        rest = λ i hi. elim (ℕ_discrete n i) [
          | yes here ↦ rw (← here) (update_self q.next n q.free_list ∙ chained.first)
          | no other ↦ ground (arith, other, chained.rest i)
        ];
      },
      count,
      capacity,
    )
  where
    pred_suc : (n : ℕ) → suc n - 1 ≡ n
    pred_suc n = omega arith

-- `k` calls of `Get`, whose results are dropped.
unfoldable pub take_cells : ℕ → Pool → Pool
unfolding get
take_cells zero pool = pool
take_cells (suc k) pool = (get (take_cells k pool)).1

record Taken (n k : ℕ) (p : Pool) : Type 0 where
  chained : Chained (n - k) p
  count : p.count ≡ k
  capacity : p.capacity ≡ n

get-Taken :
    {n k : ℕ} {p : Pool}
    → Taken n k p
    → k < n
    → n < 2 ^ 64
    → ((get p).0 ≡ some (n - 1 - k)) × Taken n (suc k) (get p).1
unfolding get stack_pop
get-Taken {n} {k} {p} taken room small =
    let chained = taken.chained in
    let i = n - 1 - k in
    let differ : (p.count == p.capacity) ≡ false = ground (arith, taken.count, taken.capacity) in
    let top : p.free_list ≡ some i = chained.first ∙ below_some (n - k) i (omega arith) in
    let word : (p.count + 1) % 2 ^ 64 ≡ suc k = omega (arith, taken.count) in
    let left : n - suc k ≡ i = omega arith in
    rw (differ, top)
      (
        refl,
        record {
          chained = rw left (record {
            first = chained.rest i (omega arith);
            rest = λ j hj. chained.rest j (omega arith);
          });
          count = word;
          capacity = taken.capacity;
        },
      )

take_cells-Taken :
    (n : ℕ) (p : Pool) → n < 2 ^ 64 → Taken n 0 p → (k : ℕ) → k ≤ n → Taken n k (take_cells k p)
unfolding take_cells
take_cells-Taken n p small start zero le = start
take_cells-Taken n p small start (suc k) le =
    (get-Taken (take_cells-Taken n p small start k (omega arith)) (omega arith) small).1

init-Taken : (p : Pool) (n : ℕ) → p.free_list ≡ none → p.count ≡ 0 → Taken n 0 (init p n)
unfolding init reset
init-Taken p n bare unused =
    let (chained, count, capacity) =
      reset_loop-Chained n (record p { next = λ i. none; capacity = n }) bare in
    let all : n - 0 ≡ n = omega arith in
    record { chained = rw all chained; count = count ∙ unused; capacity = capacity }

-- After `Init` with a capacity below 2 ^ 64, of a pool whose free list is null and whose count is
-- 0, call number k of `Get`, counted from 0, returns the cell `Capacity - 1 - k` for each k below
-- the capacity, and the call after those returns null.
pub get-take_cells :
    (p : Pool) (n : ℕ)
    → p.free_list ≡ none
    → p.count ≡ 0
    → n < 2 ^ 64
    → ((k : ℕ) → k < n → (get (take_cells k (init p n))).0 ≡ some (n - 1 - k))
      × ((get (take_cells n (init p n))).0 ≡ none)
unfolding get
get-take_cells p n bare unused small =
    let reach = take_cells-Taken n (init p n) small (init-Taken p n bare unused) in
    let end = reach n (omega arith) in
    let full : ((take_cells n (init p n)).count == (take_cells n (init p n)).capacity) ≡ true =
      ground (arith, end.count, end.capacity) in
    (λ k hk. (get-Taken (reach k (omega arith)) hk small).0, rw full)

-- On a pool that has handed out a cell, whose count is at most the capacity and whose capacity is
-- below 2 ^ 64, `Get` after `Return` of a cell of the pool gives that cell again, and leaves the
-- free list and the count as they were before `Return`.
pub get-give_back :
    (p : Pool) (i : ℕ)
    → i < p.capacity
    → 0 < p.count
    → p.count ≤ p.capacity
    → p.capacity < 2 ^ 64
    → Returns
        (λ q.
          ((get q).0 ≡ some i)
          × (((get q).1).free_list ≡ p.free_list)
          × (((get q).1).count ≡ p.count))
        (give_back p i)
unfolding get give_back stack_push stack_pop
get-give_back p i inside some_out fits small =
    let here : ltb i p.capacity ≡ true = lt→ltb _ _ inside in
    let fewer : (p.count + (2 ^ 64 - 1)) % 2 ^ 64 ≡ p.count - 1 = omega arith in
    let differ : (p.count - 1 == p.capacity) ≡ false = ground arith in
    rw (here, fewer)
      (returns
        (rw differ refl, rw differ (update_self p.next i p.free_list), rw differ (omega arith)))
