-- ===== src/SparseArray/Tests.antt =====
-- Runs of the sparse set, and the theorems at small sets.
use scal_base.Prelude.{ℕ, ◌≡◌, refl, arith, update, ok, ◌>>=◌, some, Returns}
use scal_base.SparseArray.{SparseSet, empty, fill_empty, init, add, remove, get}
use scal_base.SparseArray.Stored.{IsValid, Added, Removed, add-Added}
use scal_base.SparseArray.Removal.{remove-Removed, remove-stale}
use scal_base.SparseArray.Setup.{get-init}

abbrev raw : SparseSet ℕ
raw = record { sparse = λ i. 7; dense_lookup = λ i. 7; dense = λ i. 7; capacity = 0; count = 0 }

abbrev none_yet : SparseSet ℕ
none_yet = init 0 raw 4

session :
    (add none_yet 2 50 >>= λ a. add a.1 3 60 >>= λ b. remove b.1 2 >>= λ c. get c 3) ≡ ok (some 60)
unfolding init add remove get fill_empty
session = refl

none_yet-capacity : none_yet.capacity ≡ 4
unfolding init
none_yet-capacity = refl

none_yet-count : none_yet.count ≡ 0
unfolding init
none_yet-count = refl

none_yet-sparse : (none_yet.sparse 2 ≡ empty) × (none_yet.sparse 3 ≡ empty)
unfolding init fill_empty
none_yet-sparse = (refl, refl)

none_yet-IsValid : IsValid none_yet
none_yet-IsValid = (get-init 0 raw 4 refl (omega arith)).0

add-Added_example : Returns (Added none_yet 2 50) (add none_yet 2 50)
add-Added_example =
    add-Added none_yet-IsValid 2 (omega (arith, none_yet-capacity)) 50 none_yet-sparse.0
      (λ e. absurd (omega (arith, e, none_yet-capacity, none_yet-count)))

abbrev one : SparseSet ℕ
one = record {
  sparse = update (λ i. empty) 2 0;
  dense_lookup = update (λ i. 0) 0 2;
  dense = update (λ i. 0) 0 50;
  capacity = 4;
  count = 1;
}

one-IsValid : IsValid one
one-IsValid = record {
  fits = omega arith;
  small = omega arith;
  listed = λ i hi. ground (arith, hi);
  looked_up = λ id h. ground (arith, h);
}

abbrev two : SparseSet ℕ
two = record {
  sparse = update (update (λ i. empty) 2 0) 3 1;
  dense_lookup = update (update (λ i. 0) 0 2) 1 3;
  dense = update (update (λ i. 0) 0 50) 1 60;
  capacity = 4;
  count = 2;
}

two-IsValid : IsValid two
two-IsValid = record {
  fits = omega arith;
  small = omega arith;
  listed = λ i hi. ground (arith, hi);
  looked_up = λ id h. ground (arith, h);
}

remove-Removed_example : Returns (Removed two 2) (remove two 2)
remove-Removed_example = remove-Removed two-IsValid 2 (omega arith) (omega arith)

remove-stale_example : (remove one 2 >>= λ r. add r 3 60 >>= λ a. get a.1 2) ≡ ok (some 60)
remove-stale_example = remove-stale one-IsValid 2 (omega arith) 3 60 refl (omega arith) refl
