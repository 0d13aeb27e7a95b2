-- ===== src/SparseArray/Setup.antt =====
-- `Init` of a sparse set.
use scal_base.Prelude.{ℕ, zero, suc, ◌%◌, ◌^◌, ◌<◌, ◌≡◌, arith, ok, none, inl}
use native.Mathlib.Decide.{ℕ_discrete}
use scal_base.SparseArray.{SparseSet, empty, fill_empty, init, get}
use scal_base.SparseArray.Stored.{IsValid, get_missing}

fill_empty_lem : (n : ℕ) (sparse : ℕ → ℕ) (i : ℕ) → i < n → fill_empty n sparse i ≡ empty
unfolding fill_empty
fill_empty_lem zero sparse i lt = absurd (omega arith)
fill_empty_lem (suc n) sparse i lt = elim (ℕ_discrete n i) [
  | yes here ↦ ground (arith, here)
  | no other ↦ ground (arith, other, fill_empty_lem n sparse i)
]

-- `Init` of a set whose count is 0, with a capacity below 2 ^ 16 - 1, makes a valid set in which
-- `Get` returns null for every id below the capacity.
pub get-init {ℓ} :
    {T : Type ℓ} (blank : T) (s : SparseSet T) (capacity : ℕ)
    → s.count ≡ 0
    → capacity < empty
    → IsValid (init blank s capacity)
      × ((id : ℕ) → id < capacity → get (init blank s capacity) id ≡ ok none)
unfolding init
get-init blank s capacity none_yet small =
    let word : capacity % 2 ^ 16 ≡ capacity = omega arith in
    let filled = fill_empty_lem capacity (λ i. 0) in
    rw word (
      record {
        fits = omega (arith, none_yet);
        small = small;
        listed = λ i hi. absurd (omega (arith, none_yet, hi));
        looked_up = λ id h. inl (filled id h);
      },
      λ id h. get_missing _ id h (inl (filled id h)),
    )
