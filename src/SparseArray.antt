-- ===== src/SparseArray.antt =====
-- Lib/SparseArray.h, in a build without asserts: a sparse set of values by id. The three blocks are
-- functions from index to cell, and every access is checked against `Capacity`. `SparseCapacity`, which the
-- struct does not declare, is read as `Capacity`.
mod Stored
mod Removal
mod Setup
mod Tests
use scal_base.Prelude.{
  ℕ, zero, suc, ◌+◌, ◌-◌, ◌*◌, ◌/◌, ◌%◌, ◌^◌, Bool, true, false, not, ◌&&◌, ltb, leb, ◌==◌,
  if◌then◌else◌, Run, ok, fault, ◌>>=◌, load, store, update, sub32, Option, none, some,
}

abbrev pub empty : ℕ
empty = 65535

pub record SparseSet {ℓ} (T : Type ℓ) : Type ℓ where
  pub sparse : ℕ → ℕ
  pub dense_lookup : ℕ → ℕ
  pub dense : ℕ → T
  pub capacity : ℕ
  pub count : ℕ

-- The loop of `Init`.
unfoldable pub fill_empty : ℕ → (ℕ → ℕ) → ℕ → ℕ
fill_empty zero sparse = sparse
fill_empty (suc n) sparse = update (fill_empty n sparse) n empty

module _ {ℓ} {T : Type ℓ} where
  -- The code passes the type `Arena` where it means its parameter and does not compile; the parameter is
  -- read. `blank` is a value of zero bytes. `Count` is left as it is.
  unfoldable pub init : T → SparseSet T → ℕ → SparseSet T
  unfolding fill_empty
  init blank s capacity = record s {
    sparse = fill_empty (capacity % 2 ^ 16) (λ i. 0);
    dense_lookup = λ i. 0;
    dense = λ i. blank;
    capacity = capacity % 2 ^ 16;
  }

  -- The index of the new value, or none on a full set.
  unfoldable pub add : SparseSet T → ℕ → T → Run (Option ℕ × SparseSet T)
  add s id value =
      if s.count == s.capacity
      then ok (none, s)
      else store s.capacity s.sparse id s.count >>= λ sparse.
          store s.capacity s.dense_lookup s.count id >>= λ lookup.
          store s.capacity s.dense s.count value >>= λ dense. ok (
            some s.count,
            record s {
              sparse = sparse;
              dense_lookup = lookup;
              dense = dense;
              count = (s.count + 1) % 2 ^ 16;
            },
          )

  -- An index `Count - 1` of -1 is outside the blocks.
  unfoldable pub remove : SparseSet T → ℕ → Run (SparseSet T)
  remove s id = load s.sparse s.capacity id >>= λ idx.
      if idx == empty
      then ok s
      else store s.capacity s.sparse id empty >>= λ cleared.
          load s.dense_lookup s.capacity (sub32 s.count 1) >>= λ moving.
          store s.capacity s.dense_lookup idx moving >>= λ lookup.
          load s.dense s.capacity (sub32 s.count 1) >>= λ last.
          store s.capacity s.dense idx last >>= λ dense.
          load lookup s.capacity (sub32 s.count 1) >>= λ last_id.
          store s.capacity cleared last_id idx >>= λ sparse. ok (record s {
            sparse = sparse;
            dense_lookup = lookup;
            dense = dense;
            count = (s.count + 2 ^ 16 - 1) % 2 ^ 16;
          })

  unfoldable pub get : SparseSet T → ℕ → Run (Option T)
  get s id = load s.sparse s.capacity id >>= λ idx.
      if not (idx == empty) && ltb idx s.count
      then (load s.dense s.capacity idx >>= λ value. ok (some value))
      else ok none
