-- ===== src/StaticArray.antt =====
-- Lib/StaticArray.h, in a build without asserts: `StaticArray`, a block of a fixed size, and
-- `StaticList`, such a block with a count. `Data` is a function from index to cell, and every access
-- is checked against the size of the block.
mod Lists
mod Tests
use scal_base.Prelude.{
  ℕ, zero, suc, ◌+◌, ◌-◌, ◌*◌, ◌/◌, ◌%◌, ◌^◌, Bool, true, false, ◌&&◌, ltb, leb, ◌==◌,
  if◌then◌else◌, Run, ok, fault, ◌>>=◌, load, store, update, move, moved,
}

pub record StaticArray {ℓ} (T : Type ℓ) : Type ℓ where
  pub cells : ℕ → T
  pub element_count : ℕ

pub record StaticList {ℓ} (T : Type ℓ) : Type ℓ where
  pub capacity : ℕ
  pub count : ℕ
  pub cells : ℕ → T

-- `Count - idx` and `Count - 1` on `size_t`.
abbrev pub sub64 : ℕ → ℕ → ℕ
sub64 a b = (a + 2 ^ 64 - b) % 2 ^ 64

module _ {ℓ} {T : Type ℓ} where
  unfoldable pub array_at : StaticArray T → ℕ → Run T
  array_at a idx = load a.cells a.element_count idx

  unfoldable pub at : StaticList T → ℕ → Run T
  at s idx = load s.cells s.capacity idx

  unfoldable pub last : StaticList T → Run T
  last s = load s.cells s.capacity (if ltb 0 s.count then s.count - 1 else 0)

  unfoldable pub clear : StaticList T → StaticList T
  clear s = record s { count = 0 }

  unfoldable pub push : StaticList T → T → Run (StaticList T)
  push s val = store s.capacity s.cells s.count val >>= λ cells.
      ok (record s { cells = cells; count = s.count + 1 })

  unfoldable pub push_at : StaticList T → T → ℕ → Run (StaticList T)
  push_at s val idx = load s.cells s.capacity idx >>= λ old.
      store s.capacity s.cells s.count old >>= λ tail. store s.capacity tail idx val >>= λ cells.
      ok (record s { cells = cells; count = s.count + 1 })

  unfoldable pub push_at_order : StaticList T → T → ℕ → Run (StaticList T)
  push_at_order s val idx = move s.capacity s.cells (idx + 1) idx (sub64 s.count idx) >>= λ shifted.
      store s.capacity shifted idx val >>= λ cells.
      ok (record s { cells = cells; count = s.count + 1 })

  unfoldable pub pop : StaticList T → StaticList T
  pop s = record s { count = sub64 s.count 1 }

  -- The value goes to `*inValue`.
  unfoldable pub pop_at : StaticList T → ℕ → Run (T × StaticList T)
  unfolding last
  pop_at s idx = load s.cells s.capacity idx >>= λ value. last s >>= λ end.
      store s.capacity s.cells idx end >>= λ cells.
      ok (value, record s { cells = cells; count = sub64 s.count 1 })

  unfoldable pub pop_at_order : StaticList T → ℕ → Run (T × StaticList T)
  pop_at_order s idx = load s.cells s.capacity idx >>= λ value.
      move s.capacity s.cells idx (idx + 1) (sub64 s.count idx) >>= λ cells.
      ok (value, record s { cells = cells; count = sub64 s.count 1 })
