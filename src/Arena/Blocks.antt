-- ===== src/Arena/Blocks.antt =====
-- The blocks that `ArenaPush` hands out.
use scal_base.Prelude.{
  ℕ, ◌+◌, ◌-◌, ◌%◌, ◌^◌, ◌≤◌, ◌<◌, ◌≡◌, refl, ◌∙◌, ap, true, false, ltb, arith, List, [], ◌∷◌, inl,
  inr, Bool-cases,
}
use scal_base.Prelude.Words.{u64}
use scal_base.Base.{align_size}
use scal_base.Base.Align.{align_size_lem}
use scal_base.Arena.{
  Arena, sub64, arena_grow, arena_push, arena_pop, arena_snapshot_begin, arena_snapshot_end,
}

pub round64 :
    (size : ℕ)
    → size + 64 ≤ 2 ^ 64
    → (align_size size 64 % 64 ≡ 0) × (size ≤ align_size size 64) × (align_size size 64 < size + 64)
round64 size h =
    let (q, e, low, high) = align_size_lem 6 58 (omega arith) size (omega arith) in
    omega (arith, e, low, high)

-- The range of the arena lies within the addresses, and what is allocated lies within the range.
pub record IsValid (a : Arena) : Type 0 where
  pub placed : 0 < a.memory
  pub addresses : a.memory + a.reserved_size + 64 ≤ 2 ^ 64
  pub fits : a.total_allocated ≤ a.reserved_size
  pub aligned : a.total_allocated % 64 ≡ 0

-- A block of `size` bytes at `res` has been cut off from `a`, which leaves `r`.
pub record Cut (a : Arena) (size res : ℕ) (r : Arena) : Type 0 where
  pub valid : IsValid r
  pub start : res ≡ a.memory + a.total_allocated
  pub end : res + size ≤ r.memory + r.total_allocated
  pub slack : r.total_allocated < a.total_allocated + size + 64
  pub same : (r.memory ≡ a.memory) × (r.reserved_size ≡ a.reserved_size)

module _ {a : Arena} (valid : IsValid a) (size : ℕ) where
  fitting-step :
      a.total_allocated + align_size size 64 ≤ a.reserved_size
      → ((arena_push a size).res ≡ a.memory + a.total_allocated)
        × ((arena_push a size).arena
            ≡ record a { total_allocated = a.total_allocated + align_size size 64 })
  unfolding arena_push arena_grow
  fitting-step room =
      let needed : u64 (a.total_allocated + align_size size 64)
          ≡ a.total_allocated + align_size size 64 =
        omega (arith, valid.addresses, room) in
      let at : u64 (a.memory + a.total_allocated) ≡ a.memory + a.total_allocated =
        omega (arith, valid.addresses, valid.fits) in
      let inside : ltb a.reserved_size (a.total_allocated + align_size size 64) ≡ false =
        ground arith in
      elim (Bool-cases (ltb a.size (a.total_allocated + align_size size 64))) [
        | inl more ↦ rw (needed, more, inside, at) (refl, refl)
        | inr enough ↦ rw (needed, enough, at) (refl, refl)
      ]

  -- When the rounded size still fits into the reserved range, and the size ends 64 below 2 ^ 64,
  -- `ArenaPush` on a valid arena returns the first free address, and the block lies below the
  -- first free address afterwards; rounding wastes less than 64 bytes, and the arena stays valid,
  -- in the same range.
  pub arena_push-Cut :
      a.total_allocated + align_size size 64 ≤ a.reserved_size
      → size + 64 ≤ 2 ^ 64
      → Cut a size (arena_push a size).res (arena_push a size).arena
  arena_push-Cut room small =
      let (even, low, high) = round64 size small in
      let cut : Cut a size (a.memory + a.total_allocated)
          (record a { total_allocated = a.total_allocated + align_size size 64 }) =
        record {
          valid = record {
            placed = valid.placed;
            addresses = valid.addresses;
            fits = room;
            aligned = omega (arith, valid.aligned, even);
          };
          start = refl;
          end = omega (arith, low);
          slack = omega (arith, high);
          same = (refl, refl);
        } in
      rw ((fitting-step room).0, (fitting-step room).1) cut

  -- When the rounded size does not fit into the reserved range, `ArenaPush` on a valid arena whose
  -- committed size is no more than the reserved one returns null and changes nothing.
  pub arena_push-null :
      a.reserved_size < a.total_allocated + align_size size 64
      → a.size ≤ a.reserved_size
      → size + 64 ≤ 2 ^ 63
      → a.reserved_size ≤ 2 ^ 63
      → ((arena_push a size).res ≡ 0)
        × ((arena_push a size).arena ≡ a)
        × ((arena_push a size).effects ≡ [])
  unfolding arena_push
  arena_push-null over committed small half =
      let (even, low, high) = round64 size (omega arith) in
      let needed : u64 (a.total_allocated + align_size size 64)
          ≡ a.total_allocated + align_size size 64 =
        omega (arith, valid.fits, high) in
      let more : ltb a.size (a.total_allocated + align_size size 64) ≡ true = ground arith in
      let outside : ltb a.reserved_size (a.total_allocated + align_size size 64) ≡ true =
        ground arith in
      rw (needed, more, outside) (refl, refl, refl)

  -- `ArenaPop` of the size that was just pushed gives the arena back.
  pub arena_pop-push :
      a.total_allocated + align_size size 64 ≤ a.reserved_size
      → arena_pop (arena_push a size).arena size ≡ a
  unfolding arena_pop
  arena_pop-push room =
      let back : sub64 (a.total_allocated + align_size size 64) (align_size size 64)
          ≡ a.total_allocated =
        omega (arith, valid.addresses, room) in
      rw ((fitting-step room).1, back)

-- On a valid arena whose reserved range has room for two rounded sizes, and for sizes that end 64
-- below 2 ^ 64, two blocks that `ArenaPush` returns in a row do not overlap, and both lie within
-- the reserved range.
pub arena_push-arena_push :
    {a : Arena}
    → IsValid a
    → (m n : ℕ) → m + 64 ≤ 2 ^ 64
    → n + 64 ≤ 2 ^ 64
    → a.total_allocated + align_size m 64 + align_size n 64 ≤ a.reserved_size
    → let first = arena_push a m in
      let second = arena_push first.arena n in
      (a.memory ≤ first.res)
      × (first.res + m ≤ second.res)
      × (second.res + n ≤ a.memory + a.reserved_size)
arena_push-arena_push {a} valid m n hm hn room =
    let cut = arena_push-Cut valid m (omega arith) hm in
    let after = (fitting-step valid m (omega arith)).1 in
    let cut' = arena_push-Cut cut.valid n (rw after (omega arith)) hn in
    omega (
      arith,
      cut.start,
      cut.end,
      cut'.start,
      cut'.end,
      (cut'.valid).fits,
      cut.same.0,
      cut.same.1,
      cut'.same.0,
      cut'.same.1,
    )

-- What a client does with an arena between the two ends of a snapshot.
pub data Use : Type 0 where
  use_push use_pop : ℕ → Use

unfoldable pub run_uses : Arena → List Use → Arena
run_uses a [] = a
run_uses a (use_push size ∷ rest) = run_uses (arena_push a size).arena rest
run_uses a (use_pop size ∷ rest) = run_uses (arena_pop a size) rest

arena_push-total :
    (a : Arena) (size : ℕ)
    → (t : ℕ) × ((arena_push a size).arena ≡ record a { total_allocated = t })
unfolding arena_push arena_grow
arena_push-total a size =
    let needed = u64 (a.total_allocated + align_size size 64) in
    elim (Bool-cases (ltb a.size needed)) [
      | inl more ↦ elim (Bool-cases (ltb a.reserved_size needed)) [
        | inl null ↦ (a.total_allocated, rw (more, null) refl)
        | inr room ↦ (needed, rw (more, room) refl)
      ]
      | inr enough ↦ (needed, rw enough refl)
    ]

run_uses-end :
    (uses : List Use) (a b : Arena)
    → (t : ℕ) → (b ≡ record a { total_allocated = t; temp_count = a.temp_count + 1 })
    → arena_snapshot_end a.total_allocated (run_uses b uses) ≡ a
unfolding arena_snapshot_end run_uses arena_pop
run_uses-end [] a b t e =
    let back : a.temp_count + 1 - 1 ≡ a.temp_count = omega arith in
    let with_count : ℕ → Arena = λ n. record a { temp_count = n } in rw e (ap with_count back)
run_uses-end (use_push size ∷ rest) a b t e =
    let (t', e') = arena_push-total b size in
    run_uses-end rest a (arena_push b size).arena t'
      (e' ∙ ap (λ (c : Arena). record c { total_allocated = t' }) e)
run_uses-end (use_pop size ∷ rest) a b t e =
    run_uses-end rest a (arena_pop b size) (sub64 b.total_allocated (align_size size 64)) (
      ap
        (λ (c : Arena). record c { total_allocated = sub64 b.total_allocated (align_size size 64) })
        e)

-- `ArenaSnapshotEnd` gives back the arena that `ArenaSnapshotBegin` saw, whatever has been pushed
-- and popped in between.
pub arena_snapshot_end-begin :
    (a : Arena) (uses : List Use)
    → let begun = arena_snapshot_begin a in arena_snapshot_end begun.0 (run_uses begun.1 uses) ≡ a
unfolding arena_snapshot_begin
arena_snapshot_end-begin a uses =
    run_uses-end uses a (arena_snapshot_begin a).1 a.total_allocated refl
