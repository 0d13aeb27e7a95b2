-- ===== src/Arena/Sizes.antt =====
-- The sizes of a new arena, and what becomes of `ArenaShrink` after an arena has grown.
use scal_base.Prelude.{
  ℕ, ◌+◌, ◌-◌, ◌*◌, ◌^◌, ◌≤◌, ◌<◌, ◌≡◌, ◌≢◌, refl, ap, Bool, true, false, ltb, ◌==◌, arith, [], ◌∷◌,
  inl, inr, Bool-cases, lt→ltb,
}
use mathlib.Core.Bool.{false≢true, true≢false}
use scal_base.Prelude.Words.{u64}
use scal_base.Base.{align_size}
use scal_base.Base.Align.{align_size_lem}
use scal_base.Arena.{
  Arena, Platform, commit, uncommit, sub64, cache_line, arena_push, arena_grow, arena_shrink,
  arena_size_remaining, ThreadArena, Scratch, scratch_a, scratch_b, get_scratch,
}

-- `n` is `x` rounded up to pages of `page` bytes.
pub record RoundedUp (page x n : ℕ) : Type 0 where
  pub multiple : (q : ℕ) × (n ≡ page * q)
  pub enough : x ≤ n
  pub least : n < x + page

module _ (k d : ℕ) (word : 2 ^ k * 2 ^ d ≡ 2 ^ 64) where
  rounded : (x : ℕ) → x + 2 ^ k ≤ 2 ^ 64 → RoundedUp (2 ^ k) x (align_size x (2 ^ k))
  rounded x h =
      let (q, e, low, high) = align_size_lem k d word x h in
      record { multiple = (q, e); enough = omega (arith, e, low); least = omega (arith, e, high) }

-- `ArenaShrink` of an arena whose `Size` is below what is allocated from it.
arena_shrink-over :
    (a : Arena)
    → let used = align_size a.total_allocated a.alignment in
      a.size < used
      → used ≤ a.size + 2 ^ 62
      → a.size < 2 ^ 62
      → 0 < a.min_size
      → a.min_size < 2 ^ 62
      → (start : ℕ) × (size : ℕ) × (arena_shrink a ≡ uncommit start size ∷ [])
        × (size ≡ 2 ^ 64 - (used + a.min_size - a.size))
        × (2 ^ 63 ≤ size)
unfolding arena_shrink arena_size_remaining
arena_shrink-over a over near small some least =
    let used = align_size a.total_allocated a.alignment in
    let none : (a.min_size == 0) ≡ false = ground arith in
    let wraps : ltb a.min_size (sub64 a.size used) ≡ true = lt→ltb _ _ (omega arith) in
    let needed : u64 (used + a.min_size) ≡ used + a.min_size = omega arith in
    (
      u64 (a.memory + (used + a.min_size)),
      sub64 a.size (used + a.min_size),
      rw (none, wraps, needed),
      omega arith,
      omega arith,
    )

-- When `ArenaPush` on an arena whose alignment is 2 ^ k, which 2 ^ d of them make up to 2 ^ 64,
-- needs more than its `Size` and no more than its reserved size, which ends an alignment below 2 ^
-- 62, and the minimum size is below 2 ^ 62 and not 0: it commits the pages up to what is needed
-- and keeps `Size`, and `ArenaShrink` afterwards asks the platform to uncommit at least 2 ^ 63
-- bytes, the wrapped difference.
pub arena_shrink-arena_push :
    (a : Arena) (k d size : ℕ)
    → let needed = a.total_allocated + align_size size cache_line in
      let used = align_size needed a.alignment in
      let pushed = arena_push a size in
      2 ^ k * 2 ^ d ≡ 2 ^ 64
      → a.alignment ≡ 2 ^ k
      → a.size < needed
      → needed ≤ a.reserved_size
      → a.reserved_size + 2 ^ k ≤ 2 ^ 62
      → 0 < a.min_size
      → a.min_size < 2 ^ 62
      → (pushed.effects ≡ commit a.memory used ∷ [])
        × ((pushed.arena).size ≡ a.size)
        × ((pushed.arena).total_allocated ≡ needed)
        × ((start : ℕ) × (gone : ℕ) × (arena_shrink pushed.arena ≡ uncommit start gone ∷ [])
            × (gone ≡ 2 ^ 64 - (used + a.min_size - a.size))
            × (2 ^ 63 ≤ gone))
unfolding arena_push arena_grow
arena_shrink-arena_push a k d size word pages over room half some least =
    let needed = a.total_allocated + align_size size 64 in
    let fits : u64 needed ≡ needed = omega (arith, room, half) in
    let more : ltb a.size needed ≡ true = lt→ltb _ _ over in
    let inside : ltb a.reserved_size needed ≡ false = ground (arith, room) in
    let r = rounded k d word needed (omega (arith, room, half)) in
    let enough : needed ≤ align_size needed a.alignment = rw pages r.enough in
    let close : align_size needed a.alignment < needed + 2 ^ k = rw pages r.least in
    rw (fits, more, inside)
      (
        refl,
        refl,
        refl,
        arena_shrink-over (record a { total_allocated = needed }) (omega (arith, over, enough))
            (omega (arith, close, room, half)) (omega (arith, over, room, half)) some least,
      )

is_a : Scratch → Bool
is_a scratch_a = true
is_a scratch_b = false

a_is_not_b : scratch_a ≢ scratch_b
unfolding is_a
a_is_not_b e = true≢false (ap is_a e)

b_is_not_a : scratch_b ≢ scratch_a
unfolding is_a
b_is_not_a e = false≢true (ap is_a e)

-- Two calls of `GetScratch` in a row on a thread whose index is 0 or 1 point to different arenas;
-- the second one changes neither arena, and the index is back where it was.
pub get_scratch-get_scratch :
    (first second third fourth : Platform) (thread : ThreadArena)
    → thread.index ≤ 1
    → let one = get_scratch first second thread in
      let two = get_scratch third fourth one.1 in
      (one.0 ≢ two.0)
      × ((two.1).a ≡ (one.1).a)
      × ((two.1).b ≡ (one.1).b)
      × ((two.1).index ≡ thread.index)
unfolding get_scratch
get_scratch-get_scratch first second third fourth thread small =
    elim (Bool-cases thread.is_initialized) [
      | inl ready ↦ elim (Bool-cases (thread.index == 0)) [
        | inl first ↦ rw (ready, first) (a_is_not_b, refl, refl, ground arith)
        | inr second ↦ rw (ready, second) (b_is_not_a, refl, refl, ground arith)
      ]
      | inr fresh ↦ elim (Bool-cases (thread.index == 0)) [
        | inl first ↦ rw (fresh, first) (a_is_not_b, refl, refl, ground arith)
        | inr second ↦ rw (fresh, second) (b_is_not_a, refl, refl, ground arith)
      ]
    ]
