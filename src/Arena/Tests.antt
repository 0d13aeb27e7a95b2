-- ===== src/Arena/Tests.antt =====
-- Runs of the arena, and the theorems at small arenas.
use scal_base.Prelude.{ℕ, ◌+◌, ◌-◌, ◌^◌, ◌≤◌, ◌≡◌, refl, arith, true, false, [], ◌∷◌}
use scal_base.Base.{align_size}
use scal_base.Arena.{
  Arena, Platform, ThreadArena, commit, uncommit, zeroed, arena_create_min, arena_push,
  arena_push_zero, arena_grow, arena_shrink, arena_snapshot_begin, arena_snapshot_end,
  memory_initialize, arena_create,
}
use scal_base.Arena.Blocks.{
  IsValid, use_push, use_pop, run_uses, arena_push-arena_push, arena_snapshot_end-begin,
}
use scal_base.Arena.Sizes.{arena_shrink-arena_push}

-- Pages of 4096 bytes; every reservation is placed at 65536.
abbrev platform : Platform
platform = record { page_size = 4096; reserve = λ size. 65536; commit = λ ptr size. ptr }

abbrev small : Arena
small = record {
  memory = 65536;
  reserved_size = 16384;
  size = 4096;
  total_allocated = 0;
  min_size = 4096;
  alignment = 4096;
  temp_count = 0;
}

created : arena_create_min platform 16000 100 0 ≡ (small, commit 65536 4096 ∷ [])
unfolding arena_create_min align_size
created = refl

abbrev grown : Arena
grown = record small { total_allocated = 8192 }

pushed :
    ((arena_push small 8192).arena ≡ grown)
    × ((arena_push small 8192).effects ≡ commit 65536 8192 ∷ [])
unfolding arena_push arena_grow align_size
pushed = (refl, refl)

-- A push that does not fit zeroes the null pointer.
zeroes_null : (arena_push_zero small 20000).effects ≡ zeroed 0 20032 ∷ []
unfolding arena_push_zero arena_push align_size
zeroes_null = refl

starts : (memory_initialize platform platform platform).0 ≡ true
unfolding memory_initialize arena_create arena_create_min
starts = refl

small-IsValid : IsValid small
small-IsValid = record {
  placed = omega arith;
  addresses = omega arith;
  fits = omega arith;
  aligned = omega arith;
}

rounds : (align_size 100 64 ≡ 128) × (align_size 200 64 ≡ 256) × (align_size 20000 64 ≡ 20032)
unfolding align_size
rounds = (refl, refl, refl)

arena_push-arena_push_example :
    let first = arena_push small 100 in
    let second = arena_push first.arena 200 in
    (65536 ≤ first.res) × (first.res + 100 ≤ second.res) × (second.res + 200 ≤ 65536 + 16384)
arena_push-arena_push_example =
    arena_push-arena_push small-IsValid 100 200 (omega arith) (omega arith) (omega (arith, rounds))

arena_snapshot_end-begin_example :
    let begun = arena_snapshot_begin small in
    arena_snapshot_end begun.0 (run_uses begun.1 (use_push 100 ∷ use_push 200 ∷ use_pop 200 ∷ []))
    ≡ small
arena_snapshot_end-begin_example =
    arena_snapshot_end-begin small (use_push 100 ∷ use_push 200 ∷ use_pop 200 ∷ [])

lines : align_size 8192 64 ≡ 8192
unfolding align_size
lines = refl

arena_shrink-arena_push_example :
    let pushed = arena_push small 8192 in
    (pushed.effects ≡ commit 65536 (align_size (0 + align_size 8192 64) 4096) ∷ [])
    × ((pushed.arena).size ≡ 4096)
    × ((pushed.arena).total_allocated ≡ 0 + align_size 8192 64)
    × ((start : ℕ) × (gone : ℕ) × (arena_shrink pushed.arena ≡ uncommit start gone ∷ [])
        × (gone ≡ 2 ^ 64 - (align_size (0 + align_size 8192 64) 4096 + 4096 - 4096))
        × (2 ^ 63 ≤ gone))
arena_shrink-arena_push_example =
    arena_shrink-arena_push small 12 52 8192 refl refl (omega (arith, lines)) (omega (arith, lines))
      (omega arith) (omega arith) (omega arith)

abbrev fresh_thread : ThreadArena
fresh_thread = record { a = small; b = small; index = 0; is_initialized = false }
