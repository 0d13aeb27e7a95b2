-- ===== src/Arena.antt =====
-- Lib/Arena.h, in a build without asserts: an arena hands out consecutive blocks of a reserved range
-- of addresses. A pointer is its address, and null is 0. The platform's memory functions are
-- parameters; what a call asks of the platform and what it zeroes is a list of effects.
pub mod Blocks
mod Sizes
mod Tests
use scal_base.Prelude.{
  ℕ, zero, suc, ◌+◌, ◌-◌, ◌*◌, ◌/◌, ◌%◌, ◌^◌, Bool, true, false, not, ◌&&◌, ◌||◌, ltb, leb, ◌==◌,
  if◌then◌else◌, List, [], ◌∷◌, ◌++◌,
}
use scal_base.Prelude.Words.{u64}
use scal_base.Base.{align_size}

-- `PlatformPageSize`, `PlatformMemoryReserve` and `PlatformMemoryCommit`.
pub record Platform : Type 0 where
  pub page_size : ℕ
  pub reserve : ℕ → ℕ
  pub commit : ℕ → ℕ → ℕ

pub data Effect : Type 0 where
  commit uncommit zeroed : ℕ → ℕ → Effect

pub record Arena : Type 0 where
  pub memory : ℕ
  pub reserved_size : ℕ
  pub size : ℕ
  pub total_allocated : ℕ
  pub min_size : ℕ
  pub alignment : ℕ
  pub temp_count : ℕ

pub record ThreadArena : Type 0 where
  pub a : Arena
  pub b : Arena
  pub index : ℕ
  pub is_initialized : Bool

-- `SCAL_CACHE_LINE`
abbrev pub cache_line : ℕ
cache_line = 64

abbrev pub sub64 : ℕ → ℕ → ℕ
sub64 x y = (x + 2 ^ 64 - y) % 2 ^ 64

-- The arena is returned whether or not the platform answers with null.
unfoldable pub arena_create_min : Platform → ℕ → ℕ → ℕ → Arena × List Effect
arena_create_min platform reserve_size initial_commit_size min =
    let page_size = platform.page_size in
    let reserved = align_size reserve_size page_size in
    let initial = align_size initial_commit_size page_size in
    let least = align_size (if ltb page_size min then min else page_size) page_size in
    let committed = if ltb initial least then least else initial in
    let memory = platform.reserve reserved in
    let result : Arena = record {
      memory = memory;
      reserved_size = reserved;
      size = committed;
      total_allocated = 0;
      min_size = least;
      alignment = page_size;
      temp_count = 0;
    } in
    (
      result,
      (if memory == 0 then [] else if ltb 0 committed then commit memory committed ∷ [] else []),
    )

unfoldable pub arena_create : Platform → ℕ → ℕ → Arena × List Effect
unfolding arena_create_min
arena_create platform reserve_size initial_commit_size =
    arena_create_min platform reserve_size initial_commit_size 0

-- The arena afterwards, and what it asks of the platform.
unfoldable pub arena_grow : Arena → ℕ → Arena × List Effect
arena_grow arena size_needed =
    let new_size = align_size size_needed arena.alignment in
    (arena, commit arena.memory new_size ∷ [])

unfoldable pub arena_size_remaining : Arena → ℕ
arena_size_remaining arena = sub64 arena.size (align_size arena.total_allocated arena.alignment)

unfoldable pub arena_shrink : Arena → List Effect
unfolding arena_size_remaining
arena_shrink arena =
    let size_needed = u64 (align_size arena.total_allocated arena.alignment + arena.min_size) in
    if arena.min_size == 0
    then []
    else if ltb arena.min_size (arena_size_remaining arena)
    then uncommit (u64 (arena.memory + size_needed)) (sub64 arena.size size_needed) ∷ []
    else []

-- The snapshot keeps `OriginalTotalAllocated`; its `Arena` is the one passed to both functions.
unfoldable pub arena_snapshot_begin : Arena → ℕ × Arena
arena_snapshot_begin arena =
    (arena.total_allocated, record arena { temp_count = arena.temp_count + 1 })

unfoldable pub arena_snapshot_end : ℕ → Arena → Arena
arena_snapshot_end original_total_allocated arena = record arena {
  total_allocated = original_total_allocated;
  temp_count = arena.temp_count - 1;
}

pub record Pushed : Type 0 where
  pub res : ℕ
  pub arena : Arena
  pub effects : List Effect

unfoldable pub arena_push : Arena → ℕ → Pushed
unfolding arena_grow
arena_push arena size =
    let total_size = align_size size cache_line in
    let size_needed = u64 (arena.total_allocated + total_size) in
    let grown = if ltb arena.size size_needed then arena_grow arena size_needed else (arena, []) in
    if ltb arena.size size_needed && ltb arena.reserved_size size_needed
    then record { res = 0; arena = arena; effects = [] }
    else record {
      res = u64 ((grown.0).memory + (grown.0).total_allocated);
      arena = record (grown.0) { total_allocated = size_needed };
      effects = grown.1;
    }

unfoldable pub arena_push_zero : Arena → ℕ → Pushed
unfolding arena_push
arena_push_zero arena size =
    let pushed = arena_push arena size in
    record pushed {
      effects = pushed.effects ++ (zeroed pushed.res (align_size size cache_line) ∷ []);
    }

unfoldable pub arena_pop : Arena → ℕ → Arena
arena_pop arena size = record arena {
  total_allocated = sub64 arena.total_allocated (align_size size cache_line);
}

pub data AllocatorType : Type 0 where
  malloc realloc free other : AllocatorType

-- `SAllocatorArena`: the pointer that it returns, the arena and the effects.
unfoldable pub allocator_arena : AllocatorType → Arena → ℕ → ℕ → Pushed
unfolding arena_push
allocator_arena malloc arena ptr size =
    if ptr == 0
    then arena_push arena (align_size size cache_line)
    else record { res = ptr; arena = arena; effects = [] }
allocator_arena realloc arena ptr size = record { res = ptr; arena = arena; effects = [] }
allocator_arena free arena ptr size = record { res = ptr; arena = arena; effects = [] }
allocator_arena other arena ptr size = record { res = 0; arena = arena; effects = [] }

abbrev pub gigabyte : ℕ
gigabyte = 1024 * 1024 * 1024

abbrev pub megabyte : ℕ
megabyte = 1024 * 1024

-- `g_AppArena`, `g_GameArena` and `g_FrameArena`, and whether all three have memory. The platform may
-- answer each request differently.
unfoldable pub memory_initialize : Platform → Platform → Platform → Bool × Arena × Arena × Arena
unfolding arena_create
memory_initialize first second third =
    let app = (arena_create first gigabyte megabyte).0 in
    let game = (arena_create second gigabyte megabyte).0 in
    let frame = (arena_create third gigabyte megabyte).0 in
    (not (app.memory == 0 || game.memory == 0 || frame.memory == 0), app, game, frame)

pub data Scratch : Type 0 where
  scratch_a scratch_b : Scratch

-- The arena that `GetScratch` points to, and the thread's arenas afterwards.
unfoldable pub get_scratch : Platform → Platform → ThreadArena → Scratch × ThreadArena
unfolding arena_create
get_scratch first second thread =
    let ready = if thread.is_initialized then thread else record thread {
      is_initialized = true;
      a = (arena_create first (16 * megabyte) megabyte).0;
      b = (arena_create second (16 * megabyte) megabyte).0;
    } in
    if ready.index == 0
    then (scratch_a, record ready { index = 1 })
    else (scratch_b, record ready { index = 0 })
