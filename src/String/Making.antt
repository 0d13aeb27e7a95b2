-- ===== src/String/Making.antt =====
-- Making strings in an arena, growing them with an allocator, and printing into them.
use native.Mathlib.Decide.{dec_lt, dec_le}
use scal_base.Prelude.{
  ℕ, ◌+◌, ◌-◌, ◌^◌, ◌≤◌, ◌<◌, ◌≡◌, refl, ap, sym, ◌∙◌, arith, true, false, ltb, leb, ◌==◌,
  if◌then◌else◌, some, List, ◌++◌, length, cells_of, contents, contents-ext, moved-inside,
  contents-cells_of, moved, update, update_self, lt→ltb, ok, fault, ◌>>=◌, Returns, returns,
  Returns-inv, Returns-map,
}
use scal_base.Prelude.Words.{u32}
use scal_base.Base.{align_size}
use scal_base.Arena.{Arena, arena_push}
use scal_base.Arena.Blocks.{IsValid as IsValidArena, Cut, arena_push-Cut}
use scal_base.String.{
  String, header_size, available_space, memory_size, copy_in, terminate, write_at,
  string_make_length, string_clone, string_are_equal, reallocate, string_make_space_for,
  string_append_allocator, string_sprintf,
}
use scal_base.String.Compared.{string_are_equal_iff}
use scal_base.String.Texts.{IsValid, text, Holding, write_at-Holding}

-- A string with the text `t`, no longer than its capacity, in a block cut off from the arena `a`.
pub record Made (a : Arena) (t : List ℕ) (s : String) (r : Arena) : Type 0 where
  pub valid : IsValid s
  pub exact : s.size ≡ s.capacity
  pub reads : text s ≡ t
  pub res : ℕ
  pub cut : Cut a (header_size + s.block) res r

module _ {a : Arena} (valid : IsValidArena a) (fresh : ℕ → ℕ) where
  -- `StringMakeLength`
  pub string_make_length-Made :
      (from : ℕ → ℕ) (n : ℕ)
      → header_size + n + 1 < 2 ^ 32
      → a.total_allocated + align_size (header_size + n + 1) 64 ≤ a.reserved_size
      → Returns
          (λ r. (s : String) × (r.0 ≡ some s) × Made a (contents from n) s r.1)
          (string_make_length fresh a (some from) n)
  unfolding string_make_length copy_in terminate
  string_make_length-Made from n small room =
      let sum : u32 (header_size + n + 1) ≡ header_size + n + 1 = omega arith in
      let rest : header_size + n + 1 - header_size ≡ n + 1 = omega arith in
      let whole : header_size + (n + 1) ≡ header_size + n + 1 = omega arith in
      let cut = arena_push-Cut valid (header_size + n + 1) room (omega arith) in
      let given : ((arena_push a (header_size + n + 1)).res == 0) ≡ false =
        ground (arith, cut.start, valid.placed) in
      let inside : leb (0 + n) (n + 1) ≡ true = ground arith in
      let end : ltb n (n + 1) ≡ true = ground arith in
      let copied = moved fresh 0 from 0 n in
      rw (sum, given, rest, inside, end)
        (returns (
          record { size = n; capacity = n; bytes = update copied n 0; block = n + 1 },
          refl,
          record {
            valid = record {
              fits = omega arith;
              room = omega arith;
              word = omega arith;
              ended = update_self copied n 0;
            };
            exact = refl;
            reads = contents-ext from (update copied n 0) n (λ j h. written from n j h);
            res = (arena_push a (header_size + n + 1)).res;
            cut = rw whole cut;
          },
        ))
    where
      index : (j : ℕ) → 0 + (j - 0) ≡ j
      index j = omega arith

      written : (from : ℕ → ℕ) (n j : ℕ) → j < n → update (moved fresh 0 from 0 n) n 0 j ≡ from j
      written from n j h = ground (arith, index j)

  -- `StringClone` of a string, with room in a valid arena and a size that stays below 2 ^ 32 with
  -- header and terminator, gives a string that `StringAreEqual` finds equal, with the same text,
  -- in a block that it cuts off from the arena.
  pub string_are_equal-string_clone :
      (s : String)
      → header_size + s.size + 1 < 2 ^ 32
      → a.total_allocated + align_size (header_size + s.size + 1) 64 ≤ a.reserved_size
      → Returns
          (λ r.
            (t : String) × (r.0 ≡ some t) × Made a (text s) t r.1 × (string_are_equal s t ≡ true))
          (string_clone fresh a s)
  unfolding string_clone
  string_are_equal-string_clone s small room =
      Returns-map (string_make_length-Made s.bytes s.size small room)
        (λ r h. (h.0, h.1, h.2, (string_are_equal_iff s h.0).1 (sym h.2.reads)))

-- `StringMakeSpaceFor`, when the allocator gives memory.
pub string_make_space_for-available :
    (fresh : ℕ → ℕ) {s : String}
    → IsValid s
    → (add_len : ℕ) → header_size + s.size + add_len + 1 < 2 ^ 32
    → (t : String) × (string_make_space_for true fresh s add_len ≡ some t)
      × IsValid t
      × (text t ≡ text s)
      × (add_len ≤ available_space t)
unfolding string_make_space_for available_space reallocate
string_make_space_for-available fresh {s} valid add_len small =
    elim (dec_le add_len (available_space s)) [
      | yes enough ↦
          let test : leb add_len (available_space s) ≡ true = ground arith in
          rw test (s, refl, valid, refl, enough)
      | no less ↦
          let test : leb add_len (available_space s) ≡ false = ground arith in
          let grown : u32 (s.size + add_len) ≡ s.size + add_len = omega arith in
          let sum : u32 (header_size + (s.size + add_len) + 1)
              ≡ header_size + (s.size + add_len) + 1 =
            omega arith in
          let rest : header_size + (s.size + add_len) + 1 - header_size ≡ s.size + add_len + 1 =
            omega arith in
          let bytes : ℕ → ℕ = λ i. if ltb i s.block then s.bytes i else fresh i in
          let t : String = record {
            size = s.size;
            capacity = s.size + add_len;
            bytes = bytes;
            block = s.size + add_len + 1;
          } in
          let before : (j : ℕ) → j ≤ s.size → bytes j ≡ s.bytes j =
            λ j h. rw (lt→ltb j s.block (omega (arith, valid.fits, valid.room))) refl in
          let more : ltb s.size (s.size + add_len) ≡ true = ground (arith, less) in
          rw (test, grown, sum, rest)
            (
              t,
              refl,
              record {
                fits = omega arith;
                room = omega arith;
                word = omega arith;
                ended = before s.size (omega arith) ∙ valid.ended;
              },
              contents-ext s.bytes bytes s.size (λ j h. before j (omega arith)),
              rw more (omega arith),
            )
    ]

-- `StringAppendAllocator` of a text that is not empty, when the allocator gives memory, to a string that
-- is not full: the text is appended.
pub string_append_allocator-appends :
    (fresh : ℕ → ℕ) {s : String}
    → IsValid s
    → (t : List ℕ) → 0 < length t
    → s.size < s.capacity
    → header_size + s.capacity + length t < 2 ^ 32
    → Returns
        (λ r. (q : String) × (r ≡ some q) × IsValid q × (text q ≡ text s ++ t))
        (string_append_allocator true fresh s t (length t))
unfolding string_append_allocator memory_size reallocate
string_append_allocator-appends fresh {s} valid t any space small =
    let some_left : (length t == 0) ≡ false = ground arith in
    let sum : u32 (s.size + length t) ≡ s.size + length t = omega arith in
    let old : u32 (header_size + s.capacity) ≡ header_size + s.capacity = omega arith in
    let new : u32 (header_size + s.capacity + length t) ≡ header_size + s.capacity + length t =
      omega arith in
    let rest : header_size + s.capacity + length t - header_size ≡ s.capacity + length t =
      omega arith in
    let bytes : ℕ → ℕ = λ i. if ltb i s.block then s.bytes i else fresh i in
    let g : String = record {
      size = s.size;
      capacity = s.size + length t;
      bytes = bytes;
      block = s.capacity + length t;
    } in
    let kept : contents bytes s.size ≡ text s =
      contents-ext s.bytes bytes s.size
        (λ j h. rw (lt→ltb j s.block (omega (arith, valid.fits, valid.room))) refl) in
    let finish : (q : String)
        → Returns (Holding q (contents q.bytes s.size ++ t))
            (write_at q s.size (cells_of t) (length t))
        → contents q.bytes s.size ≡ text s
        → Returns (λ r. (q : String) × (r ≡ some q) × IsValid q × (text q ≡ text s ++ t))
            (write_at q s.size (cells_of t) (length t) >>= λ r. ok (some r)) =
      λ q run same.
        let (r, e, h) = Returns-inv run in
        rw e (returns (r, refl, h.valid, h.reads ∙ ap (λ xs. xs ++ t) same)) in
    elim (dec_lt s.capacity (s.size + length t)) [
      | yes full ↦
          let test : ltb s.capacity (s.size + length t) ≡ true = ground arith in
          let run =
            write_at-Holding g s.size (cells_of t) (length t) (omega arith) (omega arith)
              (omega arith) in
          rw (some_left, sum, test, old, new, rest)
            (finish g (rw (contents-cells_of t) at run) kept)
      | no room ↦
          let test : ltb s.capacity (s.size + length t) ≡ false = ground arith in
          let run =
            write_at-Holding s s.size (cells_of t) (length t) (omega (arith, room)) valid.room
              valid.word in
          rw (some_left, sum, test) (finish s (rw (contents-cells_of t) at run) refl)
    ]

-- `StringAppendAllocator` of a text that is not empty to a full string, when the allocator gives
-- the memory that it is asked for and the sum of the sizes stays below 2 ^ 32, writes the
-- terminator behind the block.
pub string_append_allocator-overrun :
    (fresh : ℕ → ℕ) (s : String) (t : List ℕ)
    → 0 < length t
    → s.size ≡ s.capacity
    → header_size + s.capacity + length t < 2 ^ 32
    → string_append_allocator true fresh s t (length t) ≡ fault
unfolding string_append_allocator memory_size reallocate write_at copy_in terminate
string_append_allocator-overrun fresh s t any full small =
    let some_left : (length t == 0) ≡ false = ground arith in
    let sum : u32 (s.capacity + length t) ≡ s.capacity + length t = omega arith in
    let old : u32 (header_size + s.capacity) ≡ header_size + s.capacity = omega arith in
    let new : u32 (header_size + s.capacity + length t) ≡ header_size + s.capacity + length t =
      omega arith in
    let rest : header_size + s.capacity + length t - header_size ≡ s.capacity + length t =
      omega arith in
    let test : ltb s.capacity (s.capacity + length t) ≡ true = ground arith in
    let inside : leb (s.capacity + length t) (s.capacity + length t) ≡ true = ground arith in
    let behind : ltb (s.capacity + length t) (s.capacity + length t) ≡ false = ground arith in
    rw (full, some_left, sum, test, old, new, rest, inside, behind) refl

-- `StringSprintf` into a string whose block ends with the terminator, with a number of bytes above the
-- capacity: it writes behind the block.
pub string_sprintf-overrun :
    (printed : ℕ → ℕ) {s : String}
    → IsValid s
    → s.block ≡ s.capacity + 1
    → (n : ℕ) → s.capacity < n
    → n < 2 ^ 32
    → string_sprintf printed (some s) n ≡ fault
unfolding string_sprintf write_at copy_in terminate
string_sprintf-overrun printed {s} valid exact n over small =
    let test : ltb n s.capacity ≡ false = ground arith in
    let sum : u32 n ≡ n = omega arith in
    let at : 0 + n ≡ n = omega arith in
    let out : ltb n s.block ≡ false = ground (arith, exact) in
    elim (dec_le n s.block) [
      | yes edge ↦
          let copy : leb n s.block ≡ true = ground arith in rw (test, at, copy, sum, out) refl
      | no far ↦ let copy : leb n s.block ≡ false = ground arith in rw (test, at, copy) refl
    ]

-- `StringSprintf` into a valid string, with a number of bytes below the capacity, only zeroes that many
-- bytes: the text is not printed, and the header keeps the old length.
pub string_sprintf-zeroed :
    (printed : ℕ → ℕ) {s : String}
    → IsValid s
    → (n : ℕ) → n < s.capacity
    → Returns
        (λ r.
          (q : String) × (r ≡ some q)
          × (q.size ≡ s.size)
          × (contents q.bytes n ≡ contents (λ j. 0) n))
        (string_sprintf printed (some s) n)
unfolding string_sprintf copy_in
string_sprintf-zeroed printed {s} valid n under =
    let test : ltb n s.capacity ≡ true = ground arith in
    let copy : leb (0 + n) s.block ≡ true = ground (arith, valid.room) in
    rw (test, copy)
      (returns (
        _,
        refl,
        refl,
        contents-ext (λ j. 0) (moved s.bytes 0 (λ j. 0) 0 n) n
            (λ j h. moved-inside s.bytes (λ j. 0) 0 0 n j (omega arith) (omega arith)),
      ))
