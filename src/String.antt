-- ===== src/String.antt =====
-- Lib/String.h, in a build without asserts: text behind a header with its length and capacity.
-- A `String` is the record of its header, its bytes and the number of bytes that its allocation has
-- behind the header; every copy and write is checked
-- against that number. Null is `none`. A C string is the list of
-- its bytes before the terminator, and a caller's buffer a function from index to byte, taken to be
-- long enough. `u32` sums wrap around.
mod Texts
mod Joined
pub mod Compared
mod Trimmed
mod Making
mod Tests
use scal_base.Prelude.{
  ℕ, zero, suc, ◌+◌, ◌-◌, ◌%◌, ◌^◌, Bool, true, false, not, ◌&&◌, ◌||◌, ltb, leb, ◌==◌,
  if◌then◌else◌, Run, ok, fault, out_of_fuel, ◌>>=◌, load, store, move, moved, update, Option, none,
  some, List, [], ◌∷◌, length, cells_of,
}
use scal_base.Prelude.Words.{u32}
use scal_base.Arena.{Arena, arena_push}

pub record String : Type 0 where
  pub size : ℕ
  pub capacity : ℕ
  pub bytes : ℕ → ℕ
  pub block : ℕ

-- `sizeof(string_header)`
abbrev pub header_size : ℕ
header_size = 8

unfoldable pub available_space : String → ℕ
available_space s = if ltb s.size s.capacity then s.capacity - s.size else 0

unfoldable pub memory_size : String → ℕ
memory_size s = u32 (header_size + s.capacity)

-- `SMemCopy(str + at, from, n)`
unfoldable pub copy_in : String → ℕ → (ℕ → ℕ) → ℕ → Run String
copy_in s at from n =
    if leb (at + n) s.block then ok (record s { bytes = moved s.bytes at from 0 n }) else fault

-- `str[at] = '\0'`
unfoldable pub terminate : String → ℕ → Run String
terminate s at = store s.block s.bytes at 0 >>= λ bytes. ok (record s { bytes = bytes })

-- The common end of the functions that write `n` bytes at `at`: copy, terminate, set the length.
unfoldable pub write_at : String → ℕ → (ℕ → ℕ) → ℕ → Run String
unfolding copy_in terminate
write_at s at from n = copy_in s at from n >>= λ copied.
    terminate copied (u32 (at + n)) >>= λ ended. ok (record ended { size = u32 (at + n) })

-- `fresh` is what the arena's memory holds; `init` is the buffer, unless it is null.
unfoldable pub string_make_length :
    (ℕ → ℕ) → Arena → Option (ℕ → ℕ) → ℕ → Run (Option String × Arena)
unfolding arena_push copy_in terminate
string_make_length fresh arena init num_bytes =
    let pushed = arena_push arena (u32 (header_size + num_bytes + 1)) in
    let block = u32 (header_size + num_bytes + 1) - header_size in
    let blank : String = record {
      size = num_bytes;
      capacity = num_bytes;
      bytes = fresh;
      block = block;
    } in
    let filled : Run String = elim init [
      | none ↦ ok (record blank { bytes = λ i. 0 })
      | some from ↦ copy_in blank 0 from num_bytes
    ] in
    if pushed.res == 0
    then ok (none, pushed.arena)
    else filled >>= λ s. terminate s num_bytes >>= λ ended. ok (some ended, pushed.arena)

-- `StringMake` of a C string, or of null.
unfoldable pub string_make : (ℕ → ℕ) → Arena → Option (List ℕ) → Run (Option String × Arena)
unfolding string_make_length
string_make fresh arena none = string_make_length fresh arena none 0
string_make fresh arena (some text) =
    string_make_length fresh arena (some (cells_of text)) (u32 (length text))

unfoldable pub string_clone : (ℕ → ℕ) → Arena → String → Run (Option String × Arena)
unfolding string_make_length
string_clone fresh arena s = string_make_length fresh arena (some s.bytes) s.size

unfoldable pub string_make_reserve : Arena → ℕ → Run (Option String × Arena)
unfolding arena_push terminate
string_make_reserve arena capacity =
    let pushed = arena_push arena (u32 (header_size + capacity + 1)) in
    let block = u32 (header_size + capacity + 1) - header_size in
    let blank : String = record { size = 0; capacity = capacity; bytes = λ i. 0; block = block } in
    if pushed.res == 0
    then ok (none, pushed.arena)
    else terminate blank capacity >>= λ ended. ok (some ended, pushed.arena)

unfoldable pub string_clear : String → Run String
unfolding terminate
string_clear s = terminate (record s { size = 0 }) 0

unfoldable pub string_append_length : String → (ℕ → ℕ) → ℕ → Run String
string_append_length s other other_len =
    if other_len == 0
    then ok s
    else if ltb s.capacity (u32 (s.size + other_len))
    then ok s
    else write_at s s.size other other_len

unfoldable pub string_append : String → List ℕ → Run String
unfolding string_append_length
string_append s other = string_append_length s (cells_of other) (u32 (length other))

unfoldable pub string_append_string : String → String → Run String
unfolding string_append_length
string_append_string s other = string_append_length s other.bytes other.size

-- The loop of `StringJoin` over the parts that are left.
unfoldable pub string_join : String → List (List ℕ) → List ℕ → Run String
unfolding string_append
string_join s [] glue = ok s
string_join s (part ∷ []) glue = string_append s part
string_join s (part ∷ next ∷ parts) glue = string_append s part >>= λ joined.
    string_append joined glue >>= λ glued. string_join glued (next ∷ parts) glue

unfoldable pub string_set : String → List ℕ → Run String
string_set s text =
    let len = if ltb s.capacity (u32 (length text)) then s.capacity else length text in
    write_at s 0 (cells_of text) len

-- `SAllocatorRealloc` answers with null, or with a block of `size` bytes behind the header that starts with the
-- bytes of the old one; `fresh` is what the rest of it holds.
unfoldable pub reallocate : (ℕ → ℕ) → String → ℕ → String
reallocate fresh s size = record s {
  bytes = λ i. if ltb i s.block then s.bytes i else fresh i;
  block = size - header_size;
}

unfoldable pub string_make_space_for : Bool → (ℕ → ℕ) → String → ℕ → Option String
unfolding available_space reallocate
string_make_space_for granted fresh s add_len =
    let new_len = u32 (s.size + add_len) in
    if leb add_len (available_space s)
    then some s
    else if granted
    then some (record (reallocate fresh s (u32 (header_size + new_len + 1))) { capacity = new_len })
    else none

unfoldable pub string_append_allocator : Bool → (ℕ → ℕ) → String → List ℕ → ℕ → Run (Option String)
unfolding memory_size reallocate
string_append_allocator granted fresh s other other_len =
    let wanted = u32 (s.size + other_len) in
    let grown = record (reallocate fresh s (u32 (memory_size s + other_len))) {
      capacity = wanted;
    } in
    let finish =
      λ (t : String). write_at t s.size (cells_of other) other_len >>= λ r. ok (some r) in
    if other_len == 0
    then ok (some s)
    else if ltb s.capacity wanted
    then (if granted then finish grown else ok none)
    else finish s

-- The loop of `StringAreEqual` from `i` on, over `n` bytes.
unfoldable pub equal_loop : String → String → ℕ → ℕ → Bool
equal_loop lhs rhs zero i = true
equal_loop lhs rhs (suc n) i =
    let rest = equal_loop lhs rhs n (i + 1) in if lhs.bytes i == rhs.bytes i then rest else false

unfoldable pub string_are_equal : String → String → Bool
unfolding equal_loop
string_are_equal lhs rhs = if lhs.size == rhs.size then equal_loop lhs rhs lhs.size 0 else false

-- The two loops of `StringTrim`; `in_cut` is whether `zpl_char_first_occurence` finds a byte in the set,
-- and `stop` is one past `end`, or past `end_pos`.
unfoldable pub skip_front : (ℕ → Bool) → (ℕ → ℕ) → ℕ → ℕ → ℕ
skip_front in_cut bytes zero start = start
skip_front in_cut bytes (suc left) start =
    let rest = skip_front in_cut bytes left (start + 1) in
    if in_cut (bytes start) then rest else start

unfoldable pub skip_back : (ℕ → Bool) → (ℕ → ℕ) → ℕ → ℕ → ℕ
skip_back in_cut bytes start zero = zero
skip_back in_cut bytes start (suc last) =
    let rest = skip_back in_cut bytes start last in
    if ltb start last && in_cut (bytes last) then rest else suc last

unfoldable pub string_trim : (ℕ → Bool) → String → Run String
unfolding skip_front skip_back terminate
string_trim in_cut s =
    let start = skip_front in_cut s.bytes s.size 0 in
    let stop = skip_back in_cut s.bytes start s.size in
    let len = if leb stop start then 0 else stop - start in
    (if start == 0 then ok s.bytes else move s.block s.bytes 0 start len) >>= λ bytes.
    terminate (record s { bytes = bytes }) len >>= λ ended. ok (record ended { size = len })

-- `granted` is whether the allocator answers with a block.
unfoldable pub string_make_allocator : Bool → (ℕ → ℕ) → Option (List ℕ) → Run (Option String)
unfolding copy_in terminate
string_make_allocator granted fresh init =
    let text : List ℕ = elim init [ none ↦ [] | some t ↦ t ] in
    let len = length text in
    let blank : String = record {
      size = u32 len;
      capacity = u32 len;
      bytes = elim init [ none ↦ (λ i. 0) | some _ ↦ fresh ];
      block = len + 1;
    } in
    if granted
    then (copy_in blank 0 (cells_of text) len >>= λ s. terminate s len >>= λ ended. ok (some ended))
    else ok none

-- `printed` is what `zpl_snprintf_va` puts into the first `num_bytes` bytes.
unfoldable pub string_sprintf : (ℕ → ℕ) → Option String → ℕ → Run (Option String)
unfolding copy_in
string_sprintf printed none num_bytes = ok none
string_sprintf printed (some s) num_bytes =
    (if ltb num_bytes s.capacity
      then copy_in s 0 (λ i. 0) num_bytes
      else write_at s 0 printed num_bytes)
    >>= λ r. ok (some r)

-- `encoded` and `len` are what `zpl_utf8_encode_rune` gives for a rune that is not negative.
unfoldable pub string_append_rune : Option ((ℕ → ℕ) × ℕ) → String → Run String
unfolding string_append_length
string_append_rune none s = ok s
string_append_rune (some (encoded, len)) s = string_append_length s encoded (u32 len)

-- `printed` and `count` are the buffer and the result of `zpl_snprintf_va`.
unfoldable pub string_append_fmt : (ℕ → ℕ) → ℕ → String → Run String
unfolding string_append_length
string_append_fmt printed count s = string_append_length s printed (u32 (count + (2 ^ 32 - 1)))

-- The cut set of `StringTrimSpace`.
abbrev pub is_space : ℕ → Bool
is_space b = b == 32 || b == 9 || b == 13 || b == 10 || b == 11 || b == 12

unfoldable pub string_trim_space : String → Run String
unfolding string_trim
string_trim_space s = string_trim is_space s

-- `printed` is the C string that `zpl_snprintf_va` leaves in the static buffer.
unfoldable pub string_sprintf_buffer : (ℕ → ℕ) → Arena → List ℕ → Run (Option String × Arena)
unfolding string_make
string_sprintf_buffer fresh arena printed = string_make fresh arena (some printed)
