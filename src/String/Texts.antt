-- ===== src/String/Texts.antt =====
-- A string as the text in front of its terminator.
use scal_base.Prelude.{
  ℕ, ◌+◌, ◌-◌, ◌^◌, ◌≤◌, ◌<◌, ◌≡◌, refl, ap, ◌∙◌, arith, true, false, ltb, leb, ◌==◌, if◌then◌else◌,
  ok, moved, update, update_self, Bool, sym, Returns, returns, Returns-map, List, ◌++◌, length,
  cells_of, contents, contents-ext, contents_split, contents-cells_of, contents-cells_of-take, take,
}
use native.Mathlib.Decide.{ℕ_discrete, dec_lt}
use mathlib.Core.List.{append-nil}
use scal_base.Prelude.Words.{u32}
use scal_base.String.{
  String, copy_in, terminate, write_at, string_append_length, string_append, string_append_string,
  string_set,
}

-- The text fits in front of the terminator, and the terminator within the block.
pub record IsValid (s : String) : Type 0 where
  pub fits : s.size ≤ s.capacity
  pub room : s.capacity < s.block
  pub word : s.block < 2 ^ 32
  pub ended : s.bytes s.size ≡ 0

abbrev pub text : String → List ℕ
text s = contents s.bytes s.size

-- `r` is `s` with the text `t`, in the same block.
pub record Holding (s : String) (t : List ℕ) (r : String) : Type 0 where
  pub valid : IsValid r
  pub capacity : r.capacity ≡ s.capacity
  pub block : r.block ≡ s.block
  pub reads : text r ≡ t

-- `r` is `s` with the text `t` behind its own if it fits, and `s` itself otherwise.
pub record Appended (s : String) (fits : Bool) (t : List ℕ) (r : String) : Type 0 where
  pub holds : Holding s (if fits then text s ++ t else text s) r
  pub kept : r ≡ (if fits then r else s)

pub write_at-Holding :
    (s : String) (at : ℕ) (from : ℕ → ℕ) (n : ℕ)
    → at + n ≤ s.capacity
    → s.capacity < s.block
    → s.block < 2 ^ 32
    → Returns (Holding s (contents s.bytes at ++ contents from n)) (write_at s at from n)
unfolding write_at copy_in terminate
write_at-Holding s at from n fits room word =
    let copied = moved s.bytes at from 0 n in
    let after = update copied (at + n) 0 in
    let sum : u32 (at + n) ≡ at + n = omega arith in
    let inside : leb (at + n) s.block ≡ true = ground arith in
    let end : ltb (at + n) s.block ≡ true = ground arith in
    let round : write_at s at from n ≡ ok (record s { bytes = after; size = at + n }) =
      rw (inside, sum, end) in
    rw round (
      returns record {
        valid = record {
          fits = fits;
          room = room;
          word = word;
          ended = update_self copied (at + n) 0;
        };
        capacity = refl;
        block = refl;
        reads =
            contents_split after at n
            ∙ rw (contents-ext s.bytes after at (λ j h. ground arith)) (
                ap (λ xs. contents s.bytes at ++ xs)
                  (contents-ext from (λ i. after (at + i)) n
                    (λ j h. shifted s.bytes from at n j h)));
      })
  where
    back : (at j : ℕ) → at + j - at ≡ j
    back at j = omega arith

    shifted :
        (cells from : ℕ → ℕ) (at n j : ℕ)
        → j < n
        → update (moved cells at from 0 n) (at + n) 0 (at + j) ≡ from j
    shifted cells from at n j h = ground (arith, back at j)

module _ {s : String} (valid : IsValid s) where
  -- `StringAppendLength` to a valid string.
  pub string_append_length-Appended :
      (other : ℕ → ℕ) (n : ℕ)
      → n < 2 ^ 31
      → s.capacity < 2 ^ 31
      → Returns
          (Appended s (leb (s.size + n) s.capacity) (contents other n))
          (string_append_length s other n)
  unfolding string_append_length contents
  string_append_length-Appended other n small half =
      let sum : u32 (s.size + n) ≡ s.size + n = omega (arith, valid.fits, half) in
      let same : Appended s false (contents other n) s = record {
        holds = record { valid = valid; capacity = refl; block = refl; reads = refl };
        kept = refl;
      } in
      elim (ℕ_discrete n 0) [
        | yes nothing ↦
            let within : leb (s.size + 0) s.capacity ≡ true = ground (arith, valid.fits) in
            rw (nothing, within)
              (returns record {
                holds = record {
                  valid = valid;
                  capacity = refl;
                  block = refl;
                  reads = sym (append-nil (text s));
                };
                kept = refl;
              })
        | no any ↦
            let more : (n == 0) ≡ false = ground (arith, any) in
            elim (dec_lt s.capacity (s.size + n)) [
              | yes full ↦
                  let test : ltb s.capacity (s.size + n) ≡ true = ground arith in
                  let test' : leb (s.size + n) s.capacity ≡ false = ground arith in
                  rw (more, sum, test, test') (returns same)
              | no room ↦
                  let test : ltb s.capacity (s.size + n) ≡ false = ground arith in
                  let test' : leb (s.size + n) s.capacity ≡ true = ground arith in
                  rw (more, sum, test, test')
                    (Returns-map
                      (write_at-Holding s s.size other n (omega (arith, room)) valid.room
                        valid.word)
                      (λ r h. record { holds = h; kept = refl }))
            ]
      ]

  -- `StringAppend` of a text shorter than 2 ^ 31 to a valid string with a capacity below 2 ^ 31
  -- appends the text if it fits into the capacity, and otherwise gives back the string as it was,
  -- with every byte of its block; the string stays valid, in the same block and with the same
  -- capacity.
  pub string_append-Appended :
      (t : List ℕ)
      → length t < 2 ^ 31
      → s.capacity < 2 ^ 31
      → Returns (Appended s (leb (s.size + length t) s.capacity) t) (string_append s t)
  unfolding string_append
  string_append-Appended t small half =
      let word : u32 (length t) ≡ length t = omega arith in
      let run = string_append_length-Appended (cells_of t) (length t) small half in
      rw word (rw (contents-cells_of t) at run)

  -- `StringSet` keeps as much of the text as fits.
  pub string_set-Holding :
      (t : List ℕ)
      → length t < 2 ^ 32
      → Returns
          (Holding s (take (if ltb s.capacity (length t) then s.capacity else length t) t))
          (string_set s t)
  unfolding string_set contents
  string_set-Holding t small =
      let word : u32 (length t) ≡ length t = omega arith in
      let len = if ltb s.capacity (length t) then s.capacity else length t in
      let short : len ≤ length t = ground arith in
      let run = write_at-Holding s 0 (cells_of t) len (ground arith) valid.room valid.word in
      rw word (rw (contents-cells_of-take t len short) at run)

  -- `StringAppendString`.
  pub string_append_string-Holding :
      (other : String)
      → other.size < 2 ^ 31
      → s.capacity < 2 ^ 31
      → Returns
          (Holding s
            (if leb (s.size + other.size) s.capacity then text s ++ text other else text s))
          (string_append_string s other)
  unfolding string_append_string
  string_append_string-Holding other small half =
      Returns-map (string_append_length-Appended other.bytes other.size small half) (λ r a. a.holds)
