-- ===== src/String/Tests.antt =====
-- Runs of the strings, and the theorems at small texts.

use scal_base.Prelude.{
  ℕ, ◌+◌, ◌≡◌, ◌↔◌, refl, arith, Bool, true, ◌==◌, Option, none, some, List, [], ◌∷◌, ◌++◌, length,
  cells_of, contents, ok, fault, ◌>>=◌, Returns, leb,
}
use scal_base.Base.{align_size}
use scal_base.Arena.{Arena, arena_push}
use scal_base.Arena.Blocks.{IsValid as IsValidArena}
use scal_base.String.{
  String, string_make, string_make_length, string_make_reserve, string_trim_space,
  string_sprintf_buffer, string_clone, string_append, string_append_length, string_append_string,
  string_set, string_clear, string_join, string_trim, string_are_equal, string_append_allocator,
  string_make_allocator, string_append_rune, string_append_fmt, write_at, copy_in, terminate,
  skip_front, skip_back,
}
use scal_base.String.Texts.{IsValid, text, Holding, Appended, string_append-Appended}
use scal_base.String.Joined.{joined, string_join-joined}
use scal_base.String.Compared.{string_are_equal_iff}
use scal_base.String.Trimmed.{drop_front, drop_back, string_trim-drop}
use scal_base.String.Making.{Made, string_are_equal-string_clone, string_append_allocator-overrun}

-- "abc" in a block for 9 bytes and the terminator.
abbrev abc : String
abc = record { size = 3; capacity = 9; bytes = cells_of (97 ∷ 98 ∷ 99 ∷ []); block = 10 }

abc-IsValid : IsValid abc
unfolding cells_of
abc-IsValid = record { fits = omega arith; room = omega arith; word = omega arith; ended = refl }

-- "  ab "
abbrev padded : String
padded = record {
  size = 5;
  capacity = 5;
  bytes = cells_of (32 ∷ 32 ∷ 97 ∷ 98 ∷ 32 ∷ []);
  block = 6;
}

padded-IsValid : IsValid padded
unfolding cells_of
padded-IsValid = record { fits = omega arith; room = omega arith; word = omega arith; ended = refl }

abbrev space : ℕ → Bool
space b = b == 32

abbrev small : Arena
small = record {
  memory = 65536;
  reserved_size = 16384;
  size = 16384;
  total_allocated = 64;
  min_size = 4096;
  alignment = 4096;
  temp_count = 0;
}

small-IsValid : IsValidArena small
small-IsValid = record {
  placed = omega arith;
  addresses = omega arith;
  fits = omega arith;
  aligned = refl;
}

abbrev dash : List ℕ
dash = 45 ∷ []

abbrev one : List ℕ
one = 100 ∷ []

abbrev two : List ℕ
two = 100 ∷ 101 ∷ []

abbrev parts : List (List ℕ)
parts = (100 ∷ []) ∷ (101 ∷ 102 ∷ []) ∷ []

-- The text, or an empty one for null.
abbrev text_of : Option String → List ℕ
text_of none = []
text_of (some s) = text s

session :
    (string_append abc (100 ∷ []) >>= λ a. string_append_string a abc >>= λ b. ok (text b))
    ≡ ok (97 ∷ 98 ∷ 99 ∷ 100 ∷ 97 ∷ 98 ∷ 99 ∷ [])
unfolding string_append string_append_string string_append_length write_at copy_in terminate
    contents cells_of
session = refl

full_stays :
    (string_append abc (1 ∷ 2 ∷ 3 ∷ 4 ∷ 5 ∷ 6 ∷ 7 ∷ []) >>= λ a. ok (text a))
    ≡ ok (97 ∷ 98 ∷ 99 ∷ [])
unfolding string_append string_append_length write_at copy_in terminate contents cells_of
full_stays = refl

set_and_clear :
    (string_set abc (7 ∷ 8 ∷ []) >>= λ a. string_clear a >>= λ b. ok (text a ++ text b))
    ≡ ok (7 ∷ 8 ∷ [])
unfolding string_set string_clear write_at copy_in terminate contents cells_of
set_and_clear = refl

made :
    (string_make (λ i. 9) small (some (97 ∷ 98 ∷ [])) >>= λ r. ok (text_of r.0)) ≡ ok (97 ∷ 98 ∷ [])
unfolding string_make string_make_length arena_push align_size copy_in terminate contents cells_of
made = refl

reserved : (string_make_reserve small 4 >>= λ r. ok (text_of r.0)) ≡ ok []
unfolding string_make_reserve arena_push align_size terminate contents
reserved = refl

made_with_allocator :
    (string_make_allocator true (λ i. 9) (some (97 ∷ [])) >>= λ r. ok (text_of r)) ≡ ok (97 ∷ [])
unfolding string_make_allocator copy_in terminate contents cells_of
made_with_allocator = refl

printed_at_end :
    (string_append_fmt (cells_of (49 ∷ 50 ∷ [])) 3 abc >>= λ a.
    string_append_rune (some (cells_of (51 ∷ []), 1)) a >>= λ b. ok (text b))
    ≡ ok (97 ∷ 98 ∷ 99 ∷ 49 ∷ 50 ∷ 51 ∷ [])
unfolding string_append_fmt string_append_rune string_append_length write_at copy_in terminate
    contents cells_of
printed_at_end = refl

string_append-Appended_example :
    Returns (Appended abc (leb (3 + length two) 9) two) (string_append abc two)
string_append-Appended_example = string_append-Appended abc-IsValid two (omega arith) (omega arith)

joined_size : 3 + length (joined parts dash) ≡ 7
unfolding joined
joined_size = refl

string_join-joined_example :
    Returns (Holding abc (text abc ++ joined parts dash)) (string_join abc parts dash)
string_join-joined_example =
    string_join-joined parts dash abc-IsValid (omega arith) (omega (arith, joined_size))

string_are_equal_iff_example : (string_are_equal abc padded ≡ true) ↔ (text abc ≡ text padded)
string_are_equal_iff_example = string_are_equal_iff abc padded

string_trim-drop_example :
    Returns
      (Holding padded (drop_back space (drop_front space (text padded))))
      (string_trim space padded)
string_trim-drop_example = string_trim-drop space padded-IsValid

trimmed : (string_trim space padded >>= λ r. ok (text r)) ≡ ok (97 ∷ 98 ∷ [])
unfolding string_trim skip_front skip_back terminate contents cells_of
trimmed = refl

rounded : align_size 12 64 ≡ 64
unfolding align_size
rounded = refl

string_are_equal-string_clone_example :
    Returns
      (λ r.
        (t : String) × (r.0 ≡ some t)
        × Made small (text abc) t r.1
        × (string_are_equal abc t ≡ true))
      (string_clone (λ i. 7) small abc)
string_are_equal-string_clone_example =
    string_are_equal-string_clone small-IsValid (λ i. 7) abc (omega arith) (omega (arith, rounded))

string_append_allocator-overrun_example :
    string_append_allocator true (λ i. 7) padded one (length one) ≡ fault
string_append_allocator-overrun_example =
    string_append_allocator-overrun (λ i. 7) padded one (omega arith) refl (omega arith)

space_trimmed : (string_trim_space padded >>= λ r. ok (text r)) ≡ ok (97 ∷ 98 ∷ [])
unfolding string_trim_space string_trim skip_front skip_back terminate contents cells_of
space_trimmed = refl

printed_in_arena :
    (string_sprintf_buffer (λ i. 9) small (97 ∷ []) >>= λ r. ok (text_of r.0)) ≡ ok (97 ∷ [])
unfolding string_sprintf_buffer string_make string_make_length arena_push align_size copy_in
    terminate contents cells_of
printed_in_arena = refl
