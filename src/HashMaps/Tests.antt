-- ===== src/HashMaps/Tests.antt =====
-- Runs of the hash map on `int` keys, and the theorems at concrete tables.
use scal_base.Prelude.{
  ℕ, ◌/◌, ◌%◌, ◌≤◌, ◌≡◌, refl, arith, true, false, ◌^◌, none, some, List, [], ◌∷◌, Run, ok,
  out_of_fuel, ◌>>=◌, Returns, Returns-ok, update, nat_eq,
}
use scal_base.Base.{fnv_hash64, fast_modulo, is_power_of2, align_pow_two_ceil32, shift_loop}
use scal_base.HashMaps.{
  Bucket, StaticHashMap, init, add, get, get_index, get_loop, remove, remove_loop,
  shift_loop as close_loop, home, add_loop, place, displace, advance, next,
}
use scal_base.HashMaps.Invariant.{Absent}
use scal_base.HashMaps.Setup.{init-IsValid, remove_diverges}
use scal_base.HashMaps.Valid.{IsValid}
use scal_base.HashMaps.Adding.{add_new, add_present, get-add, Grown}
use scal_base.HashMaps.Lookup.{get_correct, Answers}
use scal_base.HashMaps.Removing.{Shrunk, remove_stored, get-remove}
use mathlib.Core.Bool.{false≢true}

-- The four bytes of an `int`.
abbrev int_bytes : ℕ → List ℕ
int_bytes k = k % 256 ∷ k / 256 % 256 ∷ k / 65536 % 256 ∷ k / 16777216 % 256 ∷ []

abbrev zeroed : ℕ → Bucket ℕ ℕ
zeroed i = record { key = 0; probe_length = 0; is_used = false; value = 0 }

-- A load factor of one half.
abbrev half : ℕ → ℕ
half c = c / 2

abbrev empty : StaticHashMap ℕ ℕ
empty = record { buckets = zeroed; capacity = 4; count = 0; max_count = 2 }

-- `Init(memory, size, 3, 0.5f)`.
init_three : init half zeroed 3 ≡ empty
unfolding init is_power_of2 align_pow_two_ceil32 shift_loop
init_three = refl

abbrev session : Run (ℕ × ℕ)
session = do
  r ← add int_bytes empty 5 1
  s ← add int_bytes r.0 1 5
  v ← get int_bytes s.0 5
  w ← get int_bytes s.0 1
  t ← remove int_bytes s.0 5
  gone ← get int_bytes t.0 5
  ok (
    elim v [ none ↦ 0 | some x ↦ x ],
    elim w [ none ↦ 0 | some x ↦ elim gone [ none ↦ x | some _ ↦ 0 ] ],
  )

session_result : session ≡ ok (1, 5)
unfolding add get get_index remove add_loop get_loop remove_loop close_loop place displace advance
    next home fnv_hash64 fast_modulo
session_result = refl

abbrev one : StaticHashMap ℕ ℕ
one = record {
  buckets = update zeroed 0 (record { key = 5; probe_length = 0; is_used = true; value = 1 });
  capacity = 4;
  count = 1;
  max_count = 2;
}

one_run :
    add int_bytes empty 5 1
    ≡ ok (one, record { index = 0; does_exist = false; is_map_full = false })
unfolding add add_loop place home fnv_hash64 fast_modulo
one_run = refl

init-IsValid_example :
    IsValid int_bytes (init half zeroed 3)
    × ((init half zeroed 3).count ≡ 0)
    × ((init half zeroed 3).max_count ≡ half (init half zeroed 3).capacity)
    × ((k : ℕ) × ((init half zeroed 3).capacity ≡ 2 ^ k))
    × (3 ≤ (init half zeroed 3).capacity)
    × ((j : ℕ) → 3 ≤ 2 ^ j → (init half zeroed 3).capacity ≤ 2 ^ j)
init-IsValid_example =
    init-IsValid int_bytes half zeroed 3 (λ c. omega arith) (omega arith) (omega arith)
      (λ i hi. refl)

empty_valid : IsValid int_bytes empty
empty_valid = rw init_three at init-IsValid_example.0

Absent-in_empty : (k : ℕ) → Absent 4 zeroed k
Absent-in_empty k i hi u e = absurd (false≢true u)

add_new_example : Returns (Grown int_bytes empty 5 1) (add int_bytes empty 5 1)
add_new_example = add_new int_bytes empty_valid 5 1 (Absent-in_empty 5) (omega arith)

one_valid : IsValid int_bytes one
one_valid = (Returns-ok (rw one_run at add_new_example)).valid

get-add_example : (add int_bytes empty 5 1 >>= λ r. get int_bytes r.0 5) ≡ ok (some 1)
get-add_example = get-add int_bytes empty_valid 5 1 (Absent-in_empty 5) (omega arith) 5

add_present_example :
    add int_bytes one 5 9 ≡ ok (one, record { index = 0; does_exist = true; is_map_full = false })
add_present_example = add_present int_bytes one_valid 5 9 0 (omega arith) refl refl (omega arith)

get_correct_example : Returns (Answers int_bytes one_valid 7) (get int_bytes one 7)
get_correct_example = get_correct int_bytes one_valid 7

remove_stored_example : Returns (Shrunk int_bytes one 5) (remove int_bytes one 5)
remove_stored_example = remove_stored int_bytes one_valid 5 0 (omega arith) refl refl (omega arith)

get-remove_example : (remove int_bytes one 5 >>= λ r. get int_bytes r.0 5) ≡ ok none
get-remove_example = get-remove int_bytes one_valid 5 (omega arith) 5

-- Full, with a load factor of one.
abbrev single : StaticHashMap ℕ ℕ
single = record one { capacity = 1; max_count = 1 }

abbrev one_bucket : StaticHashMap ℕ ℕ
one_bucket = record empty { capacity = 1; max_count = 1 }

init_one : init (λ c. c) zeroed 1 ≡ one_bucket
unfolding init is_power_of2
init_one = refl

one_bucket_valid : IsValid int_bytes one_bucket
one_bucket_valid =
    rw init_one at
      (init-IsValid int_bytes (λ c. c) zeroed 1 (λ c. omega arith) (omega arith) (omega arith)
        (λ i hi. refl)).0

single_run :
    add int_bytes one_bucket 5 1
    ≡ ok (single, record { index = 0; does_exist = false; is_map_full = false })
unfolding add add_loop place home fnv_hash64 fast_modulo
single_run = refl

single_valid : IsValid int_bytes single
single_valid =
    (Returns-ok (
      rw single_run at (
        add_new int_bytes one_bucket_valid 5 1 (λ i hi u e. absurd (false≢true u))
          (omega arith)))).valid

remove_diverges_example : remove_loop 1000 single 7 (home int_bytes 1 7) ≡ out_of_fuel
remove_diverges_example =
    remove_diverges int_bytes single_valid refl 7 (λ i hi u e. ground arith) 1000
