-- ===== src/StringHashMap/Tests.antt =====
-- Runs of the map, and the theorems on a map of four slots.
use scal_base.Prelude.{
  ℕ, zero, suc, ◌+◌, ◌<◌, ◌≤◌, ◌≡◌, refl, arith, true, false, none, some, [], ◌∷◌, ok, ◌>>=◌,
  Returns, cells_of, update,
}
use scal_base.Base.{fast_modulo, is_power_of2, align_pow_two_ceil32, shift_loop}
use scal_base.HashMaps.{next}
use scal_base.HashMaps.Walk.{walk}
use scal_base.String.{String, string_are_equal, equal_loop}
use scal_base.StringHashMap.{
  HashStrSlot, StringHashMap, no_slot, home_slot, is_key, settle, swap, step_on, add_loop, add,
  get_loop, get_index, clear_loop, clear_allocator, shift_slots, remove_loop, remove_allocator,
  rehash_loop, resize,
}
use scal_base.StringHashMap.Adding.{Searched, new_slot, get_index-add, get_index-displaced}

-- A string of one byte, whose hash is that byte.
abbrev letter : ℕ → String
letter b = record { size = 1; capacity = 1; bytes = cells_of (b ∷ []); block = 2 }

abbrev first_byte : String → ℕ
first_byte s = s.bytes 0

abbrev entry : ℕ → HashStrSlot
entry b = record { string = letter b; hash = b; probe_length = 0; is_used = true }

-- The key 1 in the slot 1, and the key 2 in the slot 2.
abbrev slots : ℕ → HashStrSlot
slots = update (update (λ i. no_slot) 1 (entry 1)) 2 (entry 2)

abbrev two_keys : StringHashMap ℕ
two_keys = record { buckets = slots; values = λ i. 10 + i; capacity = 4; count = 2; max_count = 3 }

-- The key 5 belongs into the slot 1, and the key 6 into the slot 2.
five : Searched first_byte two_keys (letter 5) 1
unfolding home_slot fast_modulo walk is_key string_are_equal equal_loop cells_of
five = record {
  small = omega arith;
  short = omega arith;
  room = omega arith;
  word = omega arith;
  passes = record { used = used; other = other; long = long };
}
  where
    used : (j : ℕ) → j < 1 → (slots (walk 4 1 j)).is_used ≡ true
    used zero h = refl
    used (suc j) h = absurd (omega arith)

    other : (j : ℕ) → j < 1 → is_key (slots (walk 4 1 j)) 5 (letter 5) ≡ false
    other zero h = refl
    other (suc j) h = absurd (omega arith)

    long : (j : ℕ) → j < 1 → j ≤ (slots (walk 4 1 j)).probe_length
    long zero h = omega arith
    long (suc j) h = absurd (omega arith)

six : Searched first_byte two_keys (letter 6) 1
unfolding home_slot fast_modulo walk is_key string_are_equal equal_loop cells_of
six = record {
  small = omega arith;
  short = omega arith;
  room = omega arith;
  word = omega arith;
  passes = record { used = used; other = other; long = long };
}
  where
    used : (j : ℕ) → j < 1 → (slots (walk 4 2 j)).is_used ≡ true
    used zero h = refl
    used (suc j) h = absurd (omega arith)

    other : (j : ℕ) → j < 1 → is_key (slots (walk 4 2 j)) 6 (letter 6) ≡ false
    other zero h = refl
    other (suc j) h = absurd (omega arith)

    long : (j : ℕ) → j < 1 → j ≤ (slots (walk 4 2 j)).probe_length
    long zero h = omega arith
    long (suc j) h = absurd (omega arith)

five_then_one :
    (add first_byte two_keys (letter 5) 55 >>= λ r. get_index first_byte r.0 (letter 1) >>= λ a.
    get_index first_byte r.0 (letter 2) >>= λ b.
    get_index first_byte r.0 (letter 5) >>= λ c. ok (a ∷ b ∷ c ∷ []))
    ≡ ok (some 1 ∷ some 3 ∷ none ∷ [])
unfolding add add_loop get_index get_loop home_slot fast_modulo next is_key string_are_equal
    equal_loop settle swap step_on cells_of
five_then_one = refl

grown :
    (resize first_byte (λ c. c) (λ i. 0) two_keys 5 >>= λ m. add first_byte m (letter 5) 55 >>= λ r.
    remove_allocator first_byte r.0 (letter 1) >>= λ s. get_index first_byte s.0 (letter 5) >>= λ a.
    get_index first_byte s.0 (letter 1) >>= λ b.
    get_index first_byte (clear_allocator s.0) (letter 5) >>= λ c.
    ok (a ∷ b ∷ c ∷ some s.0.count ∷ some m.capacity ∷ []))
    ≡ ok (some 5 ∷ none ∷ none ∷ some 2 ∷ some 8 ∷ [])
unfolding resize rehash_loop is_power_of2 align_pow_two_ceil32 shift_loop add add_loop get_index
    get_loop home_slot fast_modulo next is_key string_are_equal equal_loop settle swap step_on
    cells_of remove_allocator remove_loop shift_slots clear_allocator clear_loop
grown = refl

get_index-add_example :
    Returns
      (λ r.
        (r.1 ≡ record { index = walk 4 (home_slot 6 4) 1; does_exist = false })
        × (r.0.count ≡ 3)
        × (r.0.values (walk 4 (home_slot 6 4) 1) ≡ 66)
        × (get_index first_byte r.0 (letter 6) ≡ ok (some (walk 4 (home_slot 6 4) 1))))
      (add first_byte two_keys (letter 6) 66)
unfolding home_slot fast_modulo walk next cells_of
get_index-add_example = get_index-add first_byte six 66 refl

get_index-displaced_example :
    Returns
      (λ r.
        (r.1 ≡ record { index = walk 4 (home_slot 5 4) 1; does_exist = false })
        × (r.0.buckets (walk 4 (home_slot 5 4) 1) ≡ new_slot first_byte (letter 5))
        × (r.0.values (walk 4 (home_slot 5 4) 1) ≡ 55)
        × (r.0.values (walk 4 (home_slot 5 4) 2) ≡ two_keys.values (walk 4 (home_slot 5 4) 1))
        × (r.0.count ≡ 3)
        × (get_index first_byte r.0 (letter 5) ≡ ok none))
      (add first_byte two_keys (letter 5) 55)
unfolding home_slot fast_modulo walk next is_key string_are_equal equal_loop cells_of
get_index-displaced_example =
    get_index-displaced first_byte five 55 (omega arith) refl refl (omega arith) refl
