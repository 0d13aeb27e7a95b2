-- ===== src/DArray/Tests.antt =====
-- Runs of the dynamic array, and the theorems at a small array.
use scal_base.Prelude.{
  ℕ, ◌+◌, ◌≡◌, refl, arith, [], ◌∷◌, ok, ◌>>=◌, Returns, contents, insert_at, remove_at as without,
}
use scal_base.DArray.{DArray, push_at, push_swap_back, remove_at, last_index}
use scal_base.DArray.Removal.{remove_at-Becomes}
use scal_base.DArray.Lists.{IsValid, elements, Becomes, push_at-Becomes}

-- The cells hold 10, 11, 12, ...; the first three are elements.
abbrev three : DArray ℕ
three = record { memory = λ i. 10 + i; capacity = 8; count = 3 }

abbrev none_yet : DArray ℕ
none_yet = record three { count = 0 }

three-IsValid : IsValid three
three-IsValid = record { fits = omega arith; word = omega arith }

none_yet-IsValid : IsValid none_yet
none_yet-IsValid = record { fits = omega arith; word = omega arith }

session :
    (push_at three 99 1 >>= λ a.
    remove_at a 0 >>= λ b. push_swap_back b 77 0 >>= λ c. ok (elements c))
    ≡ ok (77 ∷ 11 ∷ 12 ∷ 99 ∷ [])
unfolding push_at remove_at push_swap_back last_index contents
session = refl

push_at-Becomes_example :
    Returns (Becomes three (insert_at 1 7 (elements three))) (push_at three 7 1)
push_at-Becomes_example =
    push_at-Becomes three-IsValid 7 1 (omega arith) (λ e. absurd (omega (arith, e)))

remove_at-Becomes_example : Returns (Becomes three (without 1 (elements three))) (remove_at three 1)
remove_at-Becomes_example = remove_at-Becomes three-IsValid 1 (omega arith)
