-- ===== src/StaticArray/Tests.antt =====
-- Runs of the static list, and the theorems at a small list.
use scal_base.Prelude.{ℕ, ◌+◌, ◌≡◌, refl, arith, [], ◌∷◌, ok, ◌>>=◌, contents}
use scal_base.StaticArray.{StaticList, push_at, push_at_order, pop_at, last}
use scal_base.StaticArray.Lists.{IsValid, elements}

-- The cells hold 10, 11, 12, ...; the first three are elements.
abbrev three : StaticList ℕ
three = record { capacity = 8; count = 3; cells = λ i. 10 + i }

abbrev full : StaticList ℕ
full = record three { capacity = 3 }

three-IsValid : IsValid three
three-IsValid = record { fits = omega arith; word = omega arith }

full-IsValid : IsValid full
full-IsValid = record { fits = omega arith; word = omega arith }

session :
    (push_at_order three 99 1 >>= λ a.
    pop_at a 0 >>= λ b. push_at b.1 77 0 >>= λ c. ok (elements c))
    ≡ ok (77 ∷ 99 ∷ 11 ∷ 12 ∷ [])
unfolding push_at_order pop_at push_at last contents
session = refl
