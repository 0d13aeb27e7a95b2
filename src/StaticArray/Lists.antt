-- ===== src/StaticArray/Lists.antt =====
-- `StaticList` as the list of its first `Count` cells.
use scal_base.Prelude.{
  ℕ, suc, ◌+◌, ◌-◌, ◌^◌, ◌≤◌, ◌<◌, ◌≡◌, refl, ap, ◌∙◌, arith, true, false, ◌&&◌, ltb, leb,
  if◌then◌else◌, ok, fault, load-ok, update, update_self, update_ne, moved, moved-inside, Returns,
  returns, List, [], ◌∷◌, ◌++◌, contents, insert_at, remove_at, set_at, contents_snoc,
  contents-push, contents-insert, contents-without, contents-set,
}
use scal_base.StaticArray.{
  StaticList, sub64, last, push, push_at, push_at_order, pop_at, pop_at_order,
}

module _ {ℓ} {T : Type ℓ} where
  pub record IsValid (s : StaticList T) : Type 0 where
    pub fits : s.count ≤ s.capacity
    pub word : s.capacity < 2 ^ 64

  abbrev pub elements : StaticList T → List T
  elements s = contents s.cells s.count

  -- `r` is `s` in the same block, with the elements `xs`.
  pub record Holding (s : StaticList T) (xs : List T) (r : StaticList T) : Type ℓ where
    pub valid : IsValid r
    pub capacity : r.capacity ≡ s.capacity
    pub listed : elements r ≡ xs

  module _ {s : StaticList T} (valid : IsValid s) where
    -- `Push` to a valid list that is not full appends the value.
    pub push-Holding :
        (x : T) → s.count < s.capacity → Returns (Holding s (elements s ++ (x ∷ []))) (push s x)
    unfolding push
    push-Holding x room =
        let round : push s x
            ≡ ok (record s { cells = update s.cells s.count x; count = suc s.count }) =
          ground arith in
        rw round (
          returns record {
            valid = record { fits = room; word = valid.word };
            capacity = refl;
            listed = contents-push s.cells s.count x;
          })

    -- `PushAt` an element of a valid list that is not full puts the value there and appends the
    -- element that it replaces.
    pub push_at-Holding :
        (x : T) (i : ℕ)
        → i < s.count
        → s.count < s.capacity
        → Returns (Holding s (set_at i x (elements s) ++ (s.cells i ∷ []))) (push_at s x i)
    unfolding push_at
    push_at-Holding x i inner room =
        let old = s.cells i in
        let after = update (update s.cells s.count old) i x in
        let round : push_at s x i ≡ ok (record s { cells = after; count = suc s.count }) =
          ground (arith, load-ok s.cells s.capacity i (omega arith)) in
        let end : after s.count ≡ old = ground arith in
        rw round (
          returns record {
            valid = record { fits = room; word = valid.word };
            capacity = refl;
            listed =
                contents_snoc after s.count
                ∙ rw
                    (contents-set s.cells after s.count i x inner (ground arith)
                      (λ j h ne. ground arith))
                    (ap (λ a. set_at i x (elements s) ++ (a ∷ [])) end);
          })

    -- `PushAtOrder` at an element of a valid list that is not full inserts the value there and
    -- keeps the order of the others.
    pub push_at_order-Holding :
        (x : T) (i : ℕ)
        → i < s.count
        → s.count < s.capacity
        → Returns (Holding s (insert_at i x (elements s))) (push_at_order s x i)
    unfolding push_at_order
    push_at_order-Holding x i inner room =
        let shifted = moved s.cells (i + 1) s.cells i (s.count - i) in
        let after = update shifted i x in
        let size : sub64 s.count i ≡ s.count - i = omega (arith, valid.word) in
        let round : push_at_order s x i ≡ ok (record s { cells = after; count = suc s.count }) =
          ground (arith, size) in
        rw round (
          returns record {
            valid = record { fits = room; word = valid.word };
            capacity = refl;
            listed =
                contents-insert s.cells after s.count i x (omega arith) (λ j h. ground arith)
                  (update_self shifted i x)
                  (λ j h h'.
                    update_ne shifted i x (suc j) (omega arith)
                    ∙ moved-inside s.cells s.cells (i + 1) i (s.count - i) (suc j) (omega arith)
                        (omega arith)
                    ∙ ap s.cells (omega arith));
          })

    -- `PopAt` an element of a valid list returns it, puts the last element in its place and drops the
    -- last one.
    pub pop_at-Holding :
        (i : ℕ)
        → i < s.count
        → Returns
            (λ p.
              (p.0 ≡ s.cells i)
              × Holding s
                  (remove_at (s.count - 1) (set_at i (s.cells (s.count - 1)) (elements s)))
                  p.1)
            (pop_at s i)
    unfolding pop_at last
    pop_at-Holding i inner =
        let moving = s.cells (s.count - 1) in
        let after = update s.cells i moving in
        let top : (if ltb 0 s.count then s.count - 1 else 0) ≡ s.count - 1 = ground arith in
        let full = load-ok s.cells s.capacity (s.count - 1) (omega (arith, valid.fits)) in
        let here = load-ok s.cells s.capacity i (omega (arith, valid.fits)) in
        let inside : ltb i s.capacity ≡ true = ground (arith, valid.fits) in
        let fewer : sub64 s.count 1 ≡ s.count - 1 = omega (arith, valid.fits, valid.word) in
        let round : pop_at s i ≡ ok (s.cells i, record s { cells = after; count = s.count - 1 }) =
          rw (top, full, here, inside, fewer) in
        rw round (
          returns (
            refl,
            record {
              valid = record { fits = omega (arith, valid.fits); word = valid.word };
              capacity = refl;
              listed =
                  rw
                    (← contents-set s.cells after s.count i moving inner (ground arith)
                      (λ j h ne. ground arith))
                    (contents-without after after s.count (s.count - 1) (omega arith) (λ j h. refl)
                      (λ j h h'. absurd (omega arith)));
            },
          ))

    -- `PopAtOrder` at an element of a valid list that is not full returns it, takes it out and
    -- keeps the order of the others.
    pub pop_at_order-Holding :
        (i : ℕ)
        → i < s.count
        → s.count < s.capacity
        → Returns
            (λ p. (p.0 ≡ s.cells i) × Holding s (remove_at i (elements s)) p.1)
            (pop_at_order s i)
    unfolding pop_at_order
    pop_at_order-Holding i inner room =
        let after = moved s.cells i s.cells (i + 1) (s.count - i) in
        let here = load-ok s.cells s.capacity i (omega arith) in
        let size : sub64 s.count i ≡ s.count - i = omega (arith, valid.word) in
        let fewer : sub64 s.count 1 ≡ s.count - 1 = omega (arith, valid.fits, valid.word) in
        let inside : (leb (i + (s.count - i)) s.capacity && leb (i + 1 + (s.count - i)) s.capacity)
            ≡ true =
          ground arith in
        let round : pop_at_order s i
            ≡ ok (s.cells i, record s { cells = after; count = s.count - 1 }) =
          rw (here, size, fewer, inside) in
        rw round (
          returns (
            refl,
            record {
              valid = record { fits = omega arith; word = valid.word };
              capacity = refl;
              listed =
                  contents-without s.cells after s.count i inner (λ j h. ground arith)
                    (λ j h h'.
                      moved-inside s.cells s.cells i (i + 1) (s.count - i) j h (omega arith)
                      ∙ ap s.cells (omega arith));
            },
          ))

    -- On a valid list that is full, `PopAtOrder` at any element reads one cell past the block.
    pub pop_at_order-full : (i : ℕ) → i < s.count → s.count ≡ s.capacity → pop_at_order s i ≡ fault
    unfolding pop_at_order
    pop_at_order-full i inner full =
        let here = load-ok s.cells s.capacity i (omega arith) in
        let size : sub64 s.count i ≡ s.count - i = omega (arith, valid.fits, valid.word) in
        let outside : (leb (i + (s.count - i)) s.capacity && leb (i + 1 + (s.count - i)) s.capacity)
            ≡ false =
          ground arith in
        rw (here, size, outside)
