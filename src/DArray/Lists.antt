-- ===== src/DArray/Lists.antt =====
-- The array as the list of its first `Count` cells.
use scal_base.Prelude.{
  ℕ, suc, ◌+◌, ◌-◌, ◌^◌, ◌≤◌, ◌<◌, ◌≡◌, ◌≢◌, refl, ap, ◌∙◌, arith, ok, update, update_ne, moved,
  Returns, returns, List, [], ◌∷◌, ◌++◌, contents, insert_at, set_at, contents_snoc, contents-push,
  contents-insert, contents-set,
}
use scal_base.DArray.{DArray, last_index, push, push_at, push_swap_back}

module _ {ℓ} {T : Type ℓ} where
  -- The counts are `u32` words, and the elements lie within the block.
  pub record IsValid (d : DArray T) : Type 0 where
    pub fits : d.count ≤ d.capacity
    pub word : d.capacity < 2 ^ 32

  abbrev pub elements : DArray T → List T
  elements d = contents d.memory d.count

  -- `r` is `d` in the same block, with the elements `xs`.
  pub record Becomes (d : DArray T) (xs : List T) (r : DArray T) : Type ℓ where
    pub valid : IsValid r
    pub capacity : r.capacity ≡ d.capacity
    pub listed : elements r ≡ xs

  module _ {d : DArray T} (valid : IsValid d) where
    -- `Push` to a valid array that is not full appends the value.
    pub push-Becomes :
        (x : T) → d.count ≢ d.capacity → Returns (Becomes d (elements d ++ (x ∷ []))) (push d x)
    unfolding push
    push-Becomes x room =
        let round : push d x
            ≡ ok (record d { memory = update d.memory d.count x; count = suc d.count }) =
          ground (arith, valid.fits, valid.word) in
        rw round (
          returns record {
            valid = record { fits = omega (arith, valid.fits); word = valid.word };
            capacity = refl;
            listed = contents-push d.memory d.count x;
          })

    -- `PushAt` before the last element of a valid array that is not full inserts the value there
    -- and keeps the order of the others.
    pub push_at-Becomes :
        (x : T) (i : ℕ)
        → i + 1 < d.count
        → d.count ≢ d.capacity
        → Returns (Becomes d (insert_at i x (elements d))) (push_at d x i)
    unfolding push_at last_index
    push_at-Becomes x i inner room =
        let after = update (moved d.memory (i + 1) d.memory i (d.count - i)) i x in
        let round : push_at d x i ≡ ok (record d { memory = after; count = suc d.count }) =
          ground (arith, valid.fits, valid.word) in
        rw round (
          returns record {
            valid = record { fits = omega (arith, valid.fits); word = valid.word };
            capacity = refl;
            listed =
                contents-insert d.memory after d.count i x (omega arith) (λ j h. ground arith)
                  (ground arith) (λ j h h'. ground (arith, shifted i j h));
          })
      where
        shifted : (i j : ℕ) → i ≤ j → i + (suc j - (i + 1)) ≡ j
        shifted i j h = omega arith

    -- `PushAt` at the last element of a valid array that is neither empty nor full overwrites that
    -- element, and appends whatever the cell behind it holds.
    pub push_at-last :
        (x : T)
        → 0 < d.count
        → d.count ≢ d.capacity
        → Returns
            (Becomes d (set_at (d.count - 1) x (elements d) ++ (d.memory d.count ∷ [])))
            (push_at d x (d.count - 1))
    unfolding push_at last_index
    push_at-last x some room =
        let after = update d.memory (d.count - 1) x in
        let round : push_at d x (d.count - 1)
            ≡ ok (record d { memory = after; count = suc d.count }) =
          ground (arith, valid.fits, valid.word) in
        rw round (
          returns record {
            valid = record { fits = omega (arith, valid.fits); word = valid.word };
            capacity = refl;
            listed =
                contents_snoc after d.count
                ∙ rw
                    (contents-set d.memory after d.count (d.count - 1) x (omega arith)
                      (ground arith) (λ j h ne. ground arith))
                    (ap (λ a. set_at (d.count - 1) x (elements d) ++ (a ∷ []))
                      (update_ne d.memory (d.count - 1) x d.count (omega arith)));
          })

    -- `PushSwapBack` before the last element of a valid array that is not full puts the value there and
    -- appends the element that it replaces.
    pub push_swap_back-Becomes :
        (x : T) (i : ℕ)
        → i + 1 < d.count
        → d.count ≢ d.capacity
        → Returns (Becomes d (set_at i x (elements d) ++ (d.memory i ∷ []))) (push_swap_back d x i)
    unfolding push_swap_back last_index
    push_swap_back-Becomes x i inner room =
        let after = update (moved d.memory d.count d.memory i 1) i x in
        let round : push_swap_back d x i ≡ ok (record d { memory = after; count = suc d.count }) =
          ground (arith, valid.fits, valid.word) in
        let end : after d.count ≡ d.memory i = ground (arith, tail i d.count) in
        rw round (
          returns record {
            valid = record { fits = omega (arith, valid.fits); word = valid.word };
            capacity = refl;
            listed =
                contents_snoc after d.count
                ∙ rw
                    (contents-set d.memory after d.count i x (omega arith) (ground arith)
                      (λ j h ne. ground arith))
                    (ap (λ a. set_at i x (elements d) ++ (a ∷ [])) end);
          })
      where
        tail : (i n : ℕ) → i + (n - n) ≡ i
        tail i n = omega arith
