-- ===== src/DArray/Removal.antt =====
-- `RemoveAt`, `RemoveSwapBack`, `Pop`, `PushMany` and `Resize` on the list of the elements.
use scal_base.Prelude.{
  ℕ, suc, ◌+◌, ◌-◌, ◌^◌, ◌≤◌, ◌<◌, ◌≡◌, ◌≢◌, refl, ap, ◌∙◌, arith, true, ltb, leb, ◌==◌,
  if◌then◌else◌, ok, ◌>>=◌, load-ok, update, update_self, Bool-cases, inl, inr, moved, moved-inside,
  sub32, Returns, returns, [], ◌∷◌, ◌++◌, contents, remove_at as without, set_at, contents-ext,
  contents-without, contents_split, contents-set,
}
use native.Mathlib.Decide.{ℕ_discrete}
use scal_base.DArray.{DArray, last_index, resize, push, push_many, pop, remove_at, remove_swap_back}
use scal_base.DArray.Lists.{IsValid, elements, Becomes}

module _ {ℓ} {T : Type ℓ} where
  module _ {d : DArray T} (valid : IsValid d) where
    -- `RemoveAt` of an element of a valid array takes it out and keeps the order of the others;
    -- the array stays valid, with the same capacity.
    pub remove_at-Becomes :
        (i : ℕ) → i < d.count → Returns (Becomes d (without i (elements d))) (remove_at d i)
    unfolding remove_at
    remove_at-Becomes i inner = elim (ℕ_discrete (suc i) d.count) [
      | yes last ↦
          let round : remove_at d i ≡ ok (record d { count = d.count - 1 }) =
            ground (arith, last, valid.fits, valid.word) in
          rw round (
            returns record {
              valid = record { fits = omega (arith, valid.fits); word = valid.word };
              capacity = refl;
              listed =
                  contents-without d.memory d.memory d.count i inner (λ j h. refl)
                    (λ j h h'. absurd (omega arith));
            })
      | no earlier ↦
          let after = moved d.memory i d.memory (i + 1) (d.count - 1 - i) in
          let round : remove_at d i ≡ ok (record d { memory = after; count = d.count - 1 }) =
            ground (arith, earlier, valid.fits, valid.word) in
          rw round (
            returns record {
              valid = record { fits = omega (arith, valid.fits); word = valid.word };
              capacity = refl;
              listed =
                  contents-without d.memory after d.count i inner (λ j h. ground arith)
                    (λ j h h'.
                      moved-inside d.memory d.memory i (i + 1) (d.count - 1 - i) j h (omega arith)
                      ∙ ap d.memory (shifted i j h));
            })
    ]
      where
        shifted : (i j : ℕ) → i ≤ j → i + 1 + (j - i) ≡ suc j
        shifted i j h = omega arith

    -- `RemoveSwapBack` of an element of a valid array puts the last element in its place and drops
    -- the last one.
    pub remove_swap_back-Becomes :
        (i : ℕ)
        → i < d.count
        → Returns
            (Becomes d (without (d.count - 1) (set_at i (d.memory (d.count - 1)) (elements d))))
            (remove_swap_back d i)
    unfolding remove_swap_back last_index
    remove_swap_back-Becomes i inner =
        let moving = d.memory (d.count - 1) in
        let after = update d.memory i moving in
        let top : (if d.count == 0 then 0 else d.count - 1) ≡ d.count - 1 = ground arith in
        let full = load-ok d.memory d.capacity (d.count - 1) (omega (arith, valid.fits)) in
        let inside : ltb i d.capacity ≡ true = ground (arith, valid.fits) in
        let fewer : sub32 d.count 1 ≡ d.count - 1 = omega (arith, valid.fits, valid.word) in
        let round : remove_swap_back d i ≡ ok (record d { memory = after; count = d.count - 1 }) =
          rw (top, full, inside, fewer) in
        rw round (
          returns record {
            valid = record { fits = omega (arith, valid.fits); word = valid.word };
            capacity = refl;
            listed =
                rw
                  (← contents-set d.memory after d.count i moving inner (ground arith)
                    (λ j h ne. ground arith))
                  (contents-without after after d.count (d.count - 1) (omega arith) (λ j h. refl)
                    (λ j h h'. absurd (omega arith)));
          })

    -- `Pop` after `Push` to a valid array that is neither full nor empty returns the pushed value
    -- and gives the elements back.
    pub pop-push :
        (x : T)
        → 0 < d.count
        → d.count ≢ d.capacity
        → Returns (λ p. (p.0 ≡ x) × Becomes d (elements d) p.1) (push d x >>= pop)
    unfolding push pop last_index
    pop-push x some room =
        let after = update d.memory d.count x in
        let round : (push d x >>= pop) ≡ ok (after d.count, record d { memory = after }) =
          ground (arith, valid.fits, valid.word) in
        rw round (
          returns (
            update_self d.memory d.count x,
            record {
              valid = record { fits = valid.fits; word = valid.word };
              capacity = refl;
              listed = contents-ext d.memory after d.count (λ j h. ground arith);
            },
          ))

    -- `Pop` never takes the last element out: after `Push` to an empty valid array with room,
    -- `Pop` returns the pushed value, and the value stays in the array.
    pub pop-push_empty :
        (x : T)
        → d.count ≡ 0
        → 0 < d.capacity
        → Returns (λ p. (p.0 ≡ x) × Becomes d (x ∷ []) p.1) (push d x >>= pop)
    unfolding push pop last_index contents
    pop-push_empty x none room =
        let after = update d.memory d.count x in
        let round : (push d x >>= pop) ≡ ok (after 0, record d { memory = after; count = 1 }) =
          ground (arith, valid.fits, valid.word, none) in
        let first : after 0 ≡ x = ground (arith, none) in
        rw round (
          returns (
            first,
            record {
              valid = record { fits = omega arith; word = valid.word };
              capacity = refl;
              listed = ap (λ a. a ∷ []) first;
            },
          ))

    -- `PushMany` to a valid array with enough room appends blank elements.
    pub push_many-Becomes :
        (blank : T) (k : ℕ)
        → d.count + k ≤ d.capacity
        → Returns (Becomes d (elements d ++ contents (λ i. blank) k)) (push_many blank d k)
    unfolding push_many
    push_many-Becomes blank k room =
        let after = moved d.memory d.count (λ i. blank) 0 k in
        let round : push_many blank d k ≡ ok (record d { memory = after; count = d.count + k }) =
          ground (arith, valid.fits, valid.word) in
        rw round (
          returns record {
            valid = record { fits = room; word = valid.word };
            capacity = refl;
            listed =
                contents_split after d.count k
                ∙ rw (contents-ext d.memory after d.count (λ j h. ground arith)) (
                    ap (λ xs. elements d ++ xs)
                      (contents-ext (λ i. blank) (λ i. after (d.count + i)) k
                        (λ j h. ground arith)));
          })

    -- `Resize` of a valid array, to a capacity below 2 ^ 32, keeps the elements, and leaves a valid array
    -- whose capacity is neither less than before nor less than the one asked for.
    pub resize-keeps :
        (fresh : ℕ → T) (n : ℕ)
        → n < 2 ^ 32
        → IsValid (resize fresh d n)
          × (elements (resize fresh d n) ≡ elements d)
          × (d.capacity ≤ (resize fresh d n).capacity)
          × (n ≤ (resize fresh d n).capacity)
    unfolding resize
    resize-keeps fresh n small = elim (Bool-cases (leb (if n == 0 then 1 else n) d.capacity)) [
      | inl enough ↦ rw enough (valid, refl, omega arith, ground (arith, enough))
      | inr more ↦ rw more (
        record { fits = ground (arith, more, valid.fits); word = ground (arith, more) },
        contents-ext d.memory (moved fresh 0 d.memory 0 d.capacity) d.count
            (λ j h. ground (arith, valid.fits)),
        ground (arith, more),
        ground (arith, more),
      )
    ]
