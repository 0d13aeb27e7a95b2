-- ===== src/SparseArray/Stored.antt =====
-- What a sparse set stores before and after `Add` and `Remove`.
use scal_base.Prelude.{
  ℕ, suc, ◌+◌, ◌-◌, ◌%◌, ◌^◌, ◌≤◌, ◌<◌, ◌≡◌, ◌≢◌, refl, sym, ◌∙◌, ap, arith, true, false, not, ◌&&◌,
  ltb, ◌==◌, if◌then◌else◌, ok, load-ok, update, sub32, update_self, update_ne, Returns, returns,
  lt→ltb, ◌⊎◌, inl, inr, Option, none, some,
}
use native.Mathlib.Decide.{ℕ_discrete}
use scal_base.SparseArray.{SparseSet, empty, add, remove, get}

module _ {ℓ} {T : Type ℓ} where
  -- `Sparse` and `DenseLookup` are inverse to each other on the ids that are stored.
  pub record IsValid (s : SparseSet T) : Type 0 where
    pub fits : s.count ≤ s.capacity
    pub small : s.capacity < empty
    pub listed :
        (i : ℕ) → i < s.count → (s.dense_lookup i < s.capacity) × (s.sparse (s.dense_lookup i) ≡ i)
    pub looked_up :
        (id : ℕ)
        → id < s.capacity
        → (s.sparse id ≡ empty) ⊎ ((s.sparse id < s.count) × (s.dense_lookup (s.sparse id) ≡ id))

  pub get_stored :
      (s : SparseSet T) (id : ℕ)
      → s.count ≤ s.capacity
      → s.capacity < empty
      → id < s.capacity
      → s.sparse id < s.count
      → get s id ≡ ok (some (s.dense (s.sparse id)))
  unfolding get
  get_stored s id fits small inside stored =
      let found : (not (s.sparse id == empty) && ltb (s.sparse id) s.count) ≡ true = ground arith in
      rw (
        load-ok s.sparse s.capacity id inside,
        found,
        load-ok s.dense s.capacity (s.sparse id) (omega arith),
      )

  pub get_missing :
      (s : SparseSet T) (id : ℕ)
      → id < s.capacity
      → (s.sparse id ≡ empty) ⊎ (s.count ≤ s.sparse id)
      → get s id ≡ ok none
  unfolding get
  get_missing s id inside missing =
      let lost : (not (s.sparse id == empty) && ltb (s.sparse id) s.count) ≡ false = ground arith in
      rw (load-ok s.sparse s.capacity id inside, lost)

  -- `r` is `s` with `value` under `id`.
  pub record Added (s : SparseSet T) (id : ℕ) (value : T) (r : Option ℕ × SparseSet T)
      : Type ℓ where
    pub valid : IsValid r.1
    pub count : (r.1).count ≡ s.count + 1
    pub index : r.0 ≡ some s.count
    pub answers :
        (j : ℕ) → j < s.capacity → get r.1 j ≡ (if id == j then ok (some value) else get s j)

  -- `r` is `s` without `id`.
  pub record Removed (s : SparseSet T) (id : ℕ) (r : SparseSet T) : Type ℓ where
    pub valid : IsValid r
    pub count : r.count + 1 ≡ s.count
    pub answers : (j : ℕ) → j < s.capacity → get r j ≡ (if id == j then ok none else get s j)

  added : SparseSet T → ℕ → T → SparseSet T
  added s id value = record s {
    sparse = update s.sparse id s.count;
    dense_lookup = update s.dense_lookup s.count id;
    dense = update s.dense s.count value;
    count = suc s.count;
  }

  module _ {s : SparseSet T} (valid : IsValid s) (id : ℕ) (inside : id < s.capacity) where
    add-added :
        (value : T) → s.count ≢ s.capacity → add s id value ≡ ok (some s.count, added s id value)
    unfolding add added
    add-added value room =
        let differ : (s.count == s.capacity) ≡ false = ground arith in
        let here : ltb id s.capacity ≡ true = lt→ltb _ _ inside in
        let next : ltb s.count s.capacity ≡ true = ground (arith, valid.fits) in
        let word : (s.count + 1) % 2 ^ 16 ≡ suc s.count = omega (arith, valid.fits, valid.small) in
        rw (differ, here, next, word)

    added-IsValid :
        (value : T) → s.sparse id ≡ empty → s.count ≢ s.capacity → IsValid (added s id value)
    unfolding added
    added-IsValid value absent room = record {
      fits = omega (arith, valid.fits);
      small = valid.small;
      listed = λ i hi. elim (ℕ_discrete s.count i) [
        | yes here ↦ ground (arith, here, inside)
        | no other ↦
            ground (arith, valid.listed i, absent, other, hi, valid.small, valid.fits, ap s.sparse)
      ];
      looked_up = λ j hj. elim (ℕ_discrete id j) [
        | yes here ↦ inr (ground (arith, here), ground (arith, here))
        | no other ↦ ground (arith, valid.looked_up j hj, other)
      ];
    }

    -- `Add` of an id below the capacity that a valid set does not store, when the set is not full,
    -- ends without a fault; the set stays valid, `Get` then returns the value for the id, and for
    -- any other id what it returned before.
    pub add-Added :
        (value : T)
        → s.sparse id ≡ empty
        → s.count ≢ s.capacity
        → Returns (Added s id value) (add s id value)
    unfolding added
    add-Added value absent room =
        let r = added s id value in
        let valid' = added-IsValid value absent room in
        rw (add-added value room) (
          returns record {
            valid = valid';
            count = omega arith;
            index = refl;
            answers = λ j hj. elim (ℕ_discrete id j) [
              | yes here ↦
                  let at : r.sparse j ≡ s.count = ground (arith, here) in
                  let same : (id == j) ≡ true = ground (arith, here) in
                  rw same (
                    get_stored r j valid'.fits valid.small hj (omega (arith, at))
                    ∙ ap (λ a. ok (some a)) (ap r.dense at ∙ update_self s.dense s.count value))
              | no other ↦
                  let at : r.sparse j ≡ s.sparse j = ground (arith, other) in
                  let differ : (id == j) ≡ false = ground (arith, other) in
                  rw differ (elim (valid.looked_up j hj) [
                    | inl gone ↦
                        get_missing r j hj (inl (at ∙ gone)) ∙ sym (get_missing s j hj (inl gone))
                    | inr (lt, _) ↦
                        get_stored r j valid'.fits valid.small hj (omega (arith, at, lt))
                        ∙ ap (λ a. ok (some a))
                            (ap r.dense at
                              ∙ update_ne s.dense s.count value (s.sparse j) (omega (arith, lt)))
                        ∙ sym (get_stored s j valid.fits valid.small hj lt)
                  ])
            ];
          })

    unfoldable pub removed : SparseSet T
    removed =
        let last = s.count - 1 in
        record s {
          sparse = update (update s.sparse id empty) (s.dense_lookup last) (s.sparse id);
          dense_lookup = update s.dense_lookup (s.sparse id) (s.dense_lookup last);
          dense = update s.dense (s.sparse id) (s.dense last);
          count = s.count - 1;
        }

    pub remove-removed : s.sparse id < s.count → remove s id ≡ ok removed
    unfolding remove removed
    remove-removed stored =
        let last = s.count - 1 in
        let differ : (s.sparse id == empty) ≡ false = ground (arith, valid.small, valid.fits) in
        let end : sub32 s.count 1 ≡ last = omega (arith, valid.fits, valid.small) in
        let here : ltb id s.capacity ≡ true = lt→ltb _ _ inside in
        let cell : ltb (s.sparse id) s.capacity ≡ true = lt→ltb _ _ (omega (arith, valid.fits)) in
        let tail : ltb last s.capacity ≡ true = lt→ltb _ _ (omega (arith, valid.fits)) in
        let moved : update s.dense_lookup (s.sparse id) (s.dense_lookup last) last
            ≡ s.dense_lookup last =
          ground arith in
        let known : ltb (s.dense_lookup last) s.capacity ≡ true =
          lt→ltb _ _ (valid.listed last (omega arith)).0 in
        let word : (s.count + 2 ^ 16 - 1) % 2 ^ 16 ≡ last =
          omega (arith, valid.fits, valid.small) in
        rw (here, differ, end, tail, cell, moved, known, word)

    pub removed-IsValid : s.sparse id < s.count - 1 → IsValid removed
    unfolding removed
    removed-IsValid stored =
        let last = s.count - 1 in
        let end = valid.listed last (omega arith) in
        let own = valid.looked_up id inside in
        record {
          fits = omega (arith, valid.fits);
          small = valid.small;
          listed = λ i hi. elim (ℕ_discrete (s.sparse id) i) [
            | yes here ↦ ground (arith, here, end)
            | no other ↦
                let old = valid.listed i (omega arith) in
                let not_last : s.dense_lookup last ≢ s.dense_lookup i =
                  λ e. absurd (omega (arith, old, end, ap s.sparse e, hi)) in
                let not_id : id ≢ s.dense_lookup i =
                  λ e. absurd (omega (arith, old, ap s.sparse e, other)) in
                ground (arith, other, old, not_last, not_id)
          ];
          looked_up = λ j hj. elim (ℕ_discrete (s.dense_lookup last) j) [
            | yes here ↦ inr (ground (arith, here), ground (arith, here))
            | no other ↦ elim (ℕ_discrete id j) [
              | yes same ↦ inl (ground (arith, other, same))
              | no differ ↦ elim (valid.looked_up j hj) [
                | inl gone ↦ inl (ground (arith, other, differ, gone))
                | inr (lt, back) ↦
                    let not_last : s.sparse j ≢ last =
                      λ e. other (sym (ap s.dense_lookup e) ∙ back) in
                    let not_own : s.sparse id ≢ s.sparse j = ground (
                      arith,
                      own,
                      back,
                      differ,
                      ap s.dense_lookup,
                      stored,
                      valid.small,
                      valid.fits,
                    ) in
                    inr (
                      ground (arith, other, differ, lt, not_last),
                      ground (arith, other, differ, back, not_own),
                    )
              ]
            ]
          ];
        }
