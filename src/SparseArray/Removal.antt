-- ===== src/SparseArray/Removal.antt =====
-- `Remove`, and what it leaves behind when it takes the last value.
use scal_base.Prelude.{
  ℕ, suc, ◌+◌, ◌-◌, ◌%◌, ◌^◌, ◌<◌, ◌≡◌, ◌≢◌, sym, ◌∙◌, ap, arith, true, false, ltb, ◌==◌,
  if◌then◌else◌, ok, ◌>>=◌, update, update_self, update_ne, Returns, returns, lt→ltb, inl, inr,
  none, some,
}
use native.Mathlib.Decide.{ℕ_discrete}
use scal_base.SparseArray.{SparseSet, empty, add, remove, get}
use scal_base.SparseArray.Stored.{
  IsValid, Removed, get_stored, get_missing, removed, remove-removed, removed-IsValid,
}

module _ {ℓ} {T : Type ℓ} {s : SparseSet T} (valid : IsValid s) (id : ℕ)
    (inside : id < s.capacity) where
  removed-answers :
      s.sparse id < s.count - 1
      → (j : ℕ) → j < s.capacity
      → get (removed valid id inside) j ≡ (if id == j then ok none else get s j)
  unfolding removed
  removed-answers stored j hj =
      let r = removed valid id inside in
      let valid' = removed-IsValid valid id inside stored in
      let last = s.count - 1 in
      let end = valid.listed last (omega arith) in
      elim (ℕ_discrete id j) [
        | yes here ↦
            let same : (id == j) ≡ true = ground (arith, here) in
            let at : r.sparse j ≡ empty = ground (arith, here, end, ap s.sparse, stored) in
            rw same (get_missing r j hj (inl at))
        | no differ ↦
            let apart : (id == j) ≡ false = ground (arith, differ) in
            rw apart (elim (ℕ_discrete (s.dense_lookup last) j) [
              | yes here ↦
                  let at : r.sparse j ≡ s.sparse id = ground (arith, here) in
                  let was : s.sparse j ≡ last = ap s.sparse (sym here) ∙ end.1 in
                  get_stored r j valid'.fits valid.small hj (omega (arith, at))
                  ∙ ap (λ a. ok (some a))
                      (ap r.dense at
                        ∙ update_self s.dense (s.sparse id) (s.dense last)
                        ∙ sym (ap s.dense was))
                  ∙ sym (get_stored s j valid.fits valid.small hj (omega (arith, was)))
              | no other ↦
                  let at : r.sparse j ≡ s.sparse j = ground (arith, other, differ) in
                  elim (valid.looked_up j hj) [
                    | inl gone ↦
                        get_missing r j hj (inl (at ∙ gone)) ∙ sym (get_missing s j hj (inl gone))
                    | inr (lt, back) ↦
                        let not_last : s.sparse j ≢ last =
                          λ e. other (sym (ap s.dense_lookup e) ∙ back) in
                        let not_own : s.sparse id ≢ s.sparse j = ground (
                          arith,
                          valid.looked_up id inside,
                          back,
                          differ,
                          ap s.dense_lookup,
                          stored,
                          valid.small,
                          valid.fits,
                        ) in
                        get_stored r j valid'.fits valid.small hj (omega (arith, at, lt, not_last))
                        ∙ ap (λ a. ok (some a))
                            (ap r.dense at
                              ∙ update_ne s.dense (s.sparse id) (s.dense last) (s.sparse j) not_own)
                        ∙ sym (get_stored s j valid.fits valid.small hj lt)
                  ]
            ])
      ]

  -- `Remove` of an id below the capacity that a valid set stores in another place than the last
  -- one ends without a fault; the set stays valid, `Get` then returns null for the id, and for any
  -- other id what it returned before.
  pub remove-Removed : s.sparse id < s.count - 1 → Returns (Removed s id) (remove s id)
  unfolding removed
  remove-Removed stored = rw (remove-removed valid id inside (omega arith)) (
      returns record {
        valid = removed-IsValid valid id inside stored;
        count = omega arith;
        answers = removed-answers stored;
      })

  -- When `Remove` has taken the last value of a valid set, and `Add` has then stored another id
  -- that the set did not hold, `Get` of the removed id returns the value of the other one.
  pub remove-stale :
      (other : ℕ) (value : T)
      → s.sparse id + 1 ≡ s.count
      → other < s.capacity
      → s.sparse other ≡ empty
      → (remove s id >>= λ r. add r other value >>= λ a. get a.1 id) ≡ ok (some value)
  unfolding removed add
  remove-stale other value stored within absent =
      let r = removed valid id inside in
      let n = s.count - 1 in
      let b : SparseSet T = record r {
        sparse = update r.sparse other n;
        dense_lookup = update r.dense_lookup n other;
        dense = update r.dense n value;
        count = suc n;
      } in
      let differ : (n == s.capacity) ≡ false = ground (arith, valid.fits) in
      let here : ltb other s.capacity ≡ true = lt→ltb _ _ within in
      let next : ltb n s.capacity ≡ true = lt→ltb _ _ (omega (arith, valid.fits)) in
      let word : (n + 1) % 2 ^ 16 ≡ suc n = omega (arith, valid.fits, valid.small) in
      let added : add r other value ≡ ok (some n, b) = rw (differ, here, next, word) in
      let own : s.dense_lookup n ≡ id =
        ground
          (arith, valid.looked_up id inside, stored, valid.fits, valid.small, ap s.dense_lookup) in
      let apart : other ≢ id =
        λ e. absurd (omega (arith, ap s.sparse e, absent, stored, valid.fits, valid.small)) in
      let left : r.sparse id ≡ n = ground (arith, own, stored) in
      let at : b.sparse id ≡ n = update_ne r.sparse other n id apart ∙ left in
      rw (remove-removed valid id inside (omega arith), added)
        (get_stored b id (omega (arith, valid.fits)) valid.small inside (omega (arith, at))
          ∙ ap (λ a. ok (some a)) (ap b.dense at ∙ update_self r.dense n value))
