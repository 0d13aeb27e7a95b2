-- ===== src/HashMaps/Shift.antt =====
-- The inner loop of `Remove`: a hole moves on until the entries behind it are at home.
use scal_base.Prelude.{
  ℕ, zero, suc, ◌+◌, ◌-◌, ◌≤◌, ◌<◌, ◌≡◌, ◌≢◌, refl, ◌⊎◌, arith, false, update, ◌^◌,
}
use native.Mathlib.Decide.{ℕ_discrete}
use scal_base.HashMaps.{Bucket, next}
use scal_base.HashMaps.Walk.{walk, walk-lt, next-lt, next_inj}
use scal_base.HashMaps.Invariant.{Used, RobinHood}

module _ {ℓ} {K V : Type ℓ} (h : K → ℕ) (n : ℕ) where
  -- The order of the buckets but the one at `hole`, whose content no longer counts. The entry after
  -- the hole may be two steps further from its home than the entry before the hole.
  pub record HoleOrder (t : ℕ → Bucket K V) (hole : ℕ) : Type ℓ where
    pub placed : (i : ℕ) → i < n → i ≢ hole → Used t i → walk n (h (t i).key) (t i).probe_length ≡ i
    pub bounded : (i : ℕ) → i < n → i ≢ hole → Used t i → (t i).probe_length < n
    pub graded :
        (i : ℕ)
        → i < n
        → i ≢ hole
        → next n i ≢ hole
        → Used t (next n i)
        → 0 < (t (next n i)).probe_length
        → Used t i × ((t (next n i)).probe_length ≤ (t i).probe_length + 1)
    pub bridged :
        (i : ℕ)
        → i < n
        → i ≢ hole
        → next n i ≡ hole
        → Used t (next n hole)
        → 1 < (t (next n hole)).probe_length
        → Used t i × ((t (next n hole)).probe_length ≤ (t i).probe_length + 2)
    pub distinct :
        (i j : ℕ)
        → i < n
        → j < n
        → i ≢ hole
        → j ≢ hole
        → Used t i
        → Used t j
        → (t i).key ≡ (t j).key
        → i ≡ j

  module _ (small : n ≤ 2 ^ 16) (t : ℕ → Bucket K V) (hole : ℕ) (inside : hole < n) where
    pub RobinHood-HoleOrder : RobinHood h n t → Used t hole → HoleOrder t hole
    RobinHood-HoleOrder rh u = record {
      placed = λ i hi ne. rh.placed i hi;
      bounded = λ i hi ne. rh.bounded i hi;
      graded = λ i hi ne ne'. rh.graded i hi;
      bridged = λ i hi ne at v far.
          let (_, le) = rh.graded hole inside v (omega arith) in
          elim (ℕ_discrete (t hole).probe_length 0) [
            | yes home ↦ absurd (omega arith)
            | no away ↦
                let (w, le') = rh.graded i hi (rw at u) (rw at (omega arith)) in
                (w, ground (arith, le, rw at at le'))
          ];
      distinct = λ i j hi hj ne ne'. rh.distinct i j hi hj;
    }

    abbrev pub cleared : ℕ → Bucket K V
    cleared = update t hole (record (t hole) { probe_length = 0; is_used = false })

    -- Before a free bucket or an entry at home the hole can be left free.
    pub close-RobinHood :
        HoleOrder t hole
        → ((t (next n hole)).is_used ≡ false) ⊎ ((t (next n hole)).probe_length ≡ 0)
        → RobinHood h n cleared
    close-RobinHood o stop = record {
      placed = λ i hi u. ground (arith, o.placed i hi);
      bounded = λ i hi u. ground (arith, o.bounded i hi);
      graded = λ i hi u pos. ground (arith, o.graded i hi, stop);
      distinct = λ i j hi hj u v e. ground (arith, o.distinct i j hi hj);
    }

    abbrev pub moved : Bucket K V
    moved = record (t (next n hole)) { probe_length = (t (next n hole)).probe_length - 1 }

    abbrev pub filled : ℕ → Bucket K V
    filled = update (update t (next n hole) moved) hole moved

    -- The next entry fills the hole, and its bucket is the new one.
    module _ (o : HoleOrder t hole) (apart : next n hole ≢ hole) (u : Used t (next n hole))
        (away : (t (next n hole)).probe_length ≢ 0) where
      at_home :
          (p : ℕ)
          → (t (next n hole)).probe_length ≡ p
          → h (t (next n hole)).key < n
          → walk n (h (t (next n hole)).key) (p - 1) ≡ hole
      unfolding walk
      at_home zero e start = absurd (away e)
      at_home (suc q) e start =
          let k = (t (next n hole)).key in
          let back = rw e at (o.placed (next n hole) (next-lt small hole inside) apart u) in
          let there =
            next_inj small (walk n (h k) q) hole (walk-lt small (h k) q start) inside back in
          rw (pred_suc q) there
        where
          pred_suc : (x : ℕ) → suc x - 1 ≡ x
          pred_suc x = omega arith

      pub fill-HoleOrder : ((k : K) → h k < n) → HoleOrder filled (next n hole)
      fill-HoleOrder homes =
          let N = next n hole in
          let hN = next-lt small hole inside in
          let start = at_home (t N).probe_length refl (homes (t N).key) in
          let far = o.bounded N hN apart u in
          record {
            placed = λ i hi ne v. elim (ℕ_discrete hole i) [
              | yes here ↦ ground (arith, here, start)
              | no there ↦ ground (arith, there, ne, o.placed i hi)
            ];
            bounded = λ i hi ne v. ground (arith, o.bounded i hi);
            graded = λ i hi ne ne' v pos. ground (arith, apart, u, o.graded i hi, o.bridged i hi);
            bridged = λ i hi ne at v pos.
                let here = next_inj small i hole hi inside at in
                ground (arith, here, apart, u, o.graded N hN);
            distinct = λ i j hi hj ne ne' v w e.
                ground (arith, o.distinct i j hi hj, o.distinct N j hN hj, o.distinct i N hi hN);
          }
