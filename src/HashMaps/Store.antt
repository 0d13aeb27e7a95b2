-- ===== src/HashMaps/Store.antt =====
-- One write of the loop of `Add` keeps the buckets in Robin Hood order.
use native.Mathlib.Decide.{ℕ_discrete}
use scal_base.Prelude.{ℕ, zero, suc, ◌+◌, ◌≤◌, ◌<◌, ◌≡◌, refl, sym, ◌∙◌, arith, true, ◌^◌, update}
use scal_base.HashMaps.{Bucket, next}
use scal_base.HashMaps.Walk.{walk, walk-lt, next_inj}
use scal_base.HashMaps.Invariant.{Used, Absent, RobinHood, Led}

module _ {ℓ} {K V : Type ℓ} (h : K → ℕ) (n : ℕ) (small : n ≤ 2 ^ 16) (t : ℕ → Bucket K V) where
  -- The entry `x` at the end of its probe, over a free bucket or over an entry nearer to its home.
  pub record Fits (x : Bucket K V) (idx : ℕ) : Type ℓ where
    pub used : x.is_used ≡ true
    pub inside : idx < n
    pub start : h x.key < n
    pub short : x.probe_length < n
    pub reached : walk n (h x.key) x.probe_length ≡ idx
    pub led : Led h n t (h x.key) x.probe_length
    pub richer : Used t idx → (t idx).probe_length ≤ x.probe_length
    pub new : Absent n t x.key

  module _ (rh : RobinHood h n t) (x : Bucket K V) (idx : ℕ) (fits : Fits x idx) where
    before :
        (p : ℕ)
        → x.probe_length ≡ p
        → 0 < p
        → (i : ℕ) → i < n
        → next n i ≡ idx
        → Used t i × (p ≤ (t i).probe_length + 1)
    unfolding walk
    before zero e pos i hi at = absurd (omega arith)
    before (suc q) e pos i hi at =
        let led : Led h n t (h x.key) (suc q) = rw e at fits.led in
        let back : next n (walk n (h x.key) q) ≡ idx = rw e at fits.reached in
        let same =
          next_inj small (walk n (h x.key) q) i (walk-lt small (h x.key) q fits.start) hi
            (back ∙ sym at) in
        let (u, le) : Used t i × (q ≤ (t i).probe_length) = rw same at led in (u, omega arith)

    graded :
        (i : ℕ)
        → i < n
        → Used (update t idx x) (next n i)
        → 0 < (update t idx x (next n i)).probe_length
        → Used (update t idx x) i
          × ((update t idx x (next n i)).probe_length ≤ (update t idx x i).probe_length + 1)
    graded i hi u pos = elim (ℕ_discrete idx (next n i)) [
      | yes here ↦
          let far : 0 < x.probe_length = ground (arith, here) in
          ground (arith, here, fits.used, before x.probe_length refl far i hi (sym here))
      | no there ↦ ground (arith, rh.graded i hi, fits.richer, fits.used)
    ]

    pub store-RobinHood : RobinHood h n (update t idx x)
    store-RobinHood = record {
      placed = λ i hi u. ground (arith, rh.placed i hi, fits.reached);
      bounded = λ i hi u. ground (arith, rh.bounded i hi, fits.short);
      graded = graded;
      distinct = λ i j hi hj u v e.
          ground (arith, rh.distinct i j hi hj, fits.new i hi, fits.new j hj, sym e);
    }
