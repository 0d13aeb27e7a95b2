-- ===== src/HashMaps/Loop.antt =====
-- The loop of `Add` ends: at a free bucket, or at the key.
use scal_base.Prelude.{
  ℕ, zero, suc, ◌+◌, ◌≤◌, ◌<◌, ◌≡◌, ap, sym, ◌∙◌, inl, inr, arith, true, false, ◌^◌, Bool-cases,
  ltb, Eq, ok, load-ok, Returns, returns, Returns-map, if◌then◌else◌,
}
use scal_base.HashMaps.{Probe, next, place, displace, advance, add_loop}
use scal_base.HashMaps.Walk.{walk, walk-lt, walk-next}
use scal_base.HashMaps.Invariant.{Used, RobinHood}
use scal_base.HashMaps.Find.{entry-Led}
use native.Mathlib.Nat.{add-zero}
use scal_base.Prelude.Words.{u16}
use scal_base.HashMaps.Insert.{
  Carries, Added, inside, advance-Carries, displace-Carries, place-Added, displace-Added,
  advance-Added,
}

module _ {ℓ} {K V : Type ℓ} ⦃eq : Eq K⦄ where
  -- One round of the loop.
  add_loop-step :
      (fuel : ℕ) (s : Probe K V)
      → s.idx < (s.map).capacity
      → let b = (s.map).buckets s.idx in
        add_loop (suc fuel) s ≡ (
          if b.is_used
          then if eq.beq b.key (s.swap_bucket).key
            then ok (s.map, record { index = s.idx; does_exist = true; is_map_full = false })
            else if ltb b.probe_length s.probe_length
            then add_loop fuel (advance (displace s b))
            else add_loop fuel (advance s)
          else ok (place s))
  unfolding add_loop
  add_loop-step fuel s lt = rw (load-ok (s.map).buckets (s.map).capacity s.idx lt)

  module _ (h : K → ℕ) where
    -- From a state of the loop, a free bucket `d` steps ahead ends it after `d` rounds at most.
    pub add_loop-Added :
        (fuel d f : ℕ) (s : Probe K V)
        → ((k : K) → h k < (s.map).capacity)
        → Carries h f s
        → walk (s.map).capacity s.idx d ≡ f
        → d < fuel
        → Returns (Added h s) (add_loop fuel s)
    unfolding advance displace walk
    add_loop-Added zero d f s homes c ahead lt = absurd (omega arith)
    add_loop-Added (suc fuel) zero f s homes c ahead lt =
        let free : ((s.map).buckets s.idx).is_used ≡ false = rw ahead c.free in
        rw (add_loop-step fuel s (inside h c), free) (returns (place-Added h c free))
    add_loop-Added (suc fuel) (suc d) f s homes c ahead lt =
        let at = inside h c in
        let b = (s.map).buckets s.idx in
        let ahead' = walk-next (s.map).capacity s.idx d ∙ ahead in
        elim (Bool-cases b.is_used) [
          | inr free ↦ rw (add_loop-step fuel s at, free) (returns (place-Added h c free))
          | inl u ↦ elim (Bool-cases (eq.beq b.key (s.swap_bucket).key)) [
            | inl same ↦ absurd (c.new s.idx at u ((eq.beq_iff b.key (s.swap_bucket).key).0 same))
            | inr other ↦ elim (Bool-cases (ltb b.probe_length s.probe_length)) [
              | inl richer ↦
                  let round : add_loop (suc fuel) s ≡ add_loop fuel (advance (displace s b)) =
                    add_loop-step fuel s at ∙ ground (arith, u, other, richer) in
                  let rest =
                    add_loop-Added fuel d f (advance (displace s b)) homes
                      (displace-Carries h c u (ground arith) (homes b.key)) ahead' (omega arith) in
                  rw round (Returns-map rest (displace-Added h c u))
              | inr poorer ↦
                  let round : add_loop (suc fuel) s ≡ add_loop fuel (advance s) =
                    add_loop-step fuel s at ∙ ground (arith, u, other, poorer) in
                  let rest =
                    add_loop-Added fuel d f (advance s) homes (advance-Carries h c u (ground arith))
                      ahead' (omega arith) in
                  rw round (Returns-map rest (advance-Added h c))
            ]
          ]
        ]

    -- A key that is stored at `i` is met before any entry has moved.
    pub add_loop_present :
        (fuel d i : ℕ) (s : Probe K V)
        → (s.map).capacity ≤ 2 ^ 16
        → RobinHood h (s.map).capacity (s.map).buckets
        → h (s.swap_bucket).key < (s.map).capacity
        → i < (s.map).capacity
        → Used (s.map).buckets i
        → ((s.map).buckets i).key ≡ (s.swap_bucket).key
        → walk (s.map).capacity (h (s.swap_bucket).key) s.probe_length ≡ s.idx
        → s.probe_length + d ≡ ((s.map).buckets i).probe_length
        → d < fuel
        → add_loop fuel s ≡ ok (s.map, record { index = i; does_exist = true; is_map_full = false })
    unfolding advance walk
    add_loop_present zero d i s small rh start hi u e at sum lt = absurd (omega arith)
    add_loop_present (suc fuel) zero i s small rh start hi u e at sum lt =
        let here : s.idx ≡ i =
          sym at ∙ rw (← add-zero s.probe_length, sum, ← e) (rh.placed i hi u) in
        let inside : s.idx < (s.map).capacity = rw here hi in
        let same : eq.beq ((s.map).buckets s.idx).key (s.swap_bucket).key ≡ true =
          (eq.beq_iff ((s.map).buckets s.idx).key (s.swap_bucket).key).1 (rw here e) in
        let used : ((s.map).buckets s.idx).is_used ≡ true = rw here u in
        rw (add_loop-step fuel s inside, used, same, here)
    add_loop_present (suc fuel) (suc d) i s small rh start hi u e at sum lt =
        let key = (s.swap_bucket).key in
        let inside : s.idx < (s.map).capacity =
          rw (← at) (walk-lt small (h key) s.probe_length start) in
        let led =
          rw at at (entry-Led h s.map small rh key start i hi u e (suc d) s.probe_length sum) in
        let far = rh.bounded i hi u in
        let longer : u16 (s.probe_length + 1) ≡ suc s.probe_length = omega arith in
        let rest =
          add_loop_present fuel d i (advance s) small rh start hi u e
            (rw longer (ap (next (s.map).capacity) at)) (rw longer (omega arith)) (omega arith) in
        elim (Bool-cases (eq.beq ((s.map).buckets s.idx).key key)) [
          | inl same ↦
              let here =
                rh.distinct s.idx i inside hi led.0 u
                  ((eq.beq_iff ((s.map).buckets s.idx).key key).0 same ∙ sym e) in
              rw (add_loop-step fuel s inside, led.0, same, here)
          | inr other ↦ rw (add_loop-step fuel s inside) (ground (arith, led, other, rest))
        ]
