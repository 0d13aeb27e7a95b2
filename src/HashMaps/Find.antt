-- ===== src/HashMaps/Find.antt =====
-- The loop of `Get` on a table in Robin Hood order.
use native.Mathlib.Nat.{add-zero}
use scal_base.Prelude.{
  ℕ, zero, suc, ◌+◌, ◌≤◌, ◌<◌, ◌≡◌, sym, ◌∙◌, inl, inr, arith, ◌^◌, none, some, Eq, ok, load-ok,
  Bool-cases,
}
use scal_base.HashMaps.{StaticHashMap, get_loop}
use scal_base.HashMaps.Walk.{walk, walk-lt}
use scal_base.HashMaps.Invariant.{Used, Absent, RobinHood, Led, chain}

module _ {ℓ} {K V : Type ℓ} ⦃eq : Eq K⦄ (h : K → ℕ) (m : StaticHashMap K V)
    (small : m.capacity ≤ 2 ^ 16) (rh : RobinHood h m.capacity m.buckets) (k : K)
    (inside : h k < m.capacity) where
  -- An entry of `k` is met at its probe length, and the entries before it are no nearer to their
  -- homes than the probe.
  pub entry-Led :
      (i : ℕ)
      → i < m.capacity
      → Used m.buckets i
      → (m.buckets i).key ≡ k
      → (d j : ℕ) → j + d ≡ (m.buckets i).probe_length
      → Led h m.capacity m.buckets (h k) (suc j)
  entry-Led i hi u e d j s =
      let at : walk m.capacity (h k) (j + d) ≡ i = rw (s, ← e) (rh.placed i hi u) in
      chain h m.capacity small rh (h k) inside d j (rw at (u, omega (arith, s)))

  -- From `j` steps past its home the key stored at `i` is found.
  pub get_found :
      (i : ℕ)
      → i < m.capacity
      → Used m.buckets i
      → (m.buckets i).key ≡ k
      → (fuel d j : ℕ) → j + d ≡ (m.buckets i).probe_length
      → d < fuel
      → get_loop fuel m k j (walk m.capacity (h k) j) ≡ ok (some i)
  unfolding get_loop walk
  get_found i hi u e zero d j s f = absurd (omega arith)
  get_found i hi u e (suc fuel) zero j s f =
      let idx = walk m.capacity (h k) j in
      let here : idx ≡ i = rw (← add-zero j, s, ← e) (rh.placed i hi u) in
      let same = (eq.beq_iff k (m.buckets i).key).1 (sym e) in
      ground (arith, load-ok m.buckets m.capacity i hi)
  get_found i hi u e (suc fuel) (suc d) j s f =
      let idx = walk m.capacity (h k) j in
      let lt = walk-lt small (h k) j inside in
      let led = entry-Led i hi u e (suc d) j s in
      let rest = get_found i hi u e fuel d (suc j) (omega arith) (omega arith) in
      let far = rh.bounded i hi u in
      elim (Bool-cases (eq.beq k (m.buckets idx).key)) [
        | inl same ↦
            let here =
              rh.distinct idx i lt hi led.0 u
                (sym ((eq.beq_iff k (m.buckets idx).key).0 same) ∙ sym e) in
            ground (arith, load-ok m.buckets m.capacity idx lt, here)
        | inr other ↦ ground (arith, load-ok m.buckets m.capacity idx lt, rest, other, far)
      ]

  -- A key that is not stored is not found, within as many rounds as there are buckets, and one more.
  pub get_loop-Absent :
      Absent m.capacity m.buckets k
      → (fuel j : ℕ) → j ≤ m.capacity
      → m.capacity < fuel + j
      → get_loop fuel m k j (walk m.capacity (h k) j) ≡ ok none
  unfolding get_loop walk
  get_loop-Absent abs zero j hj f = absurd (omega arith)
  get_loop-Absent abs (suc fuel) j hj f =
      let idx = walk m.capacity (h k) j in
      let lt = walk-lt small (h k) j inside in
      grind (
        arith,
        load-ok m.buckets m.capacity idx lt,
        abs idx lt,
        rh.bounded idx lt,
        eq.beq_iff k (m.buckets idx).key,
        get_loop-Absent abs fuel (suc j),
      )
