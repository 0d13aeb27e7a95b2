-- ===== src/HashMaps/Delete.antt =====
-- The loops of `Remove`.
use scal_base.Prelude.{
  ℕ, zero, suc, ◌+◌, ◌-◌, ◌≤◌, ◌<◌, ◌≡◌, ◌≢◌, refl, sym, ◌∙◌, ◌⊎◌, inl, inr, arith, Bool, true,
  false, update, ◌^◌, ◌==◌, if◌then◌else◌, ok, load-ok, Returns, returns, Returns-map, Bool-cases,
}
use scal_base.Prelude.Words.{u32}
use mathlib.Core.Bool.{false≢true}
use native.Mathlib.Decide.{ℕ_discrete}
use scal_base.HashMaps.{Bucket, StaticHashMap, next, shift_loop}
use scal_base.HashMaps.Walk.{walk, walk-next, next-lt, next-ne}
use scal_base.HashMaps.Invariant.{Used, RobinHood, Holds, used_count}
use scal_base.HashMaps.Contents.{used_count-update}
use scal_base.HashMaps.Shift.{HoleOrder, close-RobinHood, fill-HoleOrder}

module _ {ℓ} {K V : Type ℓ} where
  -- `k` is stored with the value `v` in a bucket other than the hole.
  abbrev pub HoldsBeside : ℕ → (ℕ → Bucket K V) → ℕ → K → V → Type ℓ
  HoldsBeside n t hole k v =
      (i : ℕ) × (i < n) × (i ≢ hole) × Used t i × ((t i).key ≡ k) × ((t i).value ≡ v)

  module _ (h : K → ℕ) where
    -- What the loop returns: all but the entry that was in the hole.
    pub record Removed (m : StaticHashMap K V) (hole : ℕ) (r : StaticHashMap K V × Bool)
        : Type ℓ where
      pub order : RobinHood h m.capacity (r.0).buckets
      pub capacity : (r.0).capacity ≡ m.capacity
      pub max_count : (r.0).max_count ≡ m.max_count
      pub count : (r.0).count ≡ u32 (m.count + (2 ^ 32 - 1))
      pub counted : used_count (r.0).buckets m.capacity + 1 ≡ used_count m.buckets m.capacity
      pub removed : r.1 ≡ true
      pub kept :
          (k : K) (v : V)
          → HoldsBeside m.capacity m.buckets hole k v
          → Holds m.capacity (r.0).buckets k v
      pub only :
          (k : K) (v : V)
          → Holds m.capacity (r.0).buckets k v
          → HoldsBeside m.capacity m.buckets hole k v

  module _ (m : StaticHashMap K V) (last : ℕ) (lt : last < m.capacity)
      (small : m.capacity ≤ 2 ^ 16) where
    abbrev closed : StaticHashMap K V × Bool
    closed = (
      record m {
        buckets =
            update m.buckets last (record (m.buckets last) { probe_length = 0; is_used = false });
        count = u32 (m.count + (2 ^ 32 - 1));
      },
      true,
    )

    abbrev shifted : StaticHashMap K V
    shifted =
        let b = m.buckets (next m.capacity last) in
        let x = record b { probe_length = b.probe_length - 1 } in
        record m { buckets = update (update m.buckets (next m.capacity last) x) last x }

    -- One round of the loop.
    shift_loop-step :
        (fuel : ℕ)
        → let b = m.buckets (next m.capacity last) in
          shift_loop (suc fuel) m last ≡ (
            if b.is_used
            then if b.probe_length == 0
              then ok closed
              else shift_loop fuel shifted (next m.capacity last)
            else ok closed)
    unfolding shift_loop
    shift_loop-step fuel = rw (
      load-ok m.buckets m.capacity (next m.capacity last) (next-lt small last lt),
      load-ok m.buckets m.capacity last lt,
    )

    module _ (h : K → ℕ) (o : HoleOrder h m.capacity m.buckets last) (u : Used m.buckets last) where
      close-Removed :
          ((m.buckets (next m.capacity last)).is_used ≡ false)
            ⊎ ((m.buckets (next m.capacity last)).probe_length ≡ 0)
          → Removed h m last closed
      close-Removed stop =
          let x = record (m.buckets last) { probe_length = 0; is_used = false } in
          record {
            order = close-RobinHood h m.capacity small m.buckets last lt o stop;
            capacity = refl;
            max_count = refl;
            count = refl;
            counted = ground (arith, used_count-update m.buckets m.capacity last x lt, u);
            removed = refl;
            kept = λ k v (i, hi, ne, w, e, e').
                (i, hi, ground (arith, w), ground (arith, e), ground (arith, e'));
            only = λ k v (i, hi, w, e, e'). elim (ℕ_discrete last i) [
              | yes same ↦ ground (arith, same)
              | no other ↦ (
                i,
                hi,
                λ (p : i ≡ last). other (sym p),
                ground (arith, other, w),
                ground (arith, other, e),
                ground (arith, other, e'),
              )
            ];
          }

      shift-Removed :
          next m.capacity last ≢ last
          → Used m.buckets (next m.capacity last)
          → (r : StaticHashMap K V × Bool) → Removed h shifted (next m.capacity last) r
          → Removed h m last r
      shift-Removed apart w r a =
          let n = m.capacity in
          let N = next n last in
          let b = m.buckets N in
          let x = record b { probe_length = b.probe_length - 1 } in
          let t = update m.buckets N x in
          let hN = next-lt small last lt in
          record {
            order = a.order;
            capacity = a.capacity;
            max_count = a.max_count;
            count = a.count;
            counted = ground (
              arith,
              a.counted,
              used_count-update m.buckets n N x hN,
              used_count-update t n last x lt,
              u,
              w,
              apart,
            );
            removed = a.removed;
            kept = λ k v (i, hi, ne, p, e, e'). a.kept k v (elim (ℕ_discrete i N) [
              | yes same ↦ (
                last,
                lt,
                λ (q : last ≡ N). apart (sym q),
                ground (arith, w),
                ground (arith, same, e),
                ground (arith, same, e'),
              )
              | no other ↦ (
                i,
                hi,
                other,
                ground (arith, p, ne, other),
                ground (arith, e, ne, other),
                ground (arith, e', ne, other),
              )
            ]);
            only = λ k v now.
                let (i, hi, ne, p, e, e') = a.only k v now in
                elim (ℕ_discrete i last) [
                  | yes same ↦ (N, hN, apart, w, ground (arith, same, e), ground (arith, same, e'))
                  | no other ↦ (
                    i,
                    hi,
                    other,
                    ground (arith, p, ne, other),
                    ground (arith, e, ne, other),
                    ground (arith, e', ne, other),
                  )
                ];
          }

module _ {ℓ} {K V : Type ℓ} (h : K → ℕ) where
  -- The shift ends at a free bucket `d` steps behind the hole, if not before.
  pub shift_loop-Removed :
      (fuel d f : ℕ) (m : StaticHashMap K V) (last : ℕ)
      → m.capacity ≤ 2 ^ 16
      → ((k : K) → h k < m.capacity)
      → last < m.capacity
      → HoleOrder h m.capacity m.buckets last
      → Used m.buckets last
      → f < m.capacity
      → (m.buckets f).is_used ≡ false
      → walk m.capacity last d ≡ f
      → d ≤ fuel
      → Returns (Removed h m last) (shift_loop fuel m last)
  unfolding walk
  shift_loop-Removed fuel zero f m last small homes lt o u hf free ahead le =
      absurd (false≢true (sym free ∙ rw ahead at u))
  shift_loop-Removed zero (suc d) f m last small homes lt o u hf free ahead le =
      absurd (omega arith)
  shift_loop-Removed (suc fuel) (suc d) f m last small homes lt o u hf free ahead le =
      let n = m.capacity in
      let b = m.buckets (next n last) in
      let step = shift_loop-step m last lt small fuel in
      elim (Bool-cases b.is_used) [
        | inr open_next ↦
            let round : shift_loop (suc fuel) m last ≡ ok (closed m last lt small) =
              step ∙ ground (arith, open_next) in
            rw round (returns (close-Removed m last lt small h o u (inl open_next)))
        | inl w ↦ elim (ℕ_discrete b.probe_length 0) [
          | yes home ↦
              let round : shift_loop (suc fuel) m last ≡ ok (closed m last lt small) =
                step ∙ ground (arith, w, home) in
              rw round (returns (close-Removed m last lt small h o u (inr home)))
          | no away ↦
              let apart : next n last ≢ last =
                next-ne small last f lt hf (λ (e : last ≡ f). false≢true (sym free ∙ rw e at u)) in
              let round : shift_loop (suc fuel) m last
                  ≡ shift_loop fuel (shifted m last lt small) (next n last) =
                step ∙ ground (arith, w, away) in
              let rest =
                shift_loop-Removed fuel d f (shifted m last lt small) (next n last) small homes
                  (next-lt small last lt)
                  (fill-HoleOrder h n small m.buckets last lt o apart w away homes)
                  (ground (arith, apart, w)) hf (ground (arith, free, u, w))
                  (walk-next n last d ∙ ahead) (omega arith) in
              rw round (Returns-map rest (shift-Removed m last lt small h o u apart w))
        ]
      ]
