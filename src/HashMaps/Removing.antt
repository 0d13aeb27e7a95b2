-- ===== src/HashMaps/Removing.antt =====
-- `Remove` on a valid table.
use native.Mathlib.Nat.{add-zero}
use mathlib.Core.Bool.{false≢true}
use scal_base.Prelude.{
  ℕ, zero, suc, ◌+◌, ◌≤◌, ◌<◌, ◌≡◌, ◌≢◌, refl, ap, sym, ◌∙◌, inl, inr, arith, Bool, true, false,
  ◌^◌, Bool-cases, none, Eq, List, if◌then◌else◌, ◌==◌, ok, out_of_fuel, ◌>>=◌, Returns,
  Returns-map, Returns-inv, load-ok,
}
use scal_base.HashMaps.{StaticHashMap, next, home, remove, remove_loop, shift_loop, get}
use scal_base.HashMaps.Walk.{walk, walk-lt, walk-next, walk-reaches, next-lt}
use scal_base.HashMaps.Invariant.{Used, Holds, Absent, RobinHood}
use scal_base.HashMaps.Find.{entry-Led}
use scal_base.HashMaps.Contents.{free_bucket, used_count_le}
use scal_base.HashMaps.Valid.{IsValid, home-lt, search_key, counts}
use scal_base.HashMaps.Shift.{RobinHood-HoleOrder}
use scal_base.HashMaps.Delete.{Removed, shift_loop-Removed}
use scal_base.HashMaps.Lookup.{get-Absent, get_congr}

module _ {ℓ} {K V : Type ℓ} ⦃eq : Eq K⦄ where
  remove_loop-step :
      (fuel : ℕ) (m : StaticHashMap K V) (k : K) (i : ℕ)
      → i < m.capacity
      → let b = m.buckets i in
        remove_loop (suc fuel) m k i ≡ (
          if b.is_used
          then if eq.beq k b.key
            then shift_loop (m.capacity + 1) m i
            else remove_loop fuel m k (next m.capacity i)
          else ok (m, false))
  unfolding remove_loop
  remove_loop-step fuel m k i h = rw (load-ok m.buckets m.capacity i h)

  -- The search ends at a free bucket `d` steps ahead when the key is not stored.
  remove_loop-Absent :
      (fuel d f : ℕ) (m : StaticHashMap K V) (k : K) (i : ℕ)
      → m.capacity ≤ 2 ^ 16
      → i < m.capacity
      → Absent m.capacity m.buckets k
      → (m.buckets f).is_used ≡ false
      → walk m.capacity i d ≡ f
      → d < fuel
      → remove_loop fuel m k i ≡ ok (m, false)
  unfolding walk
  remove_loop-Absent zero d f m k i small hi absent free ahead lt = absurd (omega arith)
  remove_loop-Absent (suc fuel) zero f m k i small hi absent free ahead lt =
      let here : (m.buckets i).is_used ≡ false = rw ahead free in
      remove_loop-step fuel m k i hi ∙ ground (arith, here)
  remove_loop-Absent (suc fuel) (suc d) f m k i small hi absent free ahead lt =
      let rest =
        remove_loop-Absent fuel d f m k (next m.capacity i) small (next-lt small i hi) absent free
          (walk-next m.capacity i d ∙ ahead) (omega arith) in
      remove_loop-step fuel m k i hi
      ∙ ground (arith, absent i hi, eq.beq_iff k (m.buckets i).key, rest)

  -- On a full table the search for a key that is not stored never ends.
  pub remove_loop-out_of_fuel :
      (fuel : ℕ) (m : StaticHashMap K V) (k : K) (i : ℕ)
      → m.capacity ≤ 2 ^ 16
      → i < m.capacity
      → Absent m.capacity m.buckets k
      → ((j : ℕ) → j < m.capacity → Used m.buckets j)
      → remove_loop fuel m k i ≡ out_of_fuel
  unfolding remove_loop
  remove_loop-out_of_fuel zero m k i small hi absent full = refl
  remove_loop-out_of_fuel (suc fuel) m k i small hi absent full =
      let rest =
        remove_loop-out_of_fuel fuel m k (next m.capacity i) small (next-lt small i hi) absent
          full in
      remove_loop-step fuel m k i hi
      ∙ ground (arith, absent i hi, full i hi, eq.beq_iff k (m.buckets i).key, rest)

  module _ (h : K → ℕ) (m : StaticHashMap K V) (small : m.capacity ≤ 2 ^ 16)
      (rh : RobinHood h m.capacity m.buckets) (k : K) (inside : h k < m.capacity) (i : ℕ)
      (hi : i < m.capacity) (u : Used m.buckets i) (e : (m.buckets i).key ≡ k) where
    -- The search for a stored key reaches its bucket.
    remove_loop-found :
        (fuel d j : ℕ)
        → j + d ≡ (m.buckets i).probe_length
        → d < fuel
        → remove_loop fuel m k (walk m.capacity (h k) j) ≡ shift_loop (m.capacity + 1) m i
    unfolding walk
    remove_loop-found zero d j sum lt = absurd (omega arith)
    remove_loop-found (suc fuel) zero j sum lt =
        let here : walk m.capacity (h k) j ≡ i = rw (← add-zero j, sum, ← e) (rh.placed i hi u) in
        let same = (eq.beq_iff k (m.buckets i).key).1 (sym e) in
        rw here (remove_loop-step fuel m k i hi ∙ ground (arith, u, same))
    remove_loop-found (suc fuel) (suc d) j sum lt =
        let idx = walk m.capacity (h k) j in
        let at = walk-lt small (h k) j inside in
        let led = entry-Led h m small rh k inside i hi u e (suc d) j sum in
        let rest = remove_loop-found fuel d (suc j) (omega arith) (omega arith) in
        elim (Bool-cases (eq.beq k (m.buckets idx).key)) [
          | inl same ↦
              let here =
                rh.distinct idx i at hi led.0 u
                  (sym ((eq.beq_iff k (m.buckets idx).key).0 same) ∙ sym e) in
              remove_loop-step fuel m k idx at ∙ ground (arith, led.0, same, here)
          | inr other ↦ remove_loop-step fuel m k idx at ∙ ground (arith, led.0, other, rest)
        ]

module _ {ℓ} {K V : Type ℓ} ⦃eq : Eq K⦄ (bytes : K → List ℕ) where
  -- `r` is `m` with the entry of `k` taken out.
  pub record Shrunk (m : StaticHashMap K V) (k : K) (r : StaticHashMap K V × Bool) : Type ℓ where
    pub valid : IsValid bytes r.0
    pub capacity : (r.0).capacity ≡ m.capacity
    pub count : (r.0).count + 1 ≡ m.count
    pub removed : r.1 ≡ true
    pub gone : Absent (r.0).capacity (r.0).buckets k
    pub kept :
        (j : K) (w : V)
        → k ≢ j
        → Holds m.capacity m.buckets j w
        → Holds (r.0).capacity (r.0).buckets j w
    pub only :
        (j : K) (w : V) → Holds (r.0).capacity (r.0).buckets j w → Holds m.capacity m.buckets j w

  module _ {m : StaticHashMap K V} (valid : IsValid bytes m) (k : K) where
    Removed-Shrunk :
        (i : ℕ)
        → i < m.capacity
        → Used m.buckets i
        → (m.buckets i).key ≡ k
        → (r : StaticHashMap K V × Bool) → Removed (home bytes m.capacity) m i r
        → Shrunk m k r
    Removed-Shrunk i hi u e r a =
        let some_entry = counts m.buckets m.capacity i hi u in
        record {
          valid = record {
            small = rw a.capacity valid.small;
            nonempty = rw a.capacity valid.nonempty;
            order = rw a.capacity a.order;
            counted = rw a.capacity (
                omega (
                  arith, a.counted, a.count, valid.counted, valid.below, valid.limit, valid.small,
                ));
            below = omega (
              arith, a.counted, a.count, a.max_count, valid.counted, valid.below, valid.limit,
              valid.small,
            );
            limit = rw (a.capacity, a.max_count) valid.limit;
          };
          capacity = a.capacity;
          count =
              omega
                (arith, a.counted, a.count, valid.counted, valid.below, valid.limit, valid.small);
          removed = a.removed;
          gone = λ j hj v same.
              let (i', hi', ne, u', e', _) =
                a.only k ((r.0).buckets j).value (j, rw a.capacity at hj, v, same, refl) in
              ne (valid.order.distinct i' i hi' hi u' u (e' ∙ sym e));
          kept = λ j w ne (i', hi', u', e', e''). rw a.capacity (
              a.kept j w (
                i',
                hi',
                λ (p : i' ≡ i). ne (sym e ∙ ap (λ x. (m.buckets x).key) (sym p) ∙ e'),
                u',
                e',
                e'',
              ));
          only = λ j w now.
              let (i', hi', _, u', e', e'') = a.only j w (rw a.capacity at now) in
              (i', hi', u', e', e'');
        }

    -- `Remove` of a key that a valid table with a free bucket stores ends without a fault and
    -- returns true; it takes out that entry and no other, and the table stays valid.
    pub remove_stored :
        (i : ℕ)
        → i < m.capacity
        → Used m.buckets i
        → (m.buckets i).key ≡ k
        → m.count ≢ m.capacity
        → Returns (Shrunk m k) (remove bytes m k)
    unfolding remove walk
    remove_stored i hi u e room =
        let n = m.capacity in
        let inside = home-lt bytes n k valid.nonempty in
        let (f, hf, free) =
          free_bucket m.buckets n (omega (arith, valid.counted, used_count_le m.buckets n)) in
        let (d, hd, ahead) = walk-reaches valid.small i f hi hf in
        let found =
          remove_loop-found (home bytes n) m valid.small valid.order k inside i hi u e (n + 1)
            (m.buckets i).probe_length 0 (omega arith)
            (omega (arith, valid.order.bounded i hi u)) in
        let shift =
          shift_loop-Removed (home bytes n) (n + 1) d f m i valid.small
            (λ j. home-lt bytes n j valid.nonempty) hi
            (RobinHood-HoleOrder (home bytes n) n valid.small m.buckets i hi valid.order u) u hf
            free ahead (omega arith) in
        let nonzero : (m.count == 0) ≡ false =
          ground (arith, valid.counted, counts m.buckets n i hi u) in
        rw (nonzero, found) (Returns-map shift (Removed-Shrunk i hi u e))

    -- `Remove` of a key that is not stored changes nothing, as long as a bucket is free.
    pub remove-Absent :
        Absent m.capacity m.buckets k → m.count ≢ m.capacity → remove bytes m k ≡ ok (m, false)
    unfolding remove
    remove-Absent absent room =
        let n = m.capacity in
        let inside = home-lt bytes n k valid.nonempty in
        let (f, hf, free) =
          free_bucket m.buckets n (omega (arith, valid.counted, used_count_le m.buckets n)) in
        let (d, hd, ahead) = walk-reaches valid.small (home bytes n k) f inside hf in
        let loop =
          remove_loop-Absent (n + 1) d f m k (home bytes n k) valid.small inside absent free ahead
            (omega arith) in
        ground (arith, loop)

    -- After `Remove` of any key from a valid table with a free bucket, `Get` returns null for that
    -- key, and for any other key what it returned before.
    pub get-remove :
        m.count ≢ m.capacity
        → (j : K)
        → (remove bytes m k >>= λ r. get bytes r.0 j)
          ≡ (if eq.beq k j then ok none else get bytes m j)
    get-remove room j = elim (search_key m.buckets m.capacity k) [
      | inr absent ↦ elim (Bool-cases (eq.beq k j)) [
        | inl same ↦
            rw (remove-Absent absent room, same, ← (eq.beq_iff k j).0 same)
              (get-Absent bytes valid k absent)
        | inr other ↦ rw (remove-Absent absent room, other)
      ]
      | inl (i, hi, u, e) ↦
          let (r, run, s) = Returns-inv (remove_stored i hi u e room) in
          elim (Bool-cases (eq.beq k j)) [
            | inl same ↦
                rw (run, same, ← (eq.beq_iff k j).0 same) (get-Absent bytes s.valid k s.gone)
            | inr other ↦
                rw (run, other)
                  (get_congr bytes valid s.valid j
                    (λ w. s.kept j w λ (p : k ≡ j). false≢true (sym other ∙ (eq.beq_iff k j).1 p))
                    (s.only j))
          ]
    ]
