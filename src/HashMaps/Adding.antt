-- ===== src/HashMaps/Adding.antt =====
-- `Add` on a valid table.
use scal_base.Prelude.{
  ℕ, ◌+◌, ◌<◌, ◌≡◌, ◌≢◌, refl, sym, ◌∙◌, ◌⊎◌, inl, inr, arith, true, false, Bool-cases, some, Eq,
  List, if◌then◌else◌, ◌==◌, ok, ◌>>=◌, Returns, Returns-map, Returns-inv,
}
use mathlib.Core.Bool.{false≢true}
use scal_base.HashMaps.Walk.{walk}
use scal_base.HashMaps.{StaticHashMap, Probe, AddResult, not_found, home, add, get}
use scal_base.HashMaps.Invariant.{Used, Holds, Absent}
use scal_base.HashMaps.Contents.{free_bucket}
use scal_base.HashMaps.Valid.{IsValid, home-lt}
use scal_base.HashMaps.Insert.{Carries, Added}
use scal_base.HashMaps.Loop.{add_loop-Added, add_loop_present}
use scal_base.HashMaps.Lookup.{get-Holds, get_congr}
use scal_base.HashMaps.Walk.{walk-reaches}

module _ {ℓ} {K V : Type ℓ} ⦃eq : Eq K⦄ (bytes : K → List ℕ) where
  -- `r` is `m` with one more entry.
  pub record Grown (m : StaticHashMap K V) (k : K) (v : V) (r : StaticHashMap K V × AddResult)
      : Type ℓ where
    pub valid : IsValid bytes r.0
    pub capacity : (r.0).capacity ≡ m.capacity
    pub max_count : (r.0).max_count ≡ m.max_count
    pub count : (r.0).count ≡ m.count + 1
    pub added : (r.1).does_exist ≡ false
    pub fitted : (r.1).is_map_full ≡ false
    pub stored : Holds (r.0).capacity (r.0).buckets k v
    pub kept :
        (j : K) (w : V) → Holds m.capacity m.buckets j w → Holds (r.0).capacity (r.0).buckets j w
    pub only :
        (j : K) (w : V)
        → Holds (r.0).capacity (r.0).buckets j w
        → ((k ≡ j) × (v ≡ w)) ⊎ Holds m.capacity m.buckets j w

  module _ {m : StaticHashMap K V} (valid : IsValid bytes m) (k : K) (v : V) where
    abbrev start : Probe K V
    start = record {
      map = m;
      swap_bucket = record { key = k; probe_length = 0; is_used = true; value = v };
      inserted_idx = not_found;
      probe_length = 0;
      idx = home bytes m.capacity k;
    }

    Added-Grown :
        m.count ≢ m.max_count
        → (r : StaticHashMap K V × AddResult) → Added (home bytes m.capacity) start r
        → Grown m k v r
    Added-Grown room r a =
        let small = valid.small in
        record {
          valid = record {
            small = rw a.capacity valid.small;
            nonempty = rw a.capacity valid.nonempty;
            order = rw a.capacity a.order;
            counted =
                rw a.capacity
                  (omega (arith, a.counted, a.count, valid.counted, valid.below, valid.limit));
            below = omega (arith, a.count, a.max_count, valid.below, valid.limit);
            limit = rw (a.capacity, a.max_count) valid.limit;
          };
          capacity = a.capacity;
          max_count = a.max_count;
          count = omega (arith, a.count, valid.below, valid.limit);
          added = a.added;
          fitted = a.fitted;
          stored = rw a.capacity (a.stored k v (inl (refl, refl)));
          kept = λ j w was. rw a.capacity (a.stored j w (inr was));
          only = λ j w now. a.only j w (rw a.capacity at now);
        }

    -- `Add` of a key that a valid table does not store, when the table is not full, ends without a
    -- fault and within one round per bucket and one more; it stores exactly one more entry, keeps
    -- the capacity and the limit, and the table stays valid.
    pub add_new :
        Absent m.capacity m.buckets k
        → m.count ≢ m.max_count
        → Returns (Grown m k v) (add bytes m k v)
    unfolding add walk
    add_new absent room =
        let h = home-lt bytes m.capacity k valid.nonempty in
        let (f, hf, free) = free_bucket m.buckets m.capacity (omega arith) in
        let (d, hd, ahead) = walk-reaches valid.small (home bytes m.capacity k) f h hf in
        let carries : Carries (home bytes m.capacity) f start = record {
          order = valid.order;
          small = valid.small;
          used = refl;
          start = h;
          reached = refl;
          led = tt;
          new = absent;
          room = hf;
          free = free;
        } in
        let loop =
          add_loop-Added (home bytes m.capacity) (m.capacity + 1) d f start
            (λ j. home-lt bytes m.capacity j valid.nonempty) carries ahead (omega arith) in
        elim (Bool-cases (m.count == m.max_count)) [
          | inl full ↦ absurd (ground arith)
          | inr not_full ↦ rw not_full (Returns-map loop (Added-Grown room))
        ]

    -- `Add` of the key in a used bucket of a valid table that is not full returns the index of
    -- that bucket and reports that the key exists; the table stays as it was.
    pub add_present :
        (i : ℕ)
        → i < m.capacity
        → Used m.buckets i
        → (m.buckets i).key ≡ k
        → m.count ≢ m.max_count
        → add bytes m k v ≡ ok (m, record { index = i; does_exist = true; is_map_full = false })
    unfolding add walk
    add_present i hi u e room =
        let h = home-lt bytes m.capacity k valid.nonempty in
        let loop =
          add_loop_present (home bytes m.capacity) (m.capacity + 1) (m.buckets i).probe_length i
            start valid.small valid.order h hi u e refl (omega arith)
            (omega (arith, valid.order.bounded i hi u)) in
        ground (arith, loop)

    -- After `Add` of a key that a valid table does not store, when the table is not full, `Get`
    -- returns the new value for that key, and for any other key what it returned before.
    pub get-add :
        Absent m.capacity m.buckets k
        → m.count ≢ m.max_count
        → (j : K)
        → (add bytes m k v >>= λ r. get bytes r.0 j)
          ≡ (if eq.beq k j then ok (some v) else get bytes m j)
    get-add absent room j =
        let (r, run, grown) = Returns-inv (add_new absent room) in
        rw run (elim (Bool-cases (eq.beq k j)) [
          | inl same ↦
              rw (same, ← (eq.beq_iff k j).0 same) (get-Holds bytes grown.valid k v grown.stored)
          | inr other ↦ rw other (
              get_congr bytes valid grown.valid j (grown.kept j) λ w now.
                elim (grown.only j w now) [
                  | inl (e, _) ↦ absurd (false≢true (sym other ∙ (eq.beq_iff k j).1 e))
                  | inr was ↦ was
                ])
        ])

    -- A full table stores nothing: `Add` says so, whether or not the key is stored.
    pub add_full :
        m.count ≡ m.max_count
        → add bytes m k v
          ≡ ok (m, record { index = not_found; does_exist = false; is_map_full = true })
    unfolding add
    add_full full = ground arith
