-- ===== src/HashMaps/Insert.antt =====
-- The loop of `Add`: the entry is stored, the others move at most, and the order is kept.
use scal_base.Prelude.{
  ℕ, suc, ◌+◌, ◌≤◌, ◌<◌, ◌≡◌, refl, ap, ◌⊎◌, inl, inr, arith, true, false, ◌^◌, update, update_self,
}
use scal_base.Prelude.Words.{u16, u32}
use scal_base.HashMaps.{Bucket, StaticHashMap, Probe, AddResult, next, place, displace, advance}
use scal_base.HashMaps.Walk.{walk, walk-lt}
use scal_base.HashMaps.Invariant.{Used, Absent, RobinHood, Led, Holds, used_count, probe_bound}
use scal_base.HashMaps.Store.{Fits, store-RobinHood}
use scal_base.HashMaps.Contents.{used_count-update, Holds-here, Holds-before, Holds-after}

module _ {ℓ} {K V : Type ℓ} (h : K → ℕ) where
  -- The entry that the loop carries, with the length of its probe.
  abbrev pub carried : Probe K V → Bucket K V
  carried s = record (s.swap_bucket) { probe_length = s.probe_length }

  -- The state at the head of the loop; `f` is a free bucket.
  pub record Carries (f : ℕ) (s : Probe K V) : Type ℓ where
    pub order : RobinHood h (s.map).capacity (s.map).buckets
    pub small : (s.map).capacity ≤ 2 ^ 16
    pub used : (s.swap_bucket).is_used ≡ true
    pub start : h (s.swap_bucket).key < (s.map).capacity
    pub reached : walk (s.map).capacity (h (s.swap_bucket).key) s.probe_length ≡ s.idx
    pub led : Led h (s.map).capacity (s.map).buckets (h (s.swap_bucket).key) s.probe_length
    pub new : Absent (s.map).capacity (s.map).buckets (s.swap_bucket).key
    pub room : f < (s.map).capacity
    pub free : ((s.map).buckets f).is_used ≡ false

  module _ {f : ℕ} {s : Probe K V} (c : Carries f s) where
    n : ℕ
    n = (s.map).capacity

    pub inside : s.idx < (s.map).capacity
    inside = rw (← c.reached) (walk-lt c.small _ _ c.start)

    fits :
        (Used (s.map).buckets s.idx → ((s.map).buckets s.idx).probe_length ≤ s.probe_length)
        → Fits h (s.map).capacity c.small (s.map).buckets (carried s) s.idx
    fits richer = record {
      used = c.used;
      inside = inside;
      start = c.start;
      short = probe_bound h _ c.small c.order _ c.start f s.probe_length c.room c.free c.led;
      reached = c.reached;
      led = c.led;
      richer = richer;
      new = c.new;
    }

    -- The probe that goes on past the entry at `idx` is one longer, with no wrap-around.
    longer :
        (t : ℕ → Bucket K V) (k : K) (p : ℕ)
        → RobinHood h (s.map).capacity t
        → h k < (s.map).capacity
        → (t f).is_used ≡ false
        → walk (s.map).capacity (h k) p ≡ s.idx
        → Used t s.idx
        → p ≤ (t s.idx).probe_length
        → (u16 (p + 1) ≡ suc p) × Led h (s.map).capacity t (h k) (suc p)
    longer t k p rh start free at u le =
        let led : Led h (s.map).capacity t (h k) (suc p) = rw at (u, le) in
        let bound = probe_bound h _ c.small rh (h k) start f (suc p) c.room free led in
        let small = c.small in (omega arith, led)

    -- Past an entry that is as far from its home.
    pub advance-Carries :
        Used (s.map).buckets s.idx
        → s.probe_length ≤ ((s.map).buckets s.idx).probe_length
        → Carries f (advance s)
    unfolding advance walk
    advance-Carries u le =
        let (e, led) =
          longer (s.map).buckets (s.swap_bucket).key s.probe_length c.order c.start c.free c.reached
            u le in
        record {
          order = c.order;
          small = c.small;
          used = c.used;
          start = c.start;
          reached = rw e (ap (next (s.map).capacity) c.reached);
          led = rw e led;
          new = c.new;
          room = c.room;
          free = c.free;
        }

    -- Past an entry that is nearer to its home, which is carried on.
    pub displace-Carries :
        Used (s.map).buckets s.idx
        → ((s.map).buckets s.idx).probe_length < s.probe_length
        → h ((s.map).buckets s.idx).key < (s.map).capacity
        → Carries f (advance (displace s ((s.map).buckets s.idx)))
    unfolding advance displace walk
    displace-Carries u lt start =
        let b = (s.map).buckets s.idx in
        let t = update (s.map).buckets s.idx (carried s) in
        let rh =
          store-RobinHood h _ c.small _ c.order (carried s) s.idx (fits (λ _. omega arith)) in
        let free : (t f).is_used ≡ false = ground (arith, c.free, u) in
        let here : t s.idx ≡ carried s = update_self (s.map).buckets s.idx (carried s) in
        let (e, led) =
          longer t b.key b.probe_length rh start free (c.order.placed s.idx inside u)
            (rw here c.used) (rw here (omega arith)) in
        record {
          order = rh;
          small = c.small;
          used = u;
          start = start;
          reached = rw e (ap (next (s.map).capacity) (c.order.placed s.idx inside u));
          led = rw e led;
          new = λ i hi v. ground (arith, c.order.distinct i s.idx hi inside, c.new s.idx inside u);
          room = c.room;
          free = free;
        }

  abbrev pub Matches : Bucket K V → K → V → Type ℓ
  Matches b k v = (b.key ≡ k) × (b.value ≡ v)

  -- What the loop returns: the carried entry is stored beside the old ones.
  pub record Added (s : Probe K V) (r : StaticHashMap K V × AddResult) : Type ℓ where
    pub order : RobinHood h (s.map).capacity (r.0).buckets
    pub capacity : (r.0).capacity ≡ (s.map).capacity
    pub max_count : (r.0).max_count ≡ (s.map).max_count
    pub count : (r.0).count ≡ u32 ((s.map).count + 1)
    pub counted :
        used_count (r.0).buckets (s.map).capacity ≡ used_count (s.map).buckets (s.map).capacity + 1
    pub stored :
        (k : K) (v : V)
        → Matches s.swap_bucket k v ⊎ Holds (s.map).capacity (s.map).buckets k v
        → Holds (s.map).capacity (r.0).buckets k v
    pub only :
        (k : K) (v : V)
        → Holds (s.map).capacity (r.0).buckets k v
        → Matches s.swap_bucket k v ⊎ Holds (s.map).capacity (s.map).buckets k v
    pub added : (r.1).does_exist ≡ false
    pub fitted : (r.1).is_map_full ≡ false

  module _ {f : ℕ} {s : Probe K V} (c : Carries f s) where
    pub place-Added : ((s.map).buckets s.idx).is_used ≡ false → Added s (place s)
    unfolding place
    place-Added free =
        let old = (s.map).buckets in
        let x = carried s in
        let lt = inside c in
        record {
          order = store-RobinHood h _ c.small _ c.order x s.idx (fits c (λ u. cc));
          capacity = refl;
          max_count = refl;
          count = refl;
          counted = ground (arith, used_count-update old _ s.idx x lt, free, c.used);
          stored = λ k v. elim [
            | inl (e, e') ↦ Holds-here old _ s.idx lt x k v c.used e e'
            | inr was ↦ elim (Holds-after old _ s.idx lt x k v was) [
              | inl (u, _, _) ↦ absurd (cc)
              | inr now ↦ now
            ]
          ];
          only = λ k v. Holds-before old _ s.idx lt x k v;
          added = refl;
          fitted = refl;
        }

    -- The table after a swap holds, with the entry now carried, what it held with the other.
    pub displace-Added :
        Used (s.map).buckets s.idx
        → (r : StaticHashMap K V × AddResult)
        → Added (advance (displace s ((s.map).buckets s.idx))) r
        → Added s r
    unfolding displace advance
    displace-Added u r a =
        let old = (s.map).buckets in
        let x = carried s in
        let lt = inside c in
        record {
          order = a.order;
          capacity = a.capacity;
          max_count = a.max_count;
          count = a.count;
          counted =
              ground
                (arith, used_count-update old (s.map).capacity s.idx x lt, u, c.used, a.counted);
          stored = λ k v. elim [
            | inl (e, e') ↦ a.stored k v (inr (Holds-here old _ s.idx lt x k v c.used e e'))
            | inr was ↦ elim (Holds-after old _ s.idx lt x k v was) [
              | inl (_, e, e') ↦ a.stored k v (inl (e, e'))
              | inr now ↦ a.stored k v (inr now)
            ]
          ];
          only = λ k v now. elim (a.only k v now) [
            | inl (e, e') ↦ inr (s.idx, lt, u, e, e')
            | inr was ↦ Holds-before old _ s.idx lt x k v was
          ];
          added = a.added;
          fitted = a.fitted;
        }

    pub advance-Added : (r : StaticHashMap K V × AddResult) → Added (advance s) r → Added s r
    unfolding advance
    advance-Added r a = record {
      order = a.order;
      capacity = a.capacity;
      max_count = a.max_count;
      count = a.count;
      counted = a.counted;
      stored = a.stored;
      only = a.only;
      added = a.added;
      fitted = a.fitted;
    }
