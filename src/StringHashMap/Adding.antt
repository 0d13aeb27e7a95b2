-- ===== src/StringHashMap/Adding.antt =====
-- `Add` of a key that the map does not hold, and the `Get` after it.

use scal_base.Prelude.{
  ℕ, suc, ◌+◌, ◌-◌, ◌^◌, ◌≤◌, ◌<◌, ◌≡◌, ◌≢◌, refl, ap, sym, ◌∙◌, arith, true, false, ltb, ◌==◌,
  none, some, ok, load-ok, update, update_self, update_ne, Returns, returns,
}
use scal_base.Prelude.Words.{u32, bit_and-le}
use scal_base.Base.{fast_modulo}
use scal_base.HashMaps.{next, not_found}
use scal_base.HashMaps.Walk.{walk, walk-lt, walk_inj}
use scal_base.String.{String}
use scal_base.String.Compared.{string_are_equal_iff}
use scal_base.StringHashMap.{
  HashStrSlot, StringHashMap, Carry, home_slot, is_key, settle, swap, step_on, add_loop, add,
  get_loop, get_index,
}
use scal_base.StringHashMap.Probing.{
  slot_at, Passes, at_step, add_loop-Passes, get_loop-Passes, update-Passes,
}

home_slot-lt :
    (hash capacity : ℕ) → 0 < capacity → capacity ≤ 2 ^ 16 → home_slot hash capacity < capacity
unfolding home_slot fast_modulo
home_slot-lt hash capacity some_slots small = omega (arith, bit_and-le hash (capacity - 1))

module _ (hash_string : String → ℕ) where
  -- The new entry as `Add` stores it.
  abbrev pub new_slot : String → HashStrSlot
  new_slot key = record { string = key; hash = hash_string key; probe_length = 0; is_used = true }

  is_key_self :
      (key : String) (k : ℕ)
      → is_key (record (new_slot key) { probe_length = k }) (hash_string key) key ≡ true
  unfolding is_key
  is_key_self key k =
      let same : (hash_string key == hash_string key) ≡ true = ground arith in
      rw (same, (string_are_equal_iff key key).1 refl) refl

module _ {ℓ} {V : Type ℓ} (fuel : ℕ) (s : Carry V) (inside : s.idx < (s.map).capacity) where
  add_loop-free : ((s.map).buckets s.idx).is_used ≡ false → add_loop (suc fuel) s ≡ ok (settle s)
  unfolding add_loop
  add_loop-free free =
      rw
        (
          load-ok (s.map).buckets (s.map).capacity s.idx inside,
          load-ok (s.map).values (s.map).capacity s.idx inside,
          free,
        )
        refl

  add_loop-nearer :
      let slot = (s.map).buckets s.idx in
      (slot.is_used ≡ true)
      → is_key slot (s.swap_bucket).hash (s.swap_bucket).string ≡ false
      → slot.probe_length < s.probe_length
      → add_loop (suc fuel) s ≡ add_loop fuel (step_on (swap s slot ((s.map).values s.idx)))
  unfolding add_loop
  add_loop-nearer used other near =
      let test : ltb ((s.map).buckets s.idx).probe_length s.probe_length ≡ true =
        ground (arith, near) in
      rw
        (
          load-ok (s.map).buckets (s.map).capacity s.idx inside,
          load-ok (s.map).values (s.map).capacity s.idx inside,
          used,
          other,
          test,
        )
        refl

module _ {ℓ} {V : Type ℓ} (hash_string : String → ℕ) where
  -- The map has room for one more entry, and a search for `key` passes by `d` slots.
  pub record Searched (m : StringHashMap V) (key : String) (d : ℕ) : Type 0 where
    pub small : m.capacity ≤ 2 ^ 16
    pub short : d < m.capacity
    pub room : m.count ≢ m.max_count
    pub word : m.count + 1 < 2 ^ 32
    pub passes : Passes m key (hash_string key) (home_slot (hash_string key) m.capacity) d

  abbrev home_of : StringHashMap V → String → ℕ
  home_of m key = home_slot (hash_string key) m.capacity

  module _ {m : StringHashMap V} {key : String} {d : ℕ} (searched : Searched m key d)
      (value : V) where
    -- Up to step `d`, `Add` only looks.
    add-at_step :
        add hash_string m key value
        ≡ add_loop
            (suc (m.capacity - d))
            (at_step m (new_slot hash_string key) value (home_of m key) d)
    unfolding add walk
    add-at_step =
        let some_room : (m.count == m.max_count) ≡ false = ground (arith, searched.room) in
        let rounds : m.capacity + 1 ≡ suc (m.capacity - d) + d = omega (arith, searched.short) in
        rw (some_room, rounds)
          (add_loop-Passes m (home_of m key) d searched.small
            (home_slot-lt (hash_string key) m.capacity (omega (arith, searched.short))
              searched.small)
            searched.short (new_slot hash_string key) value (suc (m.capacity - d)) d 0 (omega arith)
            searched.passes)

    -- The same for `Get` of a map that differs from `m` only behind those slots.
    get_index-at_step :
        (r : StringHashMap V)
        → r.capacity ≡ m.capacity
        → 0 < r.count
        → Passes r key (hash_string key) (home_of r key) d
        → get_index hash_string r key
          ≡ get_loop
              (suc (r.capacity - d))
              r
              key
              (hash_string key)
              d
              (walk r.capacity (home_of r key) d)
    unfolding get_index walk
    get_index-at_step r same some_entries passes =
        let any : (r.count == 0) ≡ false = ground arith in
        let rounds : r.capacity + 1 ≡ suc (r.capacity - d) + d =
          omega (arith, same, searched.short) in
        rw (any, rounds)
          (get_loop-Passes r (home_of r key) d (omega (arith, same, searched.small))
            (home_slot-lt (hash_string key) r.capacity (omega (arith, same, searched.short))
              (omega (arith, same, searched.small)))
            (omega (arith, same, searched.short)) key (hash_string key) (suc (r.capacity - d)) d 0
            (omega arith) passes)

    -- In a map of at most 2 ^ 16 slots with room for one more entry, when the first slots from the
    -- home of a key hold other keys that are not nearer to their homes, and the slot behind those
    -- is free: `Add` of the key stores the value there and counts it, and `Get` of the key then
    -- finds it.
    pub get_index-add :
        (slot_at m (home_of m key) d).is_used ≡ false
        → let i = walk m.capacity (home_of m key) d in
          Returns
            (λ r.
              (r.1 ≡ record { index = i; does_exist = false })
              × (r.0.count ≡ m.count + 1)
              × (r.0.values i ≡ value)
              × (get_index hash_string r.0 key ≡ ok (some i)))
            (add hash_string m key value)
    unfolding add_loop settle get_loop
    get_index-add free =
        let home = home_of m key in
        let i = walk m.capacity home d in
        let inside =
          home_slot-lt (hash_string key) m.capacity (omega (arith, searched.short))
            searched.small in
        let lt = walk-lt searched.small home d inside in
        let stored : HashStrSlot = record (new_slot hash_string key) { probe_length = d } in
        let kept =
          update-Passes m home d searched.small inside searched.short key (hash_string key) d stored
            (omega arith) searched.short searched.passes in
        let r : StringHashMap V = record m {
          buckets = update m.buckets i stored;
          values = update m.values i value;
          count = m.count + 1;
        } in
        let passes : Passes r key (hash_string key) home d = record {
          used = kept.used;
          other = kept.other;
          long = kept.long;
        } in
        let sum : u32 (m.count + 1) ≡ m.count + 1 = omega (arith, searched.word) in
        let test : ltb d d ≡ false = ground arith in
        rw
          (
            add-at_step,
            load-ok m.buckets m.capacity i lt,
            load-ok m.values m.capacity i lt,
            free,
            sum,
          )
          (returns (
            refl,
            refl,
            update_self m.values i value,
            get_index-at_step r refl (omega arith) passes
                ∙ rw
                    (
                      load-ok r.buckets m.capacity i lt,
                      update_self m.buckets i stored,
                      test,
                      is_key_self hash_string key d,
                    )
                    refl,
          ))

    -- In a map of at most 2 ^ 16 slots with room for one more entry, when the first slots from the
    -- home of a key hold other keys that are not nearer to their homes, the slot behind those
    -- holds another key that is nearer to its home, and the next slot is free: `Add` of the key
    -- stores its slot, with the probe length 0, and its value there and reports the index, moves
    -- the value of the other key to the next slot and counts one entry more, but `Get` of the key
    -- returns null.
    pub get_index-displaced :
        suc d < m.capacity
        → (slot_at m (home_of m key) d).is_used ≡ true
        → is_key (slot_at m (home_of m key) d) (hash_string key) key ≡ false
        → (slot_at m (home_of m key) d).probe_length < d
        → (slot_at m (home_of m key) (suc d)).is_used ≡ false
        → let i = walk m.capacity (home_of m key) d in
          Returns
            (λ r.
              (r.1 ≡ record { index = i; does_exist = false })
              × (r.0.buckets i ≡ new_slot hash_string key)
              × (r.0.values i ≡ value)
              × (r.0.values (walk m.capacity (home_of m key) (suc d)) ≡ m.values i)
              × (r.0.count ≡ m.count + 1)
              × (get_index hash_string r.0 key ≡ ok none))
            (add hash_string m key value)
    unfolding settle swap step_on get_loop walk
    get_index-displaced more used other near free =
        let home = home_of m key in
        let i = walk m.capacity home d in
        let i' = next m.capacity i in
        let inside =
          home_slot-lt (hash_string key) m.capacity (omega (arith, searched.short))
            searched.small in
        let lt = walk-lt searched.small home d inside in
        let lt' : i' < m.capacity = walk-lt searched.small home (suc d) inside in
        let apart : i' ≢ i = λ e.
          absurd
            (omega (arith, walk_inj searched.small home (suc d) d inside more searched.short e)) in
        let fuel : m.capacity - d ≡ suc (m.capacity - d - 1) = omega (arith, more) in
        let start = at_step m (new_slot hash_string key) value home d in
        let carried = step_on (swap start (slot_at m home d) (m.values i)) in
        let next_free : (carried.map.buckets i').is_used ≡ false =
          rw (update_ne m.buckets i (new_slot hash_string key) i' (λ e. apart (sym e))) free in
        let r = (settle carried).0 in
        let stored : HashStrSlot = record (carried.swap_bucket) {
          probe_length = carried.probe_length;
        } in
        let run : add hash_string m key value ≡ ok (settle carried) =
          add-at_step
          ∙ add_loop-nearer (m.capacity - d) start lt used other near
          ∙ ap (λ k. add_loop k carried) fuel
          ∙ add_loop-free (m.capacity - d - 1) carried lt' next_free in
        let first : (i == not_found) ≡ false = ground (arith, lt, searched.small) in
        let sum : u32 (m.count + 1) ≡ m.count + 1 = omega (arith, searched.word) in
        let swapped =
          update-Passes m home d searched.small inside searched.short key (hash_string key) d
            (new_slot hash_string key) (omega arith) searched.short searched.passes in
        let kept =
          update-Passes (record m { buckets = update m.buckets i (new_slot hash_string key) }) home
            d searched.small inside searched.short key (hash_string key) (suc d) stored
            (omega arith) more swapped in
        let here : r.buckets i ≡ new_slot hash_string key =
          update_ne (update m.buckets i (new_slot hash_string key)) i' stored i apart
          ∙ update_self m.buckets i (new_slot hash_string key) in
        let passes : Passes r key (hash_string key) home d = record {
          used = kept.used;
          other = kept.other;
          long = kept.long;
        } in
        let behind : ltb 0 d ≡ true = ground (arith, near) in
        let count : 0 < r.count = rw sum (omega arith) in
        rw run (
          returns (
            rw first refl,
            here,
            update_ne (update m.values i value) i' (m.values i) i apart
                ∙ update_self m.values i value,
            update_self (update m.values i value) i' (m.values i),
            sum,
            get_index-at_step r refl count passes
                ∙ rw (load-ok r.buckets m.capacity i lt, here, behind) refl,
          ))
