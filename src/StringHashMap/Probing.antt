-- ===== src/StringHashMap/Probing.antt =====
-- The slots that the loops of `Add` and `Get` pass by.

use scal_base.Prelude.{
  ℕ, zero, suc, ◌+◌, ◌^◌, ◌≤◌, ◌<◌, ◌≡◌, refl, ap, arith, true, false, ltb, load-ok, update,
  update_ne,
}
use scal_base.Prelude.Words.{u16, u32}
use scal_base.HashMaps.{not_found}
use scal_base.HashMaps.Walk.{walk, walk-lt, walk_inj}
use scal_base.String.{String}
use scal_base.StringHashMap.{HashStrSlot, StringHashMap, Carry, is_key, step_on, add_loop, get_loop}

-- The slot `j` steps from `home`.
abbrev pub slot_at {ℓ} : {V : Type ℓ} → StringHashMap V → ℕ → ℕ → HashStrSlot
slot_at m home j = m.buckets (walk m.capacity home j)

-- The first `d` slots from `home` on hold other keys, none of them nearer to its home than `key` would be.
pub record Passes {ℓ} {V : Type ℓ} (m : StringHashMap V) (key : String) (hash home d : ℕ)
    : Type 0 where
  pub used : (j : ℕ) → j < d → (slot_at m home j).is_used ≡ true
  pub other : (j : ℕ) → j < d → is_key (slot_at m home j) hash key ≡ false
  pub long : (j : ℕ) → j < d → j ≤ (slot_at m home j).probe_length

module _ {ℓ} {V : Type ℓ} where
  -- The loop of `Add` before it has displaced anything, `j` steps from `home`.
  abbrev pub at_step : StringHashMap V → HashStrSlot → V → ℕ → ℕ → Carry V
  at_step m bucket value home j = record {
    map = m;
    swap_bucket = bucket;
    swap_value = value;
    inserted_idx = not_found;
    probe_length = j;
    idx = walk m.capacity home j;
  }

  module _ (m : StringHashMap V) (home d : ℕ) (small : m.capacity ≤ 2 ^ 16)
      (inside : home < m.capacity) (short : d < m.capacity) where
    pub step_on-at_step :
        (bucket : HashStrSlot) (value : V) (j : ℕ)
        → j < d
        → step_on (at_step m bucket value home j) ≡ at_step m bucket value home (j + 1)
    unfolding step_on walk
    step_on-at_step bucket value j lt =
        let word : u16 (j + 1) ≡ j + 1 = omega (arith, small) in
        let same : suc j ≡ j + 1 = omega arith in
        rw word (
          ap (λ k. record (at_step m bucket value home (j + 1)) { idx = walk m.capacity home k })
            same)

    pub add_loop-Passes :
        (bucket : HashStrSlot) (value : V) (fuel left j : ℕ)
        → j + left ≡ d
        → Passes m bucket.string bucket.hash home d
        → add_loop (fuel + left) (at_step m bucket value home j)
          ≡ add_loop fuel (at_step m bucket value home d)
    unfolding add_loop
    add_loop-Passes bucket value fuel zero j e passes =
        let same : fuel + 0 ≡ fuel = omega arith in
        let here : j ≡ d = omega (arith, e) in rw (same, here) refl
    add_loop-Passes bucket value fuel (suc left) j e passes =
        let same : fuel + suc left ≡ suc (fuel + left) = omega arith in
        let lt : j < d = omega (arith, e) in
        let index = walk-lt small home j inside in
        let long : ltb ((slot_at m home j).probe_length) j ≡ false =
          ground (arith, passes.long j lt) in
        rw
          (
            same,
            load-ok m.buckets m.capacity (walk m.capacity home j) index,
            load-ok m.values m.capacity (walk m.capacity home j) index,
            passes.used j lt,
            passes.other j lt,
            long,
            step_on-at_step bucket value j lt,
          )
          (add_loop-Passes bucket value fuel left (j + 1) (omega (arith, e)) passes)

    pub get_loop-Passes :
        (key : String) (hash fuel left j : ℕ)
        → j + left ≡ d
        → Passes m key hash home d
        → get_loop (fuel + left) m key hash j (walk m.capacity home j)
          ≡ get_loop fuel m key hash d (walk m.capacity home d)
    unfolding get_loop walk
    get_loop-Passes key hash fuel zero j e passes =
        let same : fuel + 0 ≡ fuel = omega arith in
        let here : j ≡ d = omega (arith, e) in rw (same, here) refl
    get_loop-Passes key hash fuel (suc left) j e passes =
        let same : fuel + suc left ≡ suc (fuel + left) = omega arith in
        let lt : j < d = omega (arith, e) in
        let index = walk-lt small home j inside in
        let long : ltb ((slot_at m home j).probe_length) j ≡ false =
          ground (arith, passes.long j lt) in
        let word : u32 (j + 1) ≡ suc j = omega (arith, small) in
        rw
          (
            same,
            load-ok m.buckets m.capacity (walk m.capacity home j) index,
            passes.used j lt,
            long,
            passes.other j lt,
            word,
          )
          (get_loop-Passes key hash fuel left (suc j) (omega (arith, e)) passes)

    -- A store `k` steps from `home`, not before step `d`, keeps the first slots.
    pub update-Passes :
        (key : String) (hash k : ℕ) (slot : HashStrSlot)
        → d ≤ k
        → k < m.capacity
        → Passes m key hash home d
        → Passes
            (record m { buckets = update m.buckets (walk m.capacity home k) slot })
            key
            hash
            home
            d
    update-Passes key hash k slot from lt passes = record {
      used = λ j h. rw (kept j h) (passes.used j h);
      other = λ j h. rw (kept j h) (passes.other j h);
      long = λ j h. rw (kept j h) (passes.long j h);
    }
      where
        kept :
            (j : ℕ)
            → j < d
            → update m.buckets (walk m.capacity home k) slot (walk m.capacity home j)
              ≡ m.buckets (walk m.capacity home j)
        kept j h = update_ne m.buckets (walk m.capacity home k) slot (walk m.capacity home j) (λ e.
            absurd (
              omega
                (arith, walk_inj small home k j inside lt (omega (arith, h, short)) e, from, h)))
