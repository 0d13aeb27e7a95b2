-- ===== src/StringHashMap.antt =====
-- Lib/StringHashMap.h, in a build without asserts: a Robin Hood table from strings to values, with the
-- values in a block of their own. `hash_string` is `HashString`. A slot that is not used has a
-- null string, which is `null_string` here and which no operation reads. The allocator always has memory.
-- `Replace`, `AddAllocator` and `ReplaceAllocator` pass a `String` where `Add` takes a pointer to one, and
-- have no model.
pub mod Probing
pub mod Adding
mod Tests
use scal_base.Prelude.{
  ℕ, zero, suc, ◌+◌, ◌-◌, ◌*◌, ◌^◌, Bool, true, false, ◌&&◌, Option, none, some, ltb, leb, ◌==◌,
  if◌then◌else◌, Run, ok, out_of_fuel, ◌>>=◌, load, update,
}
use scal_base.Prelude.Words.{u16, u32, u64}
use scal_base.Base.{fast_modulo, is_power_of2, align_pow_two_ceil32}
use scal_base.HashMaps.{next, not_found}
use scal_base.String.{String, string_are_equal}

pub record HashStrSlot : Type 0 where
  pub string : String
  pub hash : ℕ
  pub probe_length : ℕ
  pub is_used : Bool

pub record StrHashMapAddResult : Type 0 where
  pub index : ℕ
  pub does_exist : Bool

pub record StringHashMap {ℓ} (V : Type ℓ) : Type ℓ where
  pub buckets : ℕ → HashStrSlot
  pub values : ℕ → V
  pub capacity : ℕ
  pub count : ℕ
  pub max_count : ℕ

-- The variables of the loop of `Add`.
pub record Carry {ℓ} (V : Type ℓ) : Type ℓ where
  pub map : StringHashMap V
  pub swap_bucket : HashStrSlot
  pub swap_value : V
  pub inserted_idx : ℕ
  pub probe_length : ℕ
  pub idx : ℕ

abbrev pub null_string : String
null_string = record { size = 0; capacity = 0; bytes = λ i. 0; block = 0 }

-- A zeroed slot.
abbrev pub no_slot : HashStrSlot
no_slot = record { string = null_string; hash = 0; probe_length = 0; is_used = false }

-- `slot->Hash == hash && StringAreEqual(key, slot->String)`
unfoldable pub is_key : HashStrSlot → ℕ → String → Bool
unfolding string_are_equal
is_key slot hash key = slot.hash == hash && string_are_equal key slot.string

unfoldable pub home_slot : ℕ → ℕ → ℕ
home_slot hash capacity = u32 (fast_modulo hash capacity)

-- The loop of `ClearAllocator` over the slots from `i` on; what it frees is left out.
unfoldable pub clear_loop : ℕ → ℕ → (ℕ → HashStrSlot) → ℕ → HashStrSlot
clear_loop zero i buckets = buckets
clear_loop (suc left) i buckets =
    clear_loop left (i + 1)
      (update buckets i (record (buckets i) { probe_length = 0; is_used = false }))

module _ {ℓ} {V : Type ℓ} where
  abbrev pub first_inserted : Carry V → ℕ
  first_inserted s = if s.inserted_idx == not_found then s.idx else s.inserted_idx

  -- An open spot.
  unfoldable pub settle : Carry V → StringHashMap V × StrHashMapAddResult
  settle s = (
    record (s.map) {
      buckets =
          update (s.map).buckets s.idx (record (s.swap_bucket) { probe_length = s.probe_length });
      values = update (s.map).values s.idx s.swap_value;
      count = u32 ((s.map).count + 1);
    },
    record { index = first_inserted s; does_exist = false },
  )

  -- The three swaps: of the probe lengths, of the buckets with the probe lengths that they then have, and
  -- of the values.
  unfoldable pub swap : Carry V → HashStrSlot → V → Carry V
  swap s slot value = record s {
    map = record (s.map) {
      buckets = update (s.map).buckets s.idx s.swap_bucket;
      values = update (s.map).values s.idx s.swap_value;
    };
    swap_bucket = record slot { probe_length = s.probe_length };
    swap_value = value;
    inserted_idx = first_inserted s;
    probe_length = slot.probe_length;
  }

  unfoldable pub step_on : Carry V → Carry V
  unfolding next
  step_on s = record s {
    probe_length = u16 (s.probe_length + 1);
    idx = next (s.map).capacity s.idx;
  }

  unfoldable pub add_loop : ℕ → Carry V → Run (StringHashMap V × StrHashMapAddResult)
  unfolding is_key settle swap step_on
  add_loop zero s = out_of_fuel
  add_loop (suc fuel) s = do
    slot ← load (s.map).buckets (s.map).capacity s.idx
    value ← load (s.map).values (s.map).capacity s.idx
    let swapped = add_loop fuel (step_on (swap s slot value))
    let onward = add_loop fuel (step_on s)
    if slot.is_used
        then if is_key slot (s.swap_bucket).hash (s.swap_bucket).string
          then ok (s.map, record { index = s.idx; does_exist = true })
          else if ltb slot.probe_length s.probe_length
          then swapped
          else onward
        else ok (settle s)

  -- A round for each slot is enough fuel, and one more.
  unfoldable pub add :
      (String → ℕ) → StringHashMap V → String → V → Run (StringHashMap V × StrHashMapAddResult)
  unfolding home_slot add_loop
  add hash_string m key value =
      let bucket : HashStrSlot = record {
        string = key;
        hash = hash_string key;
        probe_length = 0;
        is_used = true;
      } in
      if m.count == m.max_count
      then ok (m, record { index = not_found; does_exist = false })
      else add_loop (m.capacity + 1) (record {
        map = m;
        swap_bucket = bucket;
        swap_value = value;
        inserted_idx = not_found;
        probe_length = 0;
        idx = home_slot (hash_string key) m.capacity;
      })

  unfoldable pub get_loop : ℕ → StringHashMap V → String → ℕ → ℕ → ℕ → Run (Option ℕ)
  unfolding next is_key
  get_loop zero m key hash probe_length idx = out_of_fuel
  get_loop (suc fuel) m key hash probe_length idx = do
    slot ← load m.buckets m.capacity idx
    let rest = get_loop fuel m key hash (u32 (probe_length + 1)) (next m.capacity idx)
    if slot.is_used
        then if ltb slot.probe_length probe_length
          then ok none
          else if is_key slot hash key
          then ok (some idx)
          else rest
        else ok none

  -- The index of the value that `Get` points at.
  unfoldable pub get_index : (String → ℕ) → StringHashMap V → String → Run (Option ℕ)
  unfolding home_slot get_loop
  get_index hash_string m key =
      if m.count == 0
      then ok none
      else get_loop (m.capacity + 1) m key (hash_string key) 0
          (home_slot (hash_string key) m.capacity)

  unfoldable pub clear_allocator : StringHashMap V → StringHashMap V
  unfolding clear_loop
  clear_allocator m = record m { buckets = clear_loop m.capacity 0 m.buckets; count = 0 }

  -- The inner loop of `RemoveAllocator`.
  unfoldable pub shift_slots : ℕ → StringHashMap V → ℕ → Run (StringHashMap V × Bool)
  unfolding next
  shift_slots zero m last = out_of_fuel
  shift_slots (suc fuel) m last = do
    let idx = next m.capacity last
    next_slot ← load m.buckets m.capacity idx
    old_slot ← load m.buckets m.capacity last
    value ← load m.values m.capacity idx
    let moved = record next_slot {
      probe_length = next_slot.probe_length - 1;
      is_used = old_slot.is_used;
    }
    let rest =
        shift_slots fuel
          (record m { buckets = update m.buckets last moved; values = update m.values last value })
          idx
    let stop = ok (
      record m { buckets = update m.buckets last no_slot; count = u32 (m.count + (2 ^ 32 - 1)) },
      true,
    )
    if next_slot.is_used then if next_slot.probe_length == 0 then stop else rest else stop

  unfoldable pub remove_loop : ℕ → StringHashMap V → String → ℕ → ℕ → Run (StringHashMap V × Bool)
  unfolding next is_key shift_slots
  remove_loop zero m key hash idx = out_of_fuel
  remove_loop (suc fuel) m key hash idx = do
    slot ← load m.buckets m.capacity idx
    let rest = remove_loop fuel m key hash (next m.capacity idx)
    if slot.is_used
        then if is_key slot hash key then shift_slots (m.capacity + 1) m idx else rest
        else ok (m, false)

  unfoldable pub remove_allocator :
      (String → ℕ) → StringHashMap V → String → Run (StringHashMap V × Bool)
  unfolding home_slot remove_loop
  remove_allocator hash_string m key =
      if m.count == 0
      then ok (m, false)
      else remove_loop (m.capacity + 1) m key (hash_string key)
          (home_slot (hash_string key) m.capacity)

  -- The loop of `Resize` over the old slots from `i` on, with `left` of them to go.
  unfoldable pub rehash_loop :
      (String → ℕ) → StringHashMap V → ℕ → ℕ → StringHashMap V → Run (StringHashMap V)
  unfolding add
  rehash_loop hash_string old zero i new = ok new
  rehash_loop hash_string old (suc left) i new =
      if (old.buckets i).is_used
      then (add hash_string new (old.buckets i).string (old.values i) >>= λ r.
          rehash_loop hash_string old left (i + 1) r.0)
      else rehash_loop hash_string old left (i + 1) new

  -- `Resize`. `fresh` is what the new block of values holds, and `scale c` is `(u32)((float)c * LOAD_FACTOR)`.
  -- A map without buckets has the capacity 0.
  unfoldable pub resize :
      (String → ℕ) → (ℕ → ℕ) → (ℕ → V) → StringHashMap V → ℕ → Run (StringHashMap V)
  unfolding rehash_loop is_power_of2 align_pow_two_ceil32
  resize hash_string scale fresh m wanted =
      let least = if leb wanted 1 then 2 else wanted in
      let capacity = if is_power_of2 least then least else align_pow_two_ceil32 least in
      let new : StringHashMap V = record {
        buckets = λ i. no_slot;
        values = fresh;
        capacity = capacity;
        count = 0;
        max_count = u32 (scale capacity);
      } in
      if leb capacity m.capacity
      then ok m
      else if m.capacity == 0
      then ok (record new { count = m.count })
      else rehash_loop hash_string m m.capacity 0 new
