-- ===== src/HashMaps.antt =====
-- Lib/HashMaps.h: `StaticHashMap`, an open-addressing table with Robin Hood probing.
-- `Buckets` is a function from index to bucket, and every access is checked against `Capacity`.
-- The object representation of a key, whose bytes `Hash` reads, is the parameter `bytes`.
pub mod Walk
pub mod Invariant
pub mod Find
pub mod Store
pub mod Contents
pub mod Insert
pub mod Loop
pub mod Valid
pub mod Lookup
pub mod Adding
pub mod Shift
pub mod Delete
pub mod Removing
pub mod Setup
mod Tests
use scal_base.Prelude.{
  ℕ, zero, suc, ◌+◌, ◌-◌, ◌*◌, ◌^◌, Bool, true, false, Option, none, some, List, ltb, ◌==◌,
  if◌then◌else◌, Eq, Run, ok, out_of_fuel, ◌>>=◌, load, update,
}
use scal_base.Prelude.Words.{u16, u32, u64}
use scal_base.Base.{fnv_hash64, fast_modulo, is_power_of2, align_pow_two_ceil32}

pub record Bucket {ℓ} (K V : Type ℓ) : Type ℓ where
  pub key : K
  pub probe_length : ℕ
  pub is_used : Bool
  pub value : V

pub record AddResult : Type 0 where
  pub index : ℕ
  pub does_exist : Bool
  pub is_map_full : Bool

abbrev pub not_found : ℕ
not_found = 2 ^ 32 - 1

pub record StaticHashMap {ℓ} (K V : Type ℓ) : Type ℓ where
  pub buckets : ℕ → Bucket K V
  pub capacity : ℕ
  pub count : ℕ
  pub max_count : ℕ

-- The variables of the loop of `Add`.
pub record Probe {ℓ} (K V : Type ℓ) : Type ℓ where
  pub map : StaticHashMap K V
  pub swap_bucket : Bucket K V
  pub inserted_idx : ℕ
  pub probe_length : ℕ
  pub idx : ℕ

-- `(u32)HashAndMod(key, Capacity)`
pub home {ℓ} : {K : Type ℓ} → (K → List ℕ) → ℕ → K → ℕ
home bytes capacity key = u32 (fast_modulo (fnv_hash64 (bytes key)) capacity)

-- `++idx; if (idx == Capacity) idx = 0;`
unfoldable pub next : ℕ → ℕ → ℕ
next capacity idx = if u32 (idx + 1) == capacity then 0 else u32 (idx + 1)

-- `GetMemSize`; `bucket_size` is the size of a bucket in bytes.
pub get_mem_size : ℕ → ℕ → ℕ
get_mem_size bucket_size capacity =
    let c = if is_power_of2 capacity then capacity else align_pow_two_ceil32 capacity in
    u64 (bucket_size * c)

module _ {ℓ} {K V : Type ℓ} where
  -- `Init`. `scale c` is `(u32)((float)c * loadFactor)`.
  pub init : (ℕ → ℕ) → (ℕ → Bucket K V) → ℕ → StaticHashMap K V
  init scale memory capacity =
      let c = if is_power_of2 capacity then capacity else align_pow_two_ceil32 capacity in
      record { buckets = memory; capacity = c; count = 0; max_count = u32 (scale c) }

  -- The loop of `Clear` over the buckets from `i` on.
  pub clear_loop : ℕ → ℕ → (ℕ → Bucket K V) → ℕ → Bucket K V
  clear_loop zero i buckets = buckets
  clear_loop (suc rounds) i buckets =
      clear_loop rounds (i + 1)
        (update buckets i (record (buckets i) { probe_length = 0; is_used = false }))

  pub clear : StaticHashMap K V → StaticHashMap K V
  unfolding clear_loop
  clear m = record m { buckets = clear_loop m.capacity 0 m.buckets; count = 0 }

  -- `if (insertedIdx == NOT_FOUND) insertedIdx = idx;`
  abbrev pub first_idx : Probe K V → ℕ
  first_idx s = if s.inserted_idx == not_found then s.idx else s.inserted_idx

  -- An open spot: the carried entry is stored in it.
  pub place : Probe K V → StaticHashMap K V × AddResult
  place s = (
    record (s.map) {
      buckets =
          update (s.map).buckets s.idx (record (s.swap_bucket) { probe_length = s.probe_length });
      count = u32 ((s.map).count + 1);
    },
    record { index = first_idx s; does_exist = false; is_map_full = false },
  )

  -- The carried entry takes the bucket of an entry that is nearer to its home, and the loop carries
  -- that entry on.
  pub displace : Probe K V → Bucket K V → Probe K V
  displace s bucket = record s {
    map = record (s.map) {
      buckets =
          update (s.map).buckets s.idx (record (s.swap_bucket) { probe_length = s.probe_length });
    };
    swap_bucket = bucket;
    inserted_idx = first_idx s;
    probe_length = bucket.probe_length;
  }

  pub advance : Probe K V → Probe K V
  advance s = record s {
    probe_length = u16 (s.probe_length + 1);
    idx = next (s.map).capacity s.idx;
  }

  -- The inner loop of `Remove`: entries move one bucket nearer to their homes.
  pub shift_loop : ℕ → StaticHashMap K V → ℕ → Run (StaticHashMap K V × Bool)
  shift_loop zero m last = out_of_fuel
  shift_loop (suc fuel) m last = do
    let index = next m.capacity last
    next_bucket ← load m.buckets m.capacity index
    hole ← load m.buckets m.capacity last
    let moved = record next_bucket { probe_length = next_bucket.probe_length - 1 }
    let rest =
        shift_loop fuel (record m { buckets = update (update m.buckets index moved) last moved })
          index
    let cleared = record hole { probe_length = 0; is_used = false }
    let stop = ok (
      record m { buckets = update m.buckets last cleared; count = u32 (m.count + (2 ^ 32 - 1)) },
      true,
    )
    if next_bucket.is_used then if next_bucket.probe_length == 0 then stop else rest else stop

  module _ ⦃eq : Eq K⦄ where
    pub add_loop : ℕ → Probe K V → Run (StaticHashMap K V × AddResult)
    add_loop zero s = out_of_fuel
    add_loop (suc fuel) s = do
      bucket ← load (s.map).buckets (s.map).capacity s.idx
      let swapped = add_loop fuel (advance (displace s bucket))
      let onward = add_loop fuel (advance s)
      if bucket.is_used
          then if eq.beq bucket.key (s.swap_bucket).key
            then ok (s.map, record { index = s.idx; does_exist = true; is_map_full = false })
            else if ltb bucket.probe_length s.probe_length
            then swapped
            else onward
          else ok (place s)

    -- `Get` from bucket `idx` on; the index of the entry stands for `&bucket->Value`.
    pub get_loop : ℕ → StaticHashMap K V → K → ℕ → ℕ → Run (Option ℕ)
    get_loop zero m key probe_length idx = out_of_fuel
    get_loop (suc fuel) m key probe_length idx = do
      bucket ← load m.buckets m.capacity idx
      let rest = get_loop fuel m key (u32 (probe_length + 1)) (next m.capacity idx)
      if bucket.is_used
          then if ltb bucket.probe_length probe_length
            then ok none
            else if eq.beq key bucket.key
            then ok (some idx)
            else rest
          else ok none

    pub remove_loop : ℕ → StaticHashMap K V → K → ℕ → Run (StaticHashMap K V × Bool)
    remove_loop zero m key index = out_of_fuel
    remove_loop (suc fuel) m key index = do
      bucket ← load m.buckets m.capacity index
      let rest = remove_loop fuel m key (next m.capacity index)
      if bucket.is_used
          then if eq.beq key bucket.key then shift_loop (m.capacity + 1) m index else rest
          else ok (m, false)

    module _ (bytes : K → List ℕ) where
      -- A round for each bucket is enough fuel, and one more.
      pub add : StaticHashMap K V → K → V → Run (StaticHashMap K V × AddResult)
      unfolding add_loop
      add m key value =
          if m.count == m.max_count
          then ok (m, record { index = not_found; does_exist = false; is_map_full = true })
          else add_loop (m.capacity + 1) (record {
            map = m;
            swap_bucket = record { key = key; probe_length = 0; is_used = true; value = value };
            inserted_idx = not_found;
            probe_length = 0;
            idx = home bytes m.capacity key;
          })

      -- The entry whose value `Get` points at.
      pub get_index : StaticHashMap K V → K → Run (Option ℕ)
      unfolding get_loop
      get_index m key =
          if m.count == 0
          then ok none
          else get_loop (m.capacity + 1) m key 0 (home bytes m.capacity key)

      pub get : StaticHashMap K V → K → Run (Option V)
      unfolding get_index
      get m key =
          get_index m key >>= λ r. ok (elim r [ none ↦ none | some i ↦ some (m.buckets i).value ])

      pub remove : StaticHashMap K V → K → Run (StaticHashMap K V × Bool)
      unfolding remove_loop shift_loop
      remove m key =
          if m.count == 0
          then ok (m, false)
          else remove_loop (m.capacity + 1) m key (home bytes m.capacity key)
