-- ===== src/HashMaps/Lookup.antt =====
-- `Get` on a valid table.
use scal_base.Prelude.{
  ℕ, ◌+◌, ◌<◌, ◌≡◌, refl, sym, ◌∙◌, inl, inr, arith, none, some, Option, Eq, List, ok, Returns,
  returns,
}
use scal_base.HashMaps.{StaticHashMap, home, get_index, get}
use scal_base.HashMaps.Invariant.{Used, Holds, Absent}
use scal_base.HashMaps.Valid.{IsValid, home-lt, counts, search_key}
use scal_base.HashMaps.Walk.{walk}
use scal_base.HashMaps.Find.{get_found, get_loop-Absent}

module _ {ℓ} {K V : Type ℓ} ⦃eq : Eq K⦄ (bytes : K → List ℕ) {m : StaticHashMap K V}
    (valid : IsValid bytes m) (k : K) where
  -- `Get` finds the entry of a stored key.
  pub get_index-found :
      (i : ℕ)
      → i < m.capacity
      → Used m.buckets i
      → (m.buckets i).key ≡ k
      → get_index bytes m k ≡ ok (some i)
  unfolding get_index walk
  get_index-found i hi u e = ground (
    arith,
    valid.counted,
    counts m.buckets m.capacity i hi u,
    get_found (home bytes m.capacity) m valid.small valid.order k
        (home-lt bytes m.capacity k valid.nonempty) i hi u e (m.capacity + 1)
        (m.buckets i).probe_length 0 (omega arith) (omega (arith, valid.order.bounded i hi u)),
  )

  -- `Get` returns null for a key that is not stored.
  pub get_index-Absent : Absent m.capacity m.buckets k → get_index bytes m k ≡ ok none
  unfolding get_index walk
  get_index-Absent absent = ground (
    arith,
    get_loop-Absent (home bytes m.capacity) m valid.small valid.order k
        (home-lt bytes m.capacity k valid.nonempty) absent (m.capacity + 1) 0 (omega arith)
        (omega arith),
  )

  -- What an answer of `Get` says of the table.
  abbrev pub Answers : Option V → Type ℓ
  Answers none = Absent m.capacity m.buckets k
  Answers (some v) = Holds m.capacity m.buckets k v

  -- On a valid table `Get` ends without a fault; a value that it returns is stored for the key,
  -- and it returns null only if no bucket stores the key.
  pub get_correct : Returns Answers (get bytes m k)
  unfolding get
  get_correct = elim (search_key m.buckets m.capacity k) [
    | inl (i, hi, u, e) ↦ rw (get_index-found i hi u e) (returns (i, hi, u, e, refl))
    | inr absent ↦ rw (get_index-Absent absent) (returns absent)
  ]

  -- The stored value is returned.
  pub get-Holds : (v : V) → Holds m.capacity m.buckets k v → get bytes m k ≡ ok (some v)
  unfolding get
  get-Holds v (i, hi, u, e, e') = rw (get_index-found i hi u e, e')

  pub get-Absent : Absent m.capacity m.buckets k → get bytes m k ≡ ok none
  unfolding get
  get-Absent absent = rw (get_index-Absent absent)

-- `Get` depends on the stored entries alone, not on where they are.
pub get_congr {ℓ} :
    {K V : Type ℓ} ⦃eq : Eq K⦄
    → (bytes : K → List ℕ) {m m' : StaticHashMap K V} → IsValid bytes m
    → IsValid bytes m'
    → (k : K) → ((v : V) → Holds m.capacity m.buckets k v → Holds m'.capacity m'.buckets k v)
    → ((v : V) → Holds m'.capacity m'.buckets k v → Holds m.capacity m.buckets k v)
    → get bytes m' k ≡ get bytes m k
get_congr bytes {m} {m'} valid valid' k to from = elim (search_key m.buckets m.capacity k) [
  | inl (i, hi, u, e) ↦
      let here : Holds m.capacity m.buckets k (m.buckets i).value = (i, hi, u, e, refl) in
      get-Holds bytes valid' k (m.buckets i).value (to (m.buckets i).value here)
      ∙ sym (get-Holds bytes valid k (m.buckets i).value here)
  | inr absent ↦
      get-Absent bytes valid' k (λ i hi u e.
        let (j, hj, u', e', _) = from (m'.buckets i).value (i, hi, u, e, refl) in absent j hj u' e')
      ∙ sym (get-Absent bytes valid k absent)
]
