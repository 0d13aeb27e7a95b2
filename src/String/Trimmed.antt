-- ===== src/String/Trimmed.antt =====
-- `StringTrim` on the text.
use native.Mathlib.Decide.{ℕ_discrete, dec_lt}
use scal_base.Prelude.{
  ℕ, zero, suc, ◌+◌, ◌-◌, ◌≤◌, ◌<◌, ◌≡◌, refl, ap, sym, ◌∙◌, arith, Bool, true, false, ◌&&◌, ◌==◌,
  ltb, leb, if◌then◌else◌, List, [], ◌∷◌, ◌++◌, contents, contents-ext, contents_snoc, moved,
  moved-inside, move, update, update_self, update_ne, ok, ◌>>=◌, Returns, returns, Bool-cases, inl,
  inr,
}
use scal_base.String.{String, skip_front, skip_back, string_trim, terminate}
use scal_base.String.Texts.{IsValid, text, Holding}

abbrev from : (ℕ → ℕ) → ℕ → ℕ → List ℕ
from bytes start n = contents (λ j. bytes (start + j)) n

-- The end of `StringTrim`: `len` bytes from `start` on come to the front.
shifted-Holding :
    {s : String}
    → IsValid s
    → (start len : ℕ) → start + len ≤ s.size
    → Returns (Holding s (from s.bytes start len)) (
        (if start == 0 then ok s.bytes else move s.block s.bytes 0 start len) >>= λ bytes.
        terminate (record s { bytes = bytes }) len >>= λ ended. ok (record ended { size = len }))
unfolding terminate
shifted-Holding {s} valid start len inside =
    let end : ltb len s.block ≡ true = ground (arith, valid.room, valid.fits) in
    elim (ℕ_discrete start 0) [
      | yes front ↦
          let test : (start == 0) ≡ true = ground (arith, front) in
          rw (test, end)
            (returns record {
              valid = record {
                fits = omega (arith, valid.fits, inside);
                room = valid.room;
                word = valid.word;
                ended = update_self s.bytes len 0;
              };
              capacity = refl;
              block = refl;
              reads =
                  contents-ext (λ j. s.bytes (start + j)) (update s.bytes len 0) len
                    (λ j h.
                      update_ne s.bytes len 0 j (omega arith) ∙ ap s.bytes (omega (arith, front)));
            })
      | no behind ↦
          let test : (start == 0) ≡ false = ground (arith, behind) in
          let to : leb (0 + len) s.block ≡ true = ground (arith, valid.room, valid.fits) in
          let of : leb (start + len) s.block ≡ true = ground (arith, valid.room, valid.fits) in
          let after = moved s.bytes 0 s.bytes start len in
          rw (test, to, of, end)
            (returns record {
              valid = record {
                fits = omega (arith, valid.fits, inside);
                room = valid.room;
                word = valid.word;
                ended = update_self after len 0;
              };
              capacity = refl;
              block = refl;
              reads =
                  contents-ext (λ j. s.bytes (start + j)) (update after len 0) len
                    (λ j h.
                      update_ne after len 0 j (omega arith)
                      ∙ moved-inside s.bytes s.bytes 0 start len j (omega arith) (omega arith)
                      ∙ ap (λ i. s.bytes (start + i)) (omega arith));
            })
    ]

module _ (in_cut : ℕ → Bool) where
  unfoldable pub drop_front : List ℕ → List ℕ
  drop_front [] = []
  drop_front (b ∷ rest) = let less = drop_front rest in if in_cut b then less else b ∷ rest

  -- Drops from the end on.
  unfoldable pub drop_back : List ℕ → List ℕ
  drop_back [] = []
  drop_back (b ∷ rest) = elim (drop_back rest) [
    | [] ↦ (if in_cut b then [] else b ∷ [])
    | c ∷ more ↦ b ∷ c ∷ more
  ]

  from-suc :
      (bytes : ℕ → ℕ) (start n : ℕ)
      → from bytes start (suc n) ≡ bytes start ∷ from bytes (start + 1) n
  unfolding contents
  from-suc bytes start n =
      let head : start + 0 ≡ start = omega arith in
      rw head (
        ap (λ xs. bytes start ∷ xs)
          (contents-ext (λ j. bytes (start + 1 + j)) (λ j. bytes (start + suc j)) n
            (λ j h. ap bytes (omega arith))))

  skip_front-drop :
      (bytes : ℕ → ℕ) (left start stop : ℕ)
      → start + left ≡ stop
      → let i = skip_front in_cut bytes left start in
        (start ≤ i)
        × (i ≤ stop)
        × (drop_front (from bytes start (stop - start)) ≡ from bytes i (stop - i))
        × (i < stop → in_cut (bytes i) ≡ false)
  unfolding skip_front drop_front contents
  skip_front-drop bytes zero start stop e =
      let none : stop - start ≡ 0 = omega arith in
      (omega arith, omega arith, rw none refl, λ h. absurd (omega arith))
  skip_front-drop bytes (suc left) start stop e =
      let one : stop - start ≡ suc (stop - (start + 1)) = omega arith in
      let (low, high, drops, next) = skip_front-drop bytes left (start + 1) stop (omega arith) in
      let whole = from-suc bytes start (stop - (start + 1)) in
      elim (Bool-cases (in_cut (bytes start))) [
        | inl cut ↦ rw cut (
          omega arith,
          high,
          ap (λ k. drop_front (from bytes start k)) one ∙ ap drop_front whole ∙ rw cut drops,
          next,
        )
        | inr keep ↦ rw keep (
          omega arith,
          omega arith,
          ap (λ k. drop_front (from bytes start k)) one
              ∙ ap drop_front whole
              ∙ rw keep (sym (ap (λ k. from bytes start k) one ∙ whole)),
          λ h. keep,
        )
      ]

  longer :
      (x b : ℕ) (d xs : List ℕ)
      → ◌≡◌ {A = List ℕ}
          (elim (xs ++ (b ∷ [])) [ [] ↦ d | c ∷ more ↦ x ∷ c ∷ more ])
          (x ∷ (xs ++ (b ∷ [])))
  longer x b d [] = refl
  longer x b d (y ∷ ys) = refl

  drop_back-snoc :
      (xs : List ℕ) (b : ℕ)
      → drop_back (xs ++ (b ∷ [])) ≡ (if in_cut b then drop_back xs else xs ++ (b ∷ []))
  unfolding drop_back
  drop_back-snoc [] b = refl
  drop_back-snoc (x ∷ xs) b =
      let rest = drop_back-snoc xs b in
      let short : List ℕ = if in_cut x then [] else x ∷ [] in
      elim (Bool-cases (in_cut b)) [
        | inl cut ↦
            let same : drop_back (xs ++ (b ∷ [])) ≡ drop_back xs = rw cut at rest in
            rw (same, cut) refl
        | inr keep ↦
            let same : drop_back (xs ++ (b ∷ [])) ≡ xs ++ (b ∷ []) = rw keep at rest in
            rw (same, keep) (longer x b short xs)
      ]

  skip_back-drop :
      (bytes : ℕ → ℕ) (start last : ℕ)
      → start < last
      → in_cut (bytes start) ≡ false
      → let e = skip_back in_cut bytes start last in
        (start < e)
        × (e ≤ last)
        × (drop_back (from bytes start (last - start)) ≡ from bytes start (e - start))
  unfolding skip_back
  skip_back-drop bytes start zero lt keep = absurd (omega arith)
  skip_back-drop bytes start (suc last) lt keep =
      let one : suc last - start ≡ suc (last - start) = omega arith in
      let at : start + (last - start) ≡ last = omega arith in
      let whole : from bytes start (suc last - start)
          ≡ from bytes start (last - start) ++ (bytes last ∷ []) =
        ap (from bytes start) one
        ∙ contents_snoc (λ j. bytes (start + j)) (last - start)
        ∙ ap (λ k. from bytes start (last - start) ++ (bytes k ∷ [])) at in
      let step =
        ap drop_back whole ∙ drop_back-snoc (from bytes start (last - start)) (bytes last) in
      elim (Bool-cases (ltb start last && in_cut (bytes last))) [
        | inl go ↦
            let cut : in_cut (bytes last) ≡ true = ground (arith, go) in
            let (low, high, drops) = skip_back-drop bytes start last (ground (arith, go)) keep in
            rw go (low, omega arith, step ∙ rw cut drops)
        | inr stop ↦
            let kept : in_cut (bytes last) ≡ false =
              ground (arith, stop, keep, same_byte bytes start last) in
            rw stop (lt, omega arith, step ∙ rw kept (sym whole))
      ]
    where
      same_byte : (bytes : ℕ → ℕ) (start last : ℕ) → start ≡ last → bytes start ≡ bytes last
      same_byte bytes start last e = ap bytes e

  skip_back-le : (bytes : ℕ → ℕ) (start last : ℕ) → skip_back in_cut bytes start last ≤ last
  unfolding skip_back
  skip_back-le bytes start zero = omega arith
  skip_back-le bytes start (suc last) =
      let low = skip_back-le bytes start last in
      elim (Bool-cases (ltb start last && in_cut (bytes last))) [
        | inl go ↦ rw go (omega (arith, low))
        | inr stop ↦ rw stop (omega arith)
      ]

  -- What the two loops leave, as a first byte and a length.
  kept :
      (s : String)
      → let start = skip_front in_cut s.bytes s.size 0 in
        let stop = skip_back in_cut s.bytes start s.size in
        let len = if leb stop start then 0 else stop - start in
        (start + len ≤ s.size) × (drop_back (drop_front (text s)) ≡ from s.bytes start len)
  unfolding drop_back contents
  kept s =
      let start = skip_front in_cut s.bytes s.size 0 in
      let stop = skip_back in_cut s.bytes start s.size in
      let (low, high, drops, next) = skip_front-drop s.bytes s.size 0 s.size (omega arith) in
      let whole : drop_front (text s) ≡ from s.bytes start (s.size - start) =
        ap drop_front (
          contents-ext (λ j. s.bytes (0 + j)) s.bytes s.size (λ j h. ap s.bytes (omega arith))
          ∙ ap (from s.bytes 0) (omega arith))
        ∙ drops in
      elim (dec_lt start s.size) [
        | yes some_left ↦
            let (above, below, back) =
              skip_back-drop s.bytes start s.size some_left (next some_left) in
            let test : leb stop start ≡ false = ground (arith, above) in
            rw test (omega (arith, above, below), ap drop_back whole ∙ back)
        | no all_cut ↦
            let end : s.size - start ≡ 0 = omega (arith, all_cut, high) in
            let test : leb stop start ≡ true =
              ground (arith, skip_back-le s.bytes start s.size, all_cut, high) in
            rw test (omega (arith, high), ap drop_back (whole ∙ ap (from s.bytes start) end))
      ]

  -- `StringTrim` of a valid string leaves the text without the bytes of the cut set at its front
  -- and at its end.
  pub string_trim-drop :
      {s : String}
      → IsValid s
      → Returns (Holding s (drop_back (drop_front (text s)))) (string_trim in_cut s)
  unfolding string_trim
  string_trim-drop {s} valid =
      let start = skip_front in_cut s.bytes s.size 0 in
      let stop = skip_back in_cut s.bytes start s.size in
      let len = if leb stop start then 0 else stop - start in
      let (inside, same) = kept s in rw same (shifted-Holding valid start len inside)
