-- ===== src/String/Joined.antt =====
-- `StringJoin` with enough room.
use scal_base.Prelude.{
  ℕ, ◌+◌, ◌^◌, ◌≤◌, ◌<◌, ◌≡◌, refl, ap, sym, ◌∙◌, arith, true, leb, List, [], ◌∷◌, ◌++◌, length,
  length-append, length-contents, Returns, returns, Returns-inv, Returns-map,
}
use mathlib.Core.List.{append-nil, append_assoc}
use scal_base.String.{String, string_append, string_join}
use scal_base.String.Texts.{IsValid, text, Holding, string_append-Appended}

-- The parts with the glue between them.
unfoldable pub joined : List (List ℕ) → List ℕ → List ℕ
joined [] glue = []
joined (part ∷ []) glue = part
joined (part ∷ next ∷ parts) glue = part ++ (glue ++ joined (next ∷ parts) glue)

fitting :
    {s : String} (valid : IsValid s) (t : List ℕ)
    → s.size + length t ≤ s.capacity
    → s.capacity < 2 ^ 31
    → Returns (Holding s (text s ++ t)) (string_append s t)
fitting {s} valid t room half =
    let fits : leb (s.size + length t) s.capacity ≡ true = ground arith in
    rw fits at (Returns-map (string_append-Appended valid t (omega arith) half) (λ r a. a.holds))

-- The size of a result.
Holding-size : {s r : String} {t : List ℕ} → Holding s t r → r.size ≡ length t
Holding-size {s} {r} h = sym (length-contents r.bytes r.size) ∙ ap length h.reads

-- When the joined text fits behind the text of a valid string, whose capacity is below 2 ^ 31,
-- `StringJoin` appends the parts with the glue between them.
pub string_join-joined :
    (parts : List (List ℕ)) (glue : List ℕ) {s : String}
    → IsValid s
    → s.capacity < 2 ^ 31
    → s.size + length (joined parts glue) ≤ s.capacity
    → Returns (Holding s (text s ++ joined parts glue)) (string_join s parts glue)
unfolding string_join joined
string_join-joined [] glue {s} valid half room =
    returns
      (record { valid = valid; capacity = refl; block = refl; reads = sym (append-nil (text s)) })
string_join-joined (part ∷ []) glue valid half room = fitting valid part room half
string_join-joined (part ∷ next ∷ parts) glue {s} valid half room =
    let rest = joined (next ∷ parts) glue in
    let size_a = length-append part (glue ++ rest) in
    let size_b = length-append glue rest in
    let (a, run_a, ha) =
      Returns-inv (fitting valid part (omega (arith, room, size_a, size_b)) half) in
    let long_a : a.size ≡ s.size + length part =
      Holding-size ha
      ∙ length-append (text s) part
      ∙ ap (λ k. k + length part) (length-contents s.bytes s.size) in
    let (b, run_b, hb) = Returns-inv (
      fitting ha.valid glue (omega (arith, room, size_a, size_b, long_a, ha.capacity))
        (rw ha.capacity half)) in
    let long_b : b.size ≡ a.size + length glue =
      Holding-size hb
      ∙ length-append (text a) glue
      ∙ ap (λ k. k + length glue) (length-contents a.bytes a.size) in
    let run =
      string_join-joined (next ∷ parts) glue hb.valid (omega (arith, hb.capacity, ha.capacity))
        (omega (arith, room, size_a, size_b, long_a, long_b, hb.capacity, ha.capacity)) in
    rw (run_a, run_b)
      (Returns-map run λ r h. record {
        valid = h.valid;
        capacity = h.capacity ∙ hb.capacity ∙ ha.capacity;
        block = h.block ∙ hb.block ∙ ha.block;
        reads = h.reads ∙ rw (hb.reads, ha.reads) (simp append_assoc);
      })
