-- ===== src/String/Compared.antt =====
-- `StringAreEqual` decides the equality of the texts.
use native.Mathlib.Decide.{ℕ_discrete}
use scal_base.Prelude.{
  ℕ, zero, suc, ◌+◌, ◌≤◌, ◌<◌, ◌≡◌, ◌↔◌, refl, ap, sym, ◌∙◌, arith, true, false, ◌==◌, contents,
  contents-ext, length, length-contents,
}
use scal_base.String.{String, equal_loop, string_are_equal}
use scal_base.String.Texts.{text}

contents-inj : (f g : ℕ → ℕ) (n : ℕ) → contents f n ≡ contents g n → (j : ℕ) → j < n → f j ≡ g j
unfolding contents
contents-inj f g zero e j h = absurd (omega arith)
contents-inj f g (suc n) e zero h = cc
contents-inj f g (suc n) e (suc j) h =
    contents-inj (λ i. f (suc i)) (λ i. g (suc i)) n (cc) j (omega arith)

equal_loop-eq :
    (lhs rhs : String) (n i : ℕ)
    → equal_loop lhs rhs n i ≡ true
    → (k : ℕ) → i ≤ k
    → k < i + n
    → lhs.bytes k ≡ rhs.bytes k
unfolding equal_loop
equal_loop-eq lhs rhs zero i e k low high = absurd (omega arith)
equal_loop-eq lhs rhs (suc n) i e k low high = elim (ℕ_discrete i k) [
  | yes here ↦ ground (arith, here)
  | no later ↦
      let more : equal_loop lhs rhs n (i + 1) ≡ true = ground (arith, e) in
      equal_loop-eq lhs rhs n (i + 1) more k (omega arith) (omega arith)
]

eq-equal_loop :
    (lhs rhs : String) (n i : ℕ)
    → ((k : ℕ) → i ≤ k → k < i + n → lhs.bytes k ≡ rhs.bytes k)
    → equal_loop lhs rhs n i ≡ true
unfolding equal_loop
eq-equal_loop lhs rhs zero i same = refl
eq-equal_loop lhs rhs (suc n) i same = ground (
  arith,
  same i (omega arith) (omega arith),
  eq-equal_loop lhs rhs n (i + 1) (λ k low high. same k (omega arith) (omega arith)),
)

-- `StringAreEqual` answers true for two strings with the same text, and for no others.
pub string_are_equal_iff :
    (lhs rhs : String) → (string_are_equal lhs rhs ≡ true) ↔ (text lhs ≡ text rhs)
unfolding string_are_equal
string_are_equal_iff lhs rhs = elim (ℕ_discrete lhs.size rhs.size) [
  | yes same ↦
      let test : (lhs.size == rhs.size) ≡ true = ground (arith, same) in
      let whole = contents-ext rhs.bytes lhs.bytes lhs.size in
      rw test (
        λ e.
            whole (λ j h. equal_loop-eq lhs rhs lhs.size 0 e j (omega arith) (omega arith))
            ∙ ap (contents rhs.bytes) same,
        λ e. eq-equal_loop lhs rhs lhs.size 0 (λ k low high.
            contents-inj lhs.bytes rhs.bytes lhs.size (e ∙ ap (contents rhs.bytes) (sym same)) k
              (omega arith)),
      )
  | no differ ↦
      let test : (lhs.size == rhs.size) ≡ false = ground (arith, differ) in
      rw test (
        λ e. cc,
        λ e. absurd (
            differ (
              sym (length-contents lhs.bytes lhs.size)
              ∙ ap length e
              ∙ length-contents rhs.bytes rhs.size)),
      )
]
