-- ===== src/Prelude/Cells.antt =====
-- Blocks of cells behind a pointer, and the list of the first cells.
use Prim.Native.Nat.{ℕ, zero, suc, ◌+◌, ◌-◌, ◌≤◌, ◌<◌, ◌^◌, ◌%◌}
use mathlib.Core.Path.{◌≡◌, refl, ap, ◌∙◌}
use mathlib.Core.Bool.{◌&&◌}
use mathlib.Core.Logic.{◌≢◌}
use mathlib.Core.List.{List, [], ◌∷◌, ◌++◌}
use native.Mathlib.Omega.{arith}
use scal_base.Prelude.Tests.{ltb, leb, if◌then◌else◌}
use scal_base.Prelude.Outcome.{Run, ok, fault, update, update_self}

-- Subtraction of `u32` words.
abbrev pub sub32 : ℕ → ℕ → ℕ
sub32 a b = (a + 2 ^ 32 - b) % 2 ^ 32

module _ {ℓ} {A : Type ℓ} where
  -- `cells[i] = a` in a block of `size` cells.
  abbrev pub store : ℕ → (ℕ → A) → ℕ → A → Run (ℕ → A)
  store size cells i a = if ltb i size then ok (update cells i a) else fault

  -- The cells after `n` of them, from `src`, have been put at `dst`.
  abbrev pub moved : (ℕ → A) → ℕ → (ℕ → A) → ℕ → ℕ → ℕ → A
  moved cells dst from src n j =
      if leb dst j && ltb j (dst + n) then from (src + (j - dst)) else cells j

  -- `SMemMove(cells + dst, cells + src, n)` in a block of `size` cells.
  abbrev pub move : ℕ → (ℕ → A) → ℕ → ℕ → ℕ → Run (ℕ → A)
  move size cells dst src n =
      if leb (dst + n) size && leb (src + n) size then ok (moved cells dst cells src n) else fault

  unfoldable pub contents : (ℕ → A) → ℕ → List A
  contents cells zero = []
  contents cells (suc n) = cells 0 ∷ contents (λ i. cells (suc i)) n

  unfoldable pub insert_at : ℕ → A → List A → List A
  insert_at zero a xs = a ∷ xs
  insert_at (suc i) a [] = a ∷ []
  insert_at (suc i) a (x ∷ xs) = x ∷ insert_at i a xs

  unfoldable pub remove_at : ℕ → List A → List A
  remove_at i [] = []
  remove_at zero (x ∷ xs) = xs
  remove_at (suc i) (x ∷ xs) = x ∷ remove_at i xs

  unfoldable pub set_at : ℕ → A → List A → List A
  set_at i a [] = []
  set_at zero a (x ∷ xs) = a ∷ xs
  set_at (suc i) a (x ∷ xs) = x ∷ set_at i a xs

  pub contents-ext :
      (f g : ℕ → A) (n : ℕ) → ((j : ℕ) → j < n → g j ≡ f j) → contents g n ≡ contents f n
  unfolding contents
  contents-ext f g zero same = refl
  contents-ext f g (suc n) same = rw (
    same 0 (omega arith),
    contents-ext (λ i. f (suc i)) (λ i. g (suc i)) n (λ j h. same (suc j) (omega arith)),
  )

  pub contents_snoc : (f : ℕ → A) (n : ℕ) → contents f (suc n) ≡ contents f n ++ (f n ∷ [])
  unfolding contents
  contents_snoc f zero = refl
  contents_snoc f (suc n) = ap (λ xs. f 0 ∷ xs) (contents_snoc (λ i. f (suc i)) n)

  pub contents-insert :
      (f g : ℕ → A) (n i : ℕ) (a : A)
      → i ≤ n
      → ((j : ℕ) → j < i → g j ≡ f j)
      → g i ≡ a
      → ((j : ℕ) → i ≤ j → j < n → g (suc j) ≡ f j)
      → contents g (suc n) ≡ insert_at i a (contents f n)
  unfolding contents insert_at
  contents-insert f g n zero a le low here high =
      rw (here, contents-ext f (λ i. g (suc i)) n (λ j h. high j (omega arith) h))
  contents-insert f g zero (suc i) a le low here high = absurd (omega arith)
  contents-insert f g (suc n) (suc i) a le low here high = rw (
    low 0 (omega arith),
    contents-insert (λ j. f (suc j)) (λ j. g (suc j)) n i a (omega arith)
        (λ j h. low (suc j) (omega arith)) here
        (λ j h h'. high (suc j) (omega arith) (omega arith)),
  )

  pub contents-remove :
      (f g : ℕ → A) (n i : ℕ)
      → i ≤ n
      → ((j : ℕ) → j < i → g j ≡ f j)
      → ((j : ℕ) → i ≤ j → j < n → g j ≡ f (suc j))
      → contents g n ≡ remove_at i (contents f (suc n))
  unfolding contents remove_at
  contents-remove f g n zero le low high =
      contents-ext (λ j. f (suc j)) g n (λ j h. high j (omega arith) h)
  contents-remove f g zero (suc i) le low high = absurd (omega arith)
  contents-remove f g (suc n) (suc i) le low high = rw (
    low 0 (omega arith),
    contents-remove (λ j. f (suc j)) (λ j. g (suc j)) n i (omega arith)
        (λ j h. low (suc j) (omega arith)) (λ j h h'. high (suc j) (omega arith) (omega arith)),
  )

  pub contents-set :
      (f g : ℕ → A) (n i : ℕ) (a : A)
      → i < n
      → g i ≡ a
      → ((j : ℕ) → j < n → j ≢ i → g j ≡ f j)
      → contents g n ≡ set_at i a (contents f n)
  unfolding contents set_at
  contents-set f g zero i a lt here other = absurd (omega arith)
  contents-set f g (suc n) zero a lt here other = rw (
    here,
    contents-ext (λ j. f (suc j)) (λ j. g (suc j)) n
        (λ j h. other (suc j) (omega arith) (omega arith)),
  )
  contents-set f g (suc n) (suc i) a lt here other = rw (
    other 0 (omega arith) (omega arith),
    contents-set (λ j. f (suc j)) (λ j. g (suc j)) n i a (omega arith) here
        (λ j h ne. other (suc j) (omega arith) (omega arith)),
  )

  -- Counted from the old length.
  pub contents-without :
      (f g : ℕ → A) (n i : ℕ)
      → i < n
      → ((j : ℕ) → j < i → g j ≡ f j)
      → ((j : ℕ) → i ≤ j → suc j < n → g j ≡ f (suc j))
      → contents g (n - 1) ≡ remove_at i (contents f n)
  contents-without f g zero i lt low high = absurd (omega arith)
  contents-without f g (suc n) i lt low high =
      rw (pred_suc n) (contents-remove f g n i (omega arith) low (λ j h h'. high j h (omega arith)))
    where
      pred_suc : (n : ℕ) → suc n - 1 ≡ n
      pred_suc n = omega arith

  pub contents_split :
      (f : ℕ → A) (n k : ℕ) → contents f (n + k) ≡ contents f n ++ contents (λ i. f (n + i)) k
  unfolding contents
  contents_split f zero k =
      rw (zero_add k) (contents-ext (λ i. f (0 + i)) f k (λ j h. ap f (omega arith)))
    where
      zero_add : (k : ℕ) → 0 + k ≡ k
      zero_add k = omega arith
  contents_split f (suc n) k = rw (suc_add n k) (
      ap (λ xs. f 0 ∷ xs)
        (contents_split (λ i. f (suc i)) n k
          ∙ ap (λ xs. contents (λ i. f (suc i)) n ++ xs)
              (contents-ext (λ i. f (suc n + i)) (λ i. f (suc (n + i))) k
                (λ j h. ap f (omega arith)))))
    where
      suc_add : (n k : ℕ) → suc n + k ≡ suc (n + k)
      suc_add n k = omega arith

  pub moved-inside :
      (cells from : ℕ → A) (dst src n j : ℕ)
      → dst ≤ j
      → j < dst + n
      → moved cells dst from src n j ≡ from (src + (j - dst))
  moved-inside cells from dst src n j low high = ground arith

  pub contents-push :
      (f : ℕ → A) (n : ℕ) (x : A) → contents (update f n x) (suc n) ≡ contents f n ++ (x ∷ [])
  contents-push f n x =
      contents_snoc (update f n x) n
      ∙ rw (contents-ext f (update f n x) n (λ j h. ground arith))
          (ap (λ a. contents f n ++ (a ∷ [])) (update_self f n x))

-- `strlen` of a C string.
abbrev pub length {ℓ} : {A : Type ℓ} → List A → ℕ
length [] = 0
length (x ∷ xs) = suc (length xs)

-- The cells of a C string, its terminator behind the last byte.
unfoldable pub cells_of : List ℕ → ℕ → ℕ
cells_of [] i = 0
cells_of (b ∷ text) zero = b
cells_of (b ∷ text) (suc i) = cells_of text i

pub contents-cells_of : (text : List ℕ) → contents (cells_of text) (length text) ≡ text
unfolding contents cells_of
contents-cells_of [] = refl
contents-cells_of (b ∷ text) = ap (λ xs. b ∷ xs) (contents-cells_of text)

abbrev pub take {ℓ} : {A : Type ℓ} → ℕ → List A → List A
take zero xs = []
take (suc n) [] = []
take (suc n) (x ∷ xs) = x ∷ take n xs

pub contents-cells_of-take :
    (text : List ℕ) (n : ℕ) → n ≤ length text → contents (cells_of text) n ≡ take n text
unfolding contents cells_of
contents-cells_of-take text zero h = refl
contents-cells_of-take [] (suc n) h = absurd (omega arith)
contents-cells_of-take (b ∷ text) (suc n) h =
    ap (λ xs. b ∷ xs) (contents-cells_of-take text n (omega arith))

pub length-append {ℓ} : {A : Type ℓ} (xs ys : List A) → length (xs ++ ys) ≡ length xs + length ys
length-append [] ys = omega arith
length-append (x ∷ xs) ys = omega (arith, length-append xs ys)

pub length-contents {ℓ} : {A : Type ℓ} (f : ℕ → A) (n : ℕ) → length (contents f n) ≡ n
unfolding contents
length-contents f zero = refl
length-contents f (suc n) = omega (arith, length-contents (λ i. f (suc i)) n)
