-- ===== src/Jobs/Groups.antt =====
-- The groups of a dispatch, and the calls of their jobs.

use native.Mathlib.Nat.{
  div-add-mod', mod-lt, div-eq_of_lt, suc-mul, zero-mul, add-mul, one-mul, mul-le-mul_right,
  div-eq_of_lt-le,
}
use mathlib.Core.List.{append-nil}
use scal_base.Prelude.{
  ℕ, zero, suc, ◌+◌, ◌-◌, ◌*◌, ◌/◌, ◌%◌, ◌^◌, ◌≤◌, ◌<◌, ◌≡◌, refl, ap, sym, ◌∙◌, arith, true, false,
  ◌==◌, ◌||◌, if◌then◌else◌, ltb, List, [], ◌∷◌, ◌++◌, ok,
}
use scal_base.Prelude.Words.{u32}
use scal_base.Jobs.{
  JobsState, JobArgs, Job, group_job, jobs_dispatch_group_count, job_calls, jobs_dispatch, count_on,
  dispatch_loop,
}

-- The jobs of the groups from `id` on, and the calls of a list of jobs.
abbrev pub jobs_from : (ℕ → Job) → ℕ → ℕ → List Job
jobs_from job zero id = []
jobs_from job (suc left) id = job id ∷ jobs_from job left (id + 1)

abbrev pub calls_of : List Job → List (ℕ × JobArgs)
calls_of [] = []
calls_of (job ∷ jobs) =
    job_calls job (job.group_job_end - job.group_job_offset) job.group_job_offset ++ calls_of jobs

-- The call that `JobsDispatch` asks for the job `j` of `n` jobs, in groups of `g`.
abbrev pub call_for : ℕ → ℕ → ℕ → ℕ → ℕ → ℕ × JobArgs
call_for n g task stack j =
    let args : JobArgs = record {
      stack_memory = stack;
      job_index = j;
      group_id = j / g;
      group_index = j % g;
      is_first_job_in_group = j % g == 0;
      is_last_job_in_group = (j % g + 1 == g) || (j + 1 == n);
    } in
    (task, args)

-- The calls for `n` jobs from `i` on.
abbrev pub each_job : (ℕ → ℕ × JobArgs) → ℕ → ℕ → List (ℕ × JobArgs)
each_job call zero i = []
each_job call (suc n) i = call i ∷ each_job call n (i + 1)

each_job_split :
    (call : ℕ → ℕ × JobArgs) (m n i : ℕ)
    → each_job call (m + n) i ≡ each_job call m i ++ each_job call n (i + m)
each_job_split call zero n i =
    let e : 0 + n ≡ n = omega arith in let e' : i + 0 ≡ i = omega arith in rw (e, e') refl
each_job_split call (suc m) n i =
    let e : suc m + n ≡ suc (m + n) = omega arith in
    let e' : i + suc m ≡ i + 1 + m = omega arith in
    rw (e, e') (ap (λ zs. call i ∷ zs) (each_job_split call m n (i + 1)))

-- `ceil` of the division, when the sum does not wrap around.
pub jobs_dispatch_group_count-ceil :
    (n g : ℕ)
    → 0 < n
    → 0 < g
    → n + g ≤ 2 ^ 32
    → (k : ℕ) × (jobs_dispatch_group_count n g ≡ suc k) × (k * g < n) × (n ≤ k * g + g)
unfolding jobs_dispatch_group_count
jobs_dispatch_group_count-ceil n g some_jobs some_size fits =
    let sum : u32 (n + g + (2 ^ 32 - 1)) ≡ n + g - 1 = omega arith in
    let parts = div-add-mod' (n + g - 1) g in
    let rem = mod-lt (n + g - 1) some_size in
    rw sum (ceil ((n + g - 1) / g) (omega (arith, parts)) (omega (arith, parts, rem)))
  where
    ceil :
        (c : ℕ)
        → c * g ≤ n + g - 1
        → n ≤ c * g
        → (k : ℕ) × (c ≡ suc k) × (k * g < n) × (n ≤ k * g + g)
    ceil zero low high = absurd (omega (arith, zero-mul g))
    ceil (suc k) low high =
        (k, refl, omega (arith, suc-mul k g, low), omega (arith, suc-mul k g, high))

-- The group of a job, its place in the group, and whether it is the last one there.
place_lem :
    (n g id end j : ℕ)
    → 0 < g
    → end ≡ (if ltb (id * g + g) n then id * g + g else n)
    → id * g ≤ j
    → j < end
    → (j / g ≡ id)
      × (j % g ≡ j - id * g)
      × (((j - id * g + 1 == g) || (j + 1 == n)) ≡ (j == end - 1))
place_lem n g id end j some_size stop from before =
    let next = add-mul id 1 g in
    let one = one-mul g in
    let high : j < id * g + g = ground (arith, stop, before) in
    let quotient : j / g ≡ id = div-eq_of_lt-le g from (omega (arith, high, next, one)) in
    let whole = rw quotient at (div-add-mod' j g) in
    (quotient, omega (arith, whole), last (id * g) from high stop)
  where
    last :
        (offset : ℕ)
        → offset ≤ j
        → j < offset + g
        → end ≡ (if ltb (offset + g) n then offset + g else n)
        → ((j - offset + 1 == g) || (j + 1 == n)) ≡ (j == end - 1)
    last offset a b e = ground (arith, before)

module _ (handle n g task stack : ℕ) where
  abbrev job : ℕ → Job
  job = group_job handle n g task stack

  -- The bounds of one group but the last, and of the last one.
  full_group :
      (id : ℕ)
      → n + g ≤ 2 ^ 32
      → (id + 1) * g < n
      → ((job id).group_job_offset ≡ id * g) × ((job id).group_job_end ≡ id * g + g)
  unfolding group_job
  full_group id fits before =
      let next = add-mul id 1 g in
      let one = one-mul g in
      let offset : u32 (id * g) ≡ id * g = omega (arith, next, one, before, fits) in
      let end : u32 (id * g + g) ≡ id * g + g = omega (arith, next, one, before, fits) in
      let test : ltb (id * g + g) n ≡ true = ground (arith, next, one, before) in
      rw (offset, end, test) (refl, refl)

  last_group :
      (k : ℕ)
      → n + g ≤ 2 ^ 32
      → k * g < n
      → n ≤ k * g + g
      → ((job k).group_job_offset ≡ k * g) × ((job k).group_job_end ≡ n)
  unfolding group_job
  last_group k fits low high =
      let offset : u32 (k * g) ≡ k * g = omega (arith, low, fits) in
      let end : u32 (k * g + g) ≡ k * g + g = omega (arith, low, fits) in
      let test : ltb (k * g + g) n ≡ false = ground (arith, high) in
      rw (offset, end, test) (refl, refl)

  abbrev call : ℕ → ℕ × JobArgs
  call = call_for n g task stack

  -- `b` is the job of the group `id`, which ends in front of `end`.
  record IsGroup (b : Job) (id end : ℕ) : Type 0 where
    called : b.task ≡ task
    passed : b.stack ≡ stack
    group : b.group_id ≡ id
    offset : b.group_job_offset ≡ id * g
    finish : b.group_job_end ≡ end
    stop : end ≡ (if ltb (id * g + g) n then id * g + g else n)

  group_calls :
      {b : Job} {id end : ℕ} (left j : ℕ)
      → IsGroup b id end
      → 0 < g
      → id * g ≤ j
      → j + left ≤ end
      → job_calls b left j ≡ each_job call left j
  unfolding job_calls
  group_calls zero j is some_size from within = refl
  group_calls {b} {id} {end} (suc left) j is some_size from within =
      let (group, index, last) =
        place_lem n g id end j some_size is.stop from (omega (arith, within)) in
      let first : (j - id * g == 0) ≡ (j == id * g) = first_lem (id * g) j from in
      let rest =
        group_calls left (j + 1) is some_size (omega (arith, from)) (omega (arith, within)) in
      rw (rest, is.called, is.passed, is.group, is.offset, is.finish, group, index, first, last)
        refl
    where
      first_lem : (a b : ℕ) → a ≤ b → (b - a == 0) ≡ (b == a)
      first_lem a b h = ground arith

  all_calls :
      {b : Job} {id end : ℕ}
      → IsGroup b id end
      → 0 < g
      → id * g ≤ end
      → job_calls b (b.group_job_end - b.group_job_offset) b.group_job_offset
        ≡ each_job call (end - id * g) (id * g)
  all_calls {b} {id} {end} is some_size le =
      ap (λ e. job_calls b (e - b.group_job_offset) b.group_job_offset) is.finish
      ∙ ap (λ o. job_calls b (end - o) o) is.offset
      ∙ group_calls (end - id * g) (id * g) is some_size (omega arith) (omega (arith, le))

  full_calls :
      (id : ℕ)
      → 0 < g
      → n + g ≤ 2 ^ 32
      → (id + 1) * g < n
      → job_calls
          (job id)
          ((job id).group_job_end - (job id).group_job_offset)
          (job id).group_job_offset
        ≡ each_job call g (id * g)
  unfolding group_job
  full_calls id some_size fits before =
      let (offset, end) = full_group id fits before in
      let test : ltb (id * g + g) n ≡ true = ground (arith, add-mul id 1 g, one-mul g, before) in
      let size : id * g + g - id * g ≡ g = omega arith in
      let is : IsGroup (job id) id (id * g + g) = record {
        called = refl;
        passed = refl;
        group = refl;
        offset = offset;
        finish = end;
        stop = rw test refl;
      } in
      all_calls is some_size (omega arith) ∙ ap (λ k. each_job call k (id * g)) size

  last_calls :
      (k : ℕ)
      → 0 < g
      → n + g ≤ 2 ^ 32
      → k * g < n
      → n ≤ k * g + g
      → job_calls
          (job k)
          ((job k).group_job_end - (job k).group_job_offset)
          (job k).group_job_offset
        ≡ each_job call (n - k * g) (k * g)
  unfolding group_job
  last_calls k some_size fits low high =
      let (offset, end) = last_group k fits low high in
      let test : ltb (k * g + g) n ≡ false = ground (arith, high) in
      let is : IsGroup (job k) k n = record {
        called = refl;
        passed = refl;
        group = refl;
        offset = offset;
        finish = end;
        stop = rw test refl;
      } in
      all_calls is some_size (omega (arith, low))

  calls_from :
      (left id : ℕ)
      → 0 < g
      → n + g ≤ 2 ^ 32
      → (id + left) * g < n
      → n ≤ (id + left) * g + g
      → calls_of (jobs_from job (suc left) id) ≡ each_job call (n - id * g) (id * g)
  calls_from zero id some_size fits low high =
      let same : id + 0 ≡ id = omega arith in
      let here = last_calls id some_size fits (rw same at low) (rw same at high) in
      ap (λ xs. xs ++ []) here ∙ append-nil (each_job call (n - id * g) (id * g))
  calls_from (suc left) id some_size fits low high =
      let same : id + suc left ≡ id + 1 + left = omega arith in
      let next = add-mul id 1 g in
      let one = one-mul g in
      let before : (id + 1) * g ≤ (id + suc left) * g = mul-le-mul_right g (omega arith) in
      let here = full_calls id some_size fits (omega (arith, before, low)) in
      let rest = calls_from left (id + 1) some_size fits (rw same at low) (rw same at high) in
      let whole : n - id * g ≡ g + (n - (id + 1) * g) = omega (arith, next, one, before, low) in
      let at : (id + 1) * g ≡ id * g + g = omega (arith, next, one) in
      ap (λ xs. xs ++ calls_of (jobs_from job (suc left) (id + 1))) here
      ∙ rw (rest, whole, at) (sym (each_job_split call g (n - (id * g + g)) (id * g)))

  -- For job counts and group sizes from 1 on, whose sum is at most 2 ^ 32, the groups of
  -- `JobsDispatch` make these calls in order: for each job index from 0 on below the job count one
  -- call of the task, with the stack, the index, its quotient by the group size as the group, the
  -- remainder as the place in the group, and the marks of the first and the last job of a group.
  pub calls_of-group_job :
      0 < n
      → 0 < g
      → n + g ≤ 2 ^ 32
      → calls_of (jobs_from job (jobs_dispatch_group_count n g) 0) ≡ each_job call n 0
  calls_of-group_job some_jobs some_size fits =
      let (k, count, low, high) = jobs_dispatch_group_count-ceil n g some_jobs some_size fits in
      let from : 0 + k ≡ k = omega arith in
      let all = calls_from k 0 some_size fits (rw from low) (rw from high) in
      let whole : n - 0 ≡ n = omega arith in rw count (rw (zero-mul g, whole) at all)

  -- When the job count and the group size are below 2 ^ 32 and have a sum above it, `JobsDispatch`
  -- hands out no job.
  pub jobs_dispatch-wraps :
      (s : JobsState)
      → n < 2 ^ 32
      → g < 2 ^ 32
      → 2 ^ 32 < n + g
      → jobs_dispatch s handle n g task stack ≡ ok (count_on s handle 0)
  unfolding jobs_dispatch jobs_dispatch_group_count dispatch_loop
  jobs_dispatch-wraps s small_n small_g over =
      let sum : u32 (n + g + (2 ^ 32 - 1)) ≡ n + g - 2 ^ 32 - 1 = omega arith in
      let none : (n + g - 2 ^ 32 - 1) / g ≡ 0 = div-eq_of_lt (omega arith) in
      let some_jobs : (n == 0) ≡ false = ground arith in
      let some_size : (g == 0) ≡ false = ground arith in rw (some_jobs, some_size, sum, none) refl
