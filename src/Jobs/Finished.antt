-- ===== src/Jobs/Finished.antt =====
-- A dispatch, and the wait for it.
use mathlib.Core.Path.{subst}
use native.Mathlib.Decide.{ℕ_discrete, dec_lt}
use native.Mathlib.Nat.{mod-lt, mod-eq_of_lt, add-mod_right}
use scal_base.Prelude.{
  ℕ, zero, suc, ◌+◌, ◌-◌, ◌%◌, ◌^◌, ◌≤◌, ◌<◌, ◌≡◌, ◌≢◌, refl, ap, sym, ◌∙◌, arith, true, false,
  ◌==◌, ◌&&◌, ltb, leb, if◌then◌else◌, List, [], ◌∷◌, update, update_self, ◌>>=◌, Returns, returns,
  Returns-inv, Returns-map,
}
use scal_base.Prelude.Words.{u32}
use scal_base.Jobs.{
  JobsState, JobArgs, Job, job_handle_is_busy, count_on, job_calls, group_job,
  jobs_dispatch_group_count, jobs_dispatch, work, work_loop, wake, yield_loop, job_handle_wait,
}
use scal_base.Jobs.Groups.{
  calls_of, call_for, each_job, jobs_from, jobs_dispatch_group_count-ceil, calls_of-group_job,
}
use scal_base.Jobs.Pending.{weigh, queued, pending, one, pending-nothing}
use scal_base.Jobs.Pushing.{IsValid, dispatch_loop-HandedOut}
use scal_base.Jobs.Waiting.{
  same_call, occurrences, occurs, mine, occurrences-calls, Owed, Emptied, work_loop-Emptied,
}

-- No job waits, and none is counted for `handle`.
pub record IsIdle (handle : ℕ) (s : JobsState) : Type 0 where
  pub valid : IsValid s
  pub few : s.num_threads < 2 ^ 31
  pub counter : s.counters handle ≡ 0
  pub nothing : (i : ℕ) → i < s.num_threads → queued (s.job_queue_per_thread i) ≡ []

wake-posts :
    (left i : ℕ) (s : JobsState)
    → (posts : ℕ → ℕ) × (wake left i s ≡ record s { semaphores = posts })
unfolding wake
wake-posts zero i s = (s.semaphores, refl)
wake-posts (suc left) i s =
    wake-posts left (i + 1) (record s { semaphores = update s.semaphores i (s.semaphores i + 1) })

-- No job is left, but those that no queue took.
pub record Done (handle lost : ℕ) (total : ℕ × JobArgs → ℕ) (t : JobsState) : Type 0 where
  pub counter : t.counters handle ≡ lost
  pub made : (x : ℕ × JobArgs) → occurrences x t.calls ≡ total x

yield_loop-Done :
    {handle : ℕ} {total : ℕ × JobArgs → ℕ} (fuel : ℕ) {t : JobsState}
    → 0 < fuel
    → Done handle 0 total t
    → Returns (Done handle 0 total) (yield_loop fuel handle t)
unfolding yield_loop job_handle_is_busy
yield_loop-Done zero some_fuel d = absurd (omega arith)
yield_loop-Done (suc fuel) some_fuel d = rw d.counter (returns d)

module _ {n handle lost : ℕ} {total : ℕ × JobArgs → ℕ} where
  work-Done :
      (start : ℕ) {s : JobsState}
      → Owed n handle lost total s
      → n < 2 ^ 31
      → start < n
      → Returns (Done handle lost total) (work start s)
  unfolding work
  work-Done start {s} owed few inside =
      let run : Returns (Emptied n handle lost total n start s) (work start s) =
        subst (λ k. Returns (Emptied n handle lost total n start s) (work_loop k start s))
          (sym owed.threads) (work_loop-Emptied n start owed (omega arith)) in
      Returns-map run λ t e.
        let nothing : (k : ℕ) → k < n → queued (t.job_queue_per_thread k) ≡ [] = λ k lt.
          elim (dec_lt k start) [
            | yes before ↦
                let round : (start + (k + n - start)) % n ≡ k =
                  ap (λ i. i % n) (omega (arith, before, inside))
                  ∙ add-mod_right k n
                  ∙ mod-eq_of_lt lt in
                rw round at (e.gone (k + n - start) (omega (arith, before, inside)))
            | no from ↦
                let round : (start + (k - start)) % n ≡ k =
                  ap (λ i. i % n) (omega (arith, from)) ∙ mod-eq_of_lt lt in
                rw round at (e.gone (k - start) (omega (arith, from, lt)))
          ] in
        record {
          counter = omega (
            arith,
            e.owed.counted,
            pending-nothing (mine handle) t.job_queue_per_thread n nothing,
          );
          made = λ x.
              omega
                (arith, e.owed.made x, pending-nothing (occurs x) t.job_queue_per_thread n nothing);
        }

  -- `JobHandleWait` of a busy handle works until no job is left, and then watches the counter.
  pub job_handle_wait-works :
      (fuel : ℕ) {s : JobsState}
      → Owed n handle lost total s
      → n < 2 ^ 31
      → job_handle_is_busy s handle ≡ true
      → (t : JobsState) × (job_handle_wait fuel s handle ≡ yield_loop fuel handle t)
        × Done handle lost total t
  unfolding job_handle_wait
  job_handle_wait-works fuel {s} owed few busy =
      let (posts, woken) = wake-posts s.num_threads 0 s in
      let inside : s.next_queue_index % s.num_threads < n =
        rw (sym owed.threads) (mod-lt s.next_queue_index owed.valid.threads) in
      let ready : JobsState = record s {
        semaphores = posts;
        next_queue_index = u32 (s.next_queue_index + 1);
      } in
      let still : Owed n handle lost total ready = record {
        valid = record { threads = owed.valid.threads; queues = owed.valid.queues };
        threads = owed.threads;
        counted = owed.counted;
        word = owed.word;
        made = owed.made;
      } in
      let (t, run, d) =
        Returns-inv (work-Done (s.next_queue_index % s.num_threads) still few inside) in
      rw (woken, busy, run) (t, refl, d)

weigh-occurs :
    (x : ℕ × JobArgs) (jobs : List Job) → weigh (occurs x) jobs ≡ occurrences x (calls_of jobs)
weigh-occurs x [] = refl
weigh-occurs x (job ∷ jobs) = omega (
  arith,
  weigh-occurs x jobs,
  occurrences-calls x
      (job_calls job (job.group_job_end - job.group_job_offset) job.group_job_offset)
      (calls_of jobs),
)

-- All the jobs of a dispatch have its handle.
weigh-mine :
    (handle n g task stack left id : ℕ)
    → weigh (mine handle) (jobs_from (group_job handle n g task stack) left id) ≡ left
unfolding group_job
weigh-mine handle n g task stack zero id = refl
weigh-mine handle n g task stack (suc left) id =
    let same : (handle == handle) ≡ true = ground arith in
    rw same (omega (arith, weigh-mine handle n g task stack left (id + 1)))

weigh-one_each : (job : ℕ → Job) (left id : ℕ) → weigh one (jobs_from job left id) ≡ left
weigh-one_each job zero id = refl
weigh-one_each job (suc left) id = omega (arith, weigh-one_each job left (id + 1))

-- How often `x` is the call of a job index below `n`.
abbrev wanted : (ℕ → ℕ × JobArgs) → ℕ → ℕ × JobArgs → ℕ
wanted call n x = let j = (x.1).job_index in if ltb j n && same_call x (call j) then 1 else 0

module _ (call : ℕ → ℕ × JobArgs) (indexed : (j : ℕ) → ((call j).1).job_index ≡ j) where
  other_index : (x : ℕ × JobArgs) (i : ℕ) → i ≢ (x.1).job_index → same_call x (call i) ≡ false
  unfolding same_call
  other_index x i ne =
      let test : ((x.1).job_index == ((call i).1).job_index) ≡ false =
        ground (arith, ne, indexed i) in
      rw test (ground arith)

  occurrences-each_job :
      (x : ℕ × JobArgs) (n i : ℕ)
      → occurrences x (each_job call n i) ≡ (
          let j = (x.1).job_index in
          if leb i j && ltb j (i + n) && same_call x (call j) then 1 else 0)
  occurrences-each_job x zero i = ground arith
  occurrences-each_job x (suc n) i =
      let rest = occurrences-each_job x n (i + 1) in
      elim (ℕ_discrete i (x.1).job_index) [
        | yes here ↦
            let same = ap (λ j. same_call x (call j)) here in ground (arith, rest, same, here)
        | no apart ↦ let other = other_index x i apart in ground (arith, rest, other, apart)
      ]

  occurrences-all : (x : ℕ × JobArgs) (n : ℕ) → occurrences x (each_job call n 0) ≡ wanted call n x
  occurrences-all x n = occurrences-each_job x n 0 ∙ ground arith

-- `JobsDispatch` on an idle state leaves one job for each group.
dispatched-Owed :
    (handle n g task stack : ℕ) {s : JobsState}
    → IsIdle handle s
    → 0 < n
    → 0 < g
    → n + g ≤ 2 ^ 32
    → jobs_dispatch_group_count n g ≤ 255
    → Returns
        (λ t.
          Owed s.num_threads handle 0
            (λ x. occurrences x s.calls + wanted (call_for n g task stack) n x)
            t
          × (t.counters handle ≡ jobs_dispatch_group_count n g))
        (jobs_dispatch s handle n g task stack)
unfolding jobs_dispatch
dispatched-Owed handle n g task stack {s} idle some_jobs some_size fits few =
    let count = jobs_dispatch_group_count n g in
    let job = group_job handle n g task stack in
    let no_jobs : (n == 0) ≡ false = ground arith in
    let no_size : (g == 0) ≡ false = ground arith in
    let counted : JobsState = count_on s handle count in
    let ready : IsValid counted = record {
      threads = idle.valid.threads;
      queues = idle.valid.queues;
    } in
    let none : (weight : Job → ℕ) → pending weight s.num_threads s.job_queue_per_thread ≡ 0 =
      λ weight. pending-nothing weight s.job_queue_per_thread s.num_threads idle.nothing in
    let value : counted.counters handle ≡ count =
      update_self s.counters handle (u32 (s.counters handle + count))
      ∙ omega (arith, idle.counter, few) in
    let handed = dispatch_loop-HandedOut job count 0 ready (omega (arith, none one, few)) in
    rw (no_jobs, no_size)
      (Returns-map handed λ t h. (
        record {
          valid = h.valid;
          threads = h.threads;
          counted =
              ap (λ c. c handle) h.counters
              ∙ value
              ∙ omega (
                arith,
                h.added (mine handle),
                none (mine handle),
                weigh-mine handle n g task stack count 0,
              );
          word = rw h.counters (omega (arith, value, few));
          made = λ x.
              let used = ap (λ calls. occurrences x calls) h.calls in
              let each =
                weigh-occurs x (jobs_from job count 0)
                ∙ ap (occurrences x)
                    (calls_of-group_job handle n g task stack some_jobs some_size fits)
                ∙ occurrences-all (call_for n g task stack) (λ j. refl) x n in
              omega (arith, used, each, h.added (occurs x), none (occurs x));
        },
        ap (λ c. c handle) h.counters ∙ value,
      ))

-- On an idle state with valid queues, of 1 to 2 ^ 31 - 1 threads, for a job count and a group size
-- from 1 on whose sum is at most 2 ^ 32 and that make at most 255 groups: `JobsDispatch` and then
-- `JobHandleWait`, with nothing else running, end without a fault and with a single look at the
-- counter after the work; the handle is then not busy, and of the calls with a task and arguments
-- each has been made as often as before, and once more if it calls the given task with the given
-- stack for a job index below the job count, with the number of its group, its place in the group
-- and the marks of the first and the last job of a group.
pub job_handle_wait-jobs_dispatch :
    (fuel handle n g task stack : ℕ) {s : JobsState}
    → 0 < fuel
    → IsIdle handle s
    → 0 < n
    → 0 < g
    → n + g ≤ 2 ^ 32
    → jobs_dispatch_group_count n g ≤ 255
    → Returns
        (λ t.
          (job_handle_is_busy t handle ≡ false)
          × ((x : ℕ × JobArgs)
              → occurrences x t.calls
                ≡ occurrences x s.calls
                  + (let j = (x.1).job_index in
                      if ltb j n && same_call x (call_for n g task stack j) then 1 else 0)))
        (jobs_dispatch s handle n g task stack >>= λ t. job_handle_wait fuel t handle)
unfolding job_handle_is_busy
job_handle_wait-jobs_dispatch fuel handle n g task stack {s} some_fuel idle some_jobs some_size fits
      few =
    let (t, run, (owed, value)) =
      Returns-inv (dispatched-Owed handle n g task stack idle some_jobs some_size fits few) in
    let (k, ceil, low, high) = jobs_dispatch_group_count-ceil n g some_jobs some_size fits in
    let busy : job_handle_is_busy t handle ≡ true = ground (arith, value, ceil, few) in
    let (worked, waits, d) = job_handle_wait-works fuel owed idle.few busy in
    rw (run, waits)
      (Returns-map (yield_loop-Done fuel some_fuel d) λ r e. (rw e.counter refl, e.made))
