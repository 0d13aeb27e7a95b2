-- ===== src/Jobs/Waiting.antt =====
-- `Work` empties every queue, and `JobHandleWait` ends.
use native.Mathlib.Decide.{ℕ_discrete}
use native.Mathlib.Nat.{mod-lt}
use mathlib.Core.List.{cons-ne-nil}
use mathlib.Core.Path.{subst}
use scal_base.Prelude.{
  ℕ, zero, suc, ◌+◌, ◌-◌, ◌%◌, ◌^◌, ◌<◌, ◌≡◌, refl, ap, sym, ◌∙◌, arith, Bool, true, false, not,
  ◌&&◌, ◌==◌, if◌then◌else◌, Option, none, some, List, [], ◌∷◌, ◌++◌, update, update_self,
  update_ne, Run, ok, ◌>>=◌, Returns, returns, Returns-inv, Returns-map,
}
use scal_base.Prelude.Words.{u32}
use scal_base.QueueThreaded.{QueueThreaded}
use scal_base.QueueThreaded.Ring.{IsValid as IsRing, size-lt}
use scal_base.QueueThreaded.Calls.{first_of, rest_of, dequeue-items}
use scal_base.Jobs.{
  JobsState, JobArgs, Job, job_queue_size, pop_front, job_calls, run_job, drain, work_loop,
}
use scal_base.Jobs.Pending.{weigh, queued, pending, one, weigh-queued, pending-update}
use scal_base.Jobs.Pushing.{IsValid, rings-update}

abbrev pub iff : Bool → Bool → Bool
iff true b = b
iff false b = not b

-- The same task with the same arguments.
unfoldable pub same_call : ℕ × JobArgs → ℕ × JobArgs → Bool
same_call x y =
    (x.0 == y.0)
    && ((x.1).stack_memory == (y.1).stack_memory)
    && ((x.1).job_index == (y.1).job_index)
    && ((x.1).group_id == (y.1).group_id)
    && ((x.1).group_index == (y.1).group_index)
    && iff (x.1).is_first_job_in_group (y.1).is_first_job_in_group
    && iff (x.1).is_last_job_in_group (y.1).is_last_job_in_group

-- How often `x` is among some calls.
abbrev pub occurrences : ℕ × JobArgs → List (ℕ × JobArgs) → ℕ
occurrences x [] = 0
occurrences x (y ∷ ys) = (if same_call x y then 1 else 0) + occurrences x ys

-- How often a job makes the call `x`.
abbrev pub occurs : ℕ × JobArgs → Job → ℕ
occurs x job =
    occurrences x (job_calls job (job.group_job_end - job.group_job_offset) job.group_job_offset)

abbrev pub mine : ℕ → Job → ℕ
mine handle job = if job.handle == handle then 1 else 0

pub occurrences-calls :
    (x : ℕ × JobArgs) (xs ys : List (ℕ × JobArgs))
    → occurrences x (xs ++ ys) ≡ occurrences x xs + occurrences x ys
occurrences-calls x [] ys = omega arith
occurrences-calls x (call ∷ xs) ys = omega (arith, occurrences-calls x xs ys)

-- The counter of `handle` is the number of its jobs in the `n` queues and of those that no queue took, and `total` is how often each call
-- has been made and is still to be made.
pub record Owed (n handle lost : ℕ) (total : ℕ × JobArgs → ℕ) (s : JobsState) : Type 0 where
  pub valid : IsValid s
  pub threads : s.num_threads ≡ n
  pub counted : s.counters handle ≡ pending (mine handle) n s.job_queue_per_thread + lost
  pub word : s.counters handle < 2 ^ 32
  pub made :
      (x : ℕ × JobArgs)
      → occurrences x s.calls + pending (occurs x) n s.job_queue_per_thread ≡ total x

-- What the loop over the jobs of the queue `i` does.
record Drained (n handle lost : ℕ) (total : ℕ × JobArgs → ℕ) (i : ℕ) (s t : JobsState)
    : Type 0 where
  pub owed : Owed n handle lost total t
  nothing : queued (t.job_queue_per_thread i) ≡ []
  pub stays :
      (k : ℕ) → queued (s.job_queue_per_thread k) ≡ [] → queued (t.job_queue_per_thread k) ≡ []

update-stays :
    (queues : ℕ → QueueThreaded Job) (i : ℕ) (q : QueueThreaded Job)
    → (queued (queues i) ≡ [] → queued q ≡ [])
    → (k : ℕ) → queued (queues k) ≡ []
    → queued (update queues i q k) ≡ []
update-stays queues i q keeps k none_left = elim (ℕ_discrete i k) [
  | yes same ↦
      rw (same, update_self queues k q) (keeps (ap (λ j. queued (queues j)) same ∙ none_left))
  | no other ↦ rw (update_ne queues i q k other) none_left
]

-- What the loop over the queues does, with `left` of them to go.
pub record Emptied (n handle lost : ℕ) (total : ℕ × JobArgs → ℕ) (left start : ℕ) (s t : JobsState)
    : Type 0 where
  pub owed : Owed n handle lost total t
  pub stays :
      (k : ℕ) → queued (s.job_queue_per_thread k) ≡ [] → queued (t.job_queue_per_thread k) ≡ []
  pub gone : (j : ℕ) → j < left → queued (t.job_queue_per_thread ((start + j) % n)) ≡ []

module _ {n handle lost : ℕ} {total : ℕ × JobArgs → ℕ} where
  run_job-Owed :
      {s : JobsState} (i : ℕ) (q : QueueThreaded Job) (job : Job)
      → Owed n handle lost total s
      → i < n
      → IsRing job_queue_size q
      → queued (s.job_queue_per_thread i) ≡ job ∷ queued q
      → Owed n handle lost total
          (run_job (record s { job_queue_per_thread = update s.job_queue_per_thread i q }) job)
  unfolding run_job
  run_job-Owed {s} i q job owed inside ring e =
      let old = s.job_queue_per_thread in
      let sum = pending-update (mine handle) old i q n inside in
      let first = ap (weigh (mine handle)) e in
      let lower = u32 (s.counters job.handle + (2 ^ 32 - 1)) in
      let after = update s.counters job.handle lower in
      let (counted, word) : (after handle ≡ pending (mine handle) n (update old i q) + lost)
          × (after handle < 2 ^ 32) =
        elim (ℕ_discrete job.handle handle) [
          | yes same ↦
              let test : (job.handle == handle) ≡ true = ground (arith, same) in
              let one_less = rw test at first in
              let here : after handle ≡ lower =
                ap after (sym same) ∙ update_self s.counters job.handle lower in
              let value : s.counters job.handle ≡ s.counters handle = ap s.counters same in
              rw (here, value) (omega (arith, sum, one_less, owed.counted, owed.word))
          | no other ↦
              let test : (job.handle == handle) ≡ false = ground (arith, other) in
              let unchanged = rw test at first in
              rw (update_ne s.counters job.handle lower handle other)
                (omega (arith, sum, unchanged, owed.counted, owed.word))
        ] in
      record {
        valid = record {
          threads = owed.valid.threads;
          queues = rings-update s.num_threads old i q owed.valid.queues ring;
        };
        threads = owed.threads;
        counted = counted;
        word = word;
        made = λ x.
            let used = pending-update (occurs x) old i q n inside in
            let head = ap (weigh (occurs x)) e in
            omega (
              arith,
              owed.made x,
              used,
              head,
              occurrences-calls x s.calls
                  (job_calls job (job.group_job_end - job.group_job_offset) job.group_job_offset),
            );
      }

  drain-Drained :
      (fuel i : ℕ) {s : JobsState}
      → Owed n handle lost total s
      → i < n
      → weigh one (queued (s.job_queue_per_thread i)) < fuel
      → Returns (Drained n handle lost total i s) (drain fuel i s)
  unfolding drain pop_front
  drain-Drained zero i owed inside enough = absurd (omega arith)
  drain-Drained (suc fuel) i {s} owed inside enough =
      let (r, run, (ring, front, rest)) =
        Returns-inv (dequeue-items (owed.valid.queues i (rw owed.threads inside))) in
      rw run (
        answer r.0 r.1 ring (queued (s.job_queue_per_thread i)) refl front rest
          (λ t later_owed short. drain-Drained fuel i later_owed inside short))
    where
      answer :
          (q : QueueThreaded Job) (o : Option Job)
          → IsRing job_queue_size q
          → (jobs : List Job) → queued (s.job_queue_per_thread i) ≡ jobs
          → o ≡ first_of jobs
          → queued q ≡ rest_of jobs
          → ((t : JobsState)
              → Owed n handle lost total t
              → weigh one (queued (t.job_queue_per_thread i)) < fuel
              → Returns (Drained n handle lost total i t) (drain fuel i t))
          → Returns (Drained n handle lost total i s) (elim o [
            | none ↦ ok (record s { job_queue_per_thread = update s.job_queue_per_thread i q })
            | some job ↦ drain fuel i (
                run_job (record s { job_queue_per_thread = update s.job_queue_per_thread i q }) job)
          ])
      answer q o ring [] e front rest later =
          let old = s.job_queue_per_thread in
          let same : (weight : Job → ℕ) → pending weight n (update old i q) ≡ pending weight n old =
            λ weight. omega (
              arith,
              pending-update weight old i q n inside,
              ap (weigh weight) e,
              ap (weigh weight) rest,
            ) in
          rw front (
            returns record {
              owed = record {
                valid = record {
                  threads = owed.valid.threads;
                  queues = rings-update s.num_threads old i q owed.valid.queues ring;
                };
                threads = owed.threads;
                counted = omega (arith, owed.counted, same (mine handle));
                word = owed.word;
                made = λ x. omega (arith, same (occurs x), owed.made x);
              };
              nothing = ap queued (update_self old i q) ∙ rest;
              stays = update-stays old i q (λ h. rest);
            })
      answer q o ring (job ∷ jobs) e front rest later =
          let next = run_job-Owed i q job owed inside ring (e ∙ ap (λ js. job ∷ js) (sym rest)) in
          let less = ap (weigh one) e in
          let left = ap (weigh one) rest in
          let here = update_self s.job_queue_per_thread i q in
          let short : weigh one (queued (update s.job_queue_per_thread i q i)) < fuel =
            rw here (omega (arith, less, left, enough)) in
          rw front (
            Returns-map (later _ next short) λ t d. record {
              owed = d.owed;
              nothing = d.nothing;
              stays = λ k none_left. d.stays k (
                  update-stays s.job_queue_per_thread i q
                    (λ h. absurd (cons-ne-nil job jobs (sym e ∙ h))) k none_left);
            })

  pub work_loop-Emptied :
      (left start : ℕ) {s : JobsState}
      → Owed n handle lost total s
      → start + left < 2 ^ 32
      → Returns (Emptied n handle lost total left start s) (work_loop left start s)
  unfolding work_loop
  work_loop-Emptied zero start owed word =
      returns (record { owed = owed; stays = λ k e. e; gone = λ j h. absurd (omega arith) })
  work_loop-Emptied (suc left) start {s} owed word =
      let inside : start % n < n = mod-lt start (rw (sym owed.threads) owed.valid.threads) in
      let small : weigh one (queued (s.job_queue_per_thread (start % n))) < 256 = omega (
        arith,
        weigh-queued (s.job_queue_per_thread (start % n)),
        size-lt (owed.valid.queues (start % n) (rw owed.threads inside)),
      ) in
      let at : s.num_threads ≡ n = owed.threads in
      let emptied : Returns (Drained n handle lost total (start % n) s)
          (drain job_queue_size (start % s.num_threads) s) =
        subst
          (λ k.
            Returns (Drained n handle lost total (start % n) s)
              (drain job_queue_size (start % k) s))
          (sym at) (drain-Drained job_queue_size (start % n) owed inside small) in
      onward (drain job_queue_size (start % s.num_threads) s) emptied
        (λ t d. work_loop-Emptied left (start + 1) d.owed (omega (arith, word)))
    where
      onward :
          (run : Run JobsState)
          → Returns (Drained n handle lost total (start % n) s) run
          → ((t : JobsState)
              → Drained n handle lost total (start % n) s t
              → Returns
                  (Emptied n handle lost total left (start + 1) t)
                  (work_loop left (start + 1) t))
          → Returns
              (Emptied n handle lost total (suc left) start s)
              (run >>= λ t. work_loop left (u32 (start + 1)) t)
      onward run (returns {value = t} d) rest =
          let next : u32 (start + 1) ≡ start + 1 = omega arith in
          rw next (
            Returns-map (rest t d) λ r h. record {
              owed = h.owed;
              stays = λ k e. h.stays k (d.stays k e);
              gone = λ j lt. elim (ℕ_discrete j 0) [
                | yes first ↦
                    let same : start + j ≡ start = omega (arith, first) in
                    rw same (h.stays (start % n) d.nothing)
                | no later ↦
                    let same : start + j ≡ start + 1 + (j - 1) = omega (arith, later) in
                    rw same (h.gone (j - 1) (omega (arith, later)))
              ];
            })
