-- ===== src/Jobs/Lost.antt =====
-- More groups than the queues can hold.
use native.Mathlib.Nat.{mod-lt}
use scal_base.Prelude.{
  ℕ, zero, suc, ◌+◌, ◌-◌, ◌*◌, ◌%◌, ◌^◌, ◌≤◌, ◌<◌, ◌≡◌, refl, ap, ◌∙◌, arith, true, false, ◌==◌,
  List, [], ◌∷◌, update_self, out_of_fuel, ◌>>=◌, Returns, returns, Returns-inv, Returns-map,
}
use scal_base.Prelude.Words.{u32}
use scal_base.QueueThreaded.{QueueThreaded}
use scal_base.QueueThreaded.Ring.{IsValid as IsRing, size-lt}
use scal_base.QueueThreaded.Calls.{enqueue-items}
use scal_base.Jobs.{
  JobsState, Job, job_queue_size, push_back, hand_out, dispatch_loop, jobs_dispatch,
  jobs_dispatch_group_count, group_job, count_on, job_handle_is_busy, yield_loop, job_handle_wait,
}
use scal_base.Jobs.Pending.{weigh, queued, pending, one, weigh-queued}
use scal_base.Jobs.Pushing.{IsValid, rings-update}
use scal_base.Jobs.Waiting.{occurrences, occurs, mine, Owed}
use scal_base.Jobs.Finished.{job_handle_wait-works}

-- `t` has the rings and the counters of `s`, but for what is on the rings.
record Kept (s t : JobsState) : Type 0 where
  valid : IsValid t
  threads : t.num_threads ≡ s.num_threads
  counters : t.counters ≡ s.counters

hand_out-Kept : {s : JobsState} → IsValid s → (job : Job) → Returns (Kept s) (hand_out s job)
unfolding hand_out push_back
hand_out-Kept {s} valid job =
    let idx = s.next_queue_index % s.num_threads in
    let (r, run, (ring, done, same, grown)) =
      Returns-inv
        (enqueue-items (valid.queues idx (mod-lt s.next_queue_index valid.threads)) job) in
    rw run (
      returns record {
        valid = record {
          threads = valid.threads;
          queues = rings-update s.num_threads s.job_queue_per_thread idx r.0 valid.queues ring;
        };
        threads = refl;
        counters = refl;
      })

dispatch_loop-Kept :
    (job : ℕ → Job) (left id : ℕ) {s : JobsState}
    → IsValid s
    → Returns (Kept s) (dispatch_loop job left id s)
unfolding dispatch_loop
dispatch_loop-Kept job zero id valid =
    returns record { valid = valid; threads = refl; counters = refl }
dispatch_loop-Kept job (suc left) id valid =
    let (t, run, first) = Returns-inv (hand_out-Kept valid (job id)) in
    rw run (
      Returns-map (dispatch_loop-Kept job left (id + 1) first.valid) λ r h. record {
        valid = h.valid;
        threads = h.threads ∙ first.threads;
        counters = h.counters ∙ first.counters;
      })

weigh-mine_le : (handle : ℕ) (jobs : List Job) → weigh (mine handle) jobs ≤ weigh one jobs
weigh-mine_le handle [] = omega arith
weigh-mine_le handle (job ∷ jobs) = ground (arith, weigh-mine_le handle jobs)

-- The rings have room for 255 jobs each.
pending-bound :
    (handle : ℕ) (queues : ℕ → QueueThreaded Job) (n : ℕ)
    → ((i : ℕ) → i < n → IsRing job_queue_size (queues i))
    → pending (mine handle) n queues ≤ 255 * n
pending-bound handle queues zero rings = omega arith
pending-bound handle queues (suc n) rings = omega (
  arith,
  pending-bound handle queues n (λ i h. rings i (omega arith)),
  weigh-mine_le handle (queued (queues n)),
  weigh-queued (queues n),
  size-lt (rings n (omega arith)),
)

yield_loop-stuck :
    (fuel handle : ℕ) (t : JobsState)
    → job_handle_is_busy t handle ≡ true
    → yield_loop fuel handle t ≡ out_of_fuel
unfolding yield_loop
yield_loop-stuck zero handle t busy = refl
yield_loop-stuck (suc fuel) handle t busy = rw busy (yield_loop-stuck fuel handle t busy)

-- On a valid state with the counter of the handle at 0, when the number of groups is below 2 ^ 31
-- and above 255 for each thread: `JobHandleWait` after `JobsDispatch`, with nothing else running,
-- uses up any number of rounds.
pub job_handle_wait-overfull :
    (fuel handle n g task stack : ℕ) {s : JobsState}
    → IsValid s
    → s.counters handle ≡ 0
    → 0 < n
    → 0 < g
    → jobs_dispatch_group_count n g < 2 ^ 31
    → 255 * s.num_threads < jobs_dispatch_group_count n g
    → (jobs_dispatch s handle n g task stack >>= λ t. job_handle_wait fuel t handle) ≡ out_of_fuel
unfolding jobs_dispatch job_handle_is_busy
job_handle_wait-overfull fuel handle n g task stack {s} valid counter some_jobs some_size half
      over =
    let count = jobs_dispatch_group_count n g in
    let job = group_job handle n g task stack in
    let no_jobs : (n == 0) ≡ false = ground arith in
    let no_size : (g == 0) ≡ false = ground arith in
    let counted : JobsState = count_on s handle count in
    let value : counted.counters handle ≡ count =
      update_self s.counters handle (u32 (s.counters handle + count))
      ∙ omega (arith, counter, half) in
    let ready : IsValid counted = record { threads = valid.threads; queues = valid.queues } in
    let (t, run, kept) = Returns-inv (dispatch_loop-Kept job count 0 ready) in
    let here : t.counters handle ≡ count = ap (λ c. c handle) kept.counters ∙ value in
    let queued_jobs = pending (mine handle) s.num_threads t.job_queue_per_thread in
    let bound : queued_jobs ≤ 255 * s.num_threads =
      pending-bound handle t.job_queue_per_thread s.num_threads
        (λ i h. kept.valid.queues i (rw kept.threads h)) in
    let owed : Owed s.num_threads handle (count - queued_jobs)
        (λ x. occurrences x t.calls + pending (occurs x) s.num_threads t.job_queue_per_thread) t =
      record {
        valid = kept.valid;
        threads = kept.threads;
        counted = omega (arith, here, bound, over);
        word = omega (arith, here, half);
        made = λ x. refl;
      } in
    let busy : job_handle_is_busy t handle ≡ true = ground (arith, here, over, half) in
    let (worked, waits, d) = job_handle_wait-works fuel owed (omega (arith, over, half)) busy in
    let busy' : job_handle_is_busy worked handle ≡ true =
      ground (arith, d.counter, over, bound, half) in
    rw (no_jobs, no_size, run, waits) (yield_loop-stuck fuel handle worked busy')
