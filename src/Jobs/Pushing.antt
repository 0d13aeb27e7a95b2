-- ===== src/Jobs/Pushing.antt =====
-- What `JobsDispatch` and `JobsExecute` put into the queues.
use native.Mathlib.Decide.{ℕ_discrete}
use native.Mathlib.Nat.{mod-lt}
use scal_base.Prelude.{
  ℕ, zero, suc, ◌+◌, ◌%◌, ◌≤◌, ◌<◌, ◌≡◌, refl, ap, ◌∙◌, arith, false, ◌==◌, List, [], ◌∷◌, ◌++◌,
  update, update_self, update_ne, Returns, returns, Returns-inv, Returns-map,
}
use scal_base.QueueThreaded.{QueueThreaded}
use scal_base.QueueThreaded.Ring.{IsValid as IsRing, size}
use scal_base.QueueThreaded.Calls.{enqueue-items}
use scal_base.Jobs.{JobsState, Job, job_queue_size, push_back, hand_out, dispatch_loop}
use scal_base.Jobs.Groups.{jobs_from}
use scal_base.Jobs.Pending.{
  weigh, queued, pending, one, weigh-append, pending-update, pending-queue, weigh-queued,
}

pub record IsValid (s : JobsState) : Type 0 where
  pub threads : 0 < s.num_threads
  pub queues : (i : ℕ) → i < s.num_threads → IsRing job_queue_size (s.job_queue_per_thread i)

-- `t` is `s` with these jobs in the queues.
pub record HandedOut (s : JobsState) (jobs : List Job) (t : JobsState) : Type 0 where
  pub valid : IsValid t
  pub threads : t.num_threads ≡ s.num_threads
  pub counters : t.counters ≡ s.counters
  pub calls : t.calls ≡ s.calls
  pub added :
      (weight : Job → ℕ)
      → pending weight s.num_threads t.job_queue_per_thread
        ≡ pending weight s.num_threads s.job_queue_per_thread + weigh weight jobs

-- Replacing one ring by another keeps the rings valid.
pub rings-update :
    (n : ℕ) (queues : ℕ → QueueThreaded Job) (i : ℕ) (q : QueueThreaded Job)
    → ((k : ℕ) → k < n → IsRing job_queue_size (queues k))
    → IsRing job_queue_size q
    → (k : ℕ) → k < n
    → IsRing job_queue_size (update queues i q k)
rings-update n queues i q rings ring k h = elim (ℕ_discrete i k) [
  | yes same ↦ rw (same, update_self queues k q) ring
  | no other ↦ rw (update_ne queues i q k other) (rings k h)
]

push_back-queued :
    (q : QueueThreaded Job)
    → IsRing job_queue_size q
    → (job : Job) → size job_queue_size q < 255
    → Returns (λ r. IsRing job_queue_size r × (queued r ≡ queued q ++ (job ∷ []))) (push_back q job)
unfolding push_back
push_back-queued q valid job room =
    let free : (size job_queue_size q + 1 == job_queue_size) ≡ false = ground (arith, room) in
    let (r, run, (ring, done, kept, grown)) = Returns-inv (enqueue-items valid job) in
    rw run (returns (ring, rw free at grown))

pub hand_out-HandedOut :
    {s : JobsState}
    → IsValid s
    → (job : Job) → pending one s.num_threads s.job_queue_per_thread < 255
    → Returns (HandedOut s (job ∷ [])) (hand_out s job)
unfolding hand_out
hand_out-HandedOut {s} valid job room =
    let idx = s.next_queue_index % s.num_threads in
    let inside = mod-lt s.next_queue_index valid.threads in
    let q = s.job_queue_per_thread idx in
    let short : size job_queue_size q < 255 = omega (
      arith,
      weigh-queued q,
      pending-queue one s.job_queue_per_thread idx s.num_threads inside,
      room,
    ) in
    let (r, run, (ring, grown)) =
      Returns-inv (push_back-queued q (valid.queues idx inside) job short) in
    rw run (
      returns record {
        valid = record {
          threads = valid.threads;
          queues = rings-update s.num_threads s.job_queue_per_thread idx r valid.queues ring;
        };
        threads = refl;
        counters = refl;
        calls = refl;
        added = λ weight.
            let sum = pending-update weight s.job_queue_per_thread idx r s.num_threads inside in
            let more = ap (weigh weight) grown ∙ weigh-append weight (queued q) (job ∷ []) in
            omega (arith, sum, more);
      })

pub dispatch_loop-HandedOut :
    (job : ℕ → Job) (left id : ℕ) {s : JobsState}
    → IsValid s
    → pending one s.num_threads s.job_queue_per_thread + left ≤ 255
    → Returns (HandedOut s (jobs_from job left id)) (dispatch_loop job left id s)
unfolding dispatch_loop
dispatch_loop-HandedOut job zero id valid room = returns record {
  valid = valid;
  threads = refl;
  counters = refl;
  calls = refl;
  added = λ weight. omega arith;
}
dispatch_loop-HandedOut job (suc left) id {s} valid room =
    let (t, run, first) = Returns-inv (hand_out-HandedOut valid (job id) (omega (arith, room))) in
    let sum = first.added one in
    let rest =
      dispatch_loop-HandedOut job left (id + 1) first.valid
        (rw first.threads (omega (arith, sum, room))) in
    rw run (
      Returns-map rest λ r h. record {
        valid = h.valid;
        threads = h.threads ∙ first.threads;
        counters = h.counters ∙ first.counters;
        calls = h.calls ∙ first.calls;
        added = λ weight.
            let later = rw first.threads at (h.added weight) in
            omega (arith, later, first.added weight);
      })
