-- ===== src/Jobs/Tests.antt =====
-- Runs of the jobs, and the theorems on a small dispatch.
use scal_base.Prelude.{
  ◌-◌, ℕ, ◌+◌, ◌^◌, ◌≡◌, refl, arith, false, ltb, ◌&&◌, if◌then◌else◌, [], ◌∷◌, ok, out_of_fuel,
  ◌>>=◌, Returns, contents,
}
use scal_base.QueueThreaded.{enqueue, dequeue}
use scal_base.Jobs.{
  JobsState, JobArgs, Job, count_on, group_job, hand_out, push_back, pop_front, dispatch_loop,
  jobs_dispatch, jobs_dispatch_group_count, job_handle_is_busy, job_handle_wait, job_calls, run_job,
  drain, work_loop, work, wake, yield_loop,
}
use scal_base.Jobs.Groups.{
  calls_of, jobs_from, call_for, each_job, calls_of-group_job, jobs_dispatch-wraps,
}
use scal_base.Jobs.Waiting.{same_call, occurrences}
use scal_base.Jobs.Finished.{IsIdle, job_handle_wait-jobs_dispatch}
use scal_base.Jobs.Lost.{job_handle_wait-overfull}

abbrev blank : Job
blank = record {
  task = 0;
  stack = 0;
  handle = 0;
  group_id = 0;
  group_job_offset = 0;
  group_job_end = 0;
}

-- Two threads that have nothing to do.
abbrev quiet : JobsState
quiet = record {
  num_threads = 2;
  job_queue_per_thread = λ i. record { first = 0; last = 0; memory = λ j. blank };
  next_queue_index = 5;
  counters = λ h. 0;
  semaphores = λ i. 0;
  calls = [];
}

quiet-IsIdle : IsIdle 3 quiet
unfolding contents
quiet-IsIdle = record {
  valid = record {
    threads = omega arith;
    queues = λ i h. record { first = omega arith; last = omega arith };
  };
  few = omega arith;
  counter = refl;
  nothing = λ i h. refl;
}

five_in_twos :
    (jobs_dispatch quiet 3 5 2 77 99 >>= λ s. job_handle_wait 1 s 3 >>= λ t. ok t.calls)
    ≡ ok (
        call_for 5 2 77 99 2
        ∷ (call_for 5 2 77 99 3
            ∷ (call_for 5 2 77 99 0 ∷ (call_for 5 2 77 99 1 ∷ (call_for 5 2 77 99 4 ∷ [])))))
unfolding jobs_dispatch jobs_dispatch_group_count dispatch_loop hand_out push_back enqueue group_job
    job_handle_wait job_handle_is_busy wake work work_loop drain pop_front dequeue run_job job_calls
    yield_loop
five_in_twos = refl

two_groups : jobs_dispatch_group_count 5 3 ≡ 2
unfolding jobs_dispatch_group_count
two_groups = refl

job_handle_wait-jobs_dispatch_example :
    Returns
      (λ t.
        (job_handle_is_busy t 3 ≡ false)
        × ((x : ℕ × JobArgs)
            → occurrences x t.calls
              ≡ occurrences x quiet.calls
                + (let j = (x.1).job_index in
                    if ltb j 5 && same_call x (call_for 5 3 77 99 j) then 1 else 0)))
      (jobs_dispatch quiet 3 5 3 77 99 >>= λ t. job_handle_wait 1 t 3)
job_handle_wait-jobs_dispatch_example =
    job_handle_wait-jobs_dispatch 1 3 5 3 77 99 (omega arith) quiet-IsIdle (omega arith)
      (omega arith) (omega arith) (omega (arith, two_groups))

calls_of-group_job_example :
    calls_of (jobs_from (group_job 3 5 3 77 99) (jobs_dispatch_group_count 5 3) 0)
    ≡ each_job (call_for 5 3 77 99) 5 0
calls_of-group_job_example =
    calls_of-group_job 3 5 3 77 99 (omega arith) (omega arith) (omega arith)

jobs_dispatch-wraps_example : jobs_dispatch quiet 3 (2 ^ 32 - 1) 3 77 99 ≡ ok (count_on quiet 3 0)
jobs_dispatch-wraps_example =
    jobs_dispatch-wraps 3 (2 ^ 32 - 1) 3 77 99 quiet (omega arith) (omega arith) (omega arith)

many_groups : jobs_dispatch_group_count 1000 1 ≡ 1000
unfolding jobs_dispatch_group_count
many_groups = refl

job_handle_wait-overfull_example :
    (jobs_dispatch quiet 3 1000 1 77 99 >>= λ t. job_handle_wait 100 t 3) ≡ out_of_fuel
job_handle_wait-overfull_example =
    job_handle_wait-overfull 100 3 1000 1 77 99 quiet-IsIdle.valid refl (omega arith) (omega arith)
      (omega (arith, many_groups)) (omega (arith, many_groups))
