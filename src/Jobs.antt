-- ===== src/Jobs.antt =====
-- Lib/Jobs.h, in a build without asserts, as one thread runs it: the jobs that are dispatched, and the
-- thread that waits for them and works on every queue.
-- A task and a job handle are addresses. A task is taken to call nothing of this file; its calls are
-- recorded in `calls`. A semaphore is the number of its posts. The atomic counters are
-- 32-bit words, and `zpl_atomic32_fetch_add` returns the old one.
pub mod Groups
pub mod Pending
pub mod Pushing
pub mod Waiting
pub mod Finished
pub mod Lost
mod Tests
use scal_base.Prelude.{
  ℕ, zero, suc, ◌+◌, ◌-◌, ◌*◌, ◌/◌, ◌%◌, ◌^◌, Bool, true, false, ◌==◌, ◌&&◌, ◌||◌, ltb,
  if◌then◌else◌, Option, none, some, List, [], ◌∷◌, ◌++◌, Run, ok, out_of_fuel, ◌>>=◌, update,
}
use scal_base.Prelude.Words.{u32}
use scal_base.QueueThreaded.{QueueThreaded, enqueue, dequeue}

pub record JobArgs : Type 0 where
  pub stack_memory : ℕ
  pub job_index : ℕ
  pub group_id : ℕ
  pub group_index : ℕ
  pub is_first_job_in_group : Bool
  pub is_last_job_in_group : Bool

pub record Job : Type 0 where
  pub task : ℕ
  pub stack : ℕ
  pub handle : ℕ
  pub group_id : ℕ
  pub group_job_offset : ℕ
  pub group_job_end : ℕ

-- `JOB_QUEUE_SIZE`
abbrev pub job_queue_size : ℕ
job_queue_size = 256

pub record JobsState : Type 0 where
  pub num_threads : ℕ
  pub job_queue_per_thread : ℕ → QueueThreaded Job
  pub next_queue_index : ℕ
  pub counters : ℕ → ℕ
  pub semaphores : ℕ → ℕ
  pub calls : List (ℕ × JobArgs)

-- `PushBack`; without asserts nothing looks at what `Enqueue` returns.
unfoldable pub push_back : QueueThreaded Job → Job → Run (QueueThreaded Job)
unfolding enqueue
push_back q item = enqueue job_queue_size q item >>= λ r. ok r.0

unfoldable pub pop_front : QueueThreaded Job → Run (QueueThreaded Job × Option Job)
unfolding dequeue
pop_front q = dequeue job_queue_size q

unfoldable pub job_handle_is_busy : JobsState → ℕ → Bool
job_handle_is_busy s handle = ltb 0 (s.counters handle) && ltb (s.counters handle) (2 ^ 31)

-- `zpl_atomic32_fetch_add(&handle->Counter, n)`
abbrev pub count_on : JobsState → ℕ → ℕ → JobsState
count_on s handle n = record s { counters = update s.counters handle (u32 (s.counters handle + n)) }

abbrev pub post : JobsState → ℕ → JobsState
post s thread = record s { semaphores = update s.semaphores thread (s.semaphores thread + 1) }

-- The common end of `JobsExecute` and of the loop of `JobsDispatch`: the next queue gets the job.
unfoldable pub hand_out : JobsState → Job → Run JobsState
unfolding push_back
hand_out s job =
    let idx = s.next_queue_index % s.num_threads in
    push_back (s.job_queue_per_thread idx) job >>= λ q. ok (
      post
        (record s {
          next_queue_index = u32 (s.next_queue_index + 1);
          job_queue_per_thread = update s.job_queue_per_thread idx q;
        })
        idx)

unfoldable pub jobs_execute : JobsState → ℕ → ℕ → ℕ → Run JobsState
unfolding hand_out
jobs_execute s handle task stack = hand_out (count_on s handle 1) (record {
  task = task;
  stack = stack;
  handle = handle;
  group_id = 0;
  group_job_offset = 0;
  group_job_end = 1;
})

unfoldable pub jobs_dispatch_group_count : ℕ → ℕ → ℕ
jobs_dispatch_group_count job_count group_size =
    u32 (job_count + group_size + (2 ^ 32 - 1)) / group_size

-- The job of one group.
unfoldable pub group_job : ℕ → ℕ → ℕ → ℕ → ℕ → ℕ → Job
group_job handle job_count group_size task stack id =
    let offset = u32 (id * group_size) in
    let end = u32 (offset + group_size) in
    record {
      task = task;
      stack = stack;
      handle = handle;
      group_id = id;
      group_job_offset = offset;
      group_job_end = if ltb end job_count then end else job_count;
    }

-- The loop of `JobsDispatch` from the group `id` on, with `left` groups to go.
unfoldable pub dispatch_loop : (ℕ → Job) → ℕ → ℕ → JobsState → Run JobsState
unfolding hand_out
dispatch_loop job zero id s = ok s
dispatch_loop job (suc left) id s = hand_out s (job id) >>= λ t. dispatch_loop job left (id + 1) t

unfoldable pub jobs_dispatch : JobsState → ℕ → ℕ → ℕ → ℕ → ℕ → Run JobsState
unfolding jobs_dispatch_group_count group_job dispatch_loop
jobs_dispatch s handle job_count group_size task stack =
    let count = jobs_dispatch_group_count job_count group_size in
    if job_count == 0 || group_size == 0
    then ok s
    else dispatch_loop (group_job handle job_count group_size task stack) count 0
        (count_on s handle count)

-- The arguments of the calls of a job from `j` on, with `left` calls to go.
unfoldable pub job_calls : Job → ℕ → ℕ → List (ℕ × JobArgs)
job_calls job zero j = []
job_calls job (suc left) j =
    let args : JobArgs = record {
      stack_memory = job.stack;
      job_index = j;
      group_id = job.group_id;
      group_index = j - job.group_job_offset;
      is_first_job_in_group = j == job.group_job_offset;
      is_last_job_in_group = j == job.group_job_end - 1;
    } in
    (job.task, args) ∷ job_calls job left (j + 1)

-- The body of the loop of `Work` over the jobs of a queue.
unfoldable pub run_job : JobsState → Job → JobsState
unfolding job_calls
run_job s job =
    count_on
      (record s {
        calls =
            s.calls
            ++ job_calls job (job.group_job_end - job.group_job_offset) job.group_job_offset;
      })
      job.handle (2 ^ 32 - 1)

-- The loop of `Work` over the jobs of the queue `idx`.
unfoldable pub drain : ℕ → ℕ → JobsState → Run JobsState
unfolding pop_front run_job
drain zero idx s = out_of_fuel
drain (suc fuel) idx s = pop_front (s.job_queue_per_thread idx) >>= λ r. elim r.1 [
  | none ↦ ok (record s { job_queue_per_thread = update s.job_queue_per_thread idx r.0 })
  | some job ↦
      drain fuel idx
        (run_job (record s { job_queue_per_thread = update s.job_queue_per_thread idx r.0 }) job)
]

-- The loop of `Work` over the queues, with `left` of them to go. A queue holds less than
-- `job_queue_size` jobs.
unfoldable pub work_loop : ℕ → ℕ → JobsState → Run JobsState
unfolding drain
work_loop zero starting_queue s = ok s
work_loop (suc left) starting_queue s =
    drain job_queue_size (starting_queue % s.num_threads) s >>= λ t.
    work_loop left (u32 (starting_queue + 1)) t

unfoldable pub work : ℕ → JobsState → Run JobsState
unfolding work_loop
work starting_queue s = work_loop s.num_threads starting_queue s

-- `zpl_semaphore_post` of each of the threads from `i` on.
unfoldable pub wake : ℕ → ℕ → JobsState → JobsState
wake zero i s = s
wake (suc left) i s = wake left (i + 1) (post s i)

-- The loop of `JobHandleWait` that yields: with no other thread, it ends at once or never.
unfoldable pub yield_loop : ℕ → ℕ → JobsState → Run JobsState
unfolding job_handle_is_busy
yield_loop zero handle s = out_of_fuel
yield_loop (suc fuel) handle s =
    let rest = yield_loop fuel handle s in if job_handle_is_busy s handle then rest else ok s

unfoldable pub job_handle_wait : ℕ → JobsState → ℕ → Run JobsState
unfolding job_handle_is_busy wake work yield_loop
job_handle_wait fuel s handle =
    let woken = wake s.num_threads 0 s in
    let idx = woken.next_queue_index % woken.num_threads in
    if job_handle_is_busy s handle
    then (work idx (record woken { next_queue_index = u32 (woken.next_queue_index + 1) }) >>= λ t.
        yield_loop fuel handle t)
    else ok s
