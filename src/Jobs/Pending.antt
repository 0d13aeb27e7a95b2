-- ===== src/Jobs/Pending.antt =====
-- Sums over the jobs that wait in the queues.
use native.Mathlib.Decide.{ℕ_discrete}
use scal_base.Prelude.{
  ℕ, zero, suc, ◌+◌, ◌≤◌, ◌<◌, ◌≡◌, refl, ap, arith, List, [], ◌∷◌, ◌++◌, update, update_self,
  update_ne, contents,
}
use scal_base.QueueThreaded.{QueueThreaded}
use scal_base.QueueThreaded.Ring.{size, items}
use scal_base.Jobs.{Job, job_queue_size}

-- The sum of the weights of some jobs.
abbrev pub weigh : (Job → ℕ) → List Job → ℕ
weigh weight [] = 0
weigh weight (job ∷ jobs) = weight job + weigh weight jobs

abbrev pub queued : QueueThreaded Job → List Job
queued q = items job_queue_size q

-- The sum over the first `n` queues.
abbrev pub pending : (Job → ℕ) → ℕ → (ℕ → QueueThreaded Job) → ℕ
pending weight zero queues = 0
pending weight (suc n) queues = pending weight n queues + weigh weight (queued (queues n))

abbrev pub one : Job → ℕ
one job = 1

module _ (weight : Job → ℕ) where
  pub weigh-append :
      (xs ys : List Job) → weigh weight (xs ++ ys) ≡ weigh weight xs + weigh weight ys
  weigh-append [] ys = omega arith
  weigh-append (x ∷ xs) ys = omega (arith, weigh-append xs ys)

  module _ (queues : ℕ → QueueThreaded Job) (i : ℕ) (q : QueueThreaded Job) where
    pending-update_ge :
        (n : ℕ) → n ≤ i → pending weight n (update queues i q) ≡ pending weight n queues
    pending-update_ge zero h = refl
    pending-update_ge (suc n) h =
        let same = update_ne queues i q n (omega arith) in
        rw (same, pending-update_ge n (omega arith)) refl

    pub pending-update :
        (n : ℕ)
        → i < n
        → pending weight n (update queues i q) + weigh weight (queued (queues i))
          ≡ pending weight n queues + weigh weight (queued q)
    pending-update zero h = absurd (omega arith)
    pending-update (suc n) h = elim (ℕ_discrete i n) [
      | yes last ↦
          let here : update queues i q n ≡ q = rw last (update_self queues n q) in
          let there : queues i ≡ queues n = ap queues last in
          rw (here, there, pending-update_ge n (omega arith)) (omega arith)
      | no other ↦
          let same = update_ne queues i q n other in
          let before = pending-update n (omega arith) in rw same (omega (arith, before))
    ]

  pub pending-queue :
      (queues : ℕ → QueueThreaded Job) (i n : ℕ)
      → i < n
      → weigh weight (queued (queues i)) ≤ pending weight n queues
  pending-queue queues i zero h = absurd (omega arith)
  pending-queue queues i (suc n) h = elim (ℕ_discrete i n) [
    | yes last ↦ let there : queues i ≡ queues n = ap queues last in rw there (omega arith)
    | no other ↦ omega (arith, pending-queue queues i n (omega arith))
  ]

  pub pending-nothing :
      (queues : ℕ → QueueThreaded Job) (n : ℕ)
      → ((i : ℕ) → i < n → queued (queues i) ≡ [])
      → pending weight n queues ≡ 0
  pending-nothing queues zero none = refl
  pending-nothing queues (suc n) none =
      rw (none n (omega arith), pending-nothing queues n (λ i h. none i (omega arith))) refl

pub weigh-one : (f : ℕ → Job) (n : ℕ) → weigh one (contents f n) ≡ n
unfolding contents
weigh-one f zero = refl
weigh-one f (suc n) = omega (arith, weigh-one (λ i. f (suc i)) n)

-- One job for one, a queue holds its size.
pub weigh-queued : (q : QueueThreaded Job) → weigh one (queued q) ≡ size job_queue_size q
weigh-queued q = weigh-one _ (size job_queue_size q)
