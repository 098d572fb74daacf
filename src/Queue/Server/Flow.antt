-- ===== src/Queue/Server/Flow.antt =====
-- util/queue.go: where the tasks of a started queue go. They are counted by a weight, which is any
-- function: two collections that weigh the same under every weight hold the same tasks, as often.
use glibs.Base.{
  ℕ, zero, suc, ◌+◌, ◌≡◌, refl, ◌⊎◌, inl, inr, List, [], ◌∷◌, ◌++◌, Option, none, some, arith,
  Option-cases,
}
use glibs.Base.Int.{ℤ}
use glibs.Queue.{QueueTask, GQueue}
use glibs.Queue.Retry.{
  Outcome, RunResult, finished, gave_up, recovered, requeued, run_task, next_task,
}
use glibs.Queue.Server.{
  Server, Background, Watcher, Job, Event, polling, holding, receiving, handling, submitting,
  enqueues, registers, polls, receives, handles, submits, forwards, finishes, enqueue, get_handler,
  poll, forward, receive, handle, submit, settle, free_place, job_at, register, finish, step,
}

pub Background-cases : (b : Background) → (b ≡ polling) ⊎ ((t : QueueTask) × (b ≡ holding t))
Background-cases polling = inl refl
Background-cases (holding t) = inr (t, refl)

pub Watcher-cases :
    (b : Watcher)
    → (b ≡ receiving) ⊎ ((t : QueueTask) × (b ≡ handling t)) ⊎ ((j : Job) × (b ≡ submitting j))
Watcher-cases receiving = inl refl
Watcher-cases (handling t) = inr (inl (t, refl))
Watcher-cases (submitting j) = inr (inr (j, refl))

module _ (w : QueueTask → ℕ) where
  abbrev pub weight : List QueueTask → ℕ
  weight [] = 0
  weight (t ∷ ts) = w t + weight ts

  abbrev pub weight_jobs : List Job → ℕ
  weight_jobs [] = 0
  weight_jobs (j ∷ js) = w j.task + weight_jobs js

  abbrev pub weight_held : Background → ℕ
  weight_held polling = 0
  weight_held (holding t) = w t

  abbrev pub weight_watched : Watcher → ℕ
  weight_watched receiving = 0
  weight_watched (handling t) = w t
  weight_watched (submitting j) = w j.task

  -- All tasks that have been accepted and not yet dealt with, wherever they are.
  abbrev pub load : Server → ℕ
  load s =
      weight s.queue.qu
      + weight_held s.background
      + weight s.queue.task_chan
      + weight_watched s.watcher
      + weight_jobs s.running

  pub weight-append : (xs ys : List QueueTask) → weight (xs ++ ys) ≡ weight xs + weight ys
  weight-append [] ys = omega arith
  weight-append (x ∷ xs) ys = omega (arith, weight-append xs ys)

  pub weight_jobs-append :
      (xs ys : List Job) → weight_jobs (xs ++ ys) ≡ weight_jobs xs + weight_jobs ys
  weight_jobs-append [] ys = omega arith
  weight_jobs-append (x ∷ xs) ys = omega (arith, weight_jobs-append xs ys)

  weight_jobs-job_at :
      (i : ℕ) (js : List Job) (j : Job) (rest : List Job)
      → job_at i js ≡ some (j, rest)
      → weight_jobs js ≡ w j.task + weight_jobs rest
  unfolding job_at
  weight_jobs-job_at i [] j rest e = ground arith
  weight_jobs-job_at zero (k ∷ js) j rest e = ground arith
  weight_jobs-job_at (suc i) (k ∷ js) j rest e = elim (Option-cases (job_at i js)) [
    | inl no_job ↦ ground arith
    | inr ((j', rest'), found) ↦ ground (arith, weight_jobs-job_at i js j' rest' found)
  ]

  -- What a run of a task puts back.
  abbrev pub weight_next : Option QueueTask → ℕ
  weight_next none = 0
  weight_next (some t) = w t

  poll-load : (s s' : Server) → poll s ≡ some s' → load s' ≡ load s
  unfolding poll
  poll-load s s' e = ground arith

  forward-load : (now : ℤ) (s s' : Server) → forward now s ≡ some s' → load s' ≡ load s
  unfolding forward
  forward-load now s s' e = elim (Background-cases s.background) [
    | inl idle ↦ ground arith
    | inr (t, held) ↦
        ground (arith, weight-append s.queue.qu (t ∷ []), weight-append s.queue.task_chan (t ∷ []))
  ]

  receive-load : (s s' : Server) → receive s ≡ some s' → load s' ≡ load s
  unfolding receive
  receive-load s s' e = ground arith

  submit-load : (s s' : Server) → submit s ≡ some s' → load s' ≡ load s
  unfolding submit
  submit-load s s' e = elim (Watcher-cases s.watcher) [
    | inl idle ↦ ground arith
    | inr (inl (t, held)) ↦ ground arith
    | inr (inr (j, held)) ↦ ground (arith, weight_jobs-append s.running (j ∷ []))
  ]

  -- The watcher drops a task for which there is no handler, and keeps every other.
  abbrev Handles : Server → Server → Type 0
  Handles s s' =
      (t : QueueTask) × (s.watcher ≡ handling t)
      × (((get_handler s.queue t.name ≡ none) × (load s' + w t ≡ load s))
          ⊎ ((h : ℕ) × (get_handler s.queue t.name ≡ some h) × (load s' ≡ load s)))

  handle-load : (s s' : Server) → handle s ≡ some s' → Handles s s'
  unfolding handle
  handle-load s s' e = elim (Watcher-cases s.watcher) [
    | inl idle ↦ absurd (ground arith)
    | inr (inr (j, held)) ↦ absurd (ground arith)
    | inr (inl (t, held)) ↦ (
      t,
      held,
      elim (Option-cases (get_handler s.queue t.name)) [
        | inl unknown ↦ inl (unknown, ground arith)
        | inr (h, known) ↦ inr (h, known, ground arith)
      ],
    )
  ]

  settle-weight :
      (r : RunResult) (g : GQueue)
      → weight (settle r g).qu ≡ weight g.qu + weight_next (next_task r)
  unfolding settle
  settle-weight finished g = omega arith
  settle-weight (gave_up e t) g = omega arith
  settle-weight (recovered t) g = omega arith
  settle-weight (requeued t) g = omega (arith, weight-append g.qu (t ∷ []))

  settle-chan : (r : RunResult) (g : GQueue) → (settle r g).task_chan ≡ g.task_chan
  unfolding settle
  settle-chan finished g = refl
  settle-chan (gave_up e t) g = refl
  settle-chan (recovered t) g = refl
  settle-chan (requeued t) g = refl

  free_place-queues :
      (k : ℤ) (g : GQueue)
      → ((free_place k g).qu ≡ g.qu) × ((free_place k g).task_chan ≡ g.task_chan)
  unfolding free_place
  free_place-queues k g = ground arith

  -- A job that ends leaves with its task, and puts back what `runTask` decides.
  abbrev Finishes : ℕ → ℤ → Outcome → Server → Server → Type 0
  Finishes i now x s s' =
      (j : Job) × (rest : List Job) × (job_at i s.running ≡ some (j, rest))
      × (load s' + w j.task ≡ load s + weight_next (next_task (run_task s.queue.opt now x)))

  finish-load :
      (i : ℕ) (now : ℤ) (x : Outcome) (s s' : Server)
      → finish i now x s ≡ some s'
      → Finishes i now x s s'
  unfolding finish
  finish-load i now x s s' e = elim (Option-cases (job_at i s.running)) [
    | inl no_job ↦ absurd (ground arith)
    | inr ((j, rest), found) ↦ (
      j,
      rest,
      found,
      ground (
        arith,
        weight_jobs-job_at i s.running j rest found,
        settle-weight (run_task s.queue.opt now x) s.queue,
        settle-chan (run_task s.queue.opt now x) s.queue,
        free_place-queues j.workers (settle (run_task s.queue.opt now x) s.queue),
      ),
    )
  ]

  -- How an event changes the tasks in flight.
  abbrev pub Flow : Event → Server → Server → Type 0
  Flow (enqueues t) s s' = load s' ≡ load s + w t
  Flow handles s s' = Handles s s'
  Flow (finishes i now x) s s' = Finishes i now x s s'
  Flow (registers name h) s s' = load s' ≡ load s
  Flow polls s s' = load s' ≡ load s
  Flow receives s s' = load s' ≡ load s
  Flow submits s s' = load s' ≡ load s
  Flow (forwards now) s s' = load s' ≡ load s

  -- No step loses, copies or invents a task, under any weight `w`: only `Enqueue` adds one; the
  -- watcher drops the one in its hands exactly when it has no handler; a job that ends takes its
  -- task away and puts back the task that `runTask` requeues, if any; every other step moves
  -- tasks between the queue, the channel, the goroutines and the pool.
  pub step-Flow : (e : Event) (s s' : Server) → step e s ≡ some s' → Flow e s s'
  unfolding step enqueue register
  step-Flow (enqueues t) s s' h = ground (arith, weight-append s.queue.qu (t ∷ []))
  step-Flow (registers name n) s s' h = ground arith
  step-Flow polls s s' h = poll-load s s' h
  step-Flow receives s s' h = receive-load s s' h
  step-Flow handles s s' h = handle-load s s' h
  step-Flow submits s s' h = submit-load s s' h
  step-Flow (forwards now) s s' h = forward-load now s s' h
  step-Flow (finishes i now x) s s' h = finish-load i now x s s' h
