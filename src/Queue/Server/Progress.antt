-- ===== src/Queue/Server/Progress.antt =====
-- util/queue.go: the goroutines of a started queue cannot all wait for one another.
use glibs.Base.{
  ℕ, ◌<◌, ◌≡◌, ◌≢◌, refl, ◌⊎◌, inl, inr, List, [], ◌∷◌, Option, none, some, arith, Bool-cases,
  Option-cases, ltb, lt→ltb, true, ◌===◌, is_some, subst,
}
use glibs.Base.Int.{ℤ, pos, int_eq}
use glibs.Base.Dict.{Dict, lookup}
use glibs.Queue.{QueueTask, GQueueOption, GQueue, QuWorkers, new_gqueue}
use glibs.Queue.Config.{HasRoom, IsFresh, new_gqueue-IsFresh}
use glibs.Queue.Retry.{Outcome}
use glibs.Queue.Server.{
  Server, Event, polling, holding, receiving, handling, enqueues, registers, polls, receives,
  handles, submits, forwards, finishes, get_handler, poll, forward, receive, handle, submit,
  dequeue, workers_of, job_at, finish, step, run, start_server,
}
use glibs.Queue.Server.Flow.{Watcher-cases, Background-cases}
use glibs.Queue.Server.Capacity.{
  IsBounded, Places, busy, workers_of-lookup, run-start_server-IsBounded,
}

-- No task is anywhere in the queue or its goroutines.
pub record IsIdle (s : Server) : Type 0 where
  pub queue : (s.queue.qu ≡ []) × (s.queue.task_chan ≡ [])
  pub goroutines : (s.background ≡ polling) × (s.watcher ≡ receiving)
  pub jobs : s.running ≡ []

-- The steps of the queue's own goroutines.
abbrev pub IsInternal : Event → Type 0
IsInternal (enqueues t) = ⊥
IsInternal (registers name h) = ⊥
IsInternal polls = Unit
IsInternal receives = Unit
IsInternal handles = Unit
IsInternal submits = Unit
IsInternal (forwards now) = Unit
IsInternal (finishes i now x) = Unit

abbrev pub CanStep : Server → Type 0
CanStep s = (e : Event) × IsInternal e × ((s' : Server) × (step e s ≡ some s'))

can : (s : Server) (e : Event) → IsInternal e → step e s ≢ none → CanStep s
can s e i h = elim (Option-cases (step e s)) [
  | inl waits ↦ absurd (h waits)
  | inr (s', done) ↦ (e, i, (s', done))
]

List-cases {ℓ} : {A : Type ℓ} (xs : List A) → (xs ≡ []) ⊎ ((x : A) × (ys : List A) × (xs ≡ x ∷ ys))
List-cases [] = inl refl
List-cases (x ∷ xs) = inr (x, xs, refl)

HasRoom-lookup :
    (k : ℤ) (ws : Dict ℤ QuWorkers) (w : QuWorkers) → HasRoom ws → lookup k ws ≡ some w → 0 < w.cap
HasRoom-lookup k [] w h e = absurd (ground arith)
HasRoom-lookup k ((j, v) ∷ ws) w h e = elim (Bool-cases (j === k)) [
  | inl hit ↦ ground arith
  | inr miss ↦ HasRoom-lookup k ws w h.1 (rw miss at e)
]

-- A place is free in a group whose jobs hold none.
Places-free_at_zero :
    (k : ℤ) (ws : Dict ℤ QuWorkers) (w : QuWorkers)
    → HasRoom ws
    → Places (lookup k ws) (some w) 0
    → w.chs < w.cap
Places-free_at_zero k ws w h p = elim (Option-cases (lookup k ws)) [
  | inl missing ↦ absurd (rw missing at p)
  | inr (m, found) ↦ omega (arith, HasRoom-lookup k ws m h found, rw found at p)
]

Places-fallback :
    (a b : Option QuWorkers) (n : ℕ) → is_some a ≡ true → Places a b n → is_some b ≡ true
Places-fallback a (some w) n h p = refl
Places-fallback none none n h p = h
Places-fallback (some m) none n h p = absurd p

module _ (g : GQueue) (s : Server) (room : HasRoom g.workers)
    (fallback : is_some (lookup (pos 1) g.workers) ≡ true) (chan_room : 0 < g.chan_cap)
    (bounded : (k : ℤ) → IsBounded g k s) where
  workers_of-ne-none : (t : QueueTask) → workers_of s.queue t ≢ none
  unfolding workers_of
  workers_of-ne-none t e =
      let f : is_some (lookup (pos 1) s.queue.workers) ≡ true =
        Places-fallback _ _ (busy (pos 1) s) fallback (bounded (pos 1)).places in
      ground arith

  handle-ne-none : (t : QueueTask) → s.watcher ≡ handling t → s.running ≡ [] → handle s ≢ none
  unfolding handle
  handle-ne-none t held no_jobs e = elim (Option-cases (get_handler s.queue t.name)) [
    | inl unknown ↦ ground arith
    | inr (h, known) ↦ elim (Option-cases (workers_of s.queue t)) [
      | inl no_workers ↦ workers_of-ne-none t no_workers
      | inr ((j, w), group) ↦
          let free : w.chs < w.cap = Places-free_at_zero j g.workers w room (
            rw (← workers_of-lookup s.queue t j w group) (
              subst (Places (lookup j g.workers) (lookup j s.queue.workers)) (none_busy j)
                (bounded j).places)) in
          ground (arith, lt→ltb w.chs w.cap free)
    ]
  ]
    where
      none_busy : (k : ℤ) → busy k s ≡ 0
      none_busy k = ground arith

  forward-ne-none :
      (now : ℤ) (t : QueueTask)
      → s.background ≡ holding t
      → s.queue.task_chan ≡ []
      → forward now s ≢ none
  unfolding forward
  forward-ne-none now t held empty e =
      let cap : s.queue.chan_cap ≡ g.chan_cap = (bounded (pos 1)).chan_cap in
      let room : ltb 0 s.queue.chan_cap ≡ true = lt→ltb 0 s.queue.chan_cap (omega arith) in
      ground arith

  -- With no job running, the watcher, and after it the background goroutine, can step.
  watcher_steps : (now : ℤ) → s.running ≡ [] → IsIdle s ⊎ CanStep s
  unfolding step receive submit poll dequeue
  watcher_steps now no_jobs = elim (Watcher-cases s.watcher) [
    | inr (inl (t, held)) ↦ inr (can s handles tt (handle-ne-none t held no_jobs))
    | inr (inr (j, held)) ↦ inr (can s submits tt (λ e. ground arith))
    | inl at_channel ↦ elim (List-cases s.queue.task_chan) [
      | inr (t, ts, filled) ↦ inr (can s receives tt (λ e. ground arith))
      | inl empty ↦ elim (Background-cases s.background) [
        | inr (t, held) ↦ inr (can s (forwards now) tt (forward-ne-none now t held empty))
        | inl idle ↦ elim (List-cases s.queue.qu) [
          | inr (t, ts, filled) ↦ inr (can s polls tt (λ e. ground arith))
          | inl no_tasks ↦ inl (record {
            queue = (no_tasks, empty);
            goroutines = (idle, at_channel);
            jobs = no_jobs;
          })
        ]
      ]
    ]
  ]

  steps_or_IsIdle : (now : ℤ) (x : Outcome) → IsIdle s ⊎ CanStep s
  unfolding step finish job_at
  steps_or_IsIdle now x = elim (List-cases s.running) [
    | inl no_jobs ↦ watcher_steps now no_jobs
    | inr (j, js, busy_pool) ↦ inr (can s (finishes 0 now x) tt (λ e. ground arith))
  ]

-- The queue does not deadlock: after any run of a started queue, with a task anywhere in it, one of
-- its own goroutines can step at any reading of the clock, where a job that runs may end in any way, and
-- the queue has the pool for itself.
pub run-start_server-progress :
    (most : ℕ) (opt : GQueueOption) (g : GQueue) (es : List Event) (now : ℤ) (x : Outcome)
    → new_gqueue most opt ≡ some g
    → IsIdle (run es (start_server g)) ⊎ CanStep (run es (start_server g))
run-start_server-progress most opt g es now x e =
    steps_or_IsIdle g (run es (start_server g)) fresh.room fresh.fallback fresh.chan_room
      (λ k. run-start_server-IsBounded most opt g k es e) now x
  where
    fresh : IsFresh opt g
    fresh = new_gqueue-IsFresh most opt g e
