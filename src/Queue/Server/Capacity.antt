-- ===== src/Queue/Server/Capacity.antt =====
-- util/queue.go: the bounds of the channels and of the worker groups, kept by every step.
use glibs.Base.{
  ℕ, zero, suc, ◌+◌, ◌-◌, ◌≤◌, ◌<◌, ◌≡◌, refl, inl, inr, List, [], ◌∷◌, ◌++◌, Option, none, some,
  arith, Bool-cases, Option-cases, if◌then◌else◌, ltb, ltb→lt, length, ◌===◌, ===_cases,
  length-append, ◌∙◌, subst,
}
use glibs.Base.Int.{ℤ, pos, int_eq}
use glibs.Base.Dict.{Dict, lookup, insert, lookup-insert_self, lookup-insert_ne}
use glibs.Queue.{QueueTask, GQueueOption, GQueue, QuWorkers, new_gqueue}
use glibs.Queue.Config.{HasRoom, new_gqueue-IsFresh}
use glibs.Queue.Retry.{Outcome, RunResult, finished, gave_up, recovered, requeued, run_task}
use glibs.Queue.Server.{
  Server, Watcher, Job, Event, receiving, handling, submitting, enqueues, registers, polls,
  receives, handles, submits, forwards, finishes, enqueue, get_handler, poll, forward, receive,
  handle, submit, workers_of, take_place, settle, free_place, job_at, finish, step, run,
  start_server, register, pool_size,
}
use glibs.Queue.Server.Flow.{Watcher-cases, Background-cases}

-- 1 for a job of group `k`.
abbrev here : ℤ → Job → ℕ
here k j = if j.workers === k then 1 else 0

abbrev count_jobs : ℤ → List Job → ℕ
count_jobs k [] = 0
count_jobs k (j ∷ js) = here k j + count_jobs k js

abbrev placed : ℤ → Watcher → ℕ
placed k receiving = 0
placed k (handling t) = 0
placed k (submitting j) = here k j

-- The jobs that hold a place of group `k`.
abbrev pub busy : ℤ → Server → ℕ
busy k s = placed k s.watcher + count_jobs k s.running

-- The workers of a group as they were made and as they are, with `n` jobs that hold a place.
abbrev pub Places : Option QuWorkers → Option QuWorkers → ℕ → Type 0
Places none none n = n ≡ 0
Places none (some w) n = ⊥
Places (some m) none n = ⊥
Places (some m) (some w) n = (w.cap ≡ m.cap) × (w.chs ≡ n) × (w.wg ≡ n) × (n ≤ m.cap)

-- The bounds, as far as they concern group `k`.
pub record IsBounded (g : GQueue) (k : ℤ) (s : Server) : Type 0 where
  pub chan : length s.queue.task_chan ≤ g.chan_cap
  pub chan_cap : s.queue.chan_cap ≡ g.chan_cap
  pub pool : length s.running ≤ pool_size
  pub places : Places (lookup k g.workers) (lookup k s.queue.workers) (busy k s)

count_jobs-append :
    (k : ℤ) (xs ys : List Job) → count_jobs k (xs ++ ys) ≡ count_jobs k xs + count_jobs k ys
count_jobs-append k [] ys = omega arith
count_jobs-append k (x ∷ xs) ys = omega (arith, count_jobs-append k xs ys)

count_jobs-job_at :
    (k : ℤ) (i : ℕ) (js : List Job) (j : Job) (rest : List Job)
    → job_at i js ≡ some (j, rest)
    → (count_jobs k js ≡ here k j + count_jobs k rest) × (length js ≡ suc (length rest))
unfolding job_at
count_jobs-job_at k i [] j rest e = absurd (ground arith)
count_jobs-job_at k zero (x ∷ js) j rest e = ground arith
count_jobs-job_at k (suc i) (x ∷ js) j rest e = elim (Option-cases (job_at i js)) [
  | inl no_job ↦ absurd (ground arith)
  | inr ((j', rest'), found) ↦ ground (arith, count_jobs-job_at k i js j' rest' found)
]

pub workers_of-lookup :
    (g : GQueue) (t : QueueTask) (k : ℤ) (w : QuWorkers)
    → workers_of g t ≡ some (k, w)
    → lookup k g.workers ≡ some w
unfolding workers_of
workers_of-lookup g t k w e = elim (Option-cases (lookup t.group g.workers)) [
  | inl missing ↦ elim (Option-cases (lookup (pos 1) g.workers)) [
    | inl none_at_all ↦ absurd (ground arith)
    | inr (v, found) ↦ ground arith
  ]
  | inr (v, found) ↦ ground arith
]

Places-take :
    (m : Option QuWorkers) (w : QuWorkers) (n : ℕ)
    → Places m (some w) n
    → w.chs < w.cap
    → Places m (some (record w { chs = w.chs + 1; wg = w.wg + 1 })) (1 + n)
Places-take none w n p h = absurd p
Places-take (some m) w n p h = omega arith

Places-free :
    (m : Option QuWorkers) (w : QuWorkers) (n : ℕ)
    → Places m (some w) (1 + n)
    → Places m (some (record w { chs = w.chs - 1; wg = w.wg - 1 })) n
Places-free none w n p = absurd p
Places-free (some m) w n p = omega arith

zero_more : (a b : Option QuWorkers) (n : ℕ) → Places a b n → Places a b (0 + n)
zero_more a b n p = let e : n ≡ 0 + n = omega arith in subst (Places a b) e p

-- A write to the entry of group `j` by a job of that group, seen from group `k`.
module _ (m : Dict ℤ QuWorkers) (k j : ℤ) (ws : Dict ℤ QuWorkers) (w v : QuWorkers)
    (found : lookup j ws ≡ some w) where
  Places-insert_take :
      (n : ℕ)
      → v ≡ record w { chs = w.chs + 1; wg = w.wg + 1 }
      → w.chs < w.cap
      → Places (lookup k m) (lookup k ws) n
      → Places (lookup k m) (lookup k (insert j v ws)) ((if j === k then 1 else 0) + n)
  Places-insert_take n ev h p = elim (===_cases j k) [
    | inl (same, hit) ↦
        rw (hit, ← same, lookup-insert_self j v ws, ev)
          (Places-take (lookup j m) w n (rw (← found, same) p) h)
    | inr (other, miss) ↦
        rw (miss, lookup-insert_ne j k v ws other) (zero_more (lookup k m) (lookup k ws) n p)
  ]

  Places-insert_free :
      (n n' : ℕ)
      → v ≡ record w { chs = w.chs - 1; wg = w.wg - 1 }
      → n ≡ (if j === k then 1 else 0) + n'
      → Places (lookup k m) (lookup k ws) n
      → Places (lookup k m) (lookup k (insert j v ws)) n'
  Places-insert_free n n' ev en p = elim (===_cases j k) [
    | inl (same, hit) ↦
        rw (← same, lookup-insert_self j v ws, ev)
          (Places-free (lookup j m) w n'
            (rw (← found, same) (subst (Places (lookup k m) (lookup k ws)) (rw hit at en) p)))
    | inr (other, miss) ↦
        rw (lookup-insert_ne j k v ws other)
          (subst (Places (lookup k m) (lookup k ws)) ((rw miss at en) ∙ omega arith) p)
  ]

Places-none : (a : Option QuWorkers) (n : ℕ) → Places a none n → n ≡ 0
Places-none none n p = p
Places-none (some w) n p = absurd p

free_place-Places :
    (m : Dict ℤ QuWorkers) (k j : ℤ) (q : GQueue) (n n' : ℕ)
    → n ≡ (if j === k then 1 else 0) + n'
    → Places (lookup k m) (lookup k q.workers) n
    → Places (lookup k m) (lookup k (free_place j q).workers) n'
unfolding free_place
free_place-Places m k j q n n' en p = elim (Option-cases (lookup j q.workers)) [
  | inr (w, found) ↦
      rw (found, free_place) (Places-insert_free m k j q.workers w _ found n n' refl en p)
  | inl missing ↦ elim (===_cases j k) [
    | inl (same, hit) ↦
        let z : n ≡ 0 =
          Places-none (lookup k m) n
            (subst (λ o. Places (lookup k m) o n) (rw (← same) missing) p) in
        absurd (omega (arith, rw hit at en))
    | inr (other, miss) ↦
        rw (missing, free_place)
          (subst (Places (lookup k m) (lookup k q.workers)) ((rw miss at en) ∙ omega arith) p)
  ]
]

free_place-keeps :
    (j : ℤ) (q : GQueue)
    → ((free_place j q).task_chan ≡ q.task_chan) × ((free_place j q).chan_cap ≡ q.chan_cap)
unfolding free_place
free_place-keeps j q = ground arith

module _ (g : GQueue) (k : ℤ) where
  poll-IsBounded : (s s' : Server) → poll s ≡ some s' → IsBounded g k s → IsBounded g k s'
  unfolding poll
  poll-IsBounded s s' e v = ground arith

  forward-IsBounded :
      (now : ℤ) (s s' : Server) → forward now s ≡ some s' → IsBounded g k s → IsBounded g k s'
  unfolding forward
  forward-IsBounded now s s' e v = elim (Background-cases s.background) [
    | inl idle ↦ absurd (ground arith)
    | inr (t, held) ↦ ground (arith, length-append s.queue.task_chan (t ∷ []))
  ]

  receive-IsBounded : (s s' : Server) → receive s ≡ some s' → IsBounded g k s → IsBounded g k s'
  unfolding receive
  receive-IsBounded s s' e v = ground arith

  submit-IsBounded : (s s' : Server) → submit s ≡ some s' → IsBounded g k s → IsBounded g k s'
  unfolding submit
  submit-IsBounded s s' e v = elim (Watcher-cases s.watcher) [
    | inl idle ↦ absurd (ground arith)
    | inr (inl (t, held)) ↦ absurd (ground arith)
    | inr (inr (j, held)) ↦
        ground (arith, length-append s.running (j ∷ []), count_jobs-append k s.running (j ∷ []))
  ]

  handle-IsBounded : (s s' : Server) → handle s ≡ some s' → IsBounded g k s → IsBounded g k s'
  unfolding handle take_place
  handle-IsBounded s s' e v = elim (Watcher-cases s.watcher) [
    | inl idle ↦ absurd (ground arith)
    | inr (inr (j, held)) ↦ absurd (ground arith)
    | inr (inl (t, held)) ↦ elim (Option-cases (get_handler s.queue t.name)) [
      | inl unknown ↦ ground arith
      | inr (h, known) ↦ elim (Option-cases (workers_of s.queue t)) [
        | inl no_workers ↦ absurd (ground arith)
        | inr ((j, w), group) ↦ elim (Bool-cases (ltb w.chs w.cap)) [
          | inl free ↦ ground (
            arith,
            Places-insert_take g.workers k j s.queue.workers w
                (record w { chs = w.chs + 1; wg = w.wg + 1 })
                (workers_of-lookup s.queue t j w group) (busy k s) refl (ltb→lt w.chs w.cap free)
                v.places,
          )
          | inr full ↦ absurd (ground arith)
        ]
      ]
    ]
  ]

  settle-keeps :
      (r : RunResult) (q : GQueue)
      → ((settle r q).workers ≡ q.workers)
        × ((settle r q).task_chan ≡ q.task_chan)
        × ((settle r q).chan_cap ≡ q.chan_cap)
  unfolding settle enqueue
  settle-keeps finished q = (refl, refl, refl)
  settle-keeps (gave_up e t) q = (refl, refl, refl)
  settle-keeps (recovered t) q = (refl, refl, refl)
  settle-keeps (requeued t) q = (refl, refl, refl)

  finish-IsBounded :
      (i : ℕ) (now : ℤ) (x : Outcome) (s s' : Server)
      → finish i now x s ≡ some s'
      → IsBounded g k s
      → IsBounded g k s'
  unfolding finish
  finish-IsBounded i now x s s' e v = elim (Option-cases (job_at i s.running)) [
    | inl no_job ↦ absurd (ground arith)
    | inr ((j, rest), found) ↦
        let q = settle (run_task s.queue.opt now x) s.queue in
        let kept = settle-keeps (run_task s.queue.opt now x) s.queue in
        let counts = count_jobs-job_at k i s.running j rest found in
        ground (
          arith,
          kept,
          counts,
          free_place-keeps j.workers q,
          free_place-Places g.workers k j.workers q (busy k s)
              (placed k s.watcher + count_jobs k rest) (omega (arith, counts))
              (rw (kept.0) v.places),
        )
  ]

  -- Every step keeps the bounds, whatever the tasks, the handlers and the clock.
  step-IsBounded :
      (e : Event) (s s' : Server) → step e s ≡ some s' → IsBounded g k s → IsBounded g k s'
  unfolding step enqueue register
  step-IsBounded (enqueues t) s s' h v = ground arith
  step-IsBounded (registers name n) s s' h v = ground arith
  step-IsBounded polls s s' h v = poll-IsBounded s s' h v
  step-IsBounded receives s s' h v = receive-IsBounded s s' h v
  step-IsBounded handles s s' h v = handle-IsBounded s s' h v
  step-IsBounded submits s s' h v = submit-IsBounded s s' h v
  step-IsBounded (forwards now) s s' h v = forward-IsBounded now s s' h v
  step-IsBounded (finishes i now x) s s' h v = finish-IsBounded i now x s s' h v

  run-IsBounded : (es : List Event) (s : Server) → IsBounded g k s → IsBounded g k (run es s)
  unfolding run
  run-IsBounded [] s v = v
  run-IsBounded (e ∷ es) s v = elim (Option-cases (step e s)) [
    | inl waits ↦ rw (waits, run) (run-IsBounded es s v)
    | inr (s', done) ↦ rw (done, run) (run-IsBounded es s' (step-IsBounded e s s' done v))
  ]

HasRoom-Places : (k : ℤ) (ws : Dict ℤ QuWorkers) → HasRoom ws → Places (lookup k ws) (lookup k ws) 0
HasRoom-Places k [] h = refl
HasRoom-Places k ((j, w) ∷ ws) h = elim (Bool-cases (j === k)) [
  | inl hit ↦ rw hit (omega arith)
  | inr miss ↦ rw miss (HasRoom-Places k ws h.1)
]

start_server-IsBounded :
    (g : GQueue) (k : ℤ) → g.task_chan ≡ [] → HasRoom g.workers → IsBounded g k (start_server g)
unfolding start_server
start_server-IsBounded g k e h = record {
  chan = rw e (omega arith);
  chan_cap = refl;
  pool = omega arith;
  places = zero_more _ _ 0 (HasRoom-Places k g.workers h);
}

-- After any run of a started queue, for every group of workers: no more of its jobs hold a place
-- than the group was made for, the places taken and the wait group's counter are both the number
-- of those jobs, the task channel holds no more than its size, and the pool no more than 100.
pub run-start_server-IsBounded :
    (most : ℕ) (opt : GQueueOption) (g : GQueue) (k : ℤ) (es : List Event)
    → new_gqueue most opt ≡ some g
    → IsBounded g k (run es (start_server g))
run-start_server-IsBounded most opt g k es e = run-IsBounded g k es (start_server g) (
    start_server-IsBounded g k (new_gqueue-IsFresh most opt g e).no_tasks.1
      (new_gqueue-IsFresh most opt g e).room)
