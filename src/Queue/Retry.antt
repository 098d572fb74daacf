-- ===== src/Queue/Retry.antt =====
-- util/queue.go: `runTask`, and how often a task that keeps failing is run.
use glibs.Base.{
  ℕ, zero, suc, ◌+◌, ◌-◌, ◌≤◌, ◌<◌, ◌^◌, ◌≡◌, refl, ap, ◌∙◌, List, [], Option, none, some, arith,
  true, if◌then◌else◌, dec_le,
}
use glibs.Base.Int.{ℤ, pos, ◌+ℤ◌, ◌≤ℤ◌, wrap64, wrap64_id, int_laws, ltb_ℤ, leb_ℤ}
use glibs.Base.Bytes.{Bytes}
use glibs.Queue.{
  QueueTask, GQueueOption, QueueTaskOpt, copy, apply_opts, fill_defaults, new_queue_task,
  default_queue_retry_delay_func,
}

-- How a handler's call ends, with the task as the handler left it behind its pointer.
pub data Outcome : Type 0 where
  returned : QueueTask → Outcome
  failed : Bytes → QueueTask → Outcome
  panicked : Bytes → QueueTask → Outcome

-- What `runTask` does with it. The call of a nil delay function panics, and is recovered.
pub data RunResult : Type 0 where
  finished : RunResult
  gave_up : Bytes → QueueTask → RunResult
  recovered : QueueTask → RunResult
  requeued : QueueTask → RunResult

pub retry_limit : GQueueOption → QueueTask → ℤ
retry_limit opt t = if ltb_ℤ (pos 0) t.max_retry then t.max_retry else opt.max_retry

pub retry : ℤ → QueueTask → RunResult
unfolding copy
retry now t =
    let task = copy t in
    let n = wrap64 (task.retried +ℤ pos 1) in
    elim task.retry_delay_func [
      | none ↦ recovered t
      | some delay ↦ requeued (record task { retried = n; run_at = now +ℤ delay n })
    ]

pub run_task : GQueueOption → ℤ → Outcome → RunResult
unfolding retry_limit retry
run_task opt now (returned t) = finished
run_task opt now (failed e t) =
    if leb_ℤ (retry_limit opt t) t.retried then gave_up e t else retry now t
run_task opt now (panicked p t) = recovered t

-- A task with a limit of its own and a delay function.
abbrev pub IsLimited : QueueTask → Type 0
IsLimited t = (pos 1 ≤ℤ t.max_retry) × ((f : ℤ → ℤ) × (t.retry_delay_func ≡ some f))

fill_defaults-IsLimited : (now : ℤ) (t : QueueTask) → IsLimited (fill_defaults now t)
unfolding fill_defaults
fill_defaults-IsLimited now t = (ground arith, delay t.retry_delay_func)
  where
    delay :
        (o : Option (ℤ → ℤ))
        → (f : ℤ → ℤ) × (elim o [ none ↦ some default_queue_retry_delay_func | some g ↦ some g ]
            ≡ some f)
    delay none = (default_queue_retry_delay_func, refl)
    delay (some g) = (g, refl)

pub new_queue_task-IsLimited :
    (now : ℤ) (name payload : Bytes) (opts : List QueueTaskOpt)
    → IsLimited (new_queue_task now name payload opts)
unfolding new_queue_task
new_queue_task-IsLimited now name payload opts = fill_defaults-IsLimited now (apply_opts opts _)

-- The task that a run puts back into the queue.
abbrev pub next_task : RunResult → Option QueueTask
next_task finished = none
next_task (gave_up e t) = none
next_task (recovered t) = none
next_task (requeued t) = some t

-- What becomes of a failed task that has a limit of its own and a delay function does not depend on
-- the queue's options.
pub limited_ignores_option :
    (o p : GQueueOption) (now : ℤ) (e : Bytes) (t : QueueTask)
    → IsLimited t
    → run_task o now (failed e t) ≡ run_task p now (failed e t)
unfolding run_task retry_limit
limited_ignores_option o p now e t (h, _) = rw (positive t.max_retry h)
  where
    positive : (m : ℤ) → pos 1 ≤ℤ m → ltb_ℤ (pos 0) m ≡ true
    positive m h = ground arith

-- A task without a delay function, as one that was not made by `NewQueueTask`, is never put back when
-- it fails: a task to which the option `MaxRetry` would apply is run once.
pub nil_delay_not_requeued :
    (o : GQueueOption) (now : ℤ) (e : Bytes) (t : QueueTask)
    → t.retry_delay_func ≡ none
    → next_task (run_task o now (failed e t)) ≡ none
unfolding run_task retry_limit retry copy
nil_delay_not_requeued o now e t h = ground arith

-- A task that failed is put back with its count one higher, or given up: what decides is its own
-- limit alone.
pub run_task_limited :
    (o : GQueueOption) (now : ℤ) (e : Bytes) (t : QueueTask) (f : ℤ → ℤ)
    → pos 1 ≤ℤ t.max_retry
    → t.retry_delay_func ≡ some f
    → run_task o now (failed e t) ≡ (
        if leb_ℤ t.max_retry t.retried
        then gave_up e t
        else requeued (record t {
          retried = wrap64 (t.retried +ℤ pos 1);
          run_at = now +ℤ f (wrap64 (t.retried +ℤ pos 1));
        }))
unfolding run_task retry_limit retry copy
run_task_limited o now e t f h d = ground arith

-- The runs of a task whose handler fails every time, until `runTask` no longer puts it back. The
-- clock is read once a run; `none` means that the fuel ran out.
pub attempts : ℕ → GQueueOption → (ℕ → ℤ) → QueueTask → Option ℕ
attempts zero o clock t = none
attempts (suc fuel) o clock t = elim (next_task (run_task o (clock fuel) (failed [] t))) [
  | none ↦ some 1
  | some t' ↦ elim (attempts fuel o clock t') [ none ↦ none | some n ↦ some (suc n) ]
]

abbrev again : ℤ → (ℤ → ℤ) → ℕ → QueueTask → QueueTask
again now f r t = record t { retried = pos (suc r); run_at = now +ℤ f (pos (suc r)) }

wrap64-suc : (r : ℕ) → r + 1 < 2 ^ 63 → wrap64 (pos r +ℤ pos 1) ≡ pos (suc r)
wrap64-suc r h =
    let e : pos r +ℤ pos 1 ≡ pos (suc r) = omega int_laws in
    rw e (wrap64_id (pos (suc r)) (omega arith, omega arith))

module _ (o : GQueueOption) (now : ℤ) (t : QueueTask) (f : ℤ → ℤ) (r m : ℕ) (er : t.retried ≡ pos r)
    (em : t.max_retry ≡ pos m) (ed : t.retry_delay_func ≡ some f) (p : 0 < m) (b : m < 2 ^ 63) where
  next_below : r < m → next_task (run_task o now (failed [] t)) ≡ some (again now f r t)
  next_below h =
      rw (run_task_limited o now [] t f (rw em (omega arith)) ed)
        (rw (em, er) (rw (wrap64-suc r (omega arith)) (ground arith)))

  next_at_limit : m ≤ r → next_task (run_task o now (failed [] t)) ≡ none
  next_at_limit h =
      rw (run_task_limited o now [] t f (rw em (omega arith)) ed) (rw (em, er) (ground arith))

attempts_from :
    (d fuel r m : ℕ) (o : GQueueOption) (clock : ℕ → ℤ) (t : QueueTask) (f : ℤ → ℤ)
    → d < fuel
    → r + d ≡ m
    → 0 < m
    → m < 2 ^ 63
    → t.retried ≡ pos r
    → t.max_retry ≡ pos m
    → t.retry_delay_func ≡ some f
    → attempts fuel o clock t ≡ some (suc d)
unfolding attempts
attempts_from d zero r m o clock t f h e p b er em ed = absurd (omega arith)
attempts_from zero (suc fuel) r m o clock t f h e p b er em ed =
    rw (next_at_limit o (clock fuel) t f r m er em ed p b (omega arith), attempts)
attempts_from (suc d) (suc fuel) r m o clock t f h e p b er em ed =
    rw (next_below o (clock fuel) t f r m er em ed p b (omega arith), attempts)
      (ground (
        arith,
        attempts_from d fuel (suc r) m o clock (again (clock fuel) f r t) f (omega arith)
            (omega arith) p b refl em ed,
      ))

-- A task with the limit `m`, a delay function, and `r` retries behind it, whose handler fails
-- every time, is run `m - r + 1` more times and then given up; one that is past its limit is run
-- once.
pub attempts_limited :
    (fuel r m : ℕ) (o : GQueueOption) (clock : ℕ → ℤ) (t : QueueTask) (f : ℤ → ℤ)
    → m - r < fuel
    → 0 < m
    → m < 2 ^ 63
    → t.retried ≡ pos r
    → t.max_retry ≡ pos m
    → t.retry_delay_func ≡ some f
    → attempts fuel o clock t ≡ some (m - r + 1)
unfolding attempts
attempts_limited fuel r m o clock t f h p b er em ed = elim (dec_le r m) [
  | yes le ↦
      attempts_from (m - r) fuel r m o clock t f h (omega arith) p b er em ed
      ∙ ap some (omega arith)
  | no gt ↦ once gt fuel h
]
  where
    once : ¬ (r ≤ m) → (k : ℕ) → m - r < k → attempts k o clock t ≡ some (m - r + 1)
    once gt zero h = absurd (omega arith)
    once gt (suc k) h =
        rw (next_at_limit o (clock k) t f r m er em ed p b (omega arith), attempts)
          (ap some (omega arith))
