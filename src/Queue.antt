-- ===== src/Queue.antt =====
-- util/queue.go: tasks, options and the constructor of the delayed task queue `GQueue`.
-- Times and durations are nanoseconds; the zero of `time.Time` is `pos 0`.
pub mod Config
pub mod Retry
pub mod Server
mod Tests
use glibs.Base.{ltb, ℕ, List, [], ◌∷◌, Option, none, some, if◌then◌else◌, ◌||◌}
use glibs.Base.Int.{ℤ, pos, pos_part, ◌+ℤ◌, ◌*ℤ◌, quot, wrap64, ltb_ℤ, leb_ℤ, eqb_ℤ, int_eq}
use glibs.Base.Dict.{Dict, lookup, insert}
use glibs.Base.Bytes.{Bytes}

-- A nil `retryDelayFunc` is `none`.
pub record QueueTask : Type 0 where
  pub name : Bytes
  pub payload : Bytes
  pub retried : ℤ
  pub group : ℤ
  pub max_retry : ℤ
  pub retry_delay_func : Option (ℤ → ℤ)
  pub run_at : ℤ

pub copy : QueueTask → QueueTask
copy t = record {
  name = t.name;
  payload = t.payload;
  retried = t.retried;
  group = t.group;
  max_retry = t.max_retry;
  retry_delay_func = t.retry_delay_func;
  run_at = t.run_at;
}

abbrev pub QueueTaskOpt : Type 0
QueueTaskOpt = QueueTask → QueueTask

abbrev pub default_queue_max_retry : ℤ
default_queue_max_retry = pos 5

abbrev pub second : ℤ
second = pos 1_000_000_000

pub default_queue_retry_delay_func : ℤ → ℤ
default_queue_retry_delay_func retried = wrap64 (retried *ℤ second)

pub with_queue_task_group : ℤ → QueueTaskOpt
with_queue_task_group group task = record task { group = group }

pub with_queue_task_max_retry : ℤ → QueueTaskOpt
with_queue_task_max_retry max_retry task = record task { max_retry = max_retry }

pub with_queue_task_retry_delay_func : Option (ℤ → ℤ) → QueueTaskOpt
with_queue_task_retry_delay_func f task = record task { retry_delay_func = f }

pub with_queue_task_run_at : ℤ → QueueTaskOpt
with_queue_task_run_at run_at task = record task { run_at = run_at }

pub apply_opts : List QueueTaskOpt → QueueTask → QueueTask
apply_opts [] task = task
apply_opts (o ∷ opts) task = apply_opts opts (o task)

-- The defaults that `NewQueueTask` fills in behind the options.
pub fill_defaults : ℤ → QueueTask → QueueTask
unfolding default_queue_retry_delay_func
fill_defaults now task = record task {
  max_retry = if leb_ℤ task.max_retry (pos 0) then default_queue_max_retry else task.max_retry;
  retry_delay_func = elim task.retry_delay_func [
    | none ↦ some default_queue_retry_delay_func
    | some f ↦ some f
  ];
  run_at = if eqb_ℤ task.run_at (pos 0) then now else task.run_at;
}

pub new_queue_task : ℤ → Bytes → Bytes → List QueueTaskOpt → QueueTask
unfolding apply_opts fill_defaults
new_queue_task now name payload opts = fill_defaults now (
    apply_opts opts (record {
      name = name;
      payload = payload;
      retried = pos 0;
      group = pos 1;
      max_retry = pos 0;
      retry_delay_func = none;
      run_at = pos 0;
    }))

pub record GQueueOption : Type 0 where
  pub max_workers : ℤ
  pub max_retry : ℤ
  pub groups : Dict ℤ ℤ

-- `chs` is the number of places taken in the buffered channel, `wg` the wait group's counter.
pub record QuWorkers : Type 0 where
  pub cap : ℕ
  pub chs : ℕ
  pub wg : ℕ

-- A share is in tenths: 1 unless it lies between 1 and 10.
pub share_of : ℤ → ℤ
share_of percent = if ltb_ℤ (pos 10) percent || ltb_ℤ percent (pos 1) then pos 1 else percent

pub at_least_one : ℤ → ℤ
at_least_one v = if ltb_ℤ v (pos 1) then pos 1 else v

-- The product wraps to 64 bits before the division.
pub get_number_from_percent : ℤ → ℤ → ℤ
get_number_from_percent total percent = at_least_one (quot (wrap64 (total *ℤ share_of percent)) 10)

-- `make` panics at a negative size, and for values without a size at no other.
pub new_qu_workers : ℤ → Option QuWorkers
new_qu_workers n =
    if ltb_ℤ n (pos 0) then none else some (record { cap = pos_part n; chs = 0; wg = 0 })

-- The handlers are known by numbers: what a call of one returns is chosen where it ends.
pub record GQueue : Type 0 where
  pub opt : GQueueOption
  pub qu : List QueueTask
  pub handlers : Dict Bytes ℕ
  pub task_chan : List QueueTask
  pub chan_cap : ℕ
  pub workers : Dict ℤ QuWorkers

abbrev default_groups : Dict ℤ ℤ
default_groups = (pos 1, pos 6) ∷ (pos 2, pos 3) ∷ (pos 3, pos 1) ∷ []

-- `Groups` with a share for group 1 that is at least 1.
pub normal_groups : Dict ℤ ℤ → Dict ℤ ℤ
normal_groups [] = default_groups
normal_groups (g ∷ gs) = elim (lookup (pos 1) (g ∷ gs)) [
  | none ↦ insert (pos 1) (pos 6) (g ∷ gs)
  | some v ↦ if ltb_ℤ v (pos 1) then insert (pos 1) (pos 6) (g ∷ gs) else g ∷ gs
]

pub normal_option : GQueueOption → GQueueOption
unfolding normal_groups
normal_option opt = record {
  max_workers = if leb_ℤ opt.max_workers (pos 0) then pos 10 else opt.max_workers;
  max_retry = if ltb_ℤ opt.max_retry (pos 1) then pos 1 else opt.max_retry;
  groups = normal_groups opt.groups;
}

pub make_workers : ℤ → Dict ℤ ℤ → Option (Dict ℤ QuWorkers)
make_workers n [] = some []
make_workers n ((k, v) ∷ groups) = elim (new_qu_workers (get_number_from_percent n v)) [
  | none ↦ none
  | some w ↦ elim (make_workers n groups) [ none ↦ none | some ws ↦ some (insert k w ws) ]
]

-- `most` is the largest size that the runtime allows a channel of tasks; `make` panics beyond it.
pub new_gqueue : ℕ → GQueueOption → Option GQueue
unfolding normal_option
new_gqueue most given =
    let opt = normal_option given in
    elim (make_workers opt.max_workers opt.groups) [
      | none ↦ none
      | some ws ↦
          if ltb most (pos_part opt.max_workers)
          then none
          else some (record {
            opt = opt;
            qu = [];
            handlers = [];
            task_chan = [];
            chan_cap = pos_part opt.max_workers;
            workers = ws;
          })
    ]
