-- ===== src/Queue/Tests.antt =====
-- util/queue.go: the properties of the queue at concrete options, tasks and runs.
use glibs.Base.{◌≡◌, refl, ◌⊎◌, none, some, List, [], ◌∷◌, arith}
use glibs.Base.Int.{pos}
use glibs.Base.Bytes.{codes}
use glibs.Queue.{
  QueueTask, GQueueOption, GQueue, normal_option, new_gqueue, new_queue_task,
  with_queue_task_max_retry, with_queue_task_group, with_queue_task_retry_delay_func,
  with_queue_task_run_at,
}
use glibs.Queue.Config.{new_gqueue_total, new_gqueue_fits, Creation, IsFresh}
use glibs.Queue.Retry.{failed, returned, attempts, attempts_limited}
use glibs.Queue.Server.{
  Event, enqueues, registers, polls, receives, handles, submits, forwards, finishes, start_server,
  step, enqueue, run,
}
use glibs.Queue.Server.Flow.{Flow, step-Flow}
use glibs.Queue.Server.Capacity.{IsBounded, run-start_server-IsBounded}
use glibs.Queue.Server.Progress.{IsIdle, CanStep, run-start_server-progress}

abbrev small : GQueueOption
small = record {
  max_retry = pos 0;
  max_workers = pos 10;
  groups = (pos 1, pos 50) ∷ (pos 2, pos 50) ∷ [];
}

abbrev mail : QueueTask
mail = record {
  name = codes "mail";
  payload = [];
  retried = pos 0;
  group = pos 2;
  max_retry = pos 3;
  retry_delay_func = some (λ n. n);
  run_at = pos 5;
}

abbrev life : List Event
life =
    registers (codes "mail") 7
    ∷ enqueues mail
    ∷ polls
    ∷ forwards (pos 9)
    ∷ receives
    ∷ handles
    ∷ submits
    ∷ finishes 0 (pos 10) (failed [] mail)
    ∷ polls
    ∷ []

built : (g : GQueue) × (new_gqueue 1000 small ≡ some g) × IsFresh small g
unfolding normal_option
built = new_gqueue_fits 1000 small (omega arith)

new_gqueue_total_example : Creation 1000 small
new_gqueue_total_example = new_gqueue_total 1000 small

step-Flow_example :
    Flow
      (λ t. 1)
      (enqueues mail)
      (start_server built.0)
      (record (start_server built.0) { queue = enqueue mail (start_server built.0).queue })
unfolding step
step-Flow_example =
    step-Flow (λ t. 1) (enqueues mail) (start_server built.0)
      (record (start_server built.0) { queue = enqueue mail (start_server built.0).queue }) refl

run-start_server-IsBounded_example : IsBounded built.0 (pos 2) (run life (start_server built.0))
run-start_server-IsBounded_example =
    run-start_server-IsBounded 1000 small built.0 (pos 2) life built.1

run-start_server-progress_example :
    IsIdle (run life (start_server built.0)) ⊎ CanStep (run life (start_server built.0))
run-start_server-progress_example =
    run-start_server-progress 1000 small built.0 life (pos 9) (returned mail) built.1

attempts_limited_example : attempts 9 small (λ n. pos n) mail ≡ some 4
attempts_limited_example =
    attempts_limited 9 0 3 small (λ n. pos n) mail (λ n. n) (omega arith) (omega arith)
      (omega arith) refl refl refl

abbrev mailing : QueueTask
mailing =
    new_queue_task (pos 1) (codes "mail") []
      (with_queue_task_group (pos 2) ∷ with_queue_task_max_retry (pos 3) ∷ [])

-- The options replace one field each.
options_apply :
    with_queue_task_run_at (pos 8) (
      with_queue_task_retry_delay_func none
        (with_queue_task_max_retry (pos 2) (with_queue_task_group (pos 1) mail)))
    ≡ record mail { group = pos 1; max_retry = pos 2; retry_delay_func = none; run_at = pos 8 }
unfolding with_queue_task_run_at with_queue_task_retry_delay_func with_queue_task_max_retry
    with_queue_task_group
options_apply = refl
