-- ===== src/Queue/Server.antt =====
-- util/queue.go: the goroutines of a started `GQueue` (`runBackground`, `watcher`, the jobs in the
-- pool) as steps between which other goroutines may run. `none` means that the step has to wait.
pub mod Flow
pub mod Capacity
pub mod Progress
use glibs.Base.{
  ℕ, zero, suc, ◌+◌, ◌-◌, List, [], ◌∷◌, ◌++◌, Option, none, some, if◌then◌else◌, ltb, length, Bool,
  true, false,
}
use glibs.Base.Int.{ℤ, pos, ltb_ℤ, int_eq}
use glibs.Base.Dict.{Dict, lookup, insert}
use glibs.Base.Bytes.{Bytes}
use glibs.Base.{list_eq}
use glibs.Queue.{QueueTask, GQueueOption, GQueue, QuWorkers}
use glibs.Queue.Retry.{Outcome, RunResult, finished, gave_up, recovered, requeued, run_task}

-- A task with the handler and the group of workers that it runs in.
pub record Job : Type 0 where
  pub handler : ℕ
  pub workers : ℤ
  pub task : QueueTask

-- `runBackground` between two rounds, or with a task that it has taken from the queue.
pub data Background : Type 0 where
  polling : Background
  holding : QueueTask → Background

-- `watcher`: at the channel; with a task; with a place taken for it, and about to submit it.
pub data Watcher : Type 0 where
  receiving : Watcher
  handling : QueueTask → Watcher
  submitting : Job → Watcher

pub record Server : Type 0 where
  pub queue : GQueue
  pub background : Background
  pub watcher : Watcher
  pub running : List Job

-- `ants.NewPool(100)`, with the jobs of this queue alone, though all queues of a process share it: a
-- submit waits while all of its goroutines are busy.
abbrev pub pool_size : ℕ
pool_size = 100

unfoldable pub enqueue : QueueTask → GQueue → GQueue
enqueue t g = record g { qu = g.qu ++ t ∷ [] }

pub register : Bytes → ℕ → GQueue → GQueue
register name h g = record g { handlers = insert name h g.handlers }

pub get_handler : GQueue → Bytes → Option ℕ
get_handler g name = lookup name g.handlers

pub dequeue : GQueue → Option (QueueTask × GQueue)
dequeue g = elim g.qu [ [] ↦ none | t ∷ rest ↦ some (t, record g { qu = rest }) ]

-- `StartServer`.
pub start_server : GQueue → Server
start_server g = record { queue = g; background = polling; watcher = receiving; running = [] }

-- One call of `dequeue` in the loop of `runBackground`; with an empty queue it sleeps.
pub poll : Server → Option Server
unfolding dequeue
poll s = elim s.background [
  | holding t ↦ none
  | polling ↦ elim (dequeue s.queue) [
    | none ↦ none
    | some (t, g) ↦ some (record s { queue = g; background = holding t })
  ]
]

-- What it does with the task: back to the end of the queue if it is not due, else on to the
-- channel, which waits while the channel is full.
pub forward : ℤ → Server → Option Server
unfolding enqueue
forward now s = elim s.background [
  | polling ↦ none
  | holding t ↦
      if ltb_ℤ now t.run_at
      then some (record s { queue = enqueue t s.queue; background = polling })
      else if ltb (length s.queue.task_chan) s.queue.chan_cap
      then some (record s {
        queue = record (s.queue) { task_chan = s.queue.task_chan ++ t ∷ [] };
        background = polling;
      })
      else none
]

pub receive : Server → Option Server
receive s = elim s.watcher [
  | handling t ↦ none
  | submitting j ↦ none
  | receiving ↦ elim s.queue.task_chan [
    | [] ↦ none
    | t ∷ rest ↦
        some (record s { queue = record (s.queue) { task_chan = rest }; watcher = handling t })
  ]
]

-- `worker, ok := g.workers[t.Group]`, and `g.workers[1]` if there is none. Without group 1 the source
-- would call a method of a nil pointer; here the step waits, and `NewGQueue` always makes group 1.
pub workers_of : GQueue → QueueTask → Option (ℤ × QuWorkers)
workers_of g t = elim (lookup t.group g.workers) [
  | some w ↦ some (t.group, w)
  | none ↦ elim (lookup (pos 1) g.workers) [ none ↦ none | some w ↦ some (pos 1, w) ]
]

-- `w.chs <- struct{}{}` and `w.wg.Add(1)`.
pub take_place : ℤ → QuWorkers → GQueue → GQueue
take_place k w g = record g {
  workers = insert k (record w { chs = w.chs + 1; wg = w.wg + 1 }) g.workers;
}

-- `runTaskHandler` up to the submit: a task with no handler is dropped, and a group with all its
-- places taken makes the watcher wait.
pub handle : Server → Option Server
unfolding get_handler workers_of take_place
handle s = elim s.watcher [
  | receiving ↦ none
  | submitting j ↦ none
  | handling t ↦ elim (get_handler s.queue t.name) [
    | none ↦ some (record s { watcher = receiving })
    | some h ↦ elim (workers_of s.queue t) [
      | none ↦ none
      | some (k, w) ↦
          if ltb w.chs w.cap
          then some (record s {
            queue = take_place k w s.queue;
            watcher = submitting (record { handler = h; workers = k; task = t });
          })
          else none
    ]
  ]
]

pub submit : Server → Option Server
submit s = elim s.watcher [
  | receiving ↦ none
  | handling t ↦ none
  | submitting j ↦
      if ltb (length s.running) pool_size
      then some (record s { watcher = receiving; running = s.running ++ j ∷ [] })
      else none
]

-- `w.wg.Done()` and `<-w.chs`.
pub free_place : ℤ → GQueue → GQueue
free_place k g = elim (lookup k g.workers) [
  | none ↦ g
  | some w ↦ record g { workers = insert k (record w { chs = w.chs - 1; wg = w.wg - 1 }) g.workers }
]

-- `runTask` returns, whatever the handler did, so the place is always given back.
pub settle : RunResult → GQueue → GQueue
unfolding enqueue
settle finished g = g
settle (gave_up e t) g = g
settle (recovered t) g = g
settle (requeued t) g = enqueue t g

pub job_at : ℕ → List Job → Option (Job × List Job)
job_at i [] = none
job_at zero (j ∷ js) = some (j, js)
job_at (suc i) (j ∷ js) = elim (job_at i js) [ none ↦ none | some (k, rest) ↦ some (k, j ∷ rest) ]

-- The job at place `i` ends: its handler has returned, failed or panicked.
pub finish : ℕ → ℤ → Outcome → Server → Option Server
unfolding settle free_place
finish i now x s = elim (job_at i s.running) [
  | none ↦ none
  | some (j, rest) ↦ some (record s {
    queue = free_place j.workers (settle (run_task s.queue.opt now x) s.queue);
    running = rest;
  })
]

-- What may happen: a client's call, or a step of a goroutine, with the clock's reading.
pub data Event : Type 0 where
  enqueues : QueueTask → Event
  registers : Bytes → ℕ → Event
  polls receives handles submits : Event
  forwards : ℤ → Event
  finishes : ℕ → ℤ → Outcome → Event

unfoldable pub step : Event → Server → Option Server
step (enqueues t) s = some (record s { queue = enqueue t s.queue })
step (registers name h) s = some (record s { queue = register name h s.queue })
step polls s = poll s
step receives s = receive s
step handles s = handle s
step submits s = submit s
step (forwards now) s = forward now s
step (finishes i now x) s = finish i now x s

-- An event that has to wait changes nothing.
pub run : List Event → Server → Server
run [] s = s
run (e ∷ es) s = elim (step e s) [ none ↦ run es s | some s' ↦ run es s' ]
