-- ===== src/Closeable.antt =====
-- util/closeable.go: a channel with a queue before it, which may be closed while others send. The
-- calls under the lock are steps; a send that has to wait is one that is tried again later. A
-- receiver that waits counts as a free place of the channel.
pub mod Flow
mod Tests
use glibs.Base.{
  ℕ, List, [], ◌∷◌, ◌++◌, Option, none, some, Bool, true, false, if◌then◌else◌, ltb, length,
}
use glibs.Base.Int.{ℤ, pos, ltb_ℤ}

-- A Go channel.
pub record Chan (T : Type 0) : Type 0 where
  pub buffer : List T
  pub cap : ℕ
  pub closed : Bool

pub record CloseableChannel (T : Type 0) : Type 0 where
  pub ch : Chan T
  pub close : Bool
  pub queue : List T

-- How a call ends: with what it hands out and what it gives up, waiting, or in a panic.
pub data Ending (T : Type 0) : Type 0 where
  next : CloseableChannel T → List T → List T → Ending T
  waits : Ending T
  panics : Ending T

-- `ch <- val`.
pub data Sent (T : Type 0) : Type 0 where
  sent : Chan T → Sent T
  full : Sent T
  on_closed : Sent T

module _ {T : Type 0} where
  pub send_on : T → Chan T → Sent T
  send_on val ch =
      if ch.closed
      then on_closed
      else if ltb (length ch.buffer) ch.cap
      then sent (record ch { buffer = ch.buffer ++ val ∷ [] })
      else full

  -- `LockWrapFunc` and `RLockWrapFunc`: nothing is done once the flag is set.
  pub lock_wrap_func : (CloseableChannel T → Ending T) → CloseableChannel T → Ending T
  lock_wrap_func fn c = if c.close then next c [] [] else fn c

  -- `close(c.ch)` panics on a channel that is closed.
  pub close_now : CloseableChannel T → Ending T
  close_now c =
      if c.ch.closed
      then panics
      else next (record c { close = true; ch = record (c.ch) { closed = true } }) [] []

  pub close_channel : CloseableChannel T → Ending T
  unfolding lock_wrap_func close_now
  close_channel = lock_wrap_func close_now

  -- A negative time waits; any other gives up when the channel stays full.
  pub send_with_timeout_on : T → ℤ → CloseableChannel T → Ending T
  unfolding send_on
  send_with_timeout_on val timeout c = elim (send_on val c.ch) [
    | sent ch ↦ next (record c { ch = ch }) [] []
    | on_closed ↦ panics
    | full ↦ if ltb_ℤ timeout (pos 0) then waits else next c [] (val ∷ [])
  ]

  pub enqueue_value : T → CloseableChannel T → Ending T
  unfolding lock_wrap_func
  enqueue_value val = lock_wrap_func (λ c. next (record c { queue = c.queue ++ val ∷ [] }) [] [])

  pub send_with_timeout : T → ℤ → CloseableChannel T → Ending T
  unfolding lock_wrap_func send_with_timeout_on
  send_with_timeout val timeout = lock_wrap_func (send_with_timeout_on val timeout)

  pub take_first : List T → CloseableChannel T → Ending T
  take_first [] c = next c [] []
  take_first (v ∷ q) c = next (record c { queue = q }) (v ∷ []) []

  pub dequeue_value : CloseableChannel T → Ending T
  unfolding lock_wrap_func take_first
  dequeue_value = lock_wrap_func (λ c. take_first c.queue c)

  pub send_first : List T → CloseableChannel T → Ending T
  unfolding send_with_timeout_on
  send_first [] c = next c [] []
  send_first (v ∷ q) c = send_with_timeout_on v (pos 0) (record c { queue = q })

  -- One round of `runBackgroundLoop`.
  pub dequeue_send : CloseableChannel T → Ending T
  unfolding lock_wrap_func send_first
  dequeue_send = lock_wrap_func (λ c. send_first c.queue c)

  -- A receive from `Channel()`, which takes no lock; on an empty channel it waits, or ends without a
  -- value if the channel is closed.
  pub receive_from : List T → CloseableChannel T → Ending T
  receive_from [] c = if c.ch.closed then next c [] [] else waits
  receive_from (v ∷ vs) c = next (record c { ch = record (c.ch) { buffer = vs } }) (v ∷ []) []

pub data Call (T : Type 0) : Type 0 where
  sends : T → Call T
  sends_with_timeout : T → ℤ → Call T
  closes dequeues rounds receives : Call T

module _ {T : Type 0} where
  pub call : Call T → CloseableChannel T → Ending T
  unfolding enqueue_value send_with_timeout close_channel dequeue_value dequeue_send receive_from
  call (sends v) c = enqueue_value v c
  call (sends_with_timeout v t) c = send_with_timeout v t c
  call closes c = close_channel c
  call dequeues c = dequeue_value c
  call rounds c = dequeue_send c
  call receives c = receive_from c.ch.buffer c

  -- A run of calls in any order, `none` for a panic. A call that waits changes nothing.
  pub run_calls : List (Call T) → CloseableChannel T → Option (CloseableChannel T)
  unfolding call
  run_calls [] c = some c
  run_calls (e ∷ es) c = elim (call e c) [
    | next c' out given_up ↦ run_calls es c'
    | waits ↦ run_calls es c
    | panics ↦ none
  ]

  pub new_closeable : ℕ → CloseableChannel T
  new_closeable cap = record {
    ch = record { buffer = []; cap = cap; closed = false };
    close = false;
    queue = [];
  }
