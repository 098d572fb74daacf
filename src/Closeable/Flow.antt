-- ===== src/Closeable/Flow.antt =====
-- util/closeable.go: no call panics, and no value is lost but to a channel that stays full.
use glibs.Base.{
  ℕ, ◌+◌, ◌≡◌, ◌≤◌, refl, ◌⊎◌, inl, inr, List, [], ◌∷◌, ◌++◌, none, some, Bool, true, false,
  if◌then◌else◌, ltb, length, arith, Bool-cases,
}
use glibs.Base.Int.{ℤ, pos, ltb_ℤ}
use glibs.Closeable.{
  CloseableChannel, Ending, next, waits, panics, send_on, lock_wrap_func, close_channel, close_now,
  send_with_timeout_on, enqueue_value, send_with_timeout, take_first, dequeue_value, send_first,
  dequeue_send, receive_from, Call, sends, sends_with_timeout, closes, dequeues, rounds, receives,
  call, run_calls,
}

module _ {T : Type 0} (w : T → ℕ) where
  abbrev pub weight : List T → ℕ
  weight [] = 0
  weight (v ∷ vs) = w v + weight vs

  weight-append : (xs ys : List T) → weight (xs ++ ys) ≡ weight xs + weight ys
  weight-append [] ys = omega arith
  weight-append (x ∷ xs) ys = omega (arith, weight-append xs ys)

  -- The values on their way.
  abbrev pub load : CloseableChannel T → ℕ
  load c = weight c.ch.buffer + weight c.queue

  -- What a call brings in, unless the flag is set.
  abbrev pub brought : Call T → CloseableChannel T → ℕ
  brought (sends v) c = if c.close then 0 else w v
  brought (sends_with_timeout v t) c = if c.close then 0 else w v
  brought closes c = 0
  brought dequeues c = 0
  brought rounds c = 0
  brought receives c = 0

  -- The flag and the channel agree, nothing is lost, and what is given up met a full channel.
  unfoldable pub IsKept : ℕ → CloseableChannel T → Ending T → Type 0
  IsKept n c (next c' out given_up) =
      (c'.ch.closed ≡ c'.close)
      × (load c + n ≡ load c' + weight out + weight given_up)
      × ((given_up ≡ []) ⊎ (c.ch.cap ≤ length c.ch.buffer))
  IsKept n c waits = Unit {0}
  IsKept n c panics = ⊥

  send_on-IsKept :
      (v : T) (t : ℤ) (c : CloseableChannel T) (q : List T) (n : ℕ)
      → c.ch.closed ≡ false
      → c.close ≡ false
      → weight c.queue + n ≡ w v + weight q
      → IsKept n c (send_with_timeout_on v t (record c { queue = q }))
  unfolding send_with_timeout_on send_on IsKept
  send_on-IsKept v t c q n h h' e = elim (Bool-cases (ltb (length c.ch.buffer) c.ch.cap)) [
    | inl room ↦ ground (arith, weight-append c.ch.buffer (v ∷ []))
    | inr tight ↦ elim (Bool-cases (ltb_ℤ t (pos 0))) [
      | inl patient ↦ ground arith
      | inr hasty ↦ ground arith
    ]
  ]

  idle-IsKept : (c : CloseableChannel T) → c.ch.closed ≡ c.close → IsKept 0 c (next c [] [])
  unfolding IsKept
  idle-IsKept c h = (h, omega arith, inl refl)

  wrap-IsKept :
      (fn : CloseableChannel T → Ending T) (n : ℕ) (c : CloseableChannel T)
      → c.ch.closed ≡ c.close
      → (c.close ≡ false → IsKept n c (fn c))
      → IsKept (if c.close then 0 else n) c (lock_wrap_func fn c)
  unfolding lock_wrap_func
  wrap-IsKept fn n c h f = by_flag c.close refl
    where
      by_flag :
          (b : Bool)
          → c.close ≡ b
          → IsKept (if b then 0 else n) c (if b then next c [] [] else fn c)
      by_flag true e = idle-IsKept c h
      by_flag false e = f e

  -- With nothing brought in.
  wrap-IsKept_none :
      (fn : CloseableChannel T → Ending T) (c : CloseableChannel T)
      → c.ch.closed ≡ c.close
      → (c.close ≡ false → IsKept 0 c (fn c))
      → IsKept 0 c (lock_wrap_func fn c)
  unfolding lock_wrap_func
  wrap-IsKept_none fn c h f = by_flag c.close refl
    where
      by_flag : (b : Bool) → c.close ≡ b → IsKept 0 c (if b then next c [] [] else fn c)
      by_flag true e = idle-IsKept c h
      by_flag false e = f e

  first-IsKept :
      (q : List T) (c : CloseableChannel T)
      → c.queue ≡ q
      → c.ch.closed ≡ false
      → c.close ≡ false
      → IsKept 0 c (send_first q c)
  unfolding send_first
  first-IsKept [] c e h h' = idle-IsKept c (ground arith)
  first-IsKept (v ∷ q) c e h h' = send_on-IsKept v (pos 0) c q 0 h h' (rw e (omega arith))

  taken-IsKept :
      (q : List T) (c : CloseableChannel T)
      → c.queue ≡ q
      → c.ch.closed ≡ c.close
      → IsKept 0 c (take_first q c)
  unfolding take_first IsKept
  taken-IsKept [] c e h = idle-IsKept c h
  taken-IsKept (v ∷ q) c e h = (h, rw e (omega arith), inl refl)

  received-IsKept :
      (q : List T) (c : CloseableChannel T)
      → c.ch.buffer ≡ q
      → c.ch.closed ≡ c.close
      → IsKept 0 c (receive_from q c)
  unfolding receive_from IsKept
  received-IsKept [] c e h = elim (Bool-cases c.ch.closed) [
    | inl shut ↦ ground arith
    | inr open' ↦ ground arith
  ]
  received-IsKept (v ∷ q) c e h = (h, rw e (omega arith), inl refl)

  closed-IsKept :
      (c : CloseableChannel T) → c.ch.closed ≡ c.close → c.close ≡ false → IsKept 0 c (close_now c)
  unfolding close_now IsKept
  closed-IsKept c h f = rw h (rw f (refl, omega arith, inl refl))

  -- Whatever a client, a receiver or the background loop does, in any order, nothing panics: a send
  -- never meets a closed channel, and a second `Close` is ignored. Under any weight `w`, what was on
  -- its way and what a call brings in is still on its way, was handed out or was given up; and a
  -- value is given up only when the channel was full.
  pub call-IsKept :
      (e : Call T) (c : CloseableChannel T)
      → c.ch.closed ≡ c.close
      → IsKept (brought e c) c (call e c)
  unfolding call enqueue_value send_with_timeout close_channel dequeue_value dequeue_send IsKept
  call-IsKept (sends v) c h =
      wrap-IsKept (λ d. next (record d { queue = d.queue ++ v ∷ [] }) [] []) (w v) c h
        (λ f. (h, omega (arith, weight-append c.queue (v ∷ [])), inl refl))
  call-IsKept (sends_with_timeout v t) c h =
      wrap-IsKept (send_with_timeout_on v t) (w v) c h
        (λ f. send_on-IsKept v t c c.queue (w v) (ground arith) f (omega arith))
  call-IsKept closes c h = wrap-IsKept_none close_now c h (λ f. closed-IsKept c h f)
  call-IsKept dequeues c h =
      wrap-IsKept_none (λ d. take_first d.queue d) c h (λ f. taken-IsKept c.queue c refl h)
  call-IsKept rounds c h =
      wrap-IsKept_none (λ d. send_first d.queue d) c h
        (λ f. first-IsKept c.queue c refl (ground arith) f)
  call-IsKept receives c h = received-IsKept c.ch.buffer c refl h

agrees :
    {T : Type 0} (w : T → ℕ) (n : ℕ) (c d : CloseableChannel T) (out given_up : List T)
    → IsKept w n c (next d out given_up)
    → d.ch.closed ≡ d.close
unfolding IsKept
agrees w n c d out given_up k = k.0

impossible : {T : Type 0} (w : T → ℕ) (n : ℕ) (c : CloseableChannel T) → IsKept w n c panics → ⊥
unfolding IsKept
impossible w n c k = k

-- No run of calls panics, from a new channel or from any state in which flag and channel agree, and
-- they agree behind it.
pub run_calls_total :
    {T : Type 0}
    → (es : List (Call T)) (c : CloseableChannel T) → c.ch.closed ≡ c.close
    → (c' : CloseableChannel T) × (run_calls es c ≡ some c') × (c'.ch.closed ≡ c'.close)
unfolding run_calls
run_calls_total [] c h = (c, refl, h)
run_calls_total {T} (e ∷ es) c h =
    by_ending (call e c) (call-IsKept (λ v. 0) e c h) (λ d. run_calls_total es d)
  where
    by_ending :
        (x : Ending T)
        → IsKept (λ v. 0) (brought (λ v. 0) e c) c x
        → ((d : CloseableChannel T)
            → d.ch.closed ≡ d.close
            → (c' : CloseableChannel T) × (run_calls es d ≡ some c') × (c'.ch.closed ≡ c'.close))
        → (c' : CloseableChannel T) × (elim x [
          | next d out given_up ↦ run_calls es d
          | waits ↦ run_calls es c
          | panics ↦ none
        ]
            ≡ some c')
          × (c'.ch.closed ≡ c'.close)
    by_ending (next d out given_up) k f =
        f d (agrees (λ v. 0) (brought (λ v. 0) e c) c d out given_up k)
    by_ending waits k f = f c h
    by_ending panics k f = absurd (impossible (λ v. 0) (brought (λ v. 0) e c) c k)
