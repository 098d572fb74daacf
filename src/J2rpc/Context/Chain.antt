-- ===== src/J2rpc/Context/Chain.antt =====
-- j2rpc/context.go: the chain of handlers comes to its end.
use glibs.Base.{
  by_if, ℕ, zero, suc, ◌+◌, ◌≤◌, ◌≡◌, refl, sym, ap, ◌∙◌, Option, none, some, List, [], ◌∷◌, length,
  get_elem?, arith, if◌then◌else◌,
}
use glibs.Rpc.{Decoding}
use glibs.J2rpc.{CallError}
use glibs.J2rpc.Context.{
  Context, Script, ret, act, next_step, look, Act, stop_act, store_act, msg_act, writer_act, do_act,
  Env, exec, run_at, next, do_handlers,
}

get_elem?-none : {A : Type 0} (xs : List A) (i : ℕ) → length xs ≤ i → get_elem? xs i ≡ none
get_elem?-none [] i h = refl
get_elem?-none (x ∷ xs) zero h = absurd (omega arith)
get_elem?-none (x ∷ xs) (suc i) h = get_elem?-none xs i (omega arith)

abbrev Next : Type 0 → Type 0
Next M = Context M → Option CallError × Context M

module _ {M : Type 0} where
  -- The handlers stay, and the index does not go back.
  abbrev Moves : Context M → Context M → Type 0
  Moves c c' = (c'.mid_handlers ≡ c.mid_handlers) × (c.current_index ≤ c'.current_index)

  do_act-Moves : (a : Act) (c : Context M) → Moves c (do_act a c)
  unfolding do_act
  do_act-Moves stop_act c = (refl, omega arith)
  do_act-Moves (store_act key v) c = (refl, omega arith)
  do_act-Moves (msg_act m) c = (refl, omega arith)
  do_act-Moves (writer_act f) c = (refl, omega arith)

  Moves-trans : (a b c : Context M) → Moves a b → Moves b c → Moves a c
  Moves-trans a b c (p, h) (q, k) = (q ∙ p, omega arith)

  exec-Moves :
      (f : Next M)
      → ((c : Context M) → Moves c (f c).1)
      → {A : Type 0} (s : Script M A) (c : Context M) → Moves c (exec f s c).1
  unfolding exec
  exec-Moves f h (ret a) c = (refl, omega arith)
  exec-Moves f h (act a k) c =
      Moves-trans c (do_act a c) (exec f k (do_act a c)).1 (do_act-Moves a c)
        (exec-Moves f h k (do_act a c))
  exec-Moves f h (next_step k) c =
      Moves-trans c (f c).1 (exec f (k (f c).0) (f c).1).1 (h c)
        (exec-Moves f h (k (f c).0) (f c).1)
  exec-Moves f h (look k) c = exec-Moves f h (k c) c

  -- A context with at most so many handlers left.
  abbrev Left : ℕ → Context M → Type 0
  Left n c = length c.mid_handlers ≤ n + c.current_index

  Moves-Left : (n : ℕ) (a b : Context M) → Moves a b → Left n a → Left n b
  Moves-Left n a b (p, h) l = let same = ap length p in omega arith

  -- Code that goes on by functions that agree on such contexts does the same.
  exec-agree :
      (n : ℕ) (f g : Next M)
      → ((c : Context M) → Moves c (f c).1)
      → ((c : Context M) → Left n c → f c ≡ g c)
      → {A : Type 0} (s : Script M A) (c : Context M) → Left n c
      → exec f s c ≡ exec g s c
  unfolding exec
  exec-agree n f g h same (ret a) c l = refl
  exec-agree n f g h same (act a k) c l =
      exec-agree n f g h same k (do_act a c) (Moves-Left n c (do_act a c) (do_act-Moves a c) l)
  exec-agree n f g h same (next_step k) c l =
      exec-agree n f g h same (k (f c).0) (f c).1 (Moves-Left n c (f c).1 (h c) l)
      ∙ ap (λ r. exec g (k r.0) r.1) (same c l)
  exec-agree n f g h same (look k) c l = exec-agree n f g h same (k c) c l

module _ {M F : Type 0} {d : Decoding} (e : Env M F d) where
  abbrev step : Context M → Context M
  step c = record c { current_index = c.current_index + 1 }

  run_at-Moves :
      (f : Next M)
      → ((c : Context M) → Moves c (f c).1)
      → (h : Option M) (c : Context M) → Moves c (run_at e f h c).1
  unfolding run_at
  run_at-Moves f k none c = (refl, omega arith)
  run_at-Moves f k (some h) c = exec-Moves f k (e.code.handler h) c

  pub next-Moves : (n : ℕ) (c : Context M) → Moves c (next e n c).1
  unfolding next
  next-Moves zero c = (refl, omega arith)
  next-Moves (suc n) c =
      by_if {A = Option CallError × Context M} (λ x. Moves c x.1) c.is_stopped _ _
        (λ _. (refl, omega arith))
        (λ _.
          Moves-trans c (step c)
            (run_at e (next e n) (get_elem? c.mid_handlers (c.current_index + 1)) (step c)).1
            (refl, omega arith)
            (run_at-Moves (next e n) (next-Moves n) (get_elem? c.mid_handlers (c.current_index + 1))
              (step c)))

  run_at-agree :
      (n : ℕ) (f g : Next M)
      → ((c : Context M) → Moves c (f c).1)
      → ((c : Context M) → Left n c → f c ≡ g c)
      → (h : Option M) (c : Context M) → Left n c
      → run_at e f h c ≡ run_at e g h c
  unfolding run_at
  run_at-agree n f g k same none c l = refl
  run_at-agree n f g k same (some h) c l = exec-agree n f g k same (e.code.handler h) c l

  at_index-agree :
      (n m : ℕ)
      → n ≤ m
      → (c : Context M) → Left n c
      → run_at e (next e n) (get_elem? c.mid_handlers c.current_index) c
        ≡ run_at e (next e m) (get_elem? c.mid_handlers c.current_index) c
  unfolding next
  at_index-agree zero m h c l =
      rw (get_elem?-none c.mid_handlers c.current_index (omega arith), run_at) refl
  at_index-agree (suc n) zero h c l = absurd (omega arith)
  at_index-agree (suc n) (suc m) h c l =
      run_at-agree (suc n) (next e (suc n)) (next e (suc m)) (next-Moves (suc n))
        (λ c l.
          ap (λ x. if c.is_stopped then (none, c) else x)
            (at_index-agree n m (omega arith) (step c) (omega arith)))
        (get_elem? c.mid_handlers c.current_index) c l

  -- Fuel for the handlers that are left is enough: more of it changes nothing.
  pub next-enough :
      (n m : ℕ) → n ≤ m → (c : Context M) → Left (suc n) c → next e (suc n) c ≡ next e (suc m) c
  unfolding next
  next-enough n m h c l =
      ap (λ x. if c.is_stopped then (none, c) else x) (at_index-agree n m h (step c) (omega arith))

  -- As many rounds as there are handlers are enough for the chain of a request, whatever the handlers
  -- do: with more, `Do` ends in the same error and the same context.
  pub do_handlers-enough :
      (n : ℕ) (c : Context M)
      → length e.mid_handlers ≤ n
      → do_handlers e n c ≡ do_handlers e (length e.mid_handlers) c
  unfolding do_handlers
  do_handlers-enough n c h = started e.mid_handlers (length e.mid_handlers) n (omega arith) h
    where
      chain : ℕ → List M → Option CallError × Context M
      chain n hs = elim hs as (λ x. Option CallError × Context M) [
        | [] ↦ (none, c)
        | h ∷ hs ↦ exec (next e n) (e.code.handler h) (record c { mid_handlers = h ∷ hs })
      ]

      started : (hs : List M) (k n : ℕ) → length hs ≤ k → k ≤ n → chain n hs ≡ chain k hs
      started [] k n l m = refl
      started (h ∷ hs) zero n l m = absurd (omega arith)
      started (h ∷ hs) (suc k) zero l m = absurd (omega arith)
      started (h ∷ hs) (suc k) (suc n) l m = sym (
          exec-agree (suc k) (next e (suc k)) (next e (suc n)) (next-Moves (suc k))
            (λ c l. next-enough k n (omega arith) c l) (e.code.handler h)
            (record c { mid_handlers = h ∷ hs }) (omega arith))
