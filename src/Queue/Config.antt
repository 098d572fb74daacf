-- ===== src/Queue/Config.antt =====
-- util/queue.go: what `NewGQueue` builds, for any option.
use mathlib.Core.Path.{subst}
use glibs.Base.{
  ℕ, zero, suc, ◌*◌, ◌≤◌, ◌<◌, ◌^◌, ◌≡◌, refl, ◌⊎◌, inl, inr, true, false, if◌then◌else◌, [], ◌∷◌,
  Option, none, some, All, is_some, ltb, ◌||◌, ◌/◌, arith, Bool-cases, Option-cases, ◌===◌,
  ===_cases,
}
use glibs.Base.Int.{ℤ, pos, negsuc, pos_part, ◌≤ℤ◌, ◌*ℤ◌, quot, wrap64, wrap64_id, ltb_ℤ, int_eq}
use glibs.Base.Dict.{Dict, lookup, insert, lookup-insert_self, lookup-insert_ne}
use glibs.Queue.{
  QuWorkers, GQueueOption, GQueue, share_of, at_least_one, get_number_from_percent, new_qu_workers,
  normal_groups, normal_option, make_workers, new_gqueue,
}

at_least_one_pos : (v : ℤ) → (n : ℕ) × (at_least_one v ≡ pos (suc n))
unfolding at_least_one
at_least_one_pos (pos zero) = (0, refl)
at_least_one_pos (pos (suc n)) = (n, ground arith)
at_least_one_pos (negsuc n) = (0, ground arith)

share_of_range : (p : ℤ) → (k : ℕ) × (share_of p ≡ pos k) × (1 ≤ k) × (k ≤ 10)
unfolding share_of
share_of_range (negsuc n) = (1, ground arith, omega arith, omega arith)
share_of_range (pos n) = elim (Bool-cases (ltb 10 n || ltb n 1)) [
  | inl out ↦ (1, ground arith, omega arith, omega arith)
  | inr within ↦ (n, ground arith, ground arith, ground arith)
]

pos-*ℤ : (a b : ℕ) → pos a *ℤ pos b ≡ pos (a * b)
unfolding ◌*ℤ◌
pos-*ℤ a b = ground arith

-- Within range the share of a group is at least one worker and at most all of them.
pub get_number_from_percent_bounds :
    (n : ℕ) (percent : ℤ)
    → 0 < n
    → n * 10 < 2 ^ 63
    → (pos 1 ≤ℤ get_number_from_percent (pos n) percent)
      × (get_number_from_percent (pos n) percent ≤ℤ pos n)
unfolding get_number_from_percent at_least_one quot
get_number_from_percent_bounds n percent h b = at (share_of percent) (share_of_range percent)
  where
    fits : (k : ℕ) → 1 ≤ k → k ≤ 10 → (n * k < 2 ^ 63) × (n * k / 10 ≤ n)
    fits k l u = let q : n * k ≤ n * 10 = grind arith in (omega arith, omega arith)

    bounded : (q : ℕ) → q ≤ n → (pos 1 ≤ℤ at_least_one (pos q)) × (at_least_one (pos q) ≤ℤ pos n)
    bounded zero le = (omega arith, omega arith)
    bounded (suc q) le = (ground arith, ground arith)

    at :
        (s : ℤ)
        → (k : ℕ) × (s ≡ pos k) × (1 ≤ k) × (k ≤ 10)
        → (pos 1 ≤ℤ at_least_one (quot (wrap64 (pos n *ℤ s)) 10))
          × (at_least_one (quot (wrap64 (pos n *ℤ s)) 10) ≤ℤ pos n)
    at s (k, e, l, u) =
        rw (e, pos-*ℤ n k, wrap64_id (pos (n * k)) ((fits k l u).0, omega arith))
          (bounded (n * k / 10) (fits k l u).1)

-- Every worker group can run a task.
abbrev pub HasRoom : Dict ℤ QuWorkers → Type 0
HasRoom ws = All (λ e. (0 < e.1.cap) × (e.1.chs ≡ 0) × (e.1.wg ≡ 0)) ws

insert-HasRoom :
    (k : ℤ) (w : QuWorkers) (ws : Dict ℤ QuWorkers)
    → (0 < w.cap) × (w.chs ≡ 0) × (w.wg ≡ 0)
    → HasRoom ws
    → HasRoom (insert k w ws)
insert-HasRoom k w [] p h = (p, tt)
insert-HasRoom k w ((j, v) ∷ ws) p h = elim (Bool-cases (j === k)) [
  | inl e ↦ rw e (p, h.1)
  | inr e ↦ rw e (h.0, insert-HasRoom k w ws p h.1)
]

new_qu_workers_lem :
    (n v : ℤ)
    → (m : ℕ) × (new_qu_workers (get_number_from_percent n v)
        ≡ some (record { cap = suc m; chs = 0; wg = 0 }))
unfolding new_qu_workers get_number_from_percent
new_qu_workers_lem n v =
    let (m, e) = at_least_one_pos (quot (wrap64 (n *ℤ share_of v)) 10) in (m, rw e (ground arith))

-- What `make_workers` returns: room everywhere, and a worker for each group.
abbrev pub Made : Dict ℤ ℤ → Option (Dict ℤ QuWorkers) → Type 0
Made groups none = ⊥
Made groups (some ws) = HasRoom ws × ((k : ℤ) → is_some (lookup k ws) ≡ is_some (lookup k groups))

lookup-insert-is_some :
    (k j : ℤ) (w : QuWorkers) (v : ℤ) (ws : Dict ℤ QuWorkers) (gs : Dict ℤ ℤ)
    → is_some (lookup j ws) ≡ is_some (lookup j gs)
    → is_some (lookup j (insert k w ws)) ≡ is_some (lookup j ((k, v) ∷ gs))
lookup-insert-is_some k j w v ws gs h = elim (===_cases k j) [
  | inl (p, hit) ↦ rw (hit, p, lookup-insert_self j w ws)
  | inr (ne, miss) ↦ rw (miss, lookup-insert_ne k j w ws ne) h
]

make_workers-Made : (n : ℤ) (groups : Dict ℤ ℤ) → Made groups (make_workers n groups)
unfolding make_workers
make_workers-Made n [] = (tt, λ k. refl)
make_workers-Made n ((k, v) ∷ groups) =
    let (m, e) = new_qu_workers_lem n v in
    rw (e, make_workers) (made m (make_workers n groups) (make_workers-Made n groups))
  where
    made :
        (m : ℕ) (r : Option (Dict ℤ QuWorkers))
        → Made groups r
        → Made ((k, v) ∷ groups) (elim r [
          | none ↦ none
          | some ws ↦ some (insert k (record { cap = suc m; chs = 0; wg = 0 }) ws)
        ])
    made m none h = h
    made m (some ws) h = (
      insert-HasRoom k _ ws (omega arith, refl, refl) h.0,
      λ j. lookup-insert-is_some k j _ v ws groups (h.1 j),
    )

normal_groups_one : (gs : Dict ℤ ℤ) → is_some (lookup (pos 1) (normal_groups gs)) ≡ true
unfolding normal_groups
normal_groups_one [] = refl
normal_groups_one (g ∷ gs) = elim (Option-cases (lookup (pos 1) (g ∷ gs))) [
  | inl e ↦ rw (e, normal_groups) (rw (lookup-insert_self (pos 1) (pos 6) (g ∷ gs)))
  | inr (v, e) ↦ elim (Bool-cases (ltb_ℤ v (pos 1))) [
    | inl small ↦
        rw (e, normal_groups) (rw small (rw (lookup-insert_self (pos 1) (pos 6) (g ∷ gs))))
    | inr large ↦ rw (e, normal_groups) (rw large (rw e))
  ]
]

-- A queue as `NewGQueue` should hand it out for an option.
pub record IsFresh (opt : GQueueOption) (g : GQueue) : Type 0 where
  pub no_tasks : (g.qu ≡ []) × (g.task_chan ≡ [])
  pub room : HasRoom g.workers
  pub fallback : is_some (lookup (pos 1) g.workers) ≡ true
  pub chan_room : 0 < g.chan_cap
  pub retries : pos 1 ≤ℤ g.opt.max_retry

normal_max_workers : (o : GQueueOption) → 0 < pos_part (normal_option o).max_workers
unfolding normal_option
normal_max_workers o = ground arith

normal_max_retry : (o : GQueueOption) → pos 1 ≤ℤ (normal_option o).max_retry
unfolding normal_option
normal_max_retry o = ground arith

-- The size of the task channel that an option asks for.
abbrev pub chan_size : GQueueOption → ℕ
chan_size opt = pos_part (normal_option opt).max_workers

-- The queue of an option whose channel fits.
pub new_gqueue_fits :
    (most : ℕ) (opt : GQueueOption)
    → chan_size opt ≤ most
    → (g : GQueue) × (new_gqueue most opt ≡ some g) × IsFresh opt g
unfolding new_gqueue
new_gqueue_fits most opt fits =
    built (make_workers o.max_workers o.groups) (make_workers-Made o.max_workers o.groups) refl
  where
    o : GQueueOption
    o = normal_option opt

    small : ltb most (pos_part o.max_workers) ≡ false
    small = ground (arith, fits)

    built :
        (r : Option (Dict ℤ QuWorkers))
        → Made o.groups r
        → make_workers o.max_workers o.groups ≡ r
        → (g : GQueue) × (new_gqueue most opt ≡ some g) × IsFresh opt g
    built none h e = absurd h
    built (some ws) h e = (
      record {
        opt = o;
        qu = [];
        handlers = [];
        task_chan = [];
        chan_cap = pos_part o.max_workers;
        workers = ws;
      },
      rw (e, new_gqueue) (rw small refl),
      record {
        no_tasks = (refl, refl);
        room = h.0;
        fallback = rw (h.1 (pos 1)) (normal_groups_one opt.groups);
        chan_room = normal_max_workers opt;
        retries = normal_max_retry opt;
      },
    )

too_large :
    (most : ℕ) (opt : GQueueOption) → ltb most (chan_size opt) ≡ true → new_gqueue most opt ≡ none
unfolding new_gqueue
too_large most opt large =
    built (make_workers (normal_option opt).max_workers (normal_option opt).groups)
  where
    built :
        (r : Option (Dict ℤ QuWorkers))
        → (elim r as (λ x. Option GQueue) [
          | none ↦ none
          | some ws ↦
              if ltb most (pos_part (normal_option opt).max_workers)
              then none
              else some (record {
                opt = normal_option opt;
                qu = [];
                handlers = [];
                task_chan = [];
                chan_cap = pos_part (normal_option opt).max_workers;
                workers = ws;
              })
        ])
          ≡ none
    built none = refl
    built (some ws) = rw large refl

-- What `NewGQueue` comes to: a panic for a channel that is too large, and else a fresh queue.
abbrev pub Creation : ℕ → GQueueOption → Type 0
Creation most opt =
    ((most < chan_size opt) × (new_gqueue most opt ≡ none))
    ⊎ ((chan_size opt ≤ most) × ((g : GQueue) × (new_gqueue most opt ≡ some g) × IsFresh opt g))

-- `NewGQueue` panics exactly for an option whose number of workers (10, where it is not positive) is
-- larger than what the runtime allows as the size of the task channel; no size of a worker group makes
-- it panic. For every other option it returns a queue: each worker group has at least one place and
-- none is taken, group 1 (the fallback of every task whose group has no workers) exists, the task
-- channel has room, and the retry limit is positive.
pub new_gqueue_total : (most : ℕ) (opt : GQueueOption) → Creation most opt
new_gqueue_total most opt = elim (Bool-cases (ltb most (chan_size opt))) [
  | inl large ↦ inl (ground arith, too_large most opt large)
  | inr fits ↦ let le : chan_size opt ≤ most = ground arith in inr (le, new_gqueue_fits most opt le)
]

pub new_gqueue-IsFresh :
    (most : ℕ) (opt : GQueueOption) (g : GQueue) → new_gqueue most opt ≡ some g → IsFresh opt g
new_gqueue-IsFresh most opt g e = elim (new_gqueue_total most opt) [
  | inl (_, panicked) ↦ absurd (ground (arith, e, panicked))
  | inr (_, (g', e', fresh)) ↦ let same : g' ≡ g = cc in subst (IsFresh opt) same fresh
]
