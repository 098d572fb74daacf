-- ===== src/Storage/Redis/Gc.antt =====
-- mdb/storage-redis.go: what `StoreGC` deletes. The batches of `HDeleter` and the pairs of
-- `HScanCallback` are shown to come to the same as deleting each stale field by itself.
use glibs.Base.{
  ◌+◌, ◌-◌, ◌%◌, ◌≡◌, ◌≢◌, refl, sym, ap, ◌∙◌, ◌⊎◌, inl, inr, Bool, true, false, ◌&&◌, ◌||◌, Option,
  none, some, List, [], ◌∷◌, ◌++◌, append_assoc, All, arith, Option-cases, Bool-cases, length,
  eq_nil_of_length, length-append, if◌then◌else◌, ◌==◌, ltb, get_elem?, ◌===◌, ===_cases, list_eq,
}
use glibs.Base.Int.{ℤ}
use glibs.Base.Dict.{Dict, lookup, elem, elem-append}
use glibs.Base.Bytes.{Bytes}
use glibs.Base.Split.{has_part}
use glibs.Storage.Libraries.{RedisLib, IsRedis, around, is_plain}
use glibs.Storage.Redis.{
  call_at_even, hdeleter, hscan_callback, flat, batch_size, is_garbage, gc_step, gc_key, gc,
  store_gc, scan_keys,
}

visit {ℓ} : {S : Type ℓ} → (Bytes → Bytes → S → S) → Dict Bytes Bytes → S → S
visit fn [] s = s
visit fn ((f, v) ∷ m) s = visit fn m (fn f v s)

get_elem?-append :
    (xs : List Bytes) (y : Bytes) (ys : List Bytes)
    → get_elem? (xs ++ (y ∷ ys)) (length xs) ≡ some y
get_elem?-append [] y ys = refl
get_elem?-append (x ∷ xs) y ys = get_elem?-append xs y ys

call_at_even-odd {ℓ} :
    {S : Type ℓ} (fn : Bytes → Bytes → S → S) (xs : List Bytes) (s : S)
    → length xs % 2 ≡ 1
    → call_at_even fn xs s ≡ s
unfolding call_at_even
call_at_even-odd fn xs s h = ground arith

call_at_even-pair {ℓ} :
    {S : Type ℓ} (fn : Bytes → Bytes → S → S) (xs : List Bytes) (f v : Bytes) (s : S)
    → length xs % 2 ≡ 0
    → call_at_even fn (xs ++ (f ∷ v ∷ [])) s ≡ fn f v s
unfolding call_at_even
call_at_even-pair fn xs f v s h =
    let ys = xs ++ (f ∷ v ∷ []) in
    let n : length ys ≡ length xs + 2 = length-append xs (f ∷ v ∷ []) in
    let i : length ys - 2 ≡ length xs = omega arith in
    let j : length ys - 1 ≡ length (xs ++ f ∷ []) = omega (arith, length-append xs (f ∷ [])) in
    let first : get_elem? ys (length ys - 2) ≡ some f = rw i (get_elem?-append xs f (v ∷ [])) in
    let second : get_elem? ys (length ys - 1) ≡ some v =
      rw (j, sym (append_assoc xs (f ∷ []) (v ∷ []))) (get_elem?-append (xs ++ f ∷ []) v []) in
    let big : ltb 1 (length ys) ≡ true = ground arith in
    let even : (length ys % 2 == 0) ≡ true = ground arith in rw (big, even, first, second)

hscan_callback-end {ℓ} :
    {S : Type ℓ} (fn : Bytes → Bytes → S → S) (seen : List Bytes) (s : S)
    → hscan_callback fn seen [] s ≡ s
unfolding hscan_callback
hscan_callback-end fn seen s = refl

hscan_callback-two {ℓ} :
    {S : Type ℓ} (fn : Bytes → Bytes → S → S) (seen : List Bytes) (f v : Bytes) (vs : List Bytes)
    (s : S)
    → hscan_callback fn seen (f ∷ v ∷ vs) s
      ≡ hscan_callback fn
          ((seen ++ f ∷ []) ++ v ∷ [])
          vs
          (call_at_even fn ((seen ++ f ∷ []) ++ v ∷ []) (call_at_even fn (seen ++ f ∷ []) s))
unfolding hscan_callback
hscan_callback-two fn seen f v vs s = refl

-- The callback is called once on each pair, in order.
hscan_callback-visit {ℓ} :
    {S : Type ℓ} (fn : Bytes → Bytes → S → S) (seen : List Bytes) (m : Dict Bytes Bytes) (s : S)
    → length seen % 2 ≡ 0
    → hscan_callback fn seen (flat m) s ≡ visit fn m s
unfolding visit
hscan_callback-visit fn seen [] s h = hscan_callback-end fn seen s
hscan_callback-visit fn seen ((f, v) ∷ m) s h =
    let one = length-append seen (f ∷ []) in
    let two = length-append seen (f ∷ v ∷ []) in
    hscan_callback-two fn seen f v (flat m) s
    ∙ rw
        (
          append_assoc seen (f ∷ []) (v ∷ []),
          call_at_even-odd fn (seen ++ f ∷ []) s (omega (arith, one)),
          call_at_even-pair fn seen f v s h,
        )
        (hscan_callback-visit fn (seen ++ (f ∷ v ∷ [])) m (fn f v s) (omega (arith, two)))

abbrev keep_live : Bool → Option Bytes → Option Bytes
keep_live true v = none
keep_live false v = v

module _ (r : RedisLib) (laws : IsRedis r) (now : ℤ) (key : Bytes) where
  open r use {Db, hget, hdel, fields}

  -- A field as it would be read if the deleter's slice were deleted at once.
  abbrev seen_through : List Bytes × Db → Bytes → Bytes → Option Bytes
  seen_through (sl, s) j g = if (key === j) && elem g sl then none else hget j g s

  hdeleter-seen_through :
      (given sl : List Bytes) (s : Db) (j g : Bytes)
      → seen_through (hdeleter r batch_size key given (sl, s)) j g
        ≡ (if (key === j) && elem g given then none else seen_through (sl, s) j g)
  unfolding hdeleter
  hdeleter-seen_through given sl s j g =
      ground (arith, laws.hget-hdel key (sl ++ given) j g s, elem-append g sl given)

  hdeleter-flush : (sl : List Bytes) (s : Db) → (hdeleter r batch_size key [] (sl, s)).0 ≡ []
  unfolding hdeleter
  hdeleter-flush sl s = elim (Bool-cases (length (sl ++ []) == 0)) [
    | inl empty ↦ rw empty (eq_nil_of_length (sl ++ []) (ground arith))
    | inr full ↦ ground arith
  ]

  -- Whether a scanned hash has a stale value for a field.
  abbrev stale_in : Dict Bytes Bytes → Bytes → Bool
  stale_in [] g = false
  stale_in ((f, v) ∷ m) g = ((f === g) && is_garbage r now v) || stale_in m g

  gc_step-seen_through :
      (f v : Bytes) (st : List Bytes × Db) (j g : Bytes)
      → seen_through (gc_step r now key f v st) j g
        ≡ (if (key === j) && ((f === g) && is_garbage r now v) then none else seen_through st j g)
  unfolding gc_step
  gc_step-seen_through f v (sl, s) j g = ground (arith, hdeleter-seen_through (f ∷ []) sl s j g)

  visit-seen_through :
      (m : Dict Bytes Bytes) (st : List Bytes × Db) (j g : Bytes)
      → seen_through (visit (gc_step r now key) m st) j g
        ≡ (if (key === j) && stale_in m g then none else seen_through st j g)
  unfolding visit
  visit-seen_through [] st j g = ground arith
  visit-seen_through ((f, v) ∷ m) st j g =
      ground (
        arith,
        visit-seen_through m (gc_step r now key f v st) j g,
        gc_step-seen_through f v st j g,
      )

  hdeleter-last :
      (st : List Bytes × Db) (j g : Bytes)
      → hget j g (hdeleter r batch_size key [] st).1 ≡ seen_through st j g
  hdeleter-last (sl, s) j g =
      let q = hdeleter r batch_size key [] (sl, s) in
      let through : seen_through q j g ≡ seen_through (sl, s) j g =
        hdeleter-seen_through [] sl s j g ∙ ground arith in
      let empty : q.0 ≡ [] = hdeleter-flush sl s in sym (ground (arith, empty)) ∙ through

  gc_key-visit :
      (s : Db)
      → gc_key r now key s
        ≡ (hdeleter r batch_size key [] (visit (gc_step r now key) (fields key s) ([], s))).1
  unfolding gc_key
  gc_key-visit s =
      ap (λ (st : List Bytes × Db). (hdeleter r batch_size key [] st).1)
        (hscan_callback-visit (gc_step r now key) [] (fields key s) ([], s) (omega arith))

  -- The deleted fields of one hash, by what the scan said of them.
  gc_key-stale_in :
      (s : Db) (j g : Bytes)
      → hget j g (gc_key r now key s)
        ≡ (if (key === j) && stale_in (fields key s) g then none else hget j g s)
  gc_key-stale_in s j g =
      ap (hget j g) (gc_key-visit s)
      ∙ hdeleter-last (visit (gc_step r now key) (fields key s) ([], s)) j g
      ∙ visit-seen_through (fields key s) ([], s) j g
      ∙ ground arith

  -- Whether a value found in the database is stale.
  abbrev pub is_stale : Option Bytes → Bool
  is_stale none = false
  is_stale (some v) = is_garbage r now v

  stale_in_sound :
      (m : Dict Bytes Bytes) (s : Db) (g : Bytes)
      → All (λ e. hget key e.0 s ≡ some e.1) m
      → stale_in m g ≡ true
      → is_stale (hget key g s) ≡ true
  stale_in_sound [] s g h e = absurd (ground arith)
  stale_in_sound ((f, v) ∷ m) s g h e = elim (===_cases f g) [
    | inl (same, hit) ↦ elim (Bool-cases (is_garbage r now v)) [
      | inl bad ↦ let found : hget key g s ≡ some v = rw (← same) h.0 in rw found bad
      | inr good ↦ stale_in_sound m s g h.1 (rw (hit, good) at e)
    ]
    | inr (other, miss) ↦ stale_in_sound m s g h.1 (rw miss at e)
  ]

  stale_in_complete :
      (m : Dict Bytes Bytes) (g : Bytes) → is_stale (lookup g m) ≡ true → stale_in m g ≡ true
  stale_in_complete [] g e = e
  stale_in_complete ((f, v) ∷ m) g e = elim (Bool-cases (f === g)) [
    | inl hit ↦ rw hit (let bad : is_garbage r now v ≡ true = rw hit at e in rw bad)
    | inr miss ↦ rw miss (stale_in_complete m g (rw miss at e))
  ]

  stale_in-hget : (s : Db) (g : Bytes) → stale_in (fields key s) g ≡ is_stale (hget key g s)
  stale_in-hget s g = elim (Bool-cases (is_stale (hget key g s))) [
    | inl stale ↦
        stale_in_complete (fields key s) g (rw (laws.lookup-fields key g s) stale) ∙ sym stale
    | inr live ↦ elim (Bool-cases (stale_in (fields key s) g)) [
      | inl seen ↦ cc (stale_in_sound (fields key s) s g (laws.fields_sound key s) seen)
      | inr unseen ↦ unseen ∙ sym live
    ]
  ]

-- What `gc` leaves of a value: nothing if it is stale, and else the value.
abbrev pub live : (r : RedisLib) → ℤ → Option Bytes → Option Bytes
live r now none = none
live r now (some v) = if is_garbage r now v then none else some v

module _ (r : RedisLib) (laws : IsRedis r) (now : ℤ) where
  open r use {Db, hget}

  gc_key-hget :
      (key : Bytes) (s : Db) (j g : Bytes)
      → hget j g (gc_key r now key s) ≡ (if key === j then live r now (hget j g s) else hget j g s)
  gc_key-hget key s j g =
      gc_key-stale_in r laws now key s j g
      ∙ rw (stale_in-hget r laws now key s g) (at (===_cases key j))
    where
      live_is_stale :
          (o : Option Bytes) → (if is_stale r laws now key o then none else o) ≡ live r now o
      live_is_stale none = refl
      live_is_stale (some v) = refl

      at :
          ((key ≡ j) × ((key === j) ≡ true)) ⊎ ((key ≢ j) × ((key === j) ≡ false))
          → (if (key === j) && is_stale r laws now key (hget key g s) then none else hget j g s)
            ≡ (if key === j then live r now (hget j g s) else hget j g s)
      at (inl (same, hit)) = rw (hit, same) (live_is_stale (hget j g s))
      at (inr (other, miss)) = rw miss

  live-live : (o : Option Bytes) → live r now (live r now o) ≡ live r now o
  live-live none = refl
  live-live (some v) = ground arith

  gc-hget :
      (keys : List Bytes) (s : Db) (j g : Bytes)
      → hget j g (gc r now keys s) ≡ (if elem j keys then live r now (hget j g s) else hget j g s)
  unfolding gc
  gc-hget [] s j g = refl
  gc-hget (key ∷ keys) s j g =
      ground (
        arith,
        gc-hget keys (gc_key r now key s) j g,
        gc_key-hget key s j g,
        live-live (hget j g s),
      )

  store_gc-gc :
      (part : Bytes) (s : Db) → store_gc r now part s ≡ gc r now (r.scan (around part) s) s
  unfolding store_gc scan_keys gc
  store_gc-gc part s = by_keys (r.scan (around part) s)
    where
      by_keys :
          (keys : List Bytes)
          → elim keys [ [] ↦ s | k ∷ ks ↦ gc r now (k ∷ ks) s ] ≡ gc r now keys s
      by_keys [] = refl
      by_keys (k ∷ ks) = refl

  -- `StoreGC` with a part of the keys that holds none of the characters `*`, `?`, `[` and `\` deletes,
  -- from every hash whose key holds that part, the fields whose value has expired or cannot be read; it
  -- changes no other field. That it deletes in batches of 100 while it scans loses and spares none.
  pub store_gc-hget :
      (part : Bytes) (s : Db) (j g : Bytes)
      → is_plain part ≡ true
      → hget j g (store_gc r now part s)
        ≡ (if has_part part j then live r now (hget j g s) else hget j g s)
  store_gc-hget part s j g plain =
      ap (hget j g) (store_gc-gc part s)
      ∙ gc-hget (r.scan (around part) s) s j g
      ∙ elim (Option-cases (hget j g s)) [
        | inl absent ↦ rw absent (ground arith)
        | inr (v, found) ↦ rw (laws.elem-scan part j g v s plain found)
      ]
