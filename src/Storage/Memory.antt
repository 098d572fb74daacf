-- ===== src/Storage/Memory.antt =====
-- A redis database and a cache kept in lists, with which the properties of the stores are tried.
use glibs.Base.{
  zero, suc, ◌-◌, ◌++◌, length, take, length-append, take-append, ◌≡◌, refl, sym, ap, ◌∙◌, inl, inr,
  Bool, true, false, ◌&&◌, Option, none, some, List, [], ◌∷◌, if◌then◌else◌, ◌===◌, ===_self,
  ===_cases, ===_ne, list_eq, nat_eq, arith, Bool-cases, All,
}
use glibs.Base.Int.{ℤ, pos, negsuc}
use glibs.Base.Dict.{
  Dict, lookup, insert, erase, elem, lookup-insert_self, lookup-insert_ne, lookup-erase_self,
  lookup-erase_ne,
}
use glibs.Base.Bytes.{Bytes}
use glibs.Base.Split.{has_part}
use glibs.Storage.Libraries.{
  RedisLib, IsRedis, around, is_plain, RedisValue, FreeCacheLib, IsFreeCache,
}

-- The newest value of a field stands first.
abbrev Db : Type 0
Db = List (Bytes × Bytes × Bytes)

abbrev hget : Bytes → Bytes → Db → Option Bytes
hget j g [] = none
hget j g ((k, f, v) ∷ s) = if (k === j) && (f === g) then some v else hget j g s

abbrev hdel : Bytes → List Bytes → Db → Db
hdel j gs [] = []
hdel j gs ((k, f, v) ∷ s) =
    let rest = hdel j gs s in if (j === k) && elem f gs then rest else (k, f, v) ∷ rest

abbrev del_keys : List Bytes → Db → Db
del_keys js [] = []
del_keys js ((k, f, v) ∷ s) =
    let rest = del_keys js s in if elem k js then rest else (k, f, v) ∷ rest

abbrev fields : Bytes → Db → Dict Bytes Bytes
fields j [] = []
fields j ((k, f, v) ∷ s) = let rest = fields j s in if k === j then (f, v) ∷ erase f rest else rest

abbrev scan : Bytes → Db → List Bytes
scan part [] = []
scan part ((k, f, v) ∷ s) = let rest = scan part s in if has_part part k then k ∷ rest else rest

-- The keys that hold what stands between the two ends of a pattern `*part*`.
abbrev scan_pattern : Bytes → Db → List Bytes
scan_pattern [] s = scan [] s
scan_pattern (x ∷ rest) s = scan (take (length rest - 1) rest) s

-- An encoding of a value: the sign and the size of the time, and the text.
abbrev marshal : RedisValue → Option Bytes
marshal v = elim v.expire_at [ pos n ↦ some (0 ∷ n ∷ v.val) | negsuc n ↦ some (1 ∷ n ∷ v.val) ]

abbrev unmarshal : Bytes → Option RedisValue
unmarshal (zero ∷ n ∷ b) = some (record { val = b; expire_at = pos n })
unmarshal (suc x ∷ n ∷ b) = some (record { val = b; expire_at = negsuc n })
unmarshal (x ∷ []) = none
unmarshal [] = none

abbrev pub memory_redis : RedisLib
memory_redis = record {
  Db = Db;
  hget = hget;
  hset = λ k f v s. (k, f, v) ∷ s;
  hdel = hdel;
  del = del_keys;
  fields = fields;
  scan = scan_pattern;
  flush_db = λ s. [];
  marshal = marshal;
  unmarshal = unmarshal;
  compact = λ b. b;
}

hget-hdel :
    (k : Bytes) (fs : List Bytes) (j g : Bytes) (s : Db)
    → hget j g (hdel k fs s) ≡ (if (k === j) && elem g fs then none else hget j g s)
hget-hdel k fs j g [] = ground arith
hget-hdel k fs j g ((i, f, v) ∷ s) = elim (===_cases i j) [
  | inr (_, e) ↦ ground (arith, hget-hdel k fs j g s)
  | inl (p, e) ↦ elim (===_cases f g) [
    | inl (q, e') ↦ rw (p, q) (ground (arith, hget-hdel k fs j g s, ===_self j, ===_self g))
    | inr (_, e') ↦ ground (arith, hget-hdel k fs j g s)
  ]
]

hget-del_keys :
    (ks : List Bytes) (j g : Bytes) (s : Db)
    → hget j g (del_keys ks s) ≡ (if elem j ks then none else hget j g s)
hget-del_keys ks j g [] = ground arith
hget-del_keys ks j g ((i, f, v) ∷ s) = elim (===_cases i j) [
  | inl (p, e) ↦ rw p (ground (arith, hget-del_keys ks j g s, ===_self j))
  | inr (_, e) ↦ ground (arith, hget-del_keys ks j g s)
]

lookup-fields : (k f : Bytes) (s : Db) → lookup f (fields k s) ≡ hget k f s
lookup-fields k f [] = refl
lookup-fields k f ((i, g, v) ∷ s) = elim (===_cases g f) [
  | inl (_, e) ↦ ground (arith, lookup-fields k f s)
  | inr (ne, e) ↦ ground (arith, lookup-fields k f s, lookup-erase_ne g f (fields k s) ne)
]

-- Erasing keeps a property, and adds that the key is not there.
All-erase :
    (P : Bytes × Bytes → Type 0) (f : Bytes) (m : Dict Bytes Bytes)
    → All P m
    → All (λ e. P e × ((f === e.0) ≡ false)) (erase f m)
All-erase P f [] h = tt
All-erase P f ((j, w) ∷ m) h = elim (===_cases f j) [
  | inl (p, e) ↦ rw (sym p, ===_self f) (All-erase P f m h.1)
  | inr (ne, e) ↦ rw (===_ne j f (λ p. ne (sym p))) ((h.0, e), All-erase P f m h.1)
]

elem-scan :
    (part k f v : Bytes) (s : Db) → hget k f s ≡ some v → elem k (scan part s) ≡ has_part part k
elem-scan part k f v [] h = absurd (ground arith)
elem-scan part k f v ((i, g, w) ∷ s) h = elim (===_cases i k) [
  | inl (p, e) ↦ elim (Bool-cases (has_part part i)) [
    | inl hit ↦ rw hit (rw e (sym (ap (has_part part) (sym p) ∙ hit)))
    | inr miss ↦ rw miss (absent (ap (has_part part) (sym p) ∙ miss) s)
  ]
  | inr (_, e) ↦ rw (skip (has_part part i) e) (elem-scan part k f v s (rw e at h))
]
  where
    skip :
        (b : Bool)
        → (i === k) ≡ false
        → elem k (if b then i ∷ scan part s else scan part s) ≡ elem k (scan part s)
    skip true e = rw e
    skip false e = refl

    absent : has_part part k ≡ false → (s : Db) → elem k (scan part s) ≡ has_part part k
    absent lacks [] = sym lacks
    absent lacks ((i, g, w) ∷ s) = elim (===_cases i k) [
      | inl (p, e) ↦ rw (ap (has_part part) p ∙ lacks) (absent lacks s)
      | inr (_, e) ↦ elim (Bool-cases (has_part part i)) [
        | inl hit ↦ rw hit (rw e (absent lacks s))
        | inr miss ↦ rw miss (absent lacks s)
      ]
    ]

scan_pattern-around : (part : Bytes) (s : Db) → scan_pattern (around part) s ≡ scan part s
scan_pattern-around part s =
    let size : length (part ++ b'*' ∷ []) - 1 ≡ length part =
      omega (arith, length-append part (b'*' ∷ [])) in
    rw (size, take-append part (b'*' ∷ [])) refl

elem-scan_pattern :
    (part k f v : Bytes) (s : Db)
    → is_plain part ≡ true
    → hget k f s ≡ some v
    → elem k (scan_pattern (around part) s) ≡ has_part part k
elem-scan_pattern part k f v s plain h =
    ap (elem k) (scan_pattern-around part s) ∙ elem-scan part k f v s h

-- The entries that a scan visits are those that a read finds.
All-map :
    (P Q : Bytes × Bytes → Type 0) (m : Dict Bytes Bytes)
    → ((e : Bytes × Bytes) → P e → Q e)
    → All P m
    → All Q m
All-map P Q [] f h = tt
All-map P Q (e ∷ m) f h = (f e h.0, All-map P Q m f h.1)

fields_sound : (k : Bytes) (s : Db) → All (λ e. hget k e.0 s ≡ some e.1) (fields k s)
fields_sound k [] = tt
fields_sound k ((i, f, v) ∷ s) = elim (Bool-cases (i === k)) [
  | inr miss ↦ rw miss (fields_sound k s)
  | inl hit ↦ rw hit (
    rw (===_self f) refl,
    All-map (λ e. (hget k e.0 s ≡ some e.1) × ((f === e.0) ≡ false)) _ (erase f (fields k s))
        (λ e h. rw h.1 h.0) (All-erase _ f (fields k s) (fields_sound k s)),
  )
]

unmarshal-marshal : (v : RedisValue) (b : Bytes) → marshal v ≡ some b → unmarshal b ≡ some v
unmarshal-marshal v b h = by_time v.expire_at refl
  where
    by_time : (t : ℤ) → v.expire_at ≡ t → unmarshal b ≡ some v
    by_time (pos n) e = ground arith
    by_time (negsuc n) e = ground arith

pub memory_redis-IsRedis : IsRedis memory_redis
memory_redis-IsRedis = record {
  hget-hset = λ k f v j g s. refl;
  hget-hdel = hget-hdel;
  hget-del = hget-del_keys;
  hget-flush_db = λ j g s. refl;
  lookup-fields = lookup-fields;
  fields_sound = fields_sound;
  elem-scan = elem-scan_pattern;
  unmarshal-marshal = unmarshal-marshal;
}

abbrev keys : Dict Bytes Bytes → List Bytes
keys [] = []
keys ((k, v) ∷ m) = k ∷ keys m

true-false : true ≡ false → ⊥
true-false e = absurd (ground arith)

-- A cache that drops nothing.
abbrev pub memory_cache : FreeCacheLib
memory_cache = record {
  Mem = Dict Bytes Bytes;
  get = λ now k m. lookup k m;
  set = λ now k v exp m. insert k v m;
  del = erase;
  clear = λ m. [];
  entries = keys;
}

elem-keys : (k v : Bytes) (m : Dict Bytes Bytes) → lookup k m ≡ some v → elem k (keys m) ≡ true
elem-keys k v [] h = absurd (ground arith)
elem-keys k v ((j, w) ∷ m) h = elim (Bool-cases (j === k)) [
  | inl e ↦ rw e refl
  | inr e ↦ rw e (elem-keys k v m (rw e at h))
]

lookup-erase :
    (k j : Bytes) (m : Dict Bytes Bytes)
    → lookup j (erase k m) ≡ (if k === j then none else lookup j m)
lookup-erase k j m = elim (===_cases k j) [
  | inl (p, e) ↦ rw e (ap (λ x. lookup x (erase k m)) (sym p) ∙ lookup-erase_self k m)
  | inr (ne, e) ↦ rw e (lookup-erase_ne k j m ne)
]

pub memory_cache-IsFreeCache : IsFreeCache memory_cache
memory_cache-IsFreeCache = record {
  get-set_self = λ now later k v exp m. inr (lookup-insert_self k v m);
  get-set_ne = λ now later k v exp j m h. inr (
      lookup-insert_ne k j v m
        (λ p. absurd (true-false (sym (ap (λ x. k === x) (sym p) ∙ ===_self k) ∙ h))));
  get-del = λ now k j m. lookup-erase k j m;
  get-clear = λ now j m. refl;
  elem-entries = λ now k v m h. elem-keys k v m h;
}
