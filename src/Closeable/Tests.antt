-- ===== src/Closeable/Tests.antt =====
-- util/closeable.go: a channel with one place, at concrete calls.
use glibs.Base.{ℕ, ◌≡◌, refl, List, [], ◌∷◌, some, false}
use glibs.Base.Int.{pos}
use glibs.Closeable.{
  CloseableChannel, Call, sends, sends_with_timeout, closes, rounds, receives, call, run_calls,
  new_closeable, next,
}
use glibs.Closeable.Flow.{IsKept, brought, call-IsKept, run_calls_total}

abbrev crowded : CloseableChannel ℕ
crowded = record {
  ch = record { buffer = 1 ∷ []; cap = 1; closed = false };
  close = false;
  queue = 2 ∷ 3 ∷ [];
}

abbrev calls : List (Call ℕ)
calls = sends 7 ∷ rounds ∷ sends 8 ∷ receives ∷ closes ∷ sends_with_timeout 9 (pos 5) ∷ closes ∷ []

call-IsKept_example :
    IsKept (λ v. 1) (brought (λ v. 1) rounds crowded) crowded (call rounds crowded)
call-IsKept_example = call-IsKept (λ v. 1) rounds crowded refl

-- A round of the background loop gives up a value when the channel stays full.
value_given_up : call rounds crowded ≡ next (record crowded { queue = 3 ∷ [] }) [] (2 ∷ [])
unfolding call
value_given_up = refl

run_calls_total_example :
    (c' : CloseableChannel ℕ) × (run_calls calls (new_closeable 1) ≡ some c')
    × (c'.ch.closed ≡ c'.close)
unfolding new_closeable
run_calls_total_example = run_calls_total calls (new_closeable 1) refl
