-- ===== src/Reporter/BytesBucket/Runs.antt =====
-- A bucket that is filled and drained, and the theorems at concrete inputs.
use appoptics_apm_go.Base.{◌+◌, ◌≤◌, ◌≡◌, refl, true, List, [], ◌∷◌, replicate, length, arith}
use appoptics_apm_go.Reporter.BytesBucket.{
  BytesBucket, Event, new_bytes_bucket, pour, pour_waiting, wait, pour_loop, pour_in, bucket_of,
  drain, poured_in,
}
use appoptics_apm_go.Reporter.BytesBucket.Event.{message, timeout}
use appoptics_apm_go.Reporter.BytesBucket.Bounds.{total, Used-drain}
use appoptics_apm_go.Reporter.BytesBucket.Bounds.Used.{fresh, poured, drained}
use appoptics_apm_go.Reporter.BytesBucket.Filled.{messages, rest_of, held, number, pour_in-held}

-- A bucket of ten bytes that has been drained once.
abbrev bucket : BytesBucket
bucket = (drain 5 100 (new_bytes_bucket 10 true 7 0)).1

abbrev events : List Event
events = message (replicate 6 1) ∷ message (replicate 11 2) ∷ timeout ∷ message (replicate 3 3) ∷ []

abbrev small_events : List Event
small_events = message (replicate 6 1) ∷ message (replicate 5 2) ∷ message (replicate 3 3) ∷ []

filled :
    (poured_in events bucket ≡ 6)
    × ((bucket_of (pour_in small_events bucket)).waiting_list ≡ replicate 5 2 ∷ [])
unfolding poured_in pour_in pour_waiting pour_loop pour wait drain new_bytes_bucket
filled = (refl, refl)

Used-drain_example :
    (total (drain 9 100 (bucket_of (pour_in events bucket))).0
      ≡ (bucket_of (pour_in events bucket)).watermark)
    × (total (drain 9 100 (bucket_of (pour_in events bucket))).0
        ≤ (bucket_of (pour_in events bucket)).hwm)
    × (length (drain 9 100 (bucket_of (pour_in events bucket))).1.waiting_list ≤ 101)
Used-drain_example = Used-drain 9 100 (poured events (drained 5 100 (fresh 10 true 7 0)))

pour_in-held_example :
    held (λ m. true) (bucket_of (pour_in small_events bucket))
      + number (λ m. true) (messages (rest_of (pour_in small_events bucket)))
    ≡ held (λ m. true) bucket + number (λ m. true) (messages small_events)
unfolding drain new_bytes_bucket
pour_in-held_example = pour_in-held (λ m. true) small_events bucket (omega arith) (omega arith)
