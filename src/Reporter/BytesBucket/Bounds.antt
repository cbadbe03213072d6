-- ===== src/Reporter/BytesBucket/Bounds.antt =====
-- A bucket is never over its high watermark, and the watermark counts its water.
use appoptics_apm_go.Base.{
  ℕ, ◌+◌, ◌≤◌, ◌≡◌, refl, sym, Bool, true, not, ◌&&◌, ◌==◌, ltb, leb, List, [], ◌∷◌, ◌++◌, length,
  length-append, arith, if_both, leb→le,
}
use appoptics_apm_go.Reporter.BytesBucket.{
  BytesBucket, Event, Outcome, new_bytes_bucket, fits, pour, pour_waiting, wait, close, pour_loop,
  pour_in, bucket_of, drain,
}
use appoptics_apm_go.Reporter.BytesBucket.Event.{message, timeout, closed}

-- The bytes of all messages.
abbrev pub total : List (List ℕ) → ℕ
total [] = 0
total (m ∷ water) = length m + total water

pub total-append : (xs ys : List (List ℕ)) → total (xs ++ ys) ≡ total xs + total ys
total-append [] ys = omega arith
total-append (x ∷ xs) ys = omega (arith, total-append xs ys)

pub record IsSafe (b : BytesBucket) : Type 0 where
  pub counted : b.watermark ≡ total b.water
  pub watermark-le : b.watermark ≤ b.hwm
  pub waiting-le : length b.waiting_list ≤ 101

pour-IsSafe : (m : List ℕ) (b : BytesBucket) → fits m b ≡ true → IsSafe b → IsSafe (pour m b)
unfolding pour
pour-IsSafe m b ok h = record {
  counted = omega (arith, h.counted, total-append b.water (m ∷ []));
  watermark-le = omega (arith, leb→le (length m + b.watermark) b.hwm ok);
  waiting-le = h.waiting-le;
}

pour_waiting-IsSafe :
    (waiting : List (List ℕ)) (b : BytesBucket)
    → length waiting ≤ 101
    → IsSafe b
    → IsSafe (pour_waiting waiting b)
unfolding pour_waiting
pour_waiting-IsSafe [] b few h = record {
  counted = h.counted;
  watermark-le = h.watermark-le;
  waiting-le = omega arith;
}
pour_waiting-IsSafe (m ∷ waiting) b few h =
    if_both IsSafe (fits m b)
      (λ ok. pour_waiting-IsSafe waiting (pour m b) (omega arith) (pour-IsSafe m b ok h))
      (λ _. record { counted = h.counted; watermark-le = h.watermark-le; waiting-le = few })

filled : (b : BytesBucket) → IsSafe b → IsSafe (record b { full = true })
filled b h = record {
  counted = h.counted;
  watermark-le = h.watermark-le;
  waiting-le = h.waiting-le;
}

wait-IsSafe : (m : List ℕ) (b : BytesBucket) → IsSafe b → IsSafe (wait m b)
unfolding wait
wait-IsSafe m b h =
    if_both IsSafe (leb (length b.waiting_list) 100)
      (λ room. record {
        counted = h.counted;
        watermark-le = h.watermark-le;
        waiting-le =
            omega (
              arith,
              length-append b.waiting_list (m ∷ []),
              leb→le (length b.waiting_list) 100 room,
            );
      })
      (λ _. filled b h)

close-IsSafe : (b : BytesBucket) → IsSafe b → IsSafe (close b)
unfolding close
close-IsSafe b h =
    if_both IsSafe (b.graceful_shutdown && ltb 0 b.watermark) (λ _. filled b h) (λ _. h)

pour_loop-IsSafe :
    (events : List Event) (drain_asap : Bool) (b : BytesBucket)
    → IsSafe b
    → IsSafe (bucket_of (pour_loop events drain_asap b))
unfolding pour_loop
pour_loop-IsSafe [] drain_asap b h = h
pour_loop-IsSafe (message m ∷ events) drain_asap b h =
    if_both (λ (o : Outcome). IsSafe (bucket_of o)) (ltb b.hwm (length m))
      (λ _.
        pour_loop-IsSafe events drain_asap _ (record {
          counted = h.counted;
          watermark-le = h.watermark-le;
          waiting-le = h.waiting-le;
        }))
      (λ _.
        if_both (λ (o : Outcome). IsSafe (bucket_of o)) (fits m b)
          (λ ok.
            if_both (λ (o : Outcome). IsSafe (bucket_of o)) drain_asap
              (λ _. filled (pour m b) (pour-IsSafe m b ok h))
              (λ _. pour_loop-IsSafe events drain_asap (pour m b) (pour-IsSafe m b ok h)))
          (λ _. wait-IsSafe m b h))
pour_loop-IsSafe (timeout ∷ events) drain_asap b h =
    if_both (λ (o : Outcome). IsSafe (bucket_of o)) (not (b.watermark == 0)) (λ _. filled b h)
      (λ _. pour_loop-IsSafe events true b h)
pour_loop-IsSafe (closed ∷ events) drain_asap b h = close-IsSafe b h

pub pour_in-IsSafe :
    (events : List Event) (b : BytesBucket) → IsSafe b → IsSafe (bucket_of (pour_in events b))
unfolding pour_in
pour_in-IsSafe events b h =
    if_both (λ (o : Outcome). IsSafe (bucket_of o)) b.full (λ _. h)
      (λ _.
        pour_loop-IsSafe events b.never_drained _
          (pour_waiting-IsSafe b.waiting_list b h.waiting-le h))

pub drain-IsSafe : (now interval : ℕ) (b : BytesBucket) → IsSafe b → IsSafe (drain now interval b).1
unfolding drain
drain-IsSafe now interval b h = record {
  counted = refl;
  watermark-le = omega arith;
  waiting-le = h.waiting-le;
}

pub new_bytes_bucket-IsSafe :
    (hwm : ℕ) (graceful : Bool) (interval now : ℕ)
    → IsSafe (new_bytes_bucket hwm graceful interval now)
unfolding new_bytes_bucket
new_bytes_bucket-IsSafe hwm graceful interval now = record {
  counted = refl;
  watermark-le = omega arith;
  waiting-le = omega arith;
}

-- Buckets, by what was called on them.
pub data Used : BytesBucket → Type 0 where
  fresh :
      (hwm : ℕ) (graceful : Bool) (interval now : ℕ)
      → Used (new_bytes_bucket hwm graceful interval now)
  poured : {b : BytesBucket} (events : List Event) → Used b → Used (bucket_of (pour_in events b))
  drained : {b : BytesBucket} (now interval : ℕ) → Used b → Used (drain now interval b).1

Used-IsSafe : {b : BytesBucket} → Used b → IsSafe b
Used-IsSafe (fresh hwm graceful interval now) = new_bytes_bucket-IsSafe hwm graceful interval now
Used-IsSafe (poured events u) = pour_in-IsSafe events _ (Used-IsSafe u)
Used-IsSafe (drained now interval u) = drain-IsSafe now interval _ (Used-IsSafe u)

-- After any calls of `PourIn` and `Drain` on a new bucket, whatever the channels gave, a drain
-- returns at most as many bytes as the high watermark, which are those that the watermark counted;
-- and at most 101 messages wait.
pub Used-drain :
    {b : BytesBucket} (now interval : ℕ)
    → Used b
    → (total (drain now interval b).0 ≡ b.watermark)
      × (total (drain now interval b).0 ≤ b.hwm)
      × (length (drain now interval b).1.waiting_list ≤ 101)
unfolding drain
Used-drain {b} now interval u =
    let h = Used-IsSafe u in (sym h.counted, omega (arith, h.counted, h.watermark-le), h.waiting-le)
