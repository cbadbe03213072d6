-- ===== src/Reporter/BytesBucket/Filled.antt =====
-- No message that may be poured is lost, or poured twice.
use appoptics_apm_go.Base.{
  ℕ, suc, ◌+◌, ◌≤◌, ◌≡◌, refl, sym, Bool, true, not, ◌&&◌, ◌==◌, ltb, leb, List, [], ◌∷◌, ◌++◌,
  length, All, arith, if_both, if◌then◌else◌,
}
use mathlib.Core.Path.{subst}
use appoptics_apm_go.Reporter.BytesBucket.{
  BytesBucket, Event, Outcome, fits, pour, pour_waiting, wait, close, pour_loop, pour_in, bucket_of,
}
use appoptics_apm_go.Reporter.BytesBucket.Event.{message, timeout, closed}
use appoptics_apm_go.Reporter.BytesBucket.Outcome.{done, shut, waits}

-- The messages of the channel.
abbrev pub messages : List Event → List (List ℕ)
messages [] = []
messages (message m ∷ events) = m ∷ messages events
messages (timeout ∷ events) = messages events
messages (closed ∷ events) = messages events

-- What the loop has not taken.
abbrev pub rest_of : Outcome → List Event
rest_of (done b rest) = rest
rest_of (shut b rest) = rest
rest_of (waits b) = []

pour_waiting-length :
    (waiting : List (List ℕ)) (b : BytesBucket)
    → length (pour_waiting waiting b).waiting_list ≤ length waiting
unfolding pour_waiting
pour_waiting-length [] b = omega arith
pour_waiting-length (m ∷ waiting) b =
    if_both (λ (q : BytesBucket). length q.waiting_list ≤ suc (length waiting)) (fits m b)
      (λ _. omega (arith, pour_waiting-length waiting (pour m b))) (λ _. omega arith)

pour_waiting-hwm :
    (waiting : List (List ℕ)) (b : BytesBucket) → (pour_waiting waiting b).hwm ≡ b.hwm
unfolding pour_waiting pour
pour_waiting-hwm [] b = refl
pour_waiting-hwm (m ∷ waiting) b =
    if_both (λ (q : BytesBucket). q.hwm ≡ b.hwm) (fits m b)
      (λ _. pour_waiting-hwm waiting (pour m b)) (λ _. refl)

module _ (p : List ℕ → Bool) where
  -- How many messages satisfy `p`.
  abbrev pub number : List (List ℕ) → ℕ
  number [] = 0
  number (m ∷ ms) = (if p m then 1 else 0) + number ms

  number-append : (xs ys : List (List ℕ)) → number (xs ++ ys) ≡ number xs + number ys
  number-append [] ys = omega arith
  number-append (x ∷ xs) ys = omega (arith, number-append xs ys)

  -- The messages in the bucket and in its waiting list.
  abbrev pub held : BytesBucket → ℕ
  held b = number b.water + number b.waiting_list

  pour-held : (m : List ℕ) (b : BytesBucket) → held (pour m b) ≡ held b + number (m ∷ [])
  unfolding pour
  pour-held m b = omega (arith, number-append b.water (m ∷ []))

  pour_waiting-held :
      (waiting : List (List ℕ)) (b : BytesBucket)
      → held (pour_waiting waiting b) ≡ number b.water + number waiting
  unfolding pour_waiting pour
  pour_waiting-held [] b = refl
  pour_waiting-held (m ∷ waiting) b =
      if_both (λ (q : BytesBucket). held q ≡ number b.water + number (m ∷ waiting)) (fits m b)
        (λ _. omega (arith, pour_waiting-held waiting (pour m b), number-append b.water (m ∷ [])))
        (λ _. refl)

  wait-held :
      (m : List ℕ) (b : BytesBucket)
      → length b.waiting_list ≤ 100
      → held (wait m b) ≡ held b + number (m ∷ [])
  unfolding wait
  wait-held m b room =
      if_both (λ (q : BytesBucket). held q ≡ held b + number (m ∷ []))
        (leb (length b.waiting_list) 100)
        (λ _. omega (arith, number-append b.waiting_list (m ∷ []))) (λ none. absurd (ground arith))

  close-held : (b : BytesBucket) → held (close b) ≡ held b
  unfolding close
  close-held b =
      if_both (λ (q : BytesBucket). held q ≡ held b) (b.graceful_shutdown && ltb 0 b.watermark)
        (λ _. refl) (λ _. refl)

  -- The messages held after the loop, and those that it leaves in the channel.
  abbrev Keeps : ℕ → Outcome → Type 0
  Keeps n o = held (bucket_of o) + number (messages (rest_of o)) ≡ n

  pour_loop-Keeps :
      (events : List Event) (drain_asap : Bool) (b : BytesBucket)
      → length b.waiting_list ≤ 100
      → All (λ m. length m ≤ b.hwm) (messages events)
      → (n : ℕ) → held b + number (messages events) ≡ n
      → Keeps n (pour_loop events drain_asap b)
  unfolding pour_loop pour
  pour_loop-Keeps [] drain_asap b room small n e = e
  pour_loop-Keeps (message m ∷ events) drain_asap b room (small, smalls) n e =
      if_both (Keeps n) (ltb b.hwm (length m)) (λ big. absurd (ground arith))
        (λ _.
          if_both (Keeps n) (fits m b)
            (λ ok.
              if_both (Keeps n) drain_asap (λ _. omega (arith, pour-held m b))
                (λ _.
                  pour_loop-Keeps events drain_asap (pour m b) room smalls n
                    (omega (arith, pour-held m b))))
            (λ _. omega (arith, wait-held m b room)))
  pour_loop-Keeps (timeout ∷ events) drain_asap b room small n e =
      if_both (Keeps n) (not (b.watermark == 0)) (λ _. e)
        (λ _. pour_loop-Keeps events true b room small n e)
  pour_loop-Keeps (closed ∷ events) drain_asap b room small n e = omega (arith, close-held b)

  -- Where all messages fit an empty bucket and the waiting list has room, `PourIn` loses no message
  -- and takes none twice: of the messages with a property, as many are in the bucket, in its
  -- waiting list and in the channel after it as were there before.
  pub pour_in-held :
      (events : List Event) (b : BytesBucket)
      → length b.waiting_list ≤ 100
      → All (λ m. length m ≤ b.hwm) (messages events)
      → held (bucket_of (pour_in events b)) + number (messages (rest_of (pour_in events b)))
        ≡ held b + number (messages events)
  unfolding pour_in
  pour_in-held events b room small =
      if_both (Keeps _) b.full (λ _. refl)
        (λ _.
          pour_loop-Keeps events b.never_drained (pour_waiting b.waiting_list b)
            (omega (arith, pour_waiting-length b.waiting_list b))
            (subst (λ hwm. All (λ m. length m ≤ hwm) (messages events))
              (sym (pour_waiting-hwm b.waiting_list b)) small)
            _ (omega (arith, pour_waiting-held b.waiting_list b)))
