-- ===== src/Events/Log.antt =====
-- The history of the bus is the end of the log of all accepted events.
use cyp_agent.Base.{
  ℕ, zero, suc, ◌+◌, ◌-◌, ◌≤◌, ◌<◌, ◌≡◌, refl, sym, ap, ◌∙◌, inl, inr, Bool, true, false, List, [],
  ◌∷◌, ◌++◌, ◌==◌, if◌then◌else◌, length, drop, length-append, length-drop, arith, Bool-cases,
}
use cyp_agent.Events.{
  BusEvent, Bus, last_n, new_bus, append_history, stamp, publish, subscribe_replay, unsubscribe,
  close, take_one,
}

drop-length {ℓ} : {A : Type ℓ} (l : List A) → drop (length l) l ≡ []
drop-length [] = refl
drop-length (x ∷ l) = drop-length l

drop-append {ℓ} :
    {A : Type ℓ} (k : ℕ) (l m : List A) → k ≤ length l → drop k (l ++ m) ≡ drop k l ++ m
drop-append zero l m h = refl
drop-append (suc k) [] m h = ground arith
drop-append (suc k) (x ∷ l) m h = drop-append k l m (omega arith)

drop_more {ℓ} : {A : Type ℓ} (k : ℕ) (l : List A) → drop 1 (drop k l) ≡ drop (suc k) l
drop_more zero l = refl
drop_more (suc k) [] = refl
drop_more (suc k) (x ∷ l) = drop_more k l

module _ {D : Type 0} where
  last_n_zero : (l : List (BusEvent D)) → last_n 0 l ≡ []
  last_n_zero l =
      let e : length l - 0 ≡ length l = omega arith in ap (λ k. drop k l) e ∙ drop-length l

  -- A log that is longer than the limit by k.
  last_n_full :
      (limit k : ℕ) (log : List (BusEvent D)) (event : BusEvent D)
      → k + limit ≡ length log
      → 0 < limit
      → drop 1 (last_n limit log) ++ (event ∷ []) ≡ last_n limit (log ++ (event ∷ []))
  last_n_full limit k log event h p =
      let before : length log - limit ≡ k = omega arith in
      let after : length (log ++ (event ∷ [])) - limit ≡ suc k =
        omega (arith, length-append log (event ∷ [])) in
      rw (before, after, drop_more k log) (sym (drop-append (suc k) log (event ∷ []) (omega arith)))

  last_n_short :
      (limit : ℕ) (log : List (BusEvent D)) (event : BusEvent D)
      → length log < limit
      → last_n limit log ++ (event ∷ []) ≡ last_n limit (log ++ (event ∷ []))
  last_n_short limit log event h =
      let before : length log - limit ≡ 0 = omega arith in
      let after : length (log ++ (event ∷ [])) - limit ≡ 0 =
        omega (arith, length-append log (event ∷ [])) in
      rw (before, after) refl

  -- One more event at the end of the log.
  append_history-last_n :
      (limit : ℕ) (log : List (BusEvent D)) (event : BusEvent D)
      → append_history limit event (last_n limit log) ≡ last_n limit (log ++ (event ∷ []))
  unfolding append_history
  append_history-last_n zero log event = last_n_zero log ∙ sym (last_n_zero (log ++ (event ∷ [])))
  append_history-last_n (suc n) log event =
      let kept : length (last_n (suc n) log) ≡ length log - (length log - suc n) =
        length-drop (length log - suc n) log in
      let nz : (suc n == 0) ≡ false = ground arith in
      elim (Bool-cases (length (last_n (suc n) log) == suc n)) [
        | inl full ↦
            rw (nz, full)
              (last_n_full (suc n) (length log - suc n) log event (ground arith) (omega arith))
        | inr room ↦ rw (nz, room) (last_n_short (suc n) log event (ground arith))
      ]

-- What the users of a bus do with it.
pub data Use (D : Type 0) : Type 0 where
  publishing : (ℕ → Bool) → ℕ → BusEvent D → Use D
  subscribing : ℕ → ℕ → ℕ → Use D
  cancelling : ℕ → Use D
  receiving : ℕ → Use D
  closing : Use D

module _ {D : Type 0} where
  abbrev use_once : Use D → Bus D → Bus D
  use_once (publishing ready now event) bus = (publish ready now event bus).1
  use_once (subscribing buffer limit after) bus = (subscribe_replay buffer limit after bus).1
  use_once (cancelling id) bus = unsubscribe id bus
  use_once (receiving id) bus = record bus { subscribers = take_one id bus.subscribers }
  use_once closing bus = close bus

  -- The log with the event that was published, if the bus accepted it.
  abbrev log_once : Use D → Bus D → List (BusEvent D) → List (BusEvent D)
  log_once (publishing ready now event) bus log =
      if (publish ready now event bus).0 then log ++ (stamp now event ∷ []) else log
  log_once _ bus log = log

  unfoldable pub run : List (Use D) → Bus D → List (BusEvent D) → Bus D × List (BusEvent D)
  run [] bus log = (bus, log)
  run (u ∷ rest) bus log = run rest (use_once u bus) (log_once u bus log)

  record Keeps (limit : ℕ) (bus : Bus D) (log : List (BusEvent D)) : Type 0 where
    same_limit : bus.history_limit ≡ limit
    same_history : bus.history ≡ last_n limit log

  publish-Keeps :
      (limit : ℕ) (ready : ℕ → Bool) (now : ℕ) (event : BusEvent D) (bus : Bus D)
      (log : List (BusEvent D))
      → Keeps limit bus log
      → Keeps limit (publish ready now event bus).1 (log_once (publishing ready now event) bus log)
  unfolding publish
  publish-Keeps limit ready now event bus log k = elim (Bool-cases bus.closed) [
    | inl c ↦ rw c (record { same_limit = k.same_limit; same_history = k.same_history })
    | inr o ↦ rw o (record {
      same_limit = k.same_limit;
      same_history =
          rw (k.same_limit, k.same_history) (append_history-last_n limit log (stamp now event));
    })
  ]

  once-Keeps :
      (limit : ℕ) (u : Use D) (bus : Bus D) (log : List (BusEvent D))
      → Keeps limit bus log
      → Keeps limit (use_once u bus) (log_once u bus log)
  unfolding subscribe_replay unsubscribe close
  once-Keeps limit (publishing ready now event) bus log k =
      publish-Keeps limit ready now event bus log k
  once-Keeps limit (subscribing buffer limit' after) bus log k = elim (Bool-cases bus.closed) [
    | inl c ↦ rw c (record { same_limit = k.same_limit; same_history = k.same_history })
    | inr o ↦ rw o (record { same_limit = k.same_limit; same_history = k.same_history })
  ]
  once-Keeps limit (cancelling id) bus log k = record {
    same_limit = k.same_limit;
    same_history = k.same_history;
  }
  once-Keeps limit (receiving id) bus log k = record {
    same_limit = k.same_limit;
    same_history = k.same_history;
  }
  once-Keeps limit closing bus log k = elim (Bool-cases bus.closed) [
    | inl c ↦ rw c (record { same_limit = k.same_limit; same_history = k.same_history })
    | inr o ↦ rw o (record { same_limit = k.same_limit; same_history = k.same_history })
  ]

  run-Keeps :
      (limit : ℕ) (uses : List (Use D)) (bus : Bus D) (log : List (BusEvent D))
      → Keeps limit bus log
      → let (bus', log') = run uses bus log in Keeps limit bus' log'
  unfolding run
  run-Keeps limit [] bus log k = k
  run-Keeps limit (u ∷ rest) bus log k =
      run-Keeps limit rest (use_once u bus) (log_once u bus log) (once-Keeps limit u bus log k)

  -- Whatever sequence of publications, subscriptions, cancellations, receptions and closings a new
  -- bus is used for, its history holds the last accepted events in the order of their publication,
  -- as many as the limit allows.
  pub run-history :
      (limit : ℕ) (uses : List (Use D))
      → let (bus, log) = run uses (new_bus limit) [] in bus.history ≡ last_n limit log
  unfolding new_bus
  run-history limit uses =
      (run-Keeps limit uses (new_bus limit) []
        (record { same_limit = refl; same_history = ground arith })).same_history

  once_closed :
      (u : Use D) (bus : Bus D) (log : List (BusEvent D))
      → bus.closed ≡ true
      → ((use_once u bus).closed ≡ true)
        × ((use_once u bus).history ≡ bus.history)
        × (log_once u bus log ≡ log)
  unfolding publish subscribe_replay unsubscribe close
  once_closed (publishing ready now event) bus log c = rw c (refl, refl, refl)
  once_closed (subscribing buffer limit after) bus log c = rw c (refl, refl, refl)
  once_closed (cancelling id) bus log c = (c, refl, refl)
  once_closed (receiving id) bus log c = (c, refl, refl)
  once_closed closing bus log c = rw c (refl, refl, refl)

  run_closed :
      (uses : List (Use D)) (bus : Bus D) (log : List (BusEvent D))
      → bus.closed ≡ true
      → let (bus', log') = run uses bus log in
        (bus'.closed ≡ true) × (bus'.history ≡ bus.history) × (log' ≡ log)
  unfolding run
  run_closed [] bus log c = (c, refl, refl)
  run_closed (u ∷ rest) bus log c =
      let (c', h, l) = once_closed u bus log c in
      let (c'', h', l') = run_closed rest (use_once u bus) (log_once u bus log) c' in
      (c'', h' ∙ h, l' ∙ l)

  -- Once it was closed, a bus stays closed, accepts no event and keeps the history that it had,
  -- whatever sequence of uses follows.
  pub run-close :
      (uses : List (Use D)) (bus : Bus D) (log : List (BusEvent D))
      → let (bus', log') = run uses (close bus) log in
        (bus'.closed ≡ true) × (bus'.history ≡ bus.history) × (log' ≡ log)
  unfolding close
  run-close uses bus log =
      let (c, h) : ((close bus).closed ≡ true) × ((close bus).history ≡ bus.history) =
        elim (Bool-cases bus.closed) [
          | inl c ↦ rw (c, close) (refl, refl)
          | inr o ↦ rw (o, close) (refl, refl)
        ] in
      let (c', h', l') = run_closed uses (close bus) log c in (c', h' ∙ h, l')
