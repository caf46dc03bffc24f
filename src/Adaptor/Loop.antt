-- ===== src/Adaptor/Loop.antt =====
-- Dispatch: which messages the adaptor takes, and that its event loop ends.
use nabud.Prelude.{
  ℕ, zero, suc, ◌-◌, ◌≤◌, ◌<◌, ◌≡◌, refl, arith, Bool, true, false, leb, ◌&&◌, ◌==◌, if◌then◌else◌,
  Option, none, some,
}
use nabud.Prelude.{Bool-cases, ◌⊎◌, inl, inr}
use nabud.Prelude.Monad.{M, Outcome, done, blocked, fault, pure}
use nabud.Prelude.Measure.{Within, Quiet, Within-bind_down, Quiet-bind, Quiet-pure}
use nabud.Proto.{byte_at}
use nabud.ConnIo.{ConnIo, conn_io_recv_byte, conn_io_start_watchdog, conn_io_stop_watchdog}
use nabud.ConnIo.Rounds.{rounds_left, recv_byte-rounds}
use nabud.Adaptor.{NabuConnection, Services, on_io}
use nabud.Adaptor.Rounds.{left, on_io-Quiet, if-Quiet}
use nabud.Adaptor.Handlers.{
  ServicesQuiet, reset-Quiet, packet_request-Quiet, change_channel-Quiet, mystery-Quiet,
  get_status-Quiet, start_up-Quiet,
}
use nabud.Adaptor.Messages.{
  adaptor_msg_types, run_handler, adaptor_msg_classic, dispatch_request, loop_round,
  adaptor_event_loop, nabu_msg_reset, nabu_msg_classic_last,
}
use nabud.Adaptor.Messages.{
  adaptor_msg_reset, adaptor_msg_mystery, adaptor_msg_get_status, adaptor_msg_start_up,
  adaptor_msg_packet_request, adaptor_msg_change_channel,
}

-- The result of a run is `b`, if it has one.
abbrev pub Returns : {S : Type 0} → Bool → Outcome (Bool × S) → Type 0
Returns b (done (a, s)) = a ≡ b
Returns b blocked = Unit
Returns b fault = Unit

zoom-down :
    {R A : Type 0}
    → (n : ℕ) (c : NabuConnection R) (o : Outcome (A × ConnIo))
    → Within (λ d. suc (rounds_left d)) n o
    → Within
        (λ d. suc (left d))
        n
        (elim o [ done (a, t) ↦ done (a, record c { io = t }) | blocked ↦ blocked | fault ↦ fault ])
zoom-down n c (done (a, t)) h = h
zoom-down n c blocked h = tt
zoom-down n c fault h = tt

-- A run of the event loop that has come to its end, and has not used up its fuel before.
abbrev pub Ends : {S : Type 0} → Outcome (Option (Unit {0}) × S) → Type 0
Ends (done (none, s)) = ⊥
Ends (done (some x, s)) = Unit
Ends blocked = Unit
Ends fault = Unit

module _ (sv : Services) where
  open sv use {Rest}

  OptionQuiet : Option (M (NabuConnection Rest) (Unit {0})) → Type 0
  OptionQuiet none = Unit
  OptionQuiet (some m) = Quiet left m

  pick-Quiet :
      (b : Bool) (m : M (NabuConnection Rest) (Unit {0}))
      (o : Option (M (NabuConnection Rest) (Unit {0})))
      → Quiet left m
      → OptionQuiet o
      → OptionQuiet (if b then some m else o)
  unfolding OptionQuiet
  pick-Quiet true m o h k = h
  pick-Quiet false m o h k = k

  types-Quiet : ServicesQuiet sv → (idx : ℕ) → OptionQuiet (adaptor_msg_types sv idx)
  unfolding adaptor_msg_types
  types-Quiet (load, unload, select, reboot, retronet, nhacp) idx =
      pick-Quiet (idx == 0) _ _ (reset-Quiet sv reboot) (
        pick-Quiet (idx == 1) _ _ mystery-Quiet (
          pick-Quiet (idx == 2) _ _ get_status-Quiet (
            pick-Quiet (idx == 3) _ _ start_up-Quiet (
              pick-Quiet (idx == 4) _ _ (packet_request-Quiet sv load unload) (
                pick-Quiet (idx == 5) _ none (change_channel-Quiet sv select)
                  (unfold OptionQuiet in tt))))))

  run_handler-Quiet :
      (o : Option (M (NabuConnection Rest) (Unit {0})))
      → OptionQuiet o
      → Quiet left (run_handler sv o)
  unfolding OptionQuiet run_handler
  run_handler-Quiet none h = Quiet-pure left false
  run_handler-Quiet (some m) h = Quiet-bind left m _ h (λ _. Quiet-pure left true)

  classic-Quiet : ServicesQuiet sv → (msg : ℕ) → Quiet left (adaptor_msg_classic sv msg)
  unfolding adaptor_msg_classic
  classic-Quiet q msg =
      if-Quiet (leb nabu_msg_reset msg && leb msg nabu_msg_classic_last) _ _
        (run_handler-Quiet (adaptor_msg_types sv (msg - nabu_msg_reset))
          (types-Quiet q (msg - nabu_msg_reset)))
        (Quiet-pure left false)

  dispatch-Quiet : ServicesQuiet sv → (msg : ℕ) → Quiet left (dispatch_request sv msg)
  unfolding dispatch_request
  dispatch-Quiet q msg =
      let (load, unload, select, reboot, retronet, nhacp) = q in
      Quiet-bind left (adaptor_msg_classic sv msg) _ (classic-Quiet q msg) (λ classic.
        if-Quiet classic _ _ (Quiet-pure left tt) (
          Quiet-bind left (sv.retronet_request msg) _ (retronet msg) (λ taken.
            if-Quiet taken _ _ (Quiet-pure left tt)
              (Quiet-bind left (sv.nhacp_request msg) _ (nhacp msg) (λ _. Quiet-pure left tt)))))

  round-Quiet :
      ServicesQuiet sv
      → (c : NabuConnection Rest) → Within (λ d. suc (left d)) (left c) (loop_round sv c)
  unfolding loop_round conn_io_stop_watchdog conn_io_start_watchdog
  round-Quiet q c =
      let io : ConnIo = record c.io { watchdog = 0 } in
      Within-bind_down left (left c) _ _
        (zoom-down (left c) c (conn_io_recv_byte io) (recv_byte-rounds io))
        (λ (received, got).
          if-Quiet received _ _
            (Quiet-bind left (on_io (conn_io_start_watchdog 10)) _
              (on_io-Quiet (conn_io_start_watchdog 10) (record { run = λ d. omega arith }))
              (λ _.
                Quiet-bind left (dispatch_request sv (byte_at got 0)) _
                  (dispatch-Quiet q (byte_at got 0)) (λ _. Quiet-pure left true)))
            (record { run = λ d. omega arith }))

  loop-Ends :
      (fuel : ℕ) (o : Outcome (Bool × NabuConnection Rest)) (n : ℕ)
      → Within (λ d. suc (left d)) n o
      → ((c : NabuConnection Rest) → left c < n → Ends (adaptor_event_loop sv fuel c))
      → Ends (elim o [
        | done (more, c) ↦ (if more then adaptor_event_loop sv fuel else pure (some tt)) c
        | blocked ↦ blocked
        | fault ↦ fault
      ])
  loop-Ends fuel (done (true, c)) n h k = k c (omega arith)
  loop-Ends fuel (done (false, c)) n h k = tt
  loop-Ends fuel blocked n h k = tt
  loop-Ends fuel fault n h k = tt

  -- If the other components use up rounds of reception at most, the event loop ends with a fuel of
  -- more than the rounds to come: it comes to its regular end, waits for a round that never comes,
  -- or runs into a fault, but it does not go round without taking a round.
  pub event_loop-Ends :
      (fuel : ℕ) (c : NabuConnection Rest)
      → ServicesQuiet sv
      → left c < fuel
      → Ends (adaptor_event_loop sv fuel c)
  unfolding adaptor_event_loop
  event_loop-Ends zero c q h = absurd (omega arith)
  event_loop-Ends (suc fuel) c q h =
      loop-Ends fuel (loop_round sv c) (left c) (round-Quiet q c)
        (λ d k. event_loop-Ends fuel d q (omega arith))

  then-Returns :
      (o : Outcome (Unit {0} × NabuConnection Rest))
      → Returns true (elim o [ done (a, c) ↦ pure true c | blocked ↦ blocked | fault ↦ fault ])
  then-Returns (done (a, c)) = refl
  then-Returns blocked = tt
  then-Returns fault = tt

  types_found :
      (idx : ℕ)
      → idx ≤ 5
      → (m : M (NabuConnection Rest) (Unit {0})) × (adaptor_msg_types sv idx ≡ some m)
  unfolding adaptor_msg_types
  types_found zero h = (adaptor_msg_reset sv, refl)
  types_found (suc zero) h = (adaptor_msg_mystery, refl)
  types_found (suc (suc zero)) h = (adaptor_msg_get_status, refl)
  types_found (suc (suc (suc zero))) h = (adaptor_msg_start_up, refl)
  types_found (suc (suc (suc (suc zero)))) h = (adaptor_msg_packet_request sv, refl)
  types_found (suc (suc (suc (suc (suc zero))))) h = (adaptor_msg_change_channel sv, refl)
  types_found (suc (suc (suc (suc (suc (suc idx)))))) h = absurd (omega arith)

  found-Returns :
      (o : Option (M (NabuConnection Rest) (Unit {0}))) (m : M (NabuConnection Rest) (Unit {0}))
      (c : NabuConnection Rest)
      → o ≡ some m
      → Returns true (run_handler sv o c)
  unfolding run_handler
  found-Returns o m c e = rw e (then-Returns (m c))

  -- The messages from 0x80 to 0x85 are the classic ones: each has a handler, and if the handler
  -- comes to an end the request is taken. Any other message is left alone, and so is the state.
  pub classic_cases :
      (msg : ℕ) (c : NabuConnection Rest)
      → ((0x80 ≤ msg) × (msg ≤ 0x85) × Returns true (adaptor_msg_classic sv msg c))
        ⊎ (¬ ((0x80 ≤ msg) × (msg ≤ 0x85)) × (adaptor_msg_classic sv msg c ≡ done (false, c)))
  unfolding adaptor_msg_classic
  classic_cases msg c =
      elim (Bool-cases (leb nabu_msg_reset msg && leb msg nabu_msg_classic_last)) [
        | inl e ↦
            let (m, found) = types_found (msg - nabu_msg_reset) (ground arith) in
            inl (
              ground arith,
              ground arith,
              rw e (found-Returns (adaptor_msg_types sv (msg - nabu_msg_reset)) m c found),
            )
        | inr e ↦ inr (λ h. ground arith, rw e refl)
      ]
