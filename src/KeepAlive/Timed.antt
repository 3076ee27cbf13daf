-- ===== src/KeepAlive/Timed.antt =====
-- When the timer of keep-alive is due, and that a silent connection is closed.
use rsocket.Prelude.{
  ℕ, ◌+◌, ◌-◌, ◌≤◌, max, ◌≡◌, refl, true, Option, none, some, List, [], ◌∷◌, ◌++◌, arith, leb,
  if◌then◌else◌, Bool-cases, inl, inr,
}
use rsocket.Frames.{KeepAliveFrame}
use rsocket.KeepAlive.{
  KeepAliveState, paused, running, closed, Event, connection_closed, KeepAliveHandler, handle,
  pause, close, start, timeout_check,
}

-- A timer is set while the handler runs only, and is due 100 ms behind the end of the silence that is
-- allowed at the latest.
abbrev IsTimer : ℕ → ℕ → KeepAliveState → Option ℕ → Type 0
IsTimer duration last state none = Unit
IsTimer duration last state (some due) = (state ≡ running) × (due ≤ last + duration + 100)

abbrev pub IsTimed : ℕ → KeepAliveHandler → Type 0
IsTimed duration s = IsTimer duration s.last_received s.state s.timer

-- The calls that reach the handler.
pub data Call : Type 0 where
  start_call : Call
  frame_call : KeepAliveFrame → Call
  pause_call : Call
  close_call : Call
  timer_call : Call

module _ (duration : ℕ) where
  -- The timer calls when it is due, or later.
  abbrev pub on_timer : Option ℕ → ℕ → KeepAliveHandler → List Event × KeepAliveHandler
  on_timer none now s = ([], s)
  on_timer (some due) now s = if leb due now then timeout_check duration now s else ([], s)

  abbrev pub step : Call → ℕ → KeepAliveHandler → List Event × KeepAliveHandler
  step start_call now s = ([], start duration now s)
  step (frame_call frame) now s = handle frame now s
  step pause_call now s = ([], pause s)
  step close_call now s = ([], close s)
  step timer_call now s = on_timer s.timer now s

  -- Calls, each so long after the one before it.
  abbrev pub run : List (ℕ × Call) → ℕ → KeepAliveHandler → List Event × KeepAliveHandler
  run [] now s = ([], s)
  run ((delay, call) ∷ calls) now s =
      let (events, s') = step call (now + delay) s in
      let (more, s'') = run calls (now + delay) s' in (events ++ more, s'')

  -- What a call keeps: the clock is ahead of the last frame, and the timer is as it should be.
  abbrev Keeps : ℕ → KeepAliveHandler → Type 0
  Keeps now s = (s.last_received ≤ now) × IsTimed duration s

  check-Keeps :
      (now last : ℕ) (timer : Option ℕ)
      → last ≤ now
      → Keeps now
          (timeout_check duration now
            (record { last_received = last; timer = timer; state = running })).1
  unfolding timeout_check
  check-Keeps now last timer past = ground arith

  start-Keeps :
      (now last : ℕ) (timer : Option ℕ) (state : KeepAliveState)
      → Keeps now (record { last_received = last; timer = timer; state = state })
      → Keeps now
          (start duration now (record { last_received = last; timer = timer; state = state }))
  unfolding start
  start-Keeps now last timer paused k = (omega arith, (refl, omega arith))
  start-Keeps now last timer running k = k
  start-Keeps now last timer closed k = k

  pause-Keeps :
      (now last : ℕ) (timer : Option ℕ) (state : KeepAliveState)
      → Keeps now (record { last_received = last; timer = timer; state = state })
      → Keeps now (pause (record { last_received = last; timer = timer; state = state }))
  unfolding pause
  pause-Keeps now last timer paused k = k
  pause-Keeps now last timer running (past, k) = (past, tt)
  pause-Keeps now last timer closed k = k

  frame-Keeps :
      (frame : KeepAliveFrame) (now last : ℕ) (timer : Option ℕ) (state : KeepAliveState)
      → Keeps now (record { last_received = last; timer = timer; state = state })
      → Keeps now
          (handle frame now (record { last_received = last; timer = timer; state = state })).1
  unfolding handle
  frame-Keeps frame now last none state k = (omega arith, tt)
  frame-Keeps frame now last (some due) state (past, (is_running, bound)) =
      (omega arith, (is_running, omega arith))

  timer-Keeps :
      (now last : ℕ) (timer : Option ℕ) (state : KeepAliveState)
      → Keeps now (record { last_received = last; timer = timer; state = state })
      → Keeps now
          (on_timer timer now (record { last_received = last; timer = timer; state = state })).1
  timer-Keeps now last none state k = k
  timer-Keeps now last (some due) paused (past, (is_running, bound)) = absurd cc
  timer-Keeps now last (some due) closed (past, (is_running, bound)) = absurd cc
  timer-Keeps now last (some due) running (past, (is_running, bound)) =
      elim (Bool-cases (leb due now)) [
        | inl fires ↦ rw fires (check-Keeps now last (some due) past)
        | inr early ↦ rw early (past, (is_running, bound))
      ]

  step-Keeps :
      (call : Call) (now : ℕ) (s : KeepAliveHandler) → Keeps now s → Keeps now (step call now s).1
  unfolding close
  step-Keeps start_call now s k = start-Keeps now s.last_received s.timer s.state k
  step-Keeps (frame_call frame) now s k = frame-Keeps frame now s.last_received s.timer s.state k
  step-Keeps pause_call now s k = pause-Keeps now s.last_received s.timer s.state k
  step-Keeps close_call now s (past, k) = (past, tt)
  step-Keeps timer_call now s k = timer-Keeps now s.last_received s.timer s.state k

  later : (now delay : ℕ) (s : KeepAliveHandler) → Keeps now s → Keeps (now + delay) s
  later now delay s (past, k) = (omega arith, k)

  -- Whatever calls the handler gets, its timer is set while it runs only, and is due at the latest
  -- 100 ms behind the end of the silence that is allowed, if that holds before and the last frame
  -- lies in the past.
  pub run-IsTimed :
      (calls : List (ℕ × Call)) (now : ℕ) (s : KeepAliveHandler)
      → s.last_received ≤ now
      → IsTimed duration s
      → IsTimed duration (run calls now s).1
  run-IsTimed [] now s past k = k
  run-IsTimed ((delay, call) ∷ calls) now s past k =
      let (past', k') = step-Keeps call (now + delay) s (later now delay s (past, k)) in
      run-IsTimed calls (now + delay) (step call (now + delay) s).1 past' k'

  -- A check that sets the timer again is followed, if no frame comes, by one that closes the
  -- connection.
  pub timeout_check_closes :
      (s : KeepAliveHandler) (now now' due : ℕ)
      → s.last_received ≤ now
      → (timeout_check duration now s).1.timer ≡ some due
      → due ≤ now'
      → (timeout_check duration now' (timeout_check duration now s).1).0 ≡ connection_closed ∷ []
  unfolding timeout_check
  timeout_check_closes s now now' due past e h =
      let last = s.last_received in
      elim (Bool-cases (leb duration (now - last))) [
        | inl silent ↦ let e' = rw silent at e in absurd cc
        | inr alive ↦
            let e' = rw alive at e in
            let at : now + max 100 (duration - (now - last)) ≡ due = cc in
            let late : leb duration (now' - last) ≡ true = ground arith in rw (alive, late) refl
      ]
