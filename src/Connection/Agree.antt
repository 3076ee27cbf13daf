-- ===== src/Connection/Agree.antt =====
-- The keep-alive handler and the sender of a connection are paused and resumed together.
use rsocket.Prelude.{ℕ, ◌≡◌, refl, Bool, true, false, Option, none, some, List, [], ◌∷◌, ◌++◌}
use rsocket.Frames.{Frame, keepalive, lease}
use rsocket.KeepAlive as KeepAlive
use rsocket.KeepAlive.{KeepAliveState, paused, running, closed, KeepAliveHandler}
use rsocket.Lease.{LeaseHandler}
use rsocket.Connection.{
  KeepAliveSender, start_sender, pause_sender, ConnectionHandler, Output, leased, handle, pause,
  resume, sender_map,
}

-- What a connection gets until it is closed
pub data Call : Type 0 where
  frame_call : Frame → Call
  pause_call : Call
  resume_call : Call

module _ (duration : ℕ) where
  abbrev pub step : Call → ℕ → ConnectionHandler → List Output × ConnectionHandler
  step (frame_call frame) now s = handle frame now s
  step pause_call now s = ([], pause s)
  step resume_call now s = ([], resume duration now s)

  abbrev pub run : List (Call × ℕ) → ConnectionHandler → List Output × ConnectionHandler
  run [] s = ([], s)
  run ((call, now) ∷ calls) s =
      let (outputs, s') = step call now s in
      let (more, s'') = run calls s' in (outputs ++ more, s'')

abbrev pub is_running : KeepAliveState → Bool
is_running paused = false
is_running running = true
is_running closed = false

-- The sender, if there is one, is in the state of the handler, and its timer is set while it runs.
abbrev pub Agrees : KeepAliveState → Option KeepAliveSender → Type 0
Agrees state none = Unit
Agrees state (some sender) = (sender.state ≡ state) × (sender.interval ≡ is_running state)

-- The states of the two, which are the same
paused_together :
    (last : ℕ) (due : Option ℕ) (a b : KeepAliveState) (interval : Bool)
    → b ≡ a
    → interval ≡ is_running a
    → Agrees
        (KeepAlive.pause (record { last_received = last; timer = due; state = a })).state
        (some (pause_sender (record { state = b; interval = interval })))
unfolding KeepAlive.pause pause_sender
paused_together last due paused paused interval same timer = (refl, timer)
paused_together last due running running interval same timer = (refl, refl)
paused_together last due closed closed interval same timer = (refl, timer)
paused_together last due paused running interval same timer = absurd cc
paused_together last due paused closed interval same timer = absurd cc
paused_together last due running paused interval same timer = absurd cc
paused_together last due running closed interval same timer = absurd cc
paused_together last due closed paused interval same timer = absurd cc
paused_together last due closed running interval same timer = absurd cc

started_together :
    (duration now last : ℕ) (due : Option ℕ) (a b : KeepAliveState) (interval : Bool)
    → b ≡ a
    → interval ≡ is_running a
    → Agrees
        (KeepAlive.start duration now
          (record { last_received = last; timer = due; state = a })).state
        (some (start_sender (record { state = b; interval = interval })))
unfolding KeepAlive.start start_sender
started_together duration now last due paused paused interval same timer = (refl, refl)
started_together duration now last due running running interval same timer = (refl, timer)
started_together duration now last due closed closed interval same timer = (refl, timer)
started_together duration now last due paused running interval same timer = absurd cc
started_together duration now last due paused closed interval same timer = absurd cc
started_together duration now last due running paused interval same timer = absurd cc
started_together duration now last due running closed interval same timer = absurd cc
started_together duration now last due closed paused interval same timer = absurd cc
started_together duration now last due closed running interval same timer = absurd cc

abbrev pub InStep : ConnectionHandler → Type 0
InStep s = Agrees s.keep_alive.state s.sender

pause-InStep : (s : ConnectionHandler) → InStep s → InStep (pause s)
unfolding pause
pause-InStep s h = go s.sender h
  where
    go :
        (o : Option KeepAliveSender)
        → Agrees s.keep_alive.state o
        → Agrees (KeepAlive.pause s.keep_alive).state (sender_map pause_sender o)
    go none h = tt
    go (some x) (same, timer) =
        paused_together s.keep_alive.last_received s.keep_alive.timer s.keep_alive.state x.state
          x.interval same timer

resume-InStep :
    (duration now : ℕ) (s : ConnectionHandler) → InStep s → InStep (resume duration now s)
unfolding resume
resume-InStep duration now s h = go s.sender h
  where
    go :
        (o : Option KeepAliveSender)
        → Agrees s.keep_alive.state o
        → Agrees (KeepAlive.start duration now s.keep_alive).state (sender_map start_sender o)
    go none h = tt
    go (some x) (same, timer) =
        started_together duration now s.keep_alive.last_received s.keep_alive.timer
          s.keep_alive.state x.state x.interval same timer

handle-InStep :
    (frame : Frame) (now : ℕ) (s : ConnectionHandler) → InStep s → InStep (handle frame now s).1
unfolding handle KeepAlive.handle
handle-InStep (keepalive f) now s h = h
handle-InStep (lease f) now s h = go s.leases
  where
    go : (o : Option LeaseHandler) → InStep (leased o (lease f) now s).1
    go none = h
    go (some x) = h
handle-InStep _ now s h = h

-- Whatever frames a connection gets, and however often it is paused and resumed, before it is closed:
-- as long as the sender of keep-alive frames is in the state of the keep-alive handler at first, with
-- its timer set just if it runs, it is so behind all of them.
pub run-InStep :
    (duration : ℕ) (calls : List (Call × ℕ)) (s : ConnectionHandler)
    → InStep s
    → InStep (run duration calls s).1
run-InStep duration [] s h = h
run-InStep duration ((frame_call frame, now) ∷ calls) s h =
    run-InStep duration calls (handle frame now s).1 (handle-InStep frame now s h)
run-InStep duration ((pause_call, now) ∷ calls) s h =
    run-InStep duration calls (pause s) (pause-InStep s h)
run-InStep duration ((resume_call, now) ∷ calls) s h =
    run-InStep duration calls (resume duration now s) (resume-InStep duration now s h)
