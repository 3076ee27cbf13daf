-- ===== src/KeepAlive/Tests.antt =====
-- The theorems on keep-alive at concrete times.
use rsocket.Prelude.{ℕ, ◌≡◌, refl, List, [], ◌∷◌, none, arith}
use rsocket.Prelude.Number.{pos}
use rsocket.Frames.Flags
use rsocket.Frames.{KeepAliveFrame}
use rsocket.KeepAlive.{KeepAliveHandler, paused, handle, start, timeout_check, connection_closed}
use rsocket.KeepAlive.Timed.{
  Call, start_call, frame_call, timer_call, IsTimed, run, run-IsTimed, timeout_check_closes,
}

abbrev fresh : KeepAliveHandler
fresh = record { last_received = 0; timer = none; state = paused }

abbrev alive : KeepAliveFrame
alive = record { flags = 0; body = none; last_received_position = pos 0 }

abbrev calls : List (ℕ × Call)
calls = (5, start_call) ∷ (300, frame_call alive) ∷ (700, timer_call) ∷ (300, timer_call) ∷ []

-- Silent from 305 on, with 1000 ms allowed: the check at 1305 closes the connection.
run-calls : (run 1000 calls 0 fresh).0 ≡ connection_closed ∷ []
unfolding start handle timeout_check Flags.has_respond
run-calls = refl

run-IsTimed_example : IsTimed 1000 (run 1000 calls 0 fresh).1
run-IsTimed_example = run-IsTimed 1000 calls 0 fresh (omega arith) tt

timeout_check_closes_example :
    (timeout_check 1000 1305 (timeout_check 1000 1005 (record fresh { last_received = 305 })).1).0
    ≡ connection_closed ∷ []
unfolding timeout_check
timeout_check_closes_example =
    timeout_check_closes 1000 (record fresh { last_received = 305 }) 1005 1305 1305 (omega arith)
      refl (omega arith)
