-- ===== src/Connection/Tests.antt =====
-- The theorem on connections at concrete calls.
use rsocket.Prelude.{ℕ, ◌≡◌, refl, false, none, some, [], ◌∷◌, List}
use rsocket.KeepAlive.{paused}
use rsocket.Connection.{
  ConnectionHandler, new_sender, tick, keep_alive_frame, pause_sender, start_sender,
}
use rsocket.Connection.Agree.{Call, frame_call, pause_call, resume_call, run, InStep, run-InStep}

abbrev fresh : ConnectionHandler
fresh = record {
  keep_alive = record { last_received = 0; timer = none; state = paused };
  sender = some new_sender;
  leases = none;
  has_metadata_push = false;
  has_close = false;
}

abbrev calls : List (Call × ℕ)
calls =
    (resume_call, 10)
    ∷ (frame_call keep_alive_frame, 20)
    ∷ (pause_call, 30)
    ∷ (resume_call, 40)
    ∷ []

run-InStep_example : InStep (run 100 calls fresh).1
run-InStep_example = run-InStep 100 calls fresh (refl, refl)

-- The sender asks for an acknowledgement while it runs, and is silent when it is paused.
ticks :
    (tick (start_sender new_sender) ≡ keep_alive_frame ∷ [])
    × (tick (pause_sender (start_sender new_sender)) ≡ [])
unfolding tick start_sender pause_sender
ticks = (refl, refl)
