-- ===== src/RequestFnf/Tests.antt =====
-- The theorems on fire-and-forget at concrete calls.
use rsocket.Prelude.{◌≡◌, ◌≤◌, refl, false, none, some, [], ◌∷◌, ◌++◌}
use rsocket.Prelude.Number.{pos}
use rsocket.Bytes.{Bytes}
use rsocket.Frames.{Frame, RequestFrame, payload}
use rsocket.Streams.{registered_after}
use rsocket.Streams.Runs.{run, total}
use rsocket.RequestFnf.{Requester, construct}
use rsocket.RequestFnf.Outcome.{ready_call, reject_call, cancel_call, call_of, outcome, run-outcome}
use rsocket.RequestFnf.Delivery.{to_respond, to_close, responder_call, called, call_at_most_once}

abbrev six : Bytes
six = 1 ∷ 2 ∷ 3 ∷ 4 ∷ 5 ∷ 6 ∷ []

abbrev asking : Requester
asking = record {
  request = record { body = some six; metadata = some (9 ∷ []) };
  fragment_size = 5;
  done = false;
  stream_id = none;
}

run-outcome_example :
    (run call_of (ready_call (pos 3) ∷ cancel_call ∷ reject_call 1 ∷ []) asking false).0
    ≡ outcome (ready_call (pos 3)) asking
run-outcome_example =
    run-outcome (ready_call (pos 3)) (cancel_call ∷ reject_call 1 ∷ []) asking false refl

-- FOLLOWS
abbrev opening : RequestFrame
opening = record { flags = 0x80; body = some (1 ∷ []); metadata = none; stream_id = pos 3 }

abbrev ending : Frame
ending = payload (record { flags = 0x20; body = some (2 ∷ []); metadata = none; stream_id = pos 3 })

-- The second of the last frames finds no stream.
call_at_most_once_example :
    let (events, s) = construct (λ c. false) opening in
    let (more, s', b) =
      run
        (responder_call (λ c. false))
        (to_respond ending ∷ to_respond ending ∷ to_close ∷ [])
        s
        (registered_after events false) in
    total called (events ++ more) ≤ 1
call_at_most_once_example =
    call_at_most_once (λ c. false) opening (to_respond ending ∷ to_respond ending ∷ to_close ∷ [])
