-- ===== src/RequestResponse/Tests.antt =====
-- The theorems on request/response streams at concrete calls.
use rsocket.Streams.{given, terminals, registered_after, other_failure}
use rsocket.Prelude.{true, ◌≡◌, ◌≤◌, refl, true, false, none, some, [], ◌∷◌, ◌++◌, inl}
use rsocket.Prelude.Number.{pos}
use rsocket.Frames.{Frame, payload}
use rsocket.RequestResponse.{close}
use rsocket.RequestResponse.Calls.{World, ready_call, frame_call, run}
use rsocket.RequestResponse.Terminal.{run_once}
use rsocket.Bytes.{Bytes}
use rsocket.Prelude.{not}
use rsocket.Frames.{RequestFrame}
use rsocket.Streams.Runs as Runs
use rsocket.Streams.Sending.{Outcome, next, complete}
use rsocket.RequestResponse.Responder.{construct, responder_call, to_respond, to_signal, to_close}
use rsocket.RequestResponse.Answers.{respond_once}
use rsocket.Reassembler.{Payload}

abbrev nine : Bytes
nine = 1 ∷ 2 ∷ 3 ∷ 4 ∷ 5 ∷ 6 ∷ 7 ∷ 8 ∷ 9 ∷ []

abbrev fresh : World
fresh = record {
  stream = record {
    request = record { body = some (1 ∷ 2 ∷ []); metadata = none };
    fragment_size = 0;
    done = false;
    extension = none;
    holder = record { has_fragments = false; body = none; metadata = none };
    stream_id = none;
  };
  registered = false;
}

-- NEXT and COMPLETE
abbrev answer : Frame
answer = payload (record { flags = 0x60; body = some (3 ∷ []); metadata = none; stream_id = pos 1 })

-- The second answer is dropped.
run_once_example :
    terminals (
      (run (ready_call (pos 1) ∷ frame_call answer ∷ frame_call answer ∷ []) fresh).0
      ++ (close
          (some (given 7))
          (run (ready_call (pos 1) ∷ frame_call answer ∷ frame_call answer ∷ []) fresh).1.stream).0)
    ≡ 1
run_once_example =
    run_once (ready_call (pos 1) ∷ frame_call answer ∷ frame_call answer ∷ []) fresh
      (some (given 7)) tt (inl refl) refl

-- It answers, completes and throws.
abbrev hasty : Payload → Outcome
hasty content = record {
  signals = next content true ∷ complete ∷ [];
  thrown = some (other_failure (b'n' ∷ b'o' ∷ []));
}

-- FOLLOWS
abbrev opening : RequestFrame
opening = record { flags = 0x80; body = some (1 ∷ []); metadata = none; stream_id = pos 1 }

-- The rest of the request, twice, and a signal
respond_once_example :
    let calls = to_respond answer ∷ to_respond answer ∷ to_signal complete ∷ to_close ∷ [] in
    let (events, s) = construct hasty opening 4 in
    let (more, s', listed) =
      Runs.run (responder_call hasty) calls s (registered_after events false) in
    (Runs.total Runs.sent_ending (events ++ more) ≤ 1) × (listed ≡ not s'.done)
respond_once_example =
    respond_once hasty opening 4
      (to_respond answer ∷ to_respond answer ∷ to_signal complete ∷ to_close ∷ [])
