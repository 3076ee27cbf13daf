-- ===== src/RequestChannel/Tests.antt =====
-- The theorems on channels at concrete calls.
use rsocket.Prelude.{◌≡◌, ◌⊎◌, refl, not, Bool, true, false, Option, none, some, [], ◌∷◌, inl}
use rsocket.Prelude.Number.{Number, pos}
use rsocket.Frames.{Frame, RequestManyFrame, payload}
use rsocket.Reassembler.{Payload}
use rsocket.Streams.{registered_after, other_failure}
use rsocket.Streams.Runs.{run}
use rsocket.RequestChannel.{Requester}
use rsocket.RequestChannel.Calls.{
  ready_call, frame_call, next_call, close_call, any_closes, call_of, IsListed,
}
use rsocket.RequestChannel.Closed.{IsDone}
use rsocket.RequestChannel.Listed.{run-IsListed}
use rsocket.RequestChannel.Responder.{Outcome, next, both_done, complete}
use rsocket.RequestChannel.Serving.{construct, responder_call, to_respond, to_signal}
use rsocket.RequestChannel.Answering.{run-both_done}

abbrev asking : Requester
asking = record {
  request = record { body = some (1 ∷ []); metadata = none };
  fragment_size = 0;
  initial_request_n = pos 1;
  is_complete = false;
  inbound_done = false;
  outbound_done = false;
  extension = none;
  holder = record { has_fragments = false; body = none; metadata = none };
  stream_id = none;
}

-- NEXT and COMPLETE
abbrev last : Frame
last = payload (record { flags = 0x60; body = some (4 ∷ []); metadata = none; stream_id = pos 1 })

run-IsListed_example :
    let calls =
      ready_call (pos 1)
      ∷ next_call asking.request false
      ∷ frame_call last
      ∷ close_call none
      ∷ [] in
    let (events, s', b') = run call_of calls asking false in
    IsListed s'.stream_id s' b' ⊎ ((any_closes calls ≡ true) × IsDone s')
run-IsListed_example =
    run-IsListed
      (ready_call (pos 1) ∷ next_call asking.request false ∷ frame_call last ∷ close_call none ∷ [])
      asking false (refl, inl refl)

-- It sends one payload and throws.
abbrev throwing : Payload → Option Number → Bool → Outcome
throwing content n is_last = record {
  signals = next content false ∷ [];
  thrown = some (other_failure (b'n' ∷ b'o' ∷ []));
}

abbrev opening : RequestManyFrame
opening = record {
  flags = 0x80;
  body = some (1 ∷ []);
  metadata = none;
  request_n = pos 1;
  stream_id = pos 1;
}

run-both_done_example :
    let calls = to_respond last ∷ to_signal complete ∷ [] in
    let (events, s) = construct throwing opening 4 in
    let (more, s', listed) =
      run (responder_call throwing) calls s (registered_after events false) in
    listed ≡ not (both_done s')
run-both_done_example = run-both_done throwing opening 4 (to_respond last ∷ to_signal complete ∷ [])
