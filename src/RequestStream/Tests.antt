-- ===== src/RequestStream/Tests.antt =====
-- The theorems on request/stream streams at concrete calls.
use rsocket.Prelude.{◌≡◌, ◌≤◌, refl, not, false, Option, none, some, [], ◌∷◌, ◌++◌, map, arith, inl}
use rsocket.Prelude.Number.{Number, pos, negsuc}
use rsocket.Bytes.{Bytes}
use rsocket.Frames.{Frame, RequestManyFrame, payload, request_n}
use rsocket.Fragmenter.{
  is_fragmentable, fragment_with_request_n, fragments, metadata_part, first_data, data_loop,
}
use rsocket.Frames.Flags.{has_complete, has_follows}
use rsocket.Reassembler.{Payload}
use rsocket.Streams.{registered_after}
use rsocket.Streams.Runs.{run, total, sent_ending}
use rsocket.Streams.Orderly.{Orderly}
use rsocket.Streams.Sending.{Outcome, next, complete}
use rsocket.RequestStream.{
  Requester, close, request_more, handle_ready, handle, handle_last, request_frames,
}
use rsocket.RequestStream.Calls.{ready_call, frame_call, request_call, cancel_call, call_of}
use rsocket.RequestStream.Terminal.{run-Orderly}
use rsocket.RequestStream.Sends.{counts_of, asked}
use rsocket.RequestStream.Counts.{added, counts_of-run}
use rsocket.RequestStream.Responder.{construct, responder_call, to_respond, to_signal, to_close}
use rsocket.RequestStream.Answers.{stream_respond_once}
use rsocket.RequestStream.Low.{low}
use rsocket.RequestStream.Positive.{run-low}

abbrev six : Bytes
six = 1 ∷ 2 ∷ 3 ∷ 4 ∷ 5 ∷ 6 ∷ []

abbrev asking : Requester
asking = record {
  request = record { body = some six; metadata = none };
  fragment_size = 7;
  initial_request_n = pos 2;
  done = false;
  extension = none;
  holder = record { has_fragments = false; body = none; metadata = none };
  stream_id = none;
}

-- NEXT, and NEXT with COMPLETE
abbrev item : Frame
item = payload (record { flags = 0x20; body = some (3 ∷ []); metadata = none; stream_id = pos 1 })

abbrev last : Frame
last = payload (record { flags = 0x60; body = some (4 ∷ []); metadata = none; stream_id = pos 1 })

-- The connection ends after the stream.
run-Orderly_example :
    let (events, s', b') =
      run call_of
        (ready_call (pos 1)
          ∷ frame_call item
          ∷ frame_call last
          ∷ frame_call item
          ∷ cancel_call
          ∷ [])
        asking
        false in
    Orderly false (events ++ (close none s').0)
run-Orderly_example =
    run-Orderly
      (ready_call (pos 1) ∷ frame_call item ∷ frame_call last ∷ frame_call item ∷ cancel_call ∷ [])
      asking false none (inl refl)

-- The request is cut, and an item comes between.
counts_of-run_example :
    let calls = request_call (pos 4) ∷ frame_call item ∷ request_call (pos 5) ∷ [] in
    counts_of
      (run call_of (map request_call (pos 3 ∷ []) ++ (ready_call (pos 1) ∷ calls)) asking false).0
    ≡ added (pos 2) (pos 3 ∷ []) ∷ asked calls
unfolding is_fragmentable request_more handle_ready handle handle_last request_frames
    fragment_with_request_n fragments metadata_part first_data data_loop has_complete has_follows
counts_of-run_example =
    counts_of-run (pos 3 ∷ []) (pos 1)
      (request_call (pos 4) ∷ frame_call item ∷ request_call (pos 5) ∷ []) asking false tt refl refl
      (λ e. (omega arith, omega arith)) refl

-- It sends one item and throws nothing.
abbrev one_item : Payload → Option Number → Outcome
one_item content n = record { signals = next content false ∷ []; thrown = none }

abbrev opening : RequestManyFrame
opening = record {
  flags = 0x00;
  body = some (1 ∷ []);
  metadata = none;
  request_n = pos 1;
  stream_id = pos 1;
}

-- REQUEST_N with -1
abbrev negative : Frame
negative = request_n (record { flags = 0; request_n = negsuc 0; stream_id = pos 1 })

stream_respond_once_example :
    let calls = to_signal complete ∷ to_respond negative ∷ to_close ∷ [] in
    let (events, s) = construct one_item opening 4 in
    let (more, s', listed) =
      run (responder_call one_item) calls s (registered_after events false) in
    (total sent_ending (events ++ more) ≤ 1) × (listed ≡ not s'.done)
stream_respond_once_example =
    stream_respond_once one_item opening 4
      (to_signal complete ∷ to_respond negative ∷ to_close ∷ [])

run-low_example :
    let calls = to_respond negative ∷ to_close ∷ [] in
    let (events, s) = construct one_item opening 4 in
    let (more, s', listed) =
      run (responder_call one_item) calls s (registered_after events false) in
    total low (events ++ more) ≡ 0
run-low_example = run-low one_item opening 4 (to_respond negative ∷ to_close ∷ [])
