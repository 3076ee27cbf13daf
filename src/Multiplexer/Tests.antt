-- ===== src/Multiplexer/Tests.antt =====
-- The theorems on the multiplexer at a concrete run.
use rsocket.Prelude.{◌≡◌, refl, true, false, none, some, List, [], ◌∷◌, map, inl, if◌then◌else◌}
use rsocket.Prelude.Number.{Number, pos, negsuc, eq}
use rsocket.Frames.{
  Frame, request_response, payload, is_connection, stream_id_of, is_request, type_of,
}
use rsocket.Frames.Flags
use rsocket.StreamIds as StreamIds
use rsocket.Fragmenter.{is_fragmentable}
use rsocket.RequestResponse.Responder as ResponseResponder
use rsocket.Reassembler.{Payload}
use rsocket.Streams.Sending as Sending
use rsocket.RequestChannel as RequestChannel
use rsocket.RequestChannel.Responder.{complete}
use rsocket.Multiplexer.Handlers.{RSocket, open_channel, ready, deliver, serve}
use rsocket.Multiplexer.{Multiplexer, create_request_stream, handle, lookup}
use rsocket.Multiplexer.Inputs.{Input, receive, start_stream, use_stream_of, run, new_multiplexer}
use rsocket.Multiplexer.Entries.{Entries}
use rsocket.Multiplexer.Streams.{is_open}
use rsocket.Multiplexer.Live.{run-AllOpen}
use rsocket.Multiplexer.Routing.{route, lookup-handle}

abbrev asking : RequestChannel.Requester
asking = record {
  request = record { body = some (1 ∷ []); metadata = none };
  fragment_size = 0;
  initial_request_n = pos 1;
  is_complete = false;
  inbound_done = false;
  outbound_done = false;
  extension = none;
  holder = record { has_fragments = false; body = none; metadata = none };
  stream_id = none;
}

-- It answers later.
abbrev waiting : Payload → Sending.Outcome
waiting content = record { signals = []; thrown = none }

abbrev serving : RSocket
serving = record {
  fire_and_forget = none;
  request_response = some waiting;
  request_stream = none;
  request_channel = none;
}

abbrev asked : Frame
asked =
    request_response
      (record { flags = 0; body = some (2 ∷ []); metadata = none; stream_id = pos 2 })

-- NEXT
abbrev item : Frame
item = payload (record { flags = 0x20; body = some (3 ∷ []); metadata = none; stream_id = pos 1 })

-- A channel is opened with the id 1, a request comes with the id 2, and the channel completes its
-- own direction.
abbrev inputs : List Input
inputs =
    start_stream 0 (open_channel asking)
    ∷ receive item
    ∷ receive asked
    ∷ use_stream_of (pos 1) complete
    ∷ []

abbrev after : Multiplexer
after = (run serving 0 inputs (new_multiplexer (negsuc 0))).1

abbrev ids : List Number
ids = map (λ e. e.0) after.registry

stays_live : (after.deferred.done ≡ false) × (ids ≡ (pos 1 ∷ pos 2 ∷ []))
unfolding create_request_stream handle is_connection stream_id_of is_request type_of StreamIds.next
    StreamIds.search StreamIds.search_loop ready deliver serve RequestChannel.handle_ready
    RequestChannel.request_frames is_fragmentable RequestChannel.handle
    RequestChannel.handle_payload RequestChannel.handle_last Flags.has_complete Flags.has_follows
    Flags.has_next RequestChannel.complete_stream ResponseResponder.construct
    ResponseResponder.call_handler
stays_live = (refl, refl)

run-AllOpen_example :
    Entries (λ h. is_open h ≡ true) (run serving 0 inputs (new_multiplexer (negsuc 0))).1.registry
run-AllOpen_example =
    run-AllOpen serving 0 (negsuc 0) inputs ((refl, inl refl), (tt, (tt, (tt, tt)))) stays_live.0

-- NEXT and COMPLETE for the channel, which leaves the registry with it; the other stream stays.
abbrev last : Frame
last = payload (record { flags = 0x60; body = some (4 ∷ []); metadata = none; stream_id = pos 1 })

lookup-handle_example :
    let m = (run serving 0 inputs (new_multiplexer (negsuc 0))).1 in
    let (outputs, m') = handle serving 0 last m in
    let (told, left) = route serving 0 (lookup (stream_id_of last) m.registry) last in
    (outputs ≡ told)
    × (lookup (pos 2) m'.registry
        ≡ (if eq (pos 2) (stream_id_of last) then left else lookup (pos 2) m.registry))
lookup-handle_example = lookup-handle serving 0 (negsuc 0) inputs last (pos 2)
