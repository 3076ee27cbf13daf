-- ===== src/RequestChannel/Serving.antt =====
-- packages/rsocket-core/src/RequestChannelStream.ts: what the responder of a channel does with its request
-- and with the frames that reach it.
use rsocket.Prelude.{
  ℕ, Bool, true, false, not, ◌&&◌, ◌||◌, Option, none, some, List, [], ◌∷◌, ◌++◌, if◌then◌else◌,
}
use rsocket.Prelude.Number.{Number, pos, lt}
use rsocket.Frames.{
  Frame, PayloadFrame, CancelFrame, ErrorFrame, RequestManyFrame, RequestNFrame, ExtFrame,
  as_payload, as_cancel, as_request_n, as_error, as_ext, type_of,
}
use rsocket.Frames.Flags
use rsocket.Frames.FrameTypes
use rsocket.Reassembler as Reassembler
use rsocket.Reassembler.{Payload, FragmentsHolder}
use rsocket.Streams.{
  Failure, rsocket_failure, StreamError, remote, canceled_by, failed, Event, sent, connected,
  disconnected, on_next, on_complete, on_error, on_extension, channel_called, requested,
  receiver_cancelled, terminal_of, response_of,
}
use rsocket.Streams.Messages.{codes, text_of, unexpected_type, during_reassembly, invalid_request_n}
use rsocket.Streams.Sending.{canceled, error_frame}
use rsocket.RequestChannel.Responder.{
  both_done, disconnect_if, fail_stream, signalled, signalled_all, settled, Signal, Outcome,
  Responder,
}

-- The signals to the receiver when both directions end at once
abbrev pub parting : Bool → Bool → Bool → StreamError → List Event
parting has_receiver inbound_done outbound_done e =
    if has_receiver
    then (if outbound_done then [] else receiver_cancelled ∷ [])
      ++ (if inbound_done then [] else on_error e ∷ [])
    else []

abbrev pub ended : Responder → Responder
ended s = record s {
  inbound_done = true;
  outbound_done = true;
  holder = Reassembler.cancel s.holder;
}

abbrev pub closing : Bool → Bool → Bool → Option StreamError → List Event
closing has_receiver inbound_done outbound_done e =
    if has_receiver
    then (if outbound_done then [] else receiver_cancelled ∷ [])
      ++ (if inbound_done then [] else terminal_of e ∷ [])
    else []

unfoldable pub close : Option StreamError → Responder → List Event × Responder
close e s =
    if both_done s
    then ([], s)
    else (closing s.has_receiver s.inbound_done s.outbound_done e, ended s)

-- The end of `handle`, behind its `switch`
unfoldable pub refuse : List ℕ → Responder → List Event × Responder
refuse message s =
    let (events, s') = close (some (canceled_by message)) s in
    (sent (error_frame s.stream_id canceled message) ∷ disconnected ∷ events, s')

unfoldable pub invalid_initial : Number → Failure
invalid_initial n = rsocket_failure canceled (
    codes "Invalid REQUEST_CHANNEL frame: initial requestN must be greater than 0, but got ["
    ++ (text_of n ++ codes "]"))

-- ERROR and CANCEL
unfoldable pub handle_end : StreamError → Responder → List Event × Responder
handle_end e s = (disconnected ∷ parting s.has_receiver s.inbound_done s.outbound_done e, ended s)

unfoldable pub handle_request_n : RequestNFrame → Responder → List Event × Responder
handle_request_n f s =
    if not s.has_receiver || s.holder.has_fragments
    then refuse (during_reassembly FrameTypes.request_n) s
    else (if lt f.request_n (pos 1)
        then refuse (invalid_request_n f.request_n) s
        else (requested f.request_n ∷ [], s))

unfoldable pub handle_ext : ExtFrame → Responder → List Event × Responder
handle_ext f s =
    if not s.has_receiver || s.holder.has_fragments
    then refuse (during_reassembly FrameTypes.ext) s
    else (on_extension f.extended_type f.extended_content (Flags.has_ignore f.flags) ∷ [], s)

-- A PAYLOAD that no other one follows, when there is a receiver
unfoldable pub handle_late : PayloadFrame → Responder → List Event × Responder
handle_late f s =
    let complete = Flags.has_complete f.flags in
    let (content, holder) = response_of s.holder f.body f.metadata in
    let left = disconnect_if (complete && s.outbound_done) in
    let s' = record s { inbound_done = s.inbound_done || complete; holder = holder } in
    if complete && not (Flags.has_next f.flags)
    then (left ++ (on_complete ∷ []), s')
    else (left ++ (on_next content complete ∷ []), s')

module _ (handler : Payload → Option Number → Bool → Outcome) where
  unfoldable pub call_handler : Payload → Option Number → Bool → Responder → List Event × Responder
  call_handler content n is_last s =
      let (events, s') = signalled_all (handler content n is_last).signals s in
      let (more, s'') = settled (handler content n is_last).thrown s' in
      (channel_called content n is_last ∷ (events ++ more), s'')

  -- The constructor behind `connect`
  unfoldable pub construct_rest : RequestManyFrame → Responder → List Event × Responder
  construct_rest frame s =
      let is_last = Flags.has_complete frame.flags in
      let rejected = fail_stream (invalid_initial frame.request_n) s in
      let whole =
        call_handler (record { body = frame.body; metadata = frame.metadata })
          (some frame.request_n) is_last (record s { inbound_done = is_last }) in
      if lt frame.request_n (pos 1)
      then rejected
      else (if Flags.has_follows frame.flags
          then (
            [],
            record s {
              initial_request_n = some frame.request_n;
              is_complete = is_last;
              holder = Reassembler.add s.holder frame.body frame.metadata;
            },
          )
          else whole)

  unfoldable pub construct : RequestManyFrame → ℕ → List Event × Responder
  construct frame fragment_size =
      let (events, s) = construct_rest frame (record {
        stream_id = frame.stream_id;
        fragment_size = fragment_size;
        initial_request_n = none;
        is_complete = false;
        inbound_done = false;
        outbound_done = false;
        deferred_error = none;
        holder = record { has_fragments = false; body = none; metadata = none };
        has_receiver = false;
      }) in
      (connected ∷ events, s)

  -- A PAYLOAD that no other one follows, when there is no receiver yet
  unfoldable pub handle_early : PayloadFrame → Responder → List Event × Responder
  handle_early f s =
      let (content, holder) = response_of s.holder f.body f.metadata in
      let is_last = s.is_complete || Flags.has_complete f.flags in
      let (events, s') =
        call_handler content s.initial_request_n is_last
          (record s { inbound_done = s.inbound_done || is_last; holder = holder }) in
      (disconnect_if (is_last && s.outbound_done) ++ events, s')

  unfoldable pub handle_payload : PayloadFrame → Responder → List Event × Responder
  handle_payload f s =
      let early = handle_early f s in
      if Flags.has_follows f.flags
      then ([], record s { holder = Reassembler.add s.holder f.body f.metadata })
      else (if s.has_receiver then handle_late f s else early)

  -- The `switch` of `handle`
  abbrev pub respond_by :
      Option PayloadFrame
      → Option RequestNFrame
      → Option ErrorFrame
      → Option CancelFrame
      → Option ExtFrame
      → Frame
      → Responder
      → List Event × Responder
  respond_by (some f) n e c x frame s = handle_payload f s
  respond_by none (some f) e c x frame s = handle_request_n f s
  respond_by none none (some f) c x frame s = handle_end (remote f.code f.message) s
  respond_by none none none (some f) x frame s =
      handle_end (failed (rsocket_failure canceled (codes "Cancelled"))) s
  respond_by none none none none (some f) frame s = handle_ext f s
  respond_by none none none none none frame s = refuse (unexpected_type (type_of frame)) s

  unfoldable pub respond : Frame → Responder → List Event × Responder
  respond frame s =
      respond_by (as_payload frame) (as_request_n frame) (as_error frame) (as_cancel frame)
        (as_ext frame) frame s

-- What a responder gets after its request. A frame whose stream is not registered is dropped.
pub data ResponderCall : Type 0 where
  to_respond : Frame → ResponderCall
  to_signal : Signal → ResponderCall

abbrev pub responder_call :
    (Payload → Option Number → Bool → Outcome)
    → ResponderCall
    → Responder
    → Bool
    → List Event × Responder
responder_call handler (to_respond frame) s registered =
    if registered then respond handler frame s else ([], s)
responder_call handler (to_signal signal) s registered = signalled signal s
