-- ===== src/RequestStream/Responder.antt =====
-- `RequestStreamResponderStream` of packages/rsocket-core/src/RequestStreamStream.ts. The
-- application's handler is a parameter.
use rsocket.Prelude.{
  ℕ, Bool, true, false, not, ◌||◌, Option, none, some, List, [], ◌∷◌, ◌++◌, map, if◌then◌else◌,
}
use rsocket.Prelude.Number.{Number, pos, lt}
use rsocket.Bytes.{Bytes}
use rsocket.Frames.{
  Frame, PayloadFrame, RequestManyFrame, ExtFrame, RequestNFrame, as_payload, as_ext, as_request_n,
  type_of,
}
use rsocket.Frames.Flags
use rsocket.Reassembler as Reassembler
use rsocket.Reassembler.{Payload, FragmentsHolder, reassemble}
use rsocket.Streams.{
  Event, sent, connected, disconnected, on_extension, handler_called, requested, Failure,
  rsocket_failure,
}
use rsocket.Streams.Messages.{codes, text_of, unexpected_type, during_reassembly, invalid_request_n}
use rsocket.Streams.Sending.{
  code_of, message_of, Signal, next, complete, fail, extend, Outcome, canceled, error_frame,
  complete_frame, ext_frame, response_frames, cancel_receiver, complaint,
}

-- Of `receiver`, which the handler returns, only that there is one. `initialRequestN` is set with the
-- first fragment only.
pub record Responder : Type 0 where
  pub stream_id : Number
  pub fragment_size : ℕ
  pub initial_request_n : Option Number
  pub done : Bool
  pub holder : FragmentsHolder
  pub has_receiver : Bool

unfoldable pub on_error : Failure → Responder → List Event × Responder
on_error failure s = if s.done then ([], s) else (
  sent (error_frame s.stream_id (code_of failure) (message_of failure)) ∷ disconnected ∷ [],
  record s { done = true },
)

unfoldable pub on_next : Payload → Bool → Responder → List Event × Responder
on_next content is_completion s =
    let frames = response_frames s.stream_id s.fragment_size content is_completion in
    if s.done then ([], s) else (
      map sent frames ++ (if is_completion then disconnected ∷ [] else []),
      record s { done = is_completion },
    )

unfoldable pub on_complete : Responder → List Event × Responder
on_complete s =
    if s.done
    then ([], s)
    else (sent (complete_frame s.stream_id) ∷ disconnected ∷ [], record s { done = true })

unfoldable pub extend_stream : Number → Option Bytes → Bool → Responder → List Event × Responder
extend_stream extended_type content can_be_ignored s =
    if s.done
    then ([], s)
    else (sent (ext_frame s.stream_id extended_type content can_be_ignored) ∷ [], s)

-- A signal of the application
abbrev pub signalled : Signal → Responder → List Event × Responder
signalled (next content is_completion) s = on_next content is_completion s
signalled complete s = on_complete s
signalled (fail failure) s = on_error failure s
signalled (extend t c i) s = extend_stream t c i s

abbrev pub signalled_all : List Signal → Responder → List Event × Responder
signalled_all [] s = ([], s)
signalled_all (signal ∷ signals) s =
    let (events, s') = signalled signal s in
    let (more, s'') = signalled_all signals s' in (events ++ more, s'')

-- `this.receiver = handler(...)`, or its `catch`
abbrev pub settled : Option Failure → Responder → List Event × Responder
settled none s = ([], record s { has_receiver = true })
settled (some failure) s = on_error failure s

-- The end of `handle`
unfoldable pub refuse : List ℕ → Frame → Responder → List Event × Responder
refuse message frame s = (
  cancel_receiver s.has_receiver ++ (complaint frame s.stream_id message ++ (disconnected ∷ [])),
  record s { done = true; holder = Reassembler.cancel s.holder },
)

unfoldable pub invalid_initial : Number → Failure
invalid_initial n = rsocket_failure canceled (
    codes "Invalid REQUEST_STREAM frame: initial requestN must be greater than 0, but got ["
    ++ (text_of n ++ codes "]"))

module _ (handler : Payload → Option Number → Outcome) where
  unfoldable pub call_handler : Payload → Option Number → Responder → List Event × Responder
  call_handler content n s =
      let (events, s') = signalled_all (handler content n).signals s in
      let (more, s'') = settled (handler content n).thrown s' in
      (handler_called content n ∷ (events ++ more), s'')

  -- The constructor behind `connect`
  unfoldable pub construct_rest : RequestManyFrame → Responder → List Event × Responder
  construct_rest frame s =
      let rejected = on_error (invalid_initial frame.request_n) s in
      let whole =
        call_handler (record { body = frame.body; metadata = frame.metadata })
          (some frame.request_n) s in
      if lt frame.request_n (pos 1)
      then rejected
      else (if Flags.has_follows frame.flags
          then (
            [],
            record s {
              initial_request_n = some frame.request_n;
              holder = Reassembler.add s.holder frame.body frame.metadata;
            },
          )
          else whole)

  unfoldable pub construct : RequestManyFrame → ℕ → List Event × Responder
  construct frame fragment_size =
      let (events, s) = construct_rest frame (record {
        stream_id = frame.stream_id;
        fragment_size = fragment_size;
        initial_request_n = none;
        done = false;
        holder = record { has_fragments = false; body = none; metadata = none };
        has_receiver = false;
      }) in
      (connected ∷ events, s)

  -- `handle` before there is a receiver, or while fragments are held
  unfoldable pub handle_early : Option PayloadFrame → Frame → Responder → List Event × Responder
  handle_early none frame s = refuse (during_reassembly (type_of frame)) frame s
  handle_early (some f) frame s =
      let (content, holder) = reassemble s.holder f.body f.metadata in
      let whole = call_handler content s.initial_request_n (record s { holder = holder }) in
      if Flags.has_follows f.flags
      then ([], record s { holder = Reassembler.add s.holder f.body f.metadata })
      else whole

  abbrev pub requested_more : RequestNFrame → Frame → Responder → List Event × Responder
  requested_more f frame s =
      if lt f.request_n (pos 1)
      then refuse (invalid_request_n f.request_n) frame s
      else (requested f.request_n ∷ [], s)

  unfoldable pub handle_late :
      Option RequestNFrame → Option ExtFrame → Frame → Responder → List Event × Responder
  handle_late (some f) e frame s = requested_more f frame s
  handle_late none (some f) frame s =
      (on_extension f.extended_type f.extended_content (Flags.has_ignore f.flags) ∷ [], s)
  handle_late none none frame s = refuse (unexpected_type (type_of frame)) frame s

  unfoldable pub respond : Frame → Responder → List Event × Responder
  respond frame s =
      let early = handle_early (as_payload frame) frame s in
      if not s.has_receiver || s.holder.has_fragments
      then early
      else handle_late (as_request_n frame) (as_ext frame) frame s

unfoldable pub close_responder : Responder → List Event × Responder
close_responder s =
    if s.done
    then ([], s)
    else (cancel_receiver s.has_receiver, record s { holder = Reassembler.cancel s.holder })

-- What a responder gets after its request. A frame whose stream is not registered is dropped.
pub data ResponderCall : Type 0 where
  to_respond : Frame → ResponderCall
  to_signal : Signal → ResponderCall
  to_close : ResponderCall

abbrev pub responder_call :
    (Payload → Option Number → Outcome) → ResponderCall → Responder → Bool → List Event × Responder
responder_call handler (to_respond frame) s registered =
    if registered then respond handler frame s else ([], s)
responder_call handler (to_signal signal) s registered = signalled signal s
responder_call handler to_close s registered = close_responder s
