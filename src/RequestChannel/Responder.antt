-- ===== src/RequestChannel/Responder.antt =====
-- `RequestChannelResponderStream` of packages/rsocket-core/src/RequestChannelStream.ts. The
-- application's handler is a parameter.
use rsocket.Prelude.{
  ℕ, Bool, true, not, ◌&&◌, Option, none, some, List, [], ◌∷◌, ◌++◌, map, if◌then◌else◌,
}
use rsocket.Prelude.Number.{Number}
use rsocket.Bytes.{Bytes}
use rsocket.Frames.{cancel, request_n}
use rsocket.Frames.Flags
use rsocket.Reassembler.{Payload, FragmentsHolder}
use rsocket.Streams.{Failure, failed, Event, sent, disconnected, on_error}
use rsocket.Streams.Sending.{
  code_of, message_of, error_frame, complete_frame, ext_frame, response_frames,
}

-- What the application does with the sender that its handler gets
pub data Signal : Type 0 where
  next : Payload → Bool → Signal
  complete : Signal
  fail : Failure → Signal
  extend : Number → Option Bytes → Bool → Signal
  ask : Number → Signal
  stop : Signal

-- What a handler does before it returns, and the error that it throws, if it throws
pub record Outcome : Type 0 where
  pub signals : List Signal
  pub thrown : Option Failure

-- Of `receiver`, which the handler returns, only that there is one. `initialRequestN` and `isComplete`
-- are set with the first fragment only.
pub record Responder : Type 0 where
  pub stream_id : Number
  pub fragment_size : ℕ
  pub initial_request_n : Option Number
  pub is_complete : Bool
  pub inbound_done : Bool
  pub outbound_done : Bool
  pub deferred_error : Option Failure
  pub holder : FragmentsHolder
  pub has_receiver : Bool

abbrev pub both_done : Responder → Bool
both_done s = s.inbound_done && s.outbound_done

abbrev pub disconnect_if : Bool → List Event
disconnect_if test = if test then disconnected ∷ [] else []

-- `if (!inboundDone)` of `onError`: the receiver is told, or will be
abbrev pub told : Bool → Bool → Failure → List Event
told inbound_done has_receiver e =
    if inbound_done then [] else (if has_receiver then on_error (failed e) ∷ [] else [])

abbrev pub deferred : Bool → Bool → Failure → Option Failure → Option Failure
deferred inbound_done has_receiver e old =
    if inbound_done then old else (if has_receiver then old else some e)

unfoldable pub fail_stream : Failure → Responder → List Event × Responder
fail_stream e s = if s.outbound_done then ([], s) else (
  sent (error_frame s.stream_id (code_of e) (message_of e))
      ∷ disconnected
      ∷ told s.inbound_done s.has_receiver e,
  record s {
    inbound_done = true;
    outbound_done = true;
    deferred_error = deferred s.inbound_done s.has_receiver e s.deferred_error;
  },
)

unfoldable pub next_payload : Payload → Bool → Responder → List Event × Responder
next_payload content is_completion s = if s.outbound_done then ([], s) else (
  map sent (response_frames s.stream_id s.fragment_size content is_completion)
      ++ disconnect_if (is_completion && s.inbound_done),
  record s { outbound_done = is_completion },
)

unfoldable pub complete_stream : Responder → List Event × Responder
complete_stream s = if s.outbound_done then ([], s) else (
  sent (complete_frame s.stream_id) ∷ disconnect_if s.inbound_done,
  record s { outbound_done = true },
)

unfoldable pub extend_stream : Number → Option Bytes → Bool → Responder → List Event × Responder
extend_stream extended_type content can_be_ignored s =
    if both_done s
    then ([], s)
    else (sent (ext_frame s.stream_id extended_type content can_be_ignored) ∷ [], s)

unfoldable pub request_more : Number → Responder → List Event × Responder
request_more n s = if s.inbound_done then ([], s) else (
  sent (request_n (record { flags = Flags.no_flags; request_n = n; stream_id = s.stream_id })) ∷ [],
  s,
)

unfoldable pub cancel_inbound : Responder → List Event × Responder
cancel_inbound s = if s.inbound_done then ([], s) else (
  sent (cancel (record { flags = Flags.no_flags; stream_id = s.stream_id }))
      ∷ disconnect_if s.outbound_done,
  record s { inbound_done = true },
)

abbrev pub signalled : Signal → Responder → List Event × Responder
signalled (next content is_completion) s = next_payload content is_completion s
signalled complete s = complete_stream s
signalled (fail e) s = fail_stream e s
signalled (extend t c i) s = extend_stream t c i s
signalled (ask n) s = request_more n s
signalled stop s = cancel_inbound s

abbrev pub signalled_all : List Signal → Responder → List Event × Responder
signalled_all [] s = ([], s)
signalled_all (signal ∷ signals) s =
    let (events, s') = signalled signal s in
    let (more, s'') = signalled_all signals s' in (events ++ more, s'')

-- The error that the receiver has missed
abbrev pub missed : Bool → Option Failure → List Event
missed outbound_done none = []
missed outbound_done (some e) = if outbound_done then on_error (failed e) ∷ [] else []

-- `this.receiver = handler(...)`, or its `catch`
unfoldable pub settled : Option Failure → Responder → List Event × Responder
settled none s = (missed s.outbound_done s.deferred_error, record s { has_receiver = true })
settled (some e) s =
    let (events, s') =
      if s.outbound_done && not s.inbound_done
      then cancel_inbound s
      else ([], record s { inbound_done = true }) in
    let (more, s'') = fail_stream e s' in (events ++ more, s'')
