-- ===== src/Multiplexer/Ids/Responders.antt =====
-- A responder other than a channel's keeps its id, from the request that makes it on.
use rsocket.Prelude.{
  ℕ, ◌≡◌, refl, ◌∙◌, Bool, not, ◌||◌, Option, none, some, List, [], ◌∷◌, arith, if_both,
}
use rsocket.Prelude.Number.{Number, pos, lt}
use rsocket.Frames.{
  Frame, RequestFrame, RequestManyFrame, PayloadFrame, ExtFrame, RequestNFrame, as_payload, as_ext,
  as_request_n,
}
use rsocket.Frames.Flags
use rsocket.Reassembler.{Payload}
use rsocket.Streams.{Failure, Event}
use rsocket.Streams.Sending as Sending
use rsocket.RequestResponse.Responder as Response
use rsocket.RequestFnf as RequestFnf
use rsocket.RequestStream.Responder as Stream

abbrev ResponseKeeps : Number → List Event × Response.Responder → Type 0
ResponseKeeps id (events, s) = s.stream_id ≡ id

pub response_signalled-id :
    (signal : Sending.Signal) (s : Response.Responder)
    → (Response.signalled signal s).1.stream_id ≡ s.stream_id
unfolding Response.on_next Response.on_complete Response.on_error Response.extend_stream
response_signalled-id (Sending.next content last) s = ground arith
response_signalled-id Sending.complete s = ground arith
response_signalled-id (Sending.fail e) s = ground arith
response_signalled-id (Sending.extend t c i) s = ground arith

response_signalled_all-id :
    (signals : List Sending.Signal) (s : Response.Responder)
    → (Response.signalled_all signals s).1.stream_id ≡ s.stream_id
response_signalled_all-id [] s = refl
response_signalled_all-id (signal ∷ signals) s =
    response_signalled_all-id signals (Response.signalled signal s).1
    ∙ response_signalled-id signal s

response_settled-id :
    (o : Option Failure) (s : Response.Responder) → (Response.settled o s).1.stream_id ≡ s.stream_id
unfolding Response.on_error
response_settled-id none s = refl
response_settled-id (some e) s = ground arith

module _ (handler : Payload → Sending.Outcome) where
  response_called-id :
      (content : Payload) (s : Response.Responder)
      → (Response.call_handler handler content s).1.stream_id ≡ s.stream_id
  unfolding Response.call_handler
  response_called-id content s =
      response_settled-id (handler content).thrown
        (Response.signalled_all (handler content).signals s).1
      ∙ response_signalled_all-id (handler content).signals s

  pub response_construct-id :
      (frame : RequestFrame) (size : ℕ)
      → (Response.construct handler frame size).1.stream_id ≡ frame.stream_id
  unfolding Response.construct
  response_construct-id frame size =
      if_both (ResponseKeeps frame.stream_id) (Flags.has_follows frame.flags) refl
        (response_called-id _ _)

  pub response_respond-id :
      (frame : Frame) (s : Response.Responder)
      → (Response.respond handler frame s).1.stream_id ≡ s.stream_id
  unfolding Response.respond Response.handle_early Response.handle_late Response.refuse
  response_respond-id frame s =
      if_both Same (not s.has_receiver || s.holder.has_fragments) (early (as_payload frame))
        (late (as_ext frame))
    where
      Same : List Event × Response.Responder → Type 0
      Same = ResponseKeeps s.stream_id

      early : (p : Option PayloadFrame) → Same (Response.handle_early handler p frame s)
      early none = refl
      early (some f) = if_both Same (Flags.has_follows f.flags) refl (response_called-id _ _)

      late : (x : Option ExtFrame) → Same (Response.handle_late handler x frame s)
      late none = refl
      late (some f) = refl

module _ (throws : Payload → Bool) where
  pub fnf_construct-id :
      (frame : RequestFrame) → (RequestFnf.construct throws frame).1.stream_id ≡ frame.stream_id
  unfolding RequestFnf.construct
  fnf_construct-id frame = ground arith

  pub fnf_respond-id :
      (frame : Frame) (s : RequestFnf.Responder)
      → (RequestFnf.respond throws frame s).1.stream_id ≡ s.stream_id
  unfolding RequestFnf.respond RequestFnf.refuse
  fnf_respond-id frame s = by (as_payload frame)
    where
      by :
          (p : Option PayloadFrame)
          → (RequestFnf.respond_to throws p frame s).1.stream_id ≡ s.stream_id
      by none = refl
      by (some f) = ground arith

abbrev StreamKeeps : Number → List Event × Stream.Responder → Type 0
StreamKeeps id (events, s) = s.stream_id ≡ id

pub stream_signalled-id :
    (signal : Sending.Signal) (s : Stream.Responder)
    → (Stream.signalled signal s).1.stream_id ≡ s.stream_id
unfolding Stream.on_next Stream.on_complete Stream.on_error Stream.extend_stream
stream_signalled-id (Sending.next content last) s = ground arith
stream_signalled-id Sending.complete s = ground arith
stream_signalled-id (Sending.fail e) s = ground arith
stream_signalled-id (Sending.extend t c i) s = ground arith

stream_signalled_all-id :
    (signals : List Sending.Signal) (s : Stream.Responder)
    → (Stream.signalled_all signals s).1.stream_id ≡ s.stream_id
stream_signalled_all-id [] s = refl
stream_signalled_all-id (signal ∷ signals) s =
    stream_signalled_all-id signals (Stream.signalled signal s).1 ∙ stream_signalled-id signal s

stream_settled-id :
    (o : Option Failure) (s : Stream.Responder) → (Stream.settled o s).1.stream_id ≡ s.stream_id
unfolding Stream.on_error
stream_settled-id none s = refl
stream_settled-id (some e) s = ground arith

module _ (handler : Payload → Option Number → Sending.Outcome) where
  stream_called-id :
      (content : Payload) (n : Option Number) (s : Stream.Responder)
      → (Stream.call_handler handler content n s).1.stream_id ≡ s.stream_id
  unfolding Stream.call_handler
  stream_called-id content n s =
      stream_settled-id (handler content n).thrown
        (Stream.signalled_all (handler content n).signals s).1
      ∙ stream_signalled_all-id (handler content n).signals s

  pub stream_construct-id :
      (frame : RequestManyFrame) (size : ℕ)
      → (Stream.construct handler frame size).1.stream_id ≡ frame.stream_id
  unfolding Stream.construct Stream.construct_rest Stream.on_error
  stream_construct-id frame size =
      if_both (StreamKeeps frame.stream_id) (lt frame.request_n (pos 1)) refl (
        if_both (StreamKeeps frame.stream_id) (Flags.has_follows frame.flags) refl
          (stream_called-id _ _ _))

  pub stream_respond-id :
      (frame : Frame) (s : Stream.Responder)
      → (Stream.respond handler frame s).1.stream_id ≡ s.stream_id
  unfolding Stream.respond Stream.handle_early Stream.handle_late Stream.refuse
  stream_respond-id frame s =
      if_both Same (not s.has_receiver || s.holder.has_fragments) (early (as_payload frame))
        (late (as_request_n frame) (as_ext frame))
    where
      Same : List Event × Stream.Responder → Type 0
      Same = StreamKeeps s.stream_id

      early : (p : Option PayloadFrame) → Same (Stream.handle_early handler p frame s)
      early none = refl
      early (some f) = if_both Same (Flags.has_follows f.flags) refl (stream_called-id _ _ _)

      late :
          (n : Option RequestNFrame) (x : Option ExtFrame)
          → Same (Stream.handle_late handler n x frame s)
      late (some f) x = ground arith
      late none (some f) = refl
      late none none = refl

pub response_closed-id :
    (s : Response.Responder) → (Response.close_responder s).1.stream_id ≡ s.stream_id
unfolding Response.close_responder
response_closed-id s = ground arith

pub fnf_closed-id :
    (s : RequestFnf.Responder) → (RequestFnf.close_responder s).1.stream_id ≡ s.stream_id
unfolding RequestFnf.close_responder
fnf_closed-id s = ground arith

pub stream_closed-id : (s : Stream.Responder) → (Stream.close_responder s).1.stream_id ≡ s.stream_id
unfolding Stream.close_responder
stream_closed-id s = ground arith
