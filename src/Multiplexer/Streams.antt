-- ===== src/Multiplexer/Streams.antt =====
-- The streams of the registry, and whether they are done.
use rsocket.Prelude.{
  ℕ, ◌≡◌, refl, sym, subst, ap, ◌∙◌, ◌⊎◌, Bool, true, false, not, Option, none, some, List, [], ◌∷◌,
  ◌++◌, map, Bool-cases, inl, inr, if_both,
}
use rsocket.Prelude.Number.{Number}
use rsocket.Frames.{
  Frame, PayloadFrame, RequestFrame, request_fnf, request_response, request_stream, request_channel,
  as_payload, type_of,
}
use rsocket.Frames.Flags
use rsocket.Reassembler.{Payload}
use rsocket.Streams.{Event, sent, on_complete, registered_after}
use rsocket.Streams.Messages.{unexpected_type}
use rsocket.Streams.Sending.{complaint}
use rsocket.Streams.Sending as Sending
use rsocket.Streams.Runs.{
  listed→live, registered_after-append, registered_after-sent, registered_after-disconnected,
}
use rsocket.RequestResponse.Calls as ResponseCalls
use rsocket.RequestResponse.Ends.{ready-Ends, frame-Ends, extension-Ends, cancel-Cancels}
use rsocket.RequestResponse.Answers as ResponseAnswers
use rsocket.RequestFnf as RequestFnf
use rsocket.RequestStream.Calls as StreamCalls
use rsocket.RequestStream.Terminal.{frame-Step, call_of-Step}
use rsocket.RequestStream.Answers as StreamAnswers
use rsocket.RequestStream.Signals as StreamSignals
use rsocket.RequestChannel as RequestChannel
use rsocket.RequestChannel.Calls as ChannelCalls
use rsocket.RequestChannel.Listed.{call-IsListed, ready-Keeps}
use rsocket.RequestChannel.Responder as ChannelResponder
use rsocket.RequestChannel.Responder.{Signal, next, complete, fail, extend, ask, stop}
use rsocket.RequestChannel.Answering.{respond-Lists, construct-Lists}
use rsocket.RequestChannel.Signals as ChannelSignals
use rsocket.Multiplexer.Handlers.{
  StreamHandler, response_requester, fnf_requester, stream_requester, channel_requester,
  response_responder, fnf_responder, stream_responder, channel_responder, Opening, open_response,
  open_fnf, open_stream, open_channel, ready, deliver, RSocket, serve, on_stream, serve_fnf,
  serve_response, serve_stream, serve_channel,
}
use rsocket.Multiplexer.Inputs.{sending, use_of, answer_response, answer_stream}

-- A stream is open as long as it is not done, a channel as long as one of its directions is not.
abbrev pub is_open : StreamHandler → Bool
is_open (response_requester s) = not s.done
is_open (fnf_requester s) = not s.done
is_open (stream_requester s) = not s.done
is_open (channel_requester s) = not (RequestChannel.both_done s)
is_open (response_responder handler s) = not s.done
is_open (fnf_responder throws s) = not s.done
is_open (stream_responder handler s) = not s.done
is_open (channel_responder handler s) = not (ChannelResponder.both_done s)

-- What holds of a stream that the registry has, or has not
abbrev pub Holds : StreamHandler → Bool → Type 0
Holds (response_requester s) b = ResponseCalls.IsOpen s b
Holds (fnf_requester s) b = b ≡ false
Holds (stream_requester s) b = StreamCalls.IsOpen s b
Holds (channel_requester s) b = ChannelCalls.IsListed s.stream_id s b
Holds (response_responder handler s) b = b ≡ not s.done
Holds (fnf_responder throws s) b = (b ≡ false) ⊎ (s.done ≡ false)
Holds (stream_responder handler s) b = b ≡ not s.done
Holds (channel_responder handler s) b = b ≡ not (ChannelResponder.both_done s)

abbrev pub Leaves : Bool → List Event × StreamHandler → Type 0
Leaves b (events, h) = Holds h (registered_after events b)

listed-both_done :
    (o : Option Number) (s : RequestChannel.Requester)
    → ChannelCalls.IsListed o s true
    → not (RequestChannel.both_done s) ≡ true
listed-both_done none s (off, orderly) = absurd cc
listed-both_done (some id) s listed = sym listed

pub Holds-is_open : (h : StreamHandler) → Holds h true → is_open h ≡ true
Holds-is_open (response_requester s) (inl off) = absurd cc
Holds-is_open (response_requester s) (inr (live, id, known)) = ap not live
Holds-is_open (fnf_requester s) off = absurd cc
Holds-is_open (stream_requester s) (inl off) = absurd cc
Holds-is_open (stream_requester s) (inr (live, id, known)) = ap not live
Holds-is_open (channel_requester s) listed = listed-both_done s.stream_id s listed
Holds-is_open (response_responder handler s) listed = sym listed
Holds-is_open (fnf_responder throws s) (inl off) = absurd cc
Holds-is_open (fnf_responder throws s) (inr live) = ap not live
Holds-is_open (stream_responder handler s) listed = sym listed
Holds-is_open (channel_responder handler s) listed = sym listed

fnf-Leaves :
    (throws : Payload → Bool) (f : Option PayloadFrame) (frame : Frame) (s : RequestFnf.Responder)
    → s.done ≡ false
    → let (events, s') = RequestFnf.respond_to throws f frame s in
      (registered_after events true ≡ false) ⊎ (s'.done ≡ false)
unfolding RequestFnf.refuse
fnf-Leaves throws none frame s live = inl (
    registered_after-disconnected (complaint frame s.stream_id (unexpected_type (type_of frame)))
      true)
fnf-Leaves throws (some f) frame s live = elim (Bool-cases (Flags.has_follows f.flags)) [
  | inl more ↦ rw more (inr live)
  | inr last ↦ rw last (inl refl)
]

-- A frame for a stream that the registry has
pub deliver-Holds :
    (frame : Frame) (h : StreamHandler) → Holds h true → Leaves true (deliver frame h)
unfolding deliver RequestFnf.respond
deliver-Holds frame (response_requester s) h = (frame-Ends frame s true h).1
deliver-Holds frame (fnf_requester s) off = absurd cc
deliver-Holds frame (stream_requester s) h = (frame-Step frame s true h).1
deliver-Holds frame (channel_requester s) h =
    call-IsListed (ChannelCalls.frame_call frame) s true refl h
deliver-Holds frame (response_responder handler s) h =
    (ResponseAnswers.respond-Answers handler frame s (listed→live s.done h)).1
deliver-Holds frame (fnf_responder throws s) (inl off) = absurd cc
deliver-Holds frame (fnf_responder throws s) (inr live) =
    fnf-Leaves throws (as_payload frame) frame s live
deliver-Holds frame (stream_responder handler s) h =
    (StreamAnswers.respond-Answers handler frame s (listed→live s.done h)).1
deliver-Holds frame (channel_responder handler s) h =
    respond-Lists handler frame s (listed→live (ChannelResponder.both_done s) h)

-- A stream that gets its id while the registry does not have it. A channel that is opened has no id,
-- and is not done inbound unless it is done outbound.
abbrev pub CanOpen : Opening → Type 0
CanOpen (open_channel s) =
    (s.stream_id ≡ none) × ((s.inbound_done ≡ false) ⊎ (s.outbound_done ≡ true))
CanOpen _ = Unit

fnf_ready-Leaves :
    (id : Number) (s : RequestFnf.Requester)
    → registered_after (RequestFnf.handle_ready id s).0 false ≡ false
unfolding RequestFnf.handle_ready
fnf_ready-Leaves id s =
    let frames = RequestFnf.request_frames id s in
    let told : registered_after (map sent frames ++ (on_complete ∷ [])) false ≡ false =
      registered_after-append (map sent frames) (on_complete ∷ []) false
      ∙ registered_after-sent frames false in
    if_both (λ (r : List Event × RequestFnf.Requester). registered_after r.0 false ≡ false) s.done
      refl told

pub ready-Holds : (id : Number) (o : Opening) → CanOpen o → Leaves false (ready id o)
unfolding ready
ready-Holds id (open_response s) h = (ready-Ends id s false (inl refl)).1
ready-Holds id (open_fnf s) h = fnf_ready-Leaves id s
ready-Holds id (open_stream s) h = (call_of-Step (StreamCalls.ready_call id) s false (inl refl)).1
ready-Holds id (open_channel s) (unset, orderly) =
    let (events, s') = RequestChannel.handle_ready id s in
    let (o, known, listed) = ready-Keeps s unset orderly id in
    subst (λ p. ChannelCalls.IsListed p s' (registered_after events false)) (sym known) listed

-- The responder that a request makes
abbrev pub Serves : List Event × Option StreamHandler → Type 0
Serves (events, none) = Unit
Serves (events, some h) = Holds h (registered_after events false)

fnf_construct-Leaves :
    (throws : Payload → Bool) (f : RequestFrame)
    → let (events, s) = RequestFnf.construct throws f in
      (registered_after events false ≡ false) ⊎ (s.done ≡ false)
unfolding RequestFnf.construct
fnf_construct-Leaves throws f = elim (Bool-cases (Flags.has_follows f.flags)) [
  | inl more ↦ rw more (inr refl)
  | inr whole ↦ rw whole (inl refl)
]

module _ (rsocket : RSocket) (fragment_size : ℕ) where
  pub serve-Holds : (frame : Frame) → Serves (serve rsocket fragment_size frame)
  unfolding serve
  serve-Holds (request_fnf f) = fnf rsocket.fire_and_forget
    where
      fnf : (o : Option (Payload → Bool)) → Serves (serve_fnf o f)
      fnf none = tt
      fnf (some throws) = fnf_construct-Leaves throws f
  serve-Holds (request_response f) = response rsocket.request_response
    where
      response :
          (o : Option (Payload → Sending.Outcome)) → Serves (serve_response o fragment_size f)
      response none = tt
      response (some handler) = (ResponseAnswers.construct-Starts handler f fragment_size).1
  serve-Holds (request_stream f) = stream rsocket.request_stream
    where
      stream :
          (o : Option (Payload → Option Number → Sending.Outcome))
          → Serves (serve_stream o fragment_size f)
      stream none = tt
      stream (some handler) = (StreamAnswers.construct-Starts handler f fragment_size).1
  serve-Holds (request_channel f) = channel rsocket.request_channel
    where
      channel :
          (o : Option (Payload → Option Number → Bool → ChannelResponder.Outcome))
          → Serves (serve_channel o fragment_size f)
      channel none = tt
      channel (some handler) = construct-Lists handler f fragment_size
  serve-Holds _ = tt

-- What the application does with a stream that the registry has
pub use_of-Holds :
    (signal : Signal) (h : StreamHandler) → Holds h true → Leaves true (use_of signal h)
use_of-Holds stop (response_requester s) h = (cancel-Cancels s true h).2
use_of-Holds (extend t c i) (response_requester s) h = (extension-Ends t c i s true h).1
use_of-Holds (next content last) (response_requester s) h = h
use_of-Holds complete (response_requester s) h = h
use_of-Holds (fail e) (response_requester s) h = h
use_of-Holds (ask n) (response_requester s) h = h
use_of-Holds signal (fnf_requester s) off = absurd cc
use_of-Holds stop (stream_requester s) h = (call_of-Step StreamCalls.cancel_call s true h).1
use_of-Holds (extend t c i) (stream_requester s) h =
    (call_of-Step (StreamCalls.extension_call t c i) s true h).1
use_of-Holds (ask n) (stream_requester s) h = (call_of-Step (StreamCalls.request_call n) s true h).1
use_of-Holds (next content last) (stream_requester s) h = h
use_of-Holds complete (stream_requester s) h = h
use_of-Holds (fail e) (stream_requester s) h = h
use_of-Holds (next content last) (channel_requester s) h =
    call-IsListed (ChannelCalls.next_call content last) s true refl h
use_of-Holds complete (channel_requester s) h =
    call-IsListed ChannelCalls.complete_call s true refl h
use_of-Holds (fail e) (channel_requester s) h =
    call-IsListed (ChannelCalls.fail_call e) s true refl h
use_of-Holds (extend t c i) (channel_requester s) h =
    call-IsListed (ChannelCalls.extension_call t c i) s true refl h
use_of-Holds (ask n) (channel_requester s) h =
    call-IsListed (ChannelCalls.request_call n) s true refl h
use_of-Holds stop (channel_requester s) h = call-IsListed ChannelCalls.cancel_call s true refl h
use_of-Holds signal (response_responder handler s) h = answers (sending signal)
  where
    answers :
        (o : Option Sending.Signal)
        → Leaves true (on_stream (response_responder handler) (answer_response o s))
    answers none = h
    answers (some x) = (ResponseAnswers.signalled-Answers x s true h).1
use_of-Holds signal (fnf_responder throws s) h = h
use_of-Holds signal (stream_responder handler s) h = answers (sending signal)
  where
    answers :
        (o : Option Sending.Signal)
        → Leaves true (on_stream (stream_responder handler) (answer_stream o s))
    answers none = h
    answers (some x) = (StreamSignals.signalled-Answers x s true h).1
use_of-Holds signal (channel_responder handler s) h = ChannelSignals.signalled-Lists s true h signal
