-- ===== src/RequestStream/Positive.antt =====
-- The request counts that reach the application behind a request/stream responder are positive.
use rsocket.Prelude.{
  ℕ, ◌≡◌, refl, ap, ◌∙◌, ◌⊎◌, Bool, true, false, not, ◌||◌, Option, none, some, List, [], ◌∷◌, ◌++◌,
  arith, inl, inr, if◌then◌else◌, if_both, if_cases,
}
use rsocket.Prelude.Number.{Number, pos, lt}
use rsocket.Frames.{
  Frame, PayloadFrame, ExtFrame, RequestNFrame, RequestManyFrame, as_payload, as_ext, as_request_n,
}
use rsocket.Frames.Flags
use rsocket.Reassembler as Reassembler
use rsocket.Reassembler.{Payload, FragmentsHolder, reassemble}
use rsocket.Streams.{disconnected, registered_after}
use rsocket.Streams.Sending.{Outcome, cancel_receiver, complaint}
use rsocket.Streams.Runs.{listed→live, total, total-append, bit, run, run-paid}
use rsocket.RequestStream.Responder.{
  Responder, signalled_all, settled, refuse, invalid_initial, call_handler, construct_rest,
  construct, handle_early, handle_late, respond, close_responder, ResponderCall, to_respond,
  to_signal, to_close, responder_call,
}
use rsocket.RequestStream.Answers.{call_of-Answers, construct-Starts}
use rsocket.RequestStream.Low.{
  low_count, low, low-complaint, low-cancel_receiver, Fine, IsCounted, IsWhole, Ready, Ready-stable,
  settled-Ready, signalled-Fine, signalled_all-Fine,
}

module _ (handler : Payload → Option Number → Outcome) where
  call_handler-Ready :
      (content : Payload) (n : Option Number) (s : Responder)
      → low_count n ≡ 0
      → IsCounted s ⊎ IsWhole s
      → Fine Ready (call_handler handler content n s)
  unfolding call_handler
  call_handler-Ready content n s positive h =
      let signals = (handler content n).signals in
      let thrown = (handler content n).thrown in
      let K : Responder → Type 0 = λ r. IsCounted r ⊎ IsWhole r in
      let (events, s') = signalled_all signals s in
      let (quiet, h') = signalled_all-Fine K (λ s d live k. k) signals s h in
      let (quiet', ready) = settled-Ready thrown s' h' in
      (omega (arith, positive, quiet, quiet', total-append low events (settled thrown s').0), ready)

  refuse-Ready :
      (message : List ℕ) (frame : Frame) (s : Responder) → Fine Ready (refuse message frame s)
  unfolding refuse
  refuse-Ready message frame s =
      let told = complaint frame s.stream_id message in
      let cancels = cancel_receiver s.has_receiver in
      (
        omega (
          arith,
          low-complaint frame s.stream_id message,
          low-cancel_receiver s.has_receiver,
          total-append low cancels (told ++ (disconnected ∷ [])),
          total-append low told (disconnected ∷ []),
        ),
        inl refl,
      )

  handle_early-Ready :
      (f : Option PayloadFrame) (frame : Frame) (s : Responder)
      → IsCounted s
      → Fine Ready (handle_early handler f frame s)
  unfolding handle_early
  handle_early-Ready none frame s set = refuse-Ready _ frame s
  handle_early-Ready (some f) frame s (k, known, fine) =
      let (content, holder) = reassemble s.holder f.body f.metadata in
      if_both (Fine Ready) (Flags.has_follows f.flags) (refl, inr (inl (k, known, fine)))
        (call_handler-Ready content s.initial_request_n (record s { holder = holder })
          (ap low_count known ∙ ap bit fine) (inl (k, known, fine)))

  handle_late-Ready :
      (n : Option RequestNFrame) (e : Option ExtFrame) (frame : Frame) (s : Responder)
      → Ready s
      → Fine Ready (handle_late handler n e frame s)
  unfolding handle_late
  handle_late-Ready (some f) e frame s ready =
      if_cases (Fine Ready) (lt f.request_n (pos 1)) (λ bad. refuse-Ready _ frame s)
        (λ fine. (rw fine refl, ready))
  handle_late-Ready none (some f) frame s ready = (refl, ready)
  handle_late-Ready none none frame s ready = refuse-Ready _ frame s

  early-IsCounted :
      (s : Responder)
      → s.done ≡ false
      → (not s.has_receiver || s.holder.has_fragments) ≡ true
      → Ready s
      → IsCounted s
  early-IsCounted s live early (inl done) = absurd cc
  early-IsCounted s live early (inr (inl set)) = set
  early-IsCounted s live early (inr (inr (running, whole))) =
      let never : false ≡ true = rw (running, whole) at early in absurd cc

  respond-Ready :
      (frame : Frame) (s : Responder)
      → s.done ≡ false
      → Ready s
      → Fine Ready (respond handler frame s)
  unfolding respond
  respond-Ready frame s live ready =
      if_cases (Fine Ready) (not s.has_receiver || s.holder.has_fragments)
        (λ early.
          handle_early-Ready (as_payload frame) frame s (early-IsCounted s live early ready))
        (λ after. handle_late-Ready (as_request_n frame) (as_ext frame) frame s ready)

  close-Ready : (s : Responder) → Ready s → Fine Ready (close_responder s)
  unfolding close_responder Reassembler.cancel
  close-Ready s ready =
      if_both (Fine Ready) s.done (refl, ready)
        (
          low-cancel_receiver s.has_receiver,
          elim ready [
            | inl done ↦ inl done
            | inr (inl set) ↦ inr (inl set)
            | inr (inr (running, whole)) ↦ inr (inr (running, refl))
          ],
        )

  construct_rest-Ready :
      (frame : RequestManyFrame) (s : Responder)
      → s.done ≡ false
      → IsWhole s
      → Fine Ready (construct_rest handler frame s)
  unfolding construct_rest
  construct_rest-Ready frame s live whole =
      let content : Payload = record { body = frame.body; metadata = frame.metadata } in
      if_cases (Fine Ready) (lt frame.request_n (pos 1))
        (λ bad. settled-Ready (some (invalid_initial frame.request_n)) s (inr whole))
        (λ fine.
          if_both (Fine Ready) (Flags.has_follows frame.flags)
            (refl, inr (inl (frame.request_n, refl, fine)))
            (call_handler-Ready content (some frame.request_n) s (ap bit fine) (inr whole)))

  construct-Ready :
      (frame : RequestManyFrame) (size : ℕ) → Fine Ready (construct handler frame size)
  unfolding construct
  construct-Ready frame size =
      let (quiet, ready) =
        construct_rest-Ready frame
          (record {
            stream_id = frame.stream_id;
            fragment_size = size;
            initial_request_n = none;
            done = false;
            holder = record { has_fragments = false; body = none; metadata = none };
            has_receiver = false;
          })
          refl refl in
      (omega (arith, quiet), ready)

  abbrev Keeps : Responder → Bool → Type 0
  Keeps s b = (b ≡ not s.done) × Ready s

  frame-Ready :
      (frame : Frame) (s : Responder) (b : Bool)
      → Keeps s b
      → Fine Ready (if b then respond handler frame s else ([], s))
  frame-Ready frame s false k = (refl, k.1)
  frame-Ready frame s true k = respond-Ready frame s (listed→live s.done k.0) k.1

  call-Ready :
      (call : ResponderCall) (s : Responder) (b : Bool)
      → Keeps s b
      → Fine Ready (responder_call handler call s b)
  call-Ready (to_respond frame) s b k = frame-Ready frame s b k
  call-Ready (to_signal signal) s b k = signalled-Fine Ready Ready-stable signal s k.1
  call-Ready to_close s b k = close-Ready s k.1

-- Whatever the handler does, and whatever frames, signals and closes a responder of a request/stream
-- gets: each request count that reaches the handler or what it returns is there, and is positive.
pub run-low :
    (handler : Payload → Option Number → Outcome) (frame : RequestManyFrame) (size : ℕ)
    (calls : List ResponderCall)
    → let (events, s) = construct handler frame size in
      let (more, s', listed) =
        run (responder_call handler) calls s (registered_after events false) in
      total low (events ++ more) ≡ 0
run-low handler frame size calls =
    let (events, s) = construct handler frame size in
    let b = registered_after events false in
    let more = (run (responder_call handler) calls s b).0 in
    let (quiet, ready) = construct-Ready handler frame size in
    let kept =
      run-paid (responder_call handler) low (λ s b. 0) (Keeps handler)
        (λ call s b k.
          let (now, ready') = call-Ready handler call s b k in
          let (answers, listed) = call_of-Answers handler call s b k.0 in
          (omega (arith, now), (listed, ready')))
        calls s b ((construct-Starts handler frame size).1, ready) in
    omega (arith, quiet, kept.0, total-append low events more)
