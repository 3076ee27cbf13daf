-- ===== src/RequestFnf/Delivery.antt =====
-- The handler of a fire-and-forget request is called once, with the payload that was sent.
use rsocket.Prelude.{
  ℕ, ◌+◌, ◌≤◌, ◌≡◌, refl, Bool, true, false, ◌||◌, ◌==◌, Option, none, some, List, [], ◌∷◌, ◌++◌,
  Bool-cases, inl, inr, if◌then◌else◌, arith,
}
use rsocket.Prelude.Number.{Number}
use rsocket.Frames.{Frame, PayloadFrame, RequestFrame, as_payload, type_of}
use rsocket.Frames.Flags
use rsocket.Frames.FrameTypes
use rsocket.Reassembler.{Payload}
use rsocket.Streams.{Event, disconnected, handler_called, registered_after}
use rsocket.Streams.Runs.{run, run-paid, total, total-append, registered_after-disconnected, bit}
use rsocket.Streams.Messages.{unexpected_type}
use rsocket.Streams.Sending.{complaint}
use rsocket.RequestFnf.{Responder, refuse, construct, respond_to, respond, close_responder}

-- What a responder gets after its request. A frame whose stream is not registered is dropped.
pub data Call : Type 0 where
  to_respond : Frame → Call
  to_close : Call

module _ (throws : Payload → Bool) where
  abbrev pub responder_call : Call → Responder → Bool → List Event × Responder
  responder_call (to_respond frame) s registered =
      if registered then respond throws frame s else ([], s)
  responder_call to_close s registered = close_responder s

abbrev pub called : Event → ℕ
called (handler_called content n) = 1
called _ = 0

complaint-called :
    (frame : Frame) (id : Number) (message : List ℕ) → total called (complaint frame id message) ≡ 0
complaint-called frame id message =
    let quiet = type_of frame == FrameTypes.cancel || type_of frame == FrameTypes.error in
    elim (Bool-cases quiet) [ inl e ↦ rw e refl | inr e ↦ rw e refl ]

-- The handler is called at most once while the registry has the stream, and not after.
abbrev Paid : Bool → List Event × Responder → Type 0
Paid b (events, s') = total called events + bit (registered_after events b) ≤ bit b

module _ (throws : Payload → Bool) where
  respond_to-Paid :
      (f : Option PayloadFrame) (frame : Frame) (s : Responder)
      → Paid true (respond_to throws f frame s)
  unfolding refuse
  respond_to-Paid none frame s =
      let message = unexpected_type (type_of frame) in
      let told = complaint frame s.stream_id message in
      rw (registered_after-disconnected told true) (
        omega (
          arith,
          complaint-called frame s.stream_id message,
          total-append called told (disconnected ∷ []),
        ))
  respond_to-Paid (some f) frame s = elim (Bool-cases (Flags.has_follows f.flags)) [
    | inl more ↦ rw more (omega arith)
    | inr last ↦ rw last (omega arith)
  ]

  responder_call-Paid :
      (call : Call) (s : Responder) (b : Bool) → Paid b (responder_call throws call s b)
  unfolding respond close_responder
  responder_call-Paid (to_respond frame) s true = respond_to-Paid (as_payload frame) frame s
  responder_call-Paid (to_respond frame) s false = omega arith
  responder_call-Paid to_close s b = elim (Bool-cases s.done) [
    | inl over ↦ rw over (omega arith)
    | inr live ↦ elim (Bool-cases s.has_cancellable) [
      | inl running ↦ rw (live, running) (omega arith)
      | inr idle ↦ rw (live, idle) (omega arith)
    ]
  ]

  construct-Paid :
      (frame : RequestFrame)
      → let (events, s) = construct throws frame in
        total called events + bit (registered_after events false) ≤ 1
  unfolding construct
  construct-Paid frame = elim (Bool-cases (Flags.has_follows frame.flags)) [
    | inl more ↦ rw more (omega arith)
    | inr whole ↦ rw whole (omega arith)
  ]

-- Whatever frames and closes the responder of a fire-and-forget request gets after it: the handler of
-- the application is called at most once.
pub call_at_most_once :
    (throws : Payload → Bool) (frame : RequestFrame) (calls : List Call)
    → let (events, s) = construct throws frame in
      let (more, s', b) = run (responder_call throws) calls s (registered_after events false) in
      total called (events ++ more) ≤ 1
call_at_most_once throws frame calls =
    let (events, s) = construct throws frame in
    let b = registered_after events false in
    let more = (run (responder_call throws) calls s b).0 in
    omega (
      arith,
      construct-Paid throws frame,
      (run-paid (responder_call throws) called (λ s b. bit b) (λ s b. Unit {0})
          (λ call s b k. (responder_call-Paid throws call s b, tt)) calls s b tt).0,
      total-append called events more,
    )
