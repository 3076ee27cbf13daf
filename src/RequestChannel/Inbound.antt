-- ===== src/RequestChannel/Inbound.antt =====
-- The other direction of a channel: what the requester sends is what the receiver that the handler has
-- returned gets.
use mathlib.Core.List.{map-append}
use rsocket.Prelude.{
  ℕ, ◌≡◌, refl, ap, ◌∙◌, Bool, true, false, Option, some, List, [], ◌∷◌, ◌++◌, map, append-nil, All,
}
use rsocket.Prelude.Number.{Number}
use rsocket.Frames.{PayloadFrame, payload}
use rsocket.Frames.Flags
use rsocket.Frames.FrameTypes
use rsocket.Reassembler as Reassembler
use rsocket.Reassembler.{Payload, FragmentsHolder}
use rsocket.Reassembler.Shape.{idle, holder_of}
use rsocket.Fragmenter.Receive.{last_payload}
use rsocket.Fragmenter.Request.{IsCut}
use rsocket.Streams.{Event, sent, on_next, on_complete, frames_of, registered_after}
use rsocket.Streams.Runs.{run, run-append, frames_of-sent}
use rsocket.Streams.Items.{Holds, response_of-last, run-response_frames}
use rsocket.Streams.Sending.{response_frames, complete_frame}
use rsocket.RequestChannel.{Requester, next_payload, complete_stream}
use rsocket.RequestChannel.Calls as Calls
use rsocket.RequestChannel.Calls.{Call, next_call, complete_call}
use rsocket.RequestChannel.Responder.{Outcome, Responder, disconnect_if}
use rsocket.RequestChannel.Serving.{
  respond, handle_payload, handle_late, responder_call, to_respond,
}
use rsocket.RequestChannel.Delivery.{or_false, received, no_frames}

-- The calls that send payloads, and then the end
abbrev pub item_calls : List Payload → List Call
item_calls [] = complete_call ∷ []
item_calls (content ∷ contents) = next_call content false ∷ item_calls contents

abbrev with_holder : Responder → FragmentsHolder → Responder
with_holder s holder = record s { holder = holder }

abbrev idle_now : Responder → Responder
idle_now s = with_holder s (holder_of idle)

module _ (handler : Payload → Option Number → Bool → Outcome) where
  module _ (f : PayloadFrame) (s : Responder) (holder : FragmentsHolder)
      (open_end : Flags.has_complete f.flags ≡ false) (answers : s.has_receiver ≡ true) where
    respond-more :
        Flags.has_follows f.flags ≡ true
        → respond handler (payload f) (with_holder s holder)
          ≡ ([], with_holder s (Reassembler.add holder f.body f.metadata))
    unfolding respond handle_payload
    respond-more follows = rw follows refl

    respond-item :
        Flags.has_follows f.flags ≡ false
        → Holds holder
        → respond handler (payload f) (with_holder s holder)
          ≡ (on_next (last_payload holder f.body f.metadata) false ∷ [], idle_now s)
    unfolding respond handle_payload handle_late
    respond-item last h =
        let given : Payload × FragmentsHolder → List Event × Responder = λ (content, holder).
          (on_next content false ∷ [], record s { holder = holder; has_receiver = true }) in
        rw (last, answers, open_end, or_false s.inbound_done)
          (ap given (response_of-last holder f.body f.metadata h))

  -- One payload
  respond-payload :
      (id : Number) (n : ℕ) (s : Responder) (content : Payload)
      → s.has_receiver ≡ true
      → s.holder ≡ holder_of idle
      → IsCut content n FrameTypes.payload
      → run (responder_call handler) (map to_respond (response_frames id n content false)) s true
        ≡ (on_next content false ∷ [], idle_now s, true)
  respond-payload id n s content answers empty fits =
      ap
        (λ holder.
          run (responder_call handler) (map to_respond (response_frames id n content false))
            (with_holder s holder) true)
        empty
      ∙ run-response_frames (responder_call handler) to_respond with_holder
          (λ s. s.has_receiver ≡ true) (λ content s. (on_next content false ∷ [], idle_now s))
          respond-more respond-item id n s answers content fits

  complete-received :
      (id : Number) (s : Responder)
      → s.has_receiver ≡ true
      → (run (responder_call handler) (to_respond (complete_frame id) ∷ []) s true).0
        ≡ disconnect_if s.outbound_done ++ (on_complete ∷ [])
  unfolding respond handle_payload handle_late Flags.has_complete Flags.has_next Flags.has_follows
  complete-received id s answers = rw answers (append-nil _)

  -- The requester of a channel that has its id and is not done outbound sends payloads, one after the
  -- other, and then completes. The receiver of the registered responder that its frames reach, whose
  -- handler has returned and that holds no fragments, gets those payloads in that order, and then that
  -- they are complete; the responder leaves the registry if its other direction is done. Each payload
  -- fits in a frame, or has data and is cut into fragments of more than three bytes.
  pub received-item_calls :
      (contents : List Payload) (id : Number) (s : Requester) (b : Bool) (r : Responder)
      → s.stream_id ≡ some id
      → s.outbound_done ≡ false
      → r.has_receiver ≡ true
      → r.holder ≡ holder_of idle
      → All (λ content. IsCut content s.fragment_size FrameTypes.payload) contents
      → (run
          (responder_call handler)
          (map to_respond (frames_of (run Calls.call_of (item_calls contents) s b).0))
          r
          true).0
        ≡ received r.outbound_done contents
  unfolding next_payload complete_stream
  received-item_calls [] id s b r known live answers empty cut =
      rw (known, live, no_frames s.inbound_done) (complete-received id r answers)
  received-item_calls (content ∷ contents) id s b r known live answers empty (fits, cut) =
      let frames = response_frames id s.fragment_size content false in
      let s' = record s { outbound_done = false; stream_id = some id } in
      let b' = registered_after (map sent frames) b in
      let more = (run Calls.call_of (item_calls contents) s' b').0 in
      rw
        (
          live,
          known,
          frames_of-sent frames more,
          map-append to_respond frames (frames_of more),
          run-append (responder_call handler) (map to_respond frames)
              (map to_respond (frames_of more)) r true,
          respond-payload id s.fragment_size r content answers empty fits,
        )
        (ap (λ events. on_next content false ∷ events)
          (received-item_calls contents id s' b' (idle_now r) refl refl answers refl cut))
