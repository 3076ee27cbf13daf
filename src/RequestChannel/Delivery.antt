-- ===== src/RequestChannel/Delivery.antt =====
-- The payloads of a channel: what one end sends is what the receiver of the other end gets, in either
-- direction.
use mathlib.Core.List.{map-append}
use rsocket.Prelude.{
  ℕ, ◌≡◌, refl, ap, ◌∙◌, Bool, true, false, ◌||◌, List, [], ◌∷◌, ◌++◌, map, append-nil, All,
  if_false,
}
use rsocket.Prelude.Number.{Number}
use rsocket.Frames.{PayloadFrame, payload}
use rsocket.Frames.Flags
use rsocket.Frames.FrameTypes
use rsocket.Reassembler as Reassembler
use rsocket.Reassembler.{Payload, FragmentsHolder}
use rsocket.Reassembler.Shape.{idle, holder_of}
use rsocket.Fragmenter.Receive.{last_payload}
use rsocket.Fragmenter.Request.{IsCut}
use rsocket.Streams.{Event, sent, on_next, on_complete, frames_of}
use rsocket.Streams.Runs.{run, run-append, frames_of-sent}
use rsocket.Streams.Items.{Holds, response_of-last, run-response_frames}
use rsocket.Streams.Sending.{response_frames, complete_frame}
use rsocket.RequestChannel.{Requester, handle, handle_payload, handle_last}
use rsocket.RequestChannel.Calls.{frame_call, call_of}
use rsocket.RequestChannel.Responder as Responder
use rsocket.RequestChannel.Responder.{
  Signal, next, complete, Responder, signalled_all, disconnect_if, Outcome,
}

pub or_false : (b : Bool) → (b || false) ≡ b
or_false true = refl
or_false false = refl

-- Payloads, and then the end
abbrev pub items : List Payload → List Signal
items [] = complete ∷ []
items (content ∷ contents) = next content false ∷ items contents

-- What a receiver gets of them, where the other direction of its stream is done or not.
abbrev pub received : Bool → List Payload → List Event
received outbound_done [] = disconnect_if outbound_done ++ (on_complete ∷ [])
received outbound_done (content ∷ contents) =
    on_next content false ∷ received outbound_done contents

abbrev with_holder : Requester → FragmentsHolder → Requester
with_holder s holder = record s { holder = holder }

abbrev idle_now : Requester → Requester
idle_now s = with_holder s (holder_of idle)

module _ (f : PayloadFrame) (s : Requester) (holder : FragmentsHolder)
    (open_end : Flags.has_complete f.flags ≡ false) (waits : Unit {0}) where
  handle-more :
      Flags.has_follows f.flags ≡ true
      → handle (payload f) (with_holder s holder)
        ≡ ([], with_holder s (Reassembler.add holder f.body f.metadata))
  unfolding handle handle_payload
  handle-more follows = rw (open_end, follows) refl

  handle-item :
      Flags.has_follows f.flags ≡ false
      → Holds holder
      → handle (payload f) (with_holder s holder)
        ≡ (on_next (last_payload holder f.body f.metadata) false ∷ [], idle_now s)
  unfolding handle handle_payload handle_last
  handle-item last h =
      let given : Payload × FragmentsHolder → List Event × Requester = λ (content, holder).
        (on_next content false ∷ [], record s { inbound_done = s.inbound_done; holder = holder }) in
      rw (open_end, last, or_false s.inbound_done)
        (ap given (response_of-last holder f.body f.metadata h))

-- One payload
run-item :
    (id : Number) (n : ℕ) (s : Requester) (content : Payload)
    → s.holder ≡ holder_of idle
    → IsCut content n FrameTypes.payload
    → run call_of (map frame_call (response_frames id n content false)) s true
      ≡ (on_next content false ∷ [], idle_now s, true)
run-item id n s content empty fits =
    ap
      (λ holder.
        run call_of (map frame_call (response_frames id n content false)) (with_holder s holder)
          true)
      empty
    ∙ run-response_frames call_of frame_call with_holder (λ s. Unit)
        (λ content s. (on_next content false ∷ [], idle_now s)) handle-more handle-item id n s tt
        content fits

complete-received :
    (id : Number) (s : Requester)
    → (run call_of (frame_call (complete_frame id) ∷ []) s true).0
      ≡ disconnect_if s.outbound_done ++ (on_complete ∷ [])
unfolding handle handle_payload handle_last Flags.has_complete Flags.has_next
complete-received id s = append-nil _

pub no_frames : (b : Bool) → frames_of (disconnect_if b ++ []) ≡ []
no_frames true = refl
no_frames false = refl

-- The responder of a channel that is not done outbound sends payloads, one after the other, and then
-- completes. The receiver of the registered requester that its frames reach, and that holds no fragments,
-- gets those payloads in that order, and then that they are complete; the requester leaves the registry
-- if its other direction is done. Each payload fits in a frame, or has data and is cut into fragments
-- of more than three bytes.
pub received-items :
    (contents : List Payload) (r : Responder) (s : Requester)
    → r.outbound_done ≡ false
    → s.holder ≡ holder_of idle
    → All (λ content. IsCut content r.fragment_size FrameTypes.payload) contents
    → (run call_of (map frame_call (frames_of (signalled_all (items contents) r).0)) s true).0
      ≡ received s.outbound_done contents
unfolding Responder.next_payload Responder.complete_stream
received-items [] r s live empty cut =
    let told : List Event = sent (complete_frame r.stream_id) ∷ disconnect_if r.inbound_done in
    let kept : List Event × Responder = ([], r) in
    let ended : List Event × Responder = (told, record r { outbound_done = true }) in
    rw (if_false r.outbound_done kept ended live, no_frames r.inbound_done)
      (complete-received r.stream_id s)
received-items (content ∷ contents) r s live empty (fits, cut) =
    let frames = response_frames r.stream_id r.fragment_size content false in
    let r' = record r { outbound_done = false } in
    let more = (signalled_all (items contents) r').0 in
    let kept : List Event × Responder = ([], r) in
    let gone : List Event × Responder = (map sent frames ++ [], r') in
    rw
      (
        if_false r.outbound_done kept gone live,
        append-nil,
        frames_of-sent frames more,
        map-append frame_call frames (frames_of more),
        run-append call_of (map frame_call frames) (map frame_call (frames_of more)) s true,
        run-item r.stream_id r.fragment_size s content empty fits,
      )
      (ap (λ events. on_next content false ∷ events)
        (received-items contents r' (idle_now s) refl refl cut))
