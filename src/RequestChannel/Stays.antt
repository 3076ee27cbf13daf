-- ===== src/RequestChannel/Stays.antt =====
-- What the frames that reach the requester of a channel do to its entry in the registry.
use rsocket.Prelude.{
  ℕ, ◌≡◌, refl, sym, ap, ◌∙◌, Bool, true, false, not, ◌&&◌, ◌||◌, Option, none, some, List, [], ◌∷◌,
  ◌++◌, if◌then◌else◌, if_both, if_cases,
}
use rsocket.Prelude.Number.{Number, pos, lt}
use rsocket.Frames.{
  Frame, PayloadFrame, CancelFrame, RequestNFrame, ErrorFrame, ExtFrame, as_payload, as_cancel,
  as_request_n, as_error, as_ext,
}
use rsocket.Frames.Flags
use rsocket.Frames.FrameTypes
use rsocket.Streams.{
  Event, disconnected, on_next, on_complete, on_error, receiver_cancelled, registered_after,
  cancel_frame, remote, canceled_by,
}
use rsocket.Streams.Messages.{during_reassembly, invalid_request_n}
use rsocket.Streams.Runs.{registered_after-append, registered_after-disconnected}
use rsocket.RequestChannel.{
  Requester, both_done, disconnect_if, cancel_unless, terminal_unless, close, unexpected,
  handle_last, handle_payload, handle_cancel, handle_request_n, handle_by, handle,
}
use rsocket.RequestChannel.Calls.{IsListed}

-- What a call leads to
abbrev pub Keeps : Bool → List Event × Requester → Type 0
Keeps b (events, s') =
    (o : Option Number) × (s'.stream_id ≡ o) × IsListed o s' (registered_after events b)

pub and_false : (i : Bool) → (i && false) ≡ false
and_false true = refl
and_false false = refl

pub registered_after-disconnect_if :
    (i : Bool) (b : Bool) → registered_after (disconnect_if i) b ≡ (if i then false else b)
registered_after-disconnect_if true b = refl
registered_after-disconnect_if false b = refl

pub registered_after-cancel_unless :
    (o : Bool) (b : Bool) → registered_after (cancel_unless o) b ≡ b
registered_after-cancel_unless true b = refl
registered_after-cancel_unless false b = refl

-- The registry behind the end of one direction, when the other is done or not
pub unlisted : (i : Bool) → (if i then false else true) ≡ not (i && true)
unlisted true = refl
unlisted false = refl

pub or_false : (i : Bool) → (i || false) ≡ i
or_false true = refl
or_false false = refl

-- The inbound direction ends, or does not, and the stream leaves the registry if both have ended.
pub left_if :
    (i o c : Bool)
    → (i && o) ≡ false
    → registered_after (disconnect_if (c && o)) true ≡ not ((i || c) && o)
left_if true true c live = absurd cc
left_if true false true live = refl
left_if true false false live = refl
left_if false true true live = refl
left_if false true false live = refl
left_if false false true live = refl
left_if false false false live = refl

-- A stream that the registry has, with `id`
module _ (id : Number) (s : Requester) (known : s.stream_id ≡ some id) where
  abbrev pub Stays : Bool → List Event × Requester → Type 0
  Stays b (events, s') = (s'.stream_id ≡ some id) × (registered_after events b ≡ not (both_done s'))

  unexpected-Stays : (message : List ℕ) (b : Bool) → Stays b (unexpected message s)
  unfolding unexpected close
  unexpected-Stays message b =
      let told = cancel_frame s.stream_id ++ (disconnected ∷ []) in
      let off : (events : List Event) → registered_after (events ++ told) b ≡ false = λ events.
        registered_after-append events told b
        ∙ registered_after-disconnected (cancel_frame s.stream_id) _ in
      if_cases (λ (r : List Event × Requester). Stays b (r.0 ++ told, r.1)) (both_done s)
        (λ done. (known, off [] ∙ sym (ap not done)))
        (λ going. (
          known,
          off (
              cancel_unless s.outbound_done
              ++ terminal_unless s.inbound_done (some (canceled_by message))),
        ))

  handle_last-Stays : (f : PayloadFrame) → both_done s ≡ false → Stays true (handle_last f s)
  unfolding handle_last
  handle_last-Stays f live =
      let complete = Flags.has_complete f.flags in
      let left = disconnect_if (complete && s.outbound_done) in
      let shut = left_if s.inbound_done s.outbound_done complete live in
      if_both (Stays true) (complete && not (Flags.has_next f.flags))
        (known, registered_after-append left (on_complete ∷ []) true ∙ shut)
        (known, registered_after-append left (on_next _ complete ∷ []) true ∙ shut)

  handle_cancel-Stays : both_done s ≡ false → Stays true (handle_cancel s)
  unfolding handle_cancel
  handle_cancel-Stays live =
      if_both (Stays true) s.outbound_done (known, sym (ap not live))
        (
          known,
          registered_after-append (disconnect_if s.inbound_done) (receiver_cancelled ∷ []) true
              ∙ registered_after-disconnect_if s.inbound_done true
              ∙ unlisted s.inbound_done,
        )

  handle_request_n-Stays :
      (f : RequestNFrame) → both_done s ≡ false → Stays true (handle_request_n f s)
  unfolding handle_request_n
  handle_request_n-Stays f live =
      let same = sym (ap not live) in
      if_both (Stays true) s.outbound_done (known, same)
        (if_both (Stays true) s.holder.has_fragments
          (unexpected-Stays (during_reassembly FrameTypes.request_n) true)
          (if_both (Stays true) (lt f.request_n (pos 1))
            (unexpected-Stays (invalid_request_n f.request_n) true) (known, same)))

  handle_payload-Stays : (f : PayloadFrame) → both_done s ≡ false → Stays true (handle_payload f s)
  unfolding handle_payload
  handle_payload-Stays f live =
      if_both (Stays true) (Flags.has_complete f.flags || not (Flags.has_follows f.flags))
        (handle_last-Stays f live) (known, sym (ap not live))

  pub handle-Stays : (frame : Frame) → both_done s ≡ false → Stays true (handle frame s)
  unfolding handle
  handle-Stays frame live =
      by (as_payload frame) (as_cancel frame) (as_request_n frame) (as_error frame) (as_ext frame)
    where
      by :
          (p : Option PayloadFrame) (c : Option CancelFrame) (n : Option RequestNFrame)
          (e : Option ErrorFrame) (x : Option ExtFrame)
          → Stays true (handle_by p c n e x frame s)
      by (some f) c n e x = handle_payload-Stays f live
      by none (some f) n e x = handle_cancel-Stays live
      by none none (some f) e x = handle_request_n-Stays f live
      by none none none (some f) x = (
        known,
        registered_after-append (cancel_unless s.outbound_done)
              (on_error (remote f.code f.message) ∷ []) false
            ∙ registered_after-cancel_unless s.outbound_done false,
      )
      by none none none none (some f) = (known, sym (ap not live))
      by none none none none none = unexpected-Stays _ true
