-- ===== src/RequestChannel/Directions.antt =====
-- What the frames that reach the responder of a channel do to its entry in the registry, when they
-- do not call the handler.
use rsocket.Prelude.{
  ℕ, ◌≡◌, refl, sym, ap, ◌∙◌, Bool, true, false, not, ◌&&◌, ◌||◌, Option, none, some, List, [], ◌∷◌,
  if_both, if_cases,
}
use rsocket.Prelude.Number.{pos, lt}
use rsocket.Frames.{PayloadFrame, RequestNFrame, ExtFrame}
use rsocket.Frames.Flags
use rsocket.Frames.FrameTypes
use rsocket.Streams.{StreamError, Event, on_next, on_complete, registered_after, canceled_by}
use rsocket.Streams.Messages.{during_reassembly, invalid_request_n}
use rsocket.Streams.Runs.{registered_after-append}
use rsocket.RequestChannel.Stays.{left_if}
use rsocket.RequestChannel.Responder.{Responder, both_done, disconnect_if}
use rsocket.RequestChannel.Serving.{
  closing, close, refuse, handle_request_n, handle_ext, handle_late,
}
use rsocket.RequestChannel.Signals.{Lists}

closing-quiet :
    (r i o : Bool) (e : Option StreamError) → registered_after (closing r i o e) false ≡ false
closing-quiet true true true e = refl
closing-quiet true true false e = refl
closing-quiet true false true none = refl
closing-quiet true false true (some e) = refl
closing-quiet true false false none = refl
closing-quiet true false false (some e) = refl
closing-quiet false i o e = refl

pub refuse-Lists : (message : List ℕ) (s : Responder) (b : Bool) → Lists b (refuse message s)
unfolding refuse close
refuse-Lists message s b =
    let Off : List Event × Responder → Type 0 =
      λ (events, s'). registered_after events false ≡ not (both_done s') in
    if_cases Off (both_done s) (λ done. sym (ap not done))
      (λ going.
        closing-quiet s.has_receiver s.inbound_done s.outbound_done (some (canceled_by message)))

module _ (s : Responder) (live : both_done s ≡ false) where
  pub on : true ≡ not (both_done s)
  on = sym (ap not live)

  pub handle_request_n-Lists : (f : RequestNFrame) → Lists true (handle_request_n f s)
  unfolding handle_request_n
  handle_request_n-Lists f =
      if_both (Lists true) (not s.has_receiver || s.holder.has_fragments)
        (refuse-Lists (during_reassembly FrameTypes.request_n) s true)
        (if_both (Lists true) (lt f.request_n (pos 1))
          (refuse-Lists (invalid_request_n f.request_n) s true) on)

  pub handle_ext-Lists : (f : ExtFrame) → Lists true (handle_ext f s)
  unfolding handle_ext
  handle_ext-Lists f =
      if_both (Lists true) (not s.has_receiver || s.holder.has_fragments)
        (refuse-Lists (during_reassembly FrameTypes.ext) s true) on

  -- The end of the inbound direction, or not
  pub left_off :
      (complete : Bool)
      → registered_after (disconnect_if (complete && s.outbound_done)) true
        ≡ not ((s.inbound_done || complete) && s.outbound_done)
  left_off complete = left_if s.inbound_done s.outbound_done complete live

  pub handle_late-Lists : (f : PayloadFrame) → Lists true (handle_late f s)
  unfolding handle_late
  handle_late-Lists f =
      let complete = Flags.has_complete f.flags in
      let left = disconnect_if (complete && s.outbound_done) in
      if_both (Lists true) (complete && not (Flags.has_next f.flags))
        (registered_after-append left (on_complete ∷ []) true ∙ left_off complete)
        (registered_after-append left (on_next _ complete ∷ []) true ∙ left_off complete)
