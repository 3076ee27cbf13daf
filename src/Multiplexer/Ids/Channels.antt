-- ===== src/Multiplexer/Ids/Channels.antt =====
-- The responder of a channel keeps its id, from the request that makes it on.
use rsocket.Prelude.{
  ℕ, ◌≡◌, refl, ◌∙◌, Bool, not, ◌&&◌, ◌||◌, Option, none, some, List, [], ◌∷◌, arith, if_both,
}
use rsocket.Prelude.Number.{Number, pos, lt}
use rsocket.Frames.{
  Frame, RequestManyFrame, PayloadFrame, ErrorFrame, ExtFrame, CancelFrame, RequestNFrame,
  as_payload, as_error, as_ext, as_cancel, as_request_n,
}
use rsocket.Frames.Flags
use rsocket.Reassembler.{Payload}
use rsocket.Streams.{Failure, StreamError, Event}
use rsocket.RequestChannel.Responder as Channel
use rsocket.RequestChannel.Serving as Serving

abbrev ChannelKeeps : Number → List Event × Channel.Responder → Type 0
ChannelKeeps id (events, s) = s.stream_id ≡ id

pub channel_signalled-id :
    (signal : Channel.Signal) (s : Channel.Responder)
    → (Channel.signalled signal s).1.stream_id ≡ s.stream_id
unfolding Channel.next_payload Channel.complete_stream Channel.fail_stream Channel.extend_stream
    Channel.request_more Channel.cancel_inbound
channel_signalled-id (Channel.next content last) s = ground arith
channel_signalled-id Channel.complete s = ground arith
channel_signalled-id (Channel.fail e) s = ground arith
channel_signalled-id (Channel.extend t c i) s = ground arith
channel_signalled-id (Channel.ask n) s = ground arith
channel_signalled-id Channel.stop s = ground arith

channel_signalled_all-id :
    (signals : List Channel.Signal) (s : Channel.Responder)
    → (Channel.signalled_all signals s).1.stream_id ≡ s.stream_id
channel_signalled_all-id [] s = refl
channel_signalled_all-id (signal ∷ signals) s =
    channel_signalled_all-id signals (Channel.signalled signal s).1 ∙ channel_signalled-id signal s

channel_settled-id :
    (o : Option Failure) (s : Channel.Responder) → (Channel.settled o s).1.stream_id ≡ s.stream_id
unfolding Channel.settled Channel.fail_stream Channel.cancel_inbound
channel_settled-id none s = refl
channel_settled-id (some e) s = ground arith

channel_refuse-id :
    (message : List ℕ) (s : Channel.Responder)
    → (Serving.refuse message s).1.stream_id ≡ s.stream_id
unfolding Serving.refuse Serving.close
channel_refuse-id message s = ground arith

module _ (handler : Payload → Option Number → Bool → Channel.Outcome) where
  channel_called-id :
      (content : Payload) (n : Option Number) (last : Bool) (s : Channel.Responder)
      → (Serving.call_handler handler content n last s).1.stream_id ≡ s.stream_id
  unfolding Serving.call_handler
  channel_called-id content n last s =
      channel_settled-id (handler content n last).thrown
        (Channel.signalled_all (handler content n last).signals s).1
      ∙ channel_signalled_all-id (handler content n last).signals s

  pub channel_construct-id :
      (frame : RequestManyFrame) (size : ℕ)
      → (Serving.construct handler frame size).1.stream_id ≡ frame.stream_id
  unfolding Serving.construct Serving.construct_rest Channel.fail_stream
  channel_construct-id frame size =
      if_both (ChannelKeeps frame.stream_id) (lt frame.request_n (pos 1)) refl (
        if_both (ChannelKeeps frame.stream_id) (Flags.has_follows frame.flags) refl
          (channel_called-id _ _ _ _))

  channel_payload-id :
      (f : PayloadFrame) (s : Channel.Responder)
      → (Serving.handle_payload handler f s).1.stream_id ≡ s.stream_id
  unfolding Serving.handle_payload Serving.handle_early Serving.handle_late
  channel_payload-id f s =
      let complete = Flags.has_complete f.flags in
      if_both (ChannelKeeps s.stream_id) (Flags.has_follows f.flags) refl (
        if_both (ChannelKeeps s.stream_id) s.has_receiver
          (if_both (ChannelKeeps s.stream_id) (complete && not (Flags.has_next f.flags)) refl refl)
          (channel_called-id _ _ _ _))

  pub channel_respond-id :
      (frame : Frame) (s : Channel.Responder)
      → (Serving.respond handler frame s).1.stream_id ≡ s.stream_id
  unfolding Serving.respond Serving.handle_request_n Serving.handle_ext Serving.handle_end
  channel_respond-id frame s =
      by (as_payload frame) (as_request_n frame) (as_error frame) (as_cancel frame) (as_ext frame)
    where
      Same : List Event × Channel.Responder → Type 0
      Same = ChannelKeeps s.stream_id

      by :
          (p : Option PayloadFrame) (n : Option RequestNFrame) (e : Option ErrorFrame)
          (c : Option CancelFrame) (x : Option ExtFrame)
          → Same (Serving.respond_by handler p n e c x frame s)
      by (some f) n e c x = channel_payload-id f s
      by none (some f) e c x =
          if_both Same (not s.has_receiver || s.holder.has_fragments) (channel_refuse-id _ s)
            (if_both Same (lt f.request_n (pos 1)) (channel_refuse-id _ s) refl)
      by none none (some f) c x = refl
      by none none none (some f) x = refl
      by none none none none (some f) =
          if_both Same (not s.has_receiver || s.holder.has_fragments) (channel_refuse-id _ s) refl
      by none none none none none = channel_refuse-id _ s

pub channel_closed-id :
    (e : Option StreamError) (s : Channel.Responder) → (Serving.close e s).1.stream_id ≡ s.stream_id
unfolding Serving.close
channel_closed-id e s = ground arith
