-- ===== src/Transfer/Tests.antt =====
-- The theorems on payloads that go over a connection, at concrete payloads.
use rsocket.Prelude.{
  Bool, Option, map, List, none, false, ◌≡◌, refl, some, [], ◌∷◌, arith, true, inl, inr,
}
use rsocket.Prelude.Number.{Number, pos}
use rsocket.Prelude.Result.{ok, ◌>>=◌}
use rsocket.Prelude.Generator.{yields}
use rsocket.Bytes.{Bytes}
use rsocket.Reassembler.{Payload}
use rsocket.Reassembler.Shape.{idle, holder_of}
use rsocket.Fragmenter.{payload_kind, fragment, is_fragmentable}
use rsocket.Fragmenter.Receive.{receive}
use rsocket.Codecs.Common.{TextCodec}
use rsocket.Streams.{frames_of, disconnected, on_next, registered_after}
use rsocket.RequestResponse.{Requester, handle_ready}
use rsocket.RequestResponse.Calls.{frame_call, run}
use rsocket.RequestResponse.Serving.{serve}
use rsocket.RequestResponse.Exchange.{answering}
use rsocket.Streams.Runs as Runs
use rsocket.RequestStream as Stream
use rsocket.RequestStream.Calls as Calls
use rsocket.RequestStream.Calls.{call_of}
use rsocket.RequestStream.Serving as Streaming
use rsocket.RequestStream.Delivery.{received}
use rsocket.RequestFnf as Fnf
use rsocket.RequestFnf.Serving as Serving
use rsocket.RequestFnf.Serving.{delivered}
use rsocket.RequestChannel as Channel
use rsocket.RequestChannel.Calls as ChannelCalls
use rsocket.RequestChannel.Responder as ChannelResponder
use rsocket.RequestChannel.Serving.{responder_call, to_respond}
use rsocket.RequestChannel.Delivery as Delivery
use rsocket.RequestChannel.Inbound.{item_calls}
use rsocket.Transfer.Channel.{CanGo, channel-carried}
use rsocket.Transfer.Items.{listing, stream-carried}
use rsocket.Transfer.Requests.{delivered-carried}
use rsocket.Transfer.Exchange.{exchange-carried}
use rsocket.Transfer.{carried, in_turn, receive-carried}

abbrev ascii : TextCodec
ascii = record { encode = λ s. s; decode = λ b. b }

abbrev nine : Bytes
nine = 1 ∷ 2 ∷ 3 ∷ 4 ∷ 5 ∷ 6 ∷ 7 ∷ 8 ∷ 9 ∷ []

abbrev small : Payload
small = record { body = some nine; metadata = some (7 ∷ 7 ∷ 7 ∷ []) }

-- Five bytes a frame, and two bytes of a further frame's length behind the last.
receive-carried_example :
    (carried ascii (0 ∷ 0 ∷ []) (yields (fragment (pos 1) small 5 payload_kind true)) >>= λ frames.
    ok (receive (holder_of idle) (in_turn frames)))
    ≡ ok (some small)
unfolding is_fragmentable
receive-carried_example =
    receive-carried ascii (pos 1) nine (some (7 ∷ 7 ∷ 7 ∷ [])) 5 payload_kind true (0 ∷ 0 ∷ [])
      (omega arith) (omega arith) (omega arith) (omega arith) (omega arith) refl (inl (omega arith))

abbrev asking : Requester
asking = record {
  request = record { body = some nine; metadata = some (7 ∷ []) };
  fragment_size = 5;
  done = false;
  extension = none;
  holder = holder_of idle;
  stream_id = none;
}

abbrev swapped : Payload → Payload
swapped content = record { body = some nine; metadata = content.body }

-- Both the request and the answer are cut, and two bytes come behind each.
exchange-carried_example :
    let (asked, s) = handle_ready (pos 1) asking in
    let t : Bytes = 0 ∷ 0 ∷ [] in
    (carried ascii t (frames_of asked) >>= λ request.
    carried ascii t (frames_of (serve (answering swapped) 4 request)) >>= λ answer.
    ok
      (run
        (map frame_call answer)
        (record { stream = s; registered = registered_after asked false })).0)
    ≡ ok (disconnected ∷ on_next (record { body = some nine; metadata = some nine }) true ∷ [])
unfolding is_fragmentable
exchange-carried_example =
    exchange-carried ascii swapped (pos 1) 4 asking (0 ∷ 0 ∷ []) (0 ∷ 0 ∷ []) refl refl refl
      (omega arith) (inl (omega arith)) (inl (omega arith)) (λ e. (omega arith, omega arith))
      (λ e. (omega arith, omega arith)) (omega arith, omega arith, omega arith)
      (omega arith, omega arith, omega arith)

abbrev listening : Stream.Requester
listening = record {
  request = small;
  fragment_size = 9;
  initial_request_n = pos 2;
  done = false;
  extension = none;
  holder = holder_of idle;
  stream_id = none;
}

abbrev two_items : List Payload
two_items =
    record { body = some (1 ∷ []); metadata = none }
    ∷ record { body = some nine; metadata = none }
    ∷ []

-- The request is cut, and the second of the two payloads that come back.
stream-carried_example :
    let (asked, s) = Stream.handle_ready (pos 1) listening in
    (carried ascii (0 ∷ []) (frames_of asked) >>= λ request.
    carried ascii [] (frames_of (Streaming.serve (listing (λ c n. two_items)) 4 request))
    >>= λ answer.
        ok (Runs.run call_of (map Calls.frame_call answer) s (registered_after asked false)).0)
    ≡ ok (received two_items)
unfolding is_fragmentable
stream-carried_example =
    stream-carried ascii (λ c n. two_items) (pos 1) 4 listening (0 ∷ []) [] refl refl refl
      (omega arith) (omega arith) refl (inl (omega arith)) (inl (omega arith))
      (λ e. (omega arith, omega arith)) (omega arith, omega arith, inr (omega arith), omega arith)
      ((λ e. absurd cc), ((λ e. (omega arith, omega arith)), tt))
      ((omega arith, tt, omega arith), ((omega arith, tt, omega arith), tt))

abbrev telling : Fnf.Requester
telling = record { request = small; fragment_size = 5; done = false; stream_id = none }

-- The request is cut, and the handler throws.
delivered-carried_example :
    (carried ascii (0 ∷ []) (Fnf.request_frames (pos 3) telling) >>= λ frames.
    ok (delivered (Serving.serve (λ content. true) frames)))
    ≡ ok (small ∷ [])
unfolding is_fragmentable
delivered-carried_example =
    delivered-carried ascii (λ content. true) (pos 3) telling (0 ∷ []) (omega arith)
      (inl (omega arith)) (λ e. (omega arith, omega arith)) (omega arith, omega arith, omega arith)

abbrev upper : Channel.Requester
upper = record {
  request = small;
  fragment_size = 4;
  initial_request_n = pos 1;
  is_complete = false;
  inbound_done = false;
  outbound_done = false;
  extension = none;
  holder = holder_of idle;
  stream_id = some (pos 1);
}

abbrev lower : ChannelResponder.Responder
lower = record {
  stream_id = pos 1;
  fragment_size = 4;
  initial_request_n = none;
  is_complete = false;
  inbound_done = false;
  outbound_done = false;
  deferred_error = none;
  holder = holder_of idle;
  has_receiver = true;
}

abbrev idling : Payload → Option Number → Bool → ChannelResponder.Outcome
idling content n is_last = record { signals = []; thrown = none }

-- Both ends send two payloads, the second of which is cut.
channel-carried_example :
    let (asked, s, listed) = Runs.run ChannelCalls.call_of (item_calls two_items) upper true in
    let (answered, r) = ChannelResponder.signalled_all (Delivery.items two_items) lower in
    ((carried ascii [] (frames_of asked) >>= λ frames.
    ok
      (Runs.run
        (responder_call idling)
        (map to_respond frames)
        r
        (registered_after answered true)).0)
      ≡ ok (Delivery.received true two_items))
    × ((carried ascii [] (frames_of answered) >>= λ frames.
          ok (Runs.run ChannelCalls.call_of (map ChannelCalls.frame_call frames) s listed).0)
        ≡ ok (Delivery.received true two_items))
unfolding is_fragmentable
channel-carried_example =
    let go : CanGo 4 two_items = (
      ((λ e. absurd cc), ((λ e. (omega arith, omega arith)), tt)),
      ((omega arith, tt, omega arith), ((omega arith, tt, omega arith), tt)),
    ) in
    channel-carried ascii idling upper lower two_items two_items [] [] refl (refl, refl, refl)
      (refl, refl, refl) refl (omega arith) (inl (omega arith)) (inl (omega arith)) go go
