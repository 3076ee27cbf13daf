-- ===== src/Transfer/Channel.antt =====
-- The payloads of a channel over a connection, in both directions: RequestChannelStream.ts at both ends,
-- with the bytes of Codecs.ts between them.
use rsocket.Prelude.{
  ℕ, ◌≡◌, refl, ap, ◌∙◌, Bool, true, false, Option, some, List, [], ◌∷◌, ◌++◌, map, All, All-append,
  append-nil, if_false,
}
use rsocket.Prelude.Number.{Number}
use rsocket.Prelude.Result.{ok, ◌>>=◌}
use rsocket.Bytes.{Bytes}
use rsocket.Bytes.ReadBack.{IsInt32}
use rsocket.Frames.FrameTypes
use rsocket.Reassembler.{Payload, FragmentsHolder}
use rsocket.Reassembler.Shape.{idle, holder_of}
use rsocket.Fragmenter.Request.{IsCut}
use rsocket.Codecs.Common.{TextCodec}
use rsocket.Codecs.Stream.RoundTrip.{IsPartial}
use rsocket.Streams.{Event, sent, frames_of, registered_after}
use rsocket.Streams.Runs.{run, frames_of-sent, registered_after-sent, registered_after-append}
use rsocket.Streams.Sending.{response_frames}
use rsocket.RequestChannel.{Requester, next_payload, complete_stream}
use rsocket.RequestChannel.Calls as Calls
use rsocket.RequestChannel.Responder as Responder
use rsocket.RequestChannel.Responder.{Responder, Outcome, signalled_all, disconnect_if}
use rsocket.RequestChannel.Serving.{responder_call, to_respond}
use rsocket.RequestChannel.Delivery.{items, received, no_frames, received-items}
use rsocket.RequestChannel.Inbound.{item_calls, received-item_calls}
use rsocket.Transfer.{carried, carried-pieces}
use rsocket.Transfer.Pieces.{IsPiece}
use rsocket.Transfer.Payloads.{CanTravel, response_frames-pieces, complete_frame-IsPiece}

-- Each payload fits in a frame, or has data and is cut into fragments of more than three bytes, and its
-- frames travel unchanged.
abbrev pub CanGo : ℕ → List Payload → Type 0
CanGo n contents =
    All (λ content. IsCut content n FrameTypes.payload) contents
    × All (λ content. CanTravel content n FrameTypes.payload) contents

-- An end that is done in neither direction and holds no fragments
abbrev pub IsFresh : Bool → Bool → FragmentsHolder → Type 0
IsFresh outbound_done inbound_done holder =
    (outbound_done ≡ false) × (inbound_done ≡ false) × (holder ≡ holder_of idle)

signals-pieces :
    (contents : List Payload) (r : Responder)
    → r.outbound_done ≡ false
    → CanGo r.fragment_size contents
    → All (IsPiece r.stream_id) (frames_of (signalled_all (items contents) r).0)
unfolding Responder.next_payload Responder.complete_stream
signals-pieces [] r live go =
    rw (live, no_frames r.inbound_done) (complete_frame-IsPiece r.stream_id, tt)
signals-pieces (content ∷ contents) r live ((fits, cut), (travels, travel)) =
    let frames = response_frames r.stream_id r.fragment_size content false in
    let r' = record r { outbound_done = false } in
    let more = (signalled_all (items contents) r').0 in
    let kept : List Event × Responder = ([], r) in
    let gone : List Event × Responder = (map sent frames ++ [], r') in
    rw (if_false r.outbound_done kept gone live, append-nil, frames_of-sent frames more)
      (All-append (IsPiece r.stream_id) frames (frames_of more)
        (response_frames-pieces r.stream_id r.fragment_size content false fits travels)
        (signals-pieces contents r' refl (cut, travel)))

calls-pieces :
    (contents : List Payload) (id : Number) (s : Requester) (b : Bool)
    → s.stream_id ≡ some id
    → s.outbound_done ≡ false
    → CanGo s.fragment_size contents
    → All (IsPiece id) (frames_of (run Calls.call_of (item_calls contents) s b).0)
unfolding next_payload complete_stream
calls-pieces [] id s b known live go =
    rw (known, live, no_frames s.inbound_done) (complete_frame-IsPiece id, tt)
calls-pieces (content ∷ contents) id s b known live ((fits, cut), (travels, travel)) =
    let frames = response_frames id s.fragment_size content false in
    let s' = record s { outbound_done = false; stream_id = some id } in
    let b' = registered_after (map sent frames) b in
    let more = (run Calls.call_of (item_calls contents) s' b').0 in
    rw (live, known, frames_of-sent frames more)
      (All-append (IsPiece id) frames (frames_of more)
        (response_frames-pieces id s.fragment_size content false fits travels)
        (calls-pieces contents id s' b' refl refl (cut, travel)))

-- Behind its payloads an end is done outbound, and registered still if it is not done inbound.
calls-state :
    (contents : List Payload) (id : Number) (s : Requester) (b : Bool)
    → s.stream_id ≡ some id
    → s.outbound_done ≡ false
    → s.inbound_done ≡ false
    → let (events, s', b') = run Calls.call_of (item_calls contents) s b in
      (s'.outbound_done ≡ true) × (s'.holder ≡ s.holder) × (b' ≡ b)
unfolding next_payload complete_stream
calls-state [] id s b known live expects = rw (known, live, expects) (refl, refl, refl)
calls-state (content ∷ contents) id s b known live expects =
    let frames = response_frames id s.fragment_size content false in
    let s' = record s { outbound_done = false; stream_id = some id } in
    let (done, same, listed) =
      calls-state contents id s' (registered_after (map sent frames) b) refl refl expects in
    rw (live, known) (done, same, listed ∙ registered_after-sent frames b)

signals-state :
    (contents : List Payload) (r : Responder)
    → r.outbound_done ≡ false
    → r.inbound_done ≡ false
    → let (events, r') = signalled_all (items contents) r in
      (r'.outbound_done ≡ true)
      × (r'.holder ≡ r.holder)
      × (r'.has_receiver ≡ r.has_receiver)
      × (registered_after events true ≡ true)
unfolding Responder.next_payload Responder.complete_stream
signals-state [] r live expects = rw (live, expects) (refl, refl, refl, refl)
signals-state (content ∷ contents) r live expects =
    let frames = response_frames r.stream_id r.fragment_size content false in
    let r' = record r { outbound_done = false } in
    let more = (signalled_all (items contents) r').0 in
    let (done, same, answers, listed) = signals-state contents r' refl expects in
    rw (live, append-nil)
      (
        done,
        same,
        answers,
        registered_after-append (map sent frames) more true
            ∙ ap (registered_after more) (registered_after-sent frames true)
            ∙ listed,
      )

-- The two ends of a channel, neither of which is done in a direction or holds fragments, and which are
-- registered; the requester has its id, and the responder's handler has returned. Each sends payloads,
-- one after the other, and then completes, before it gets the other's frames, which come as bytes with
-- the front of a further frame behind them. The receiver of each end gets the payloads of the other in
-- that order, then the end leaves the registry, and the receiver is told that they are complete. Each
-- payload fits in a frame, or has data and is cut into fragments of more than three bytes; it has no
-- part that is there and empty, and its frames have lengths of 24 bits. The id fits 32 bits.
pub channel-carried :
    (text : TextCodec) (handler : Payload → Option Number → Bool → Outcome) (s : Requester)
    (r : Responder) (up down : List Payload) (t u : Bytes)
    → s.stream_id ≡ some r.stream_id
    → IsFresh s.outbound_done s.inbound_done s.holder
    → IsFresh r.outbound_done r.inbound_done r.holder
    → r.has_receiver ≡ true
    → IsInt32 r.stream_id
    → IsPartial t
    → IsPartial u
    → CanGo s.fragment_size up
    → CanGo r.fragment_size down
    → let (asked, s', listed) = run Calls.call_of (item_calls up) s true in
      let (answered, r') = signalled_all (items down) r in
      ((carried text t (frames_of asked) >>= λ frames.
      ok
        (run
          (responder_call handler)
          (map to_respond frames)
          r'
          (registered_after answered true)).0)
        ≡ ok (received true up))
      × ((carried text u (frames_of answered) >>= λ frames.
            ok (run Calls.call_of (map Calls.frame_call frames) s' listed).0)
          ≡ ok (received true down))
channel-carried text handler s r up down t u known (s_live, s_expects, s_empty)
      (r_live, r_expects, r_empty) answers range pt pu go back =
    let id = r.stream_id in
    let (asked, s', listed) = run Calls.call_of (item_calls up) s true in
    let (answered, r') = signalled_all (items down) r in
    let (s_done, s_same, s_listed) = calls-state up id s true known s_live s_expects in
    let (r_done, r_same, r_answers, r_listed) = signals-state down r r_live r_expects in
    let read_up =
      carried-pieces text id range t (frames_of asked) pt
        (calls-pieces up id s true known s_live go) in
    let read_down =
      carried-pieces text id range u (frames_of answered) pu (signals-pieces down r r_live back) in
    (
      rw (read_up, r_listed)
          (ap ok (
            received-item_calls handler up id s true r' known s_live (r_answers ∙ answers)
              (r_same ∙ r_empty) go.0
            ∙ ap (λ b. received b up) r_done)),
      rw (read_down, s_listed)
          (ap ok (
            received-items down r s' r_live (s_same ∙ s_empty) back.0
            ∙ ap (λ b. received b down) s_done)),
    )
