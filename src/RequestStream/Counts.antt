-- ===== src/RequestStream/Counts.antt =====
-- The request counts that a request/stream sends are those that its caller asked for.
use rsocket.Prelude.{
  ℕ, ◌<◌, ◌≡◌, refl, subst, ap, ◌∙◌, Bool, false, Option, none, some, List, [], ◌∷◌, ◌++◌, map,
  Bool-cases, inl, inr, arith, if_false,
}
use rsocket.Prelude.Number.{Number, add}
use rsocket.Prelude.Generator.{Generator, yield, return, out_of_fuel, yields}
use rsocket.Bytes.{Bytes}
use rsocket.Frames.{Frame, payload}
use rsocket.Frames.FrameTypes
use rsocket.Reassembler.{Payload}
use rsocket.Fragmenter.{
  is_fragmentable, fragment_with_request_n, stream_kind, request_many_frame, byte_length,
}
use rsocket.Fragmenter.Flagged.{AllFlagged}
use rsocket.Fragmenter.Request.{fragments-StartsWith, IsCutMany}
use rsocket.Fragmenter.RoundTrip.{request_many_frame-part}
use rsocket.Streams.{Event, connected, sent, registered_after, Extension, extension_frames}
use rsocket.Streams.Runs.{run}
use rsocket.RequestStream.{Requester, request_frames, handle_ready, requested_more, request_more}
use rsocket.RequestStream.Calls.{Call, ready_call, request_call, call_of}
use rsocket.RequestStream.Sends.{counts_of, asked, NoReady}
use rsocket.RequestStream.Credit.{run-Sends}

counts_of-AllFlagged :
    (g : Generator Frame (Unit {0})) (rest : List Event)
    → AllFlagged g
    → counts_of (map sent (yields g) ++ rest) ≡ counts_of rest
counts_of-AllFlagged (yield (payload f) g) rest (flagged, h) = counts_of-AllFlagged g rest h
counts_of-AllFlagged (yield frame g) rest (flagged, h) = absurd flagged
counts_of-AllFlagged (return a) rest h = refl
counts_of-AllFlagged out_of_fuel rest h = refl

module _ (id n : Number) where
  counts_of-cut :
      (body metadata : Option Bytes) (size : ℕ) (rest : List Event)
      → (0 < byte_length body) × (6 < size)
      → let content : Payload = record { body = body; metadata = metadata } in
        counts_of
          (map sent (yields (fragment_with_request_n id content size stream_kind n false)) ++ rest)
        ≡ n ∷ counts_of rest
  unfolding fragment_with_request_n
  counts_of-cut none m size rest (h, roomy) = absurd (omega arith)
  counts_of-cut (some b) m size rest (h, roomy) =
      let cut =
        fragments-StartsWith id size false (request_many_frame stream_kind id n) 3
          (request_many_frame-part stream_kind id n) (omega arith) b m h in
      rw cut.is (ap (λ ns. n ∷ ns) (counts_of-AllFlagged cut.rest rest cut.flagged))

counts_of-extension :
    (id : Number) (e : Option Extension) (rest : List Event)
    → counts_of (map sent (extension_frames id e) ++ rest) ≡ counts_of rest
counts_of-extension id none rest = refl
counts_of-extension id (some e) rest = refl

map_sent-append :
    (xs ys : List Frame) (rest : List Event)
    → map sent (xs ++ ys) ++ rest ≡ map sent xs ++ (map sent ys ++ rest)
map_sent-append [] ys rest = refl
map_sent-append (x ∷ xs) ys rest = ap (λ r. sent x ∷ r) (map_sent-append xs ys rest)

counts_of-request_frames :
    (id : Number) (s : Requester) (rest : List Event)
    → IsCutMany s.request s.fragment_size FrameTypes.request_stream
    → counts_of (map sent (request_frames id s) ++ rest) ≡ s.initial_request_n ∷ counts_of rest
unfolding request_frames
counts_of-request_frames id s rest roomy =
    elim (Bool-cases (is_fragmentable s.request s.fragment_size FrameTypes.request_stream)) [
      | inl cut ↦ rw cut (
          counts_of-cut id s.initial_request_n s.request.body s.request.metadata s.fragment_size
            rest (roomy cut))
      | inr whole ↦ rw whole refl
    ]

-- What is asked for before the stream has its id is added up.
abbrev pub added : Number → List Number → Number
added n [] = n
added n (m ∷ ms) = added (add n m) ms

ready-counts :
    (id : Number) (calls : List Call) (s : Requester) (b : Bool)
    → NoReady calls
    → s.done ≡ false
    → IsCutMany s.request s.fragment_size FrameTypes.request_stream
    → (run call_of (ready_call id ∷ calls) s b).1.done ≡ false
    → counts_of (run call_of (ready_call id ∷ calls) s b).0 ≡ s.initial_request_n ∷ asked calls
unfolding handle_ready
ready-counts id calls s b n live roomy going =
    let s' : Requester = record s { stream_id = some id } in
    let frames = request_frames id s ++ extension_frames id s.extension in
    let made : List Event × Requester = (connected ∷ map sent frames, s') in
    let is : handle_ready id s ≡ made = if_false s.done ([], s) made live in
    let more = (run call_of calls s' (registered_after made.0 b)).0 in
    let rest = run-Sends calls s' (registered_after made.0 b) id n refl (rw is at going) in
    rw is (
      ap counts_of (map_sent-append (request_frames id s) (extension_frames id s.extension) more)
      ∙ counts_of-request_frames id s (map sent (extension_frames id s.extension) ++ more) roomy
      ∙ ap (λ ns. s.initial_request_n ∷ ns) (counts_of-extension id s.extension more ∙ rest.1))

-- A request/stream that is not done and has no id yet: its caller asks for more, then the stream gets
-- its id, and then calls of any kind but this come. As long as the stream is not done behind them, the
-- request counts that it has sent are the initial one with all that was asked for before, in the
-- request, and then each that was asked for later, in order, in a frame of its own. The request fits
-- in a frame, or has data and is cut into fragments of more than six bytes.
pub counts_of-run :
    (ms : List Number) (id : Number) (calls : List Call) (s : Requester) (b : Bool)
    → NoReady calls
    → s.done ≡ false
    → s.stream_id ≡ none
    → IsCutMany s.request s.fragment_size FrameTypes.request_stream
    → (run call_of (map request_call ms ++ (ready_call id ∷ calls)) s b).1.done ≡ false
    → counts_of (run call_of (map request_call ms ++ (ready_call id ∷ calls)) s b).0
      ≡ added s.initial_request_n ms ∷ asked calls
unfolding request_more
counts_of-run [] id calls s b n live unset roomy going =
    ready-counts id calls s b n live roomy going
counts_of-run (m ∷ ms) id calls s b n live unset roomy going =
    let s' : Requester = record s { initial_request_n = add s.initial_request_n m } in
    let is : request_more m s ≡ ([], s') =
      if_false s.done ([], s) (requested_more s.stream_id m s) live
      ∙ ap (λ o. requested_more o m s) unset in
    let ends : List Event × Requester → Type 0 = λ r.
      let (more, s'', b'') =
        run call_of (map request_call ms ++ (ready_call id ∷ calls)) r.1 (registered_after r.0 b) in
      s''.done ≡ false in
    rw is (counts_of-run ms id calls s' b n live unset roomy (subst ends is going))
