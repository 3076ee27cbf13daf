-- ===== src/RequestStream/Credit.antt =====
-- The request counts that a request/stream sends are those that its caller asked for.
use rsocket.Prelude.{
  ◌≡◌, refl, sym, subst, ap, ◌∙◌, Bool, false, some, List, [], ◌∷◌, ◌++◌, if◌then◌else◌, if_both,
}
use rsocket.Prelude.Number.{Number}
use rsocket.Frames.{Frame, as_payload, as_error, as_ext}
use rsocket.Streams.{extension_of, registered_after, Extension}
use rsocket.Streams.Runs.{run}
use rsocket.RequestStream.{
  Requester, handle_reject, handle, requested_more, request_more, cancelled, cancel_stream,
  extended, send_extension,
}
use rsocket.RequestStream.Calls.{
  Call, ready_call, frame_call, request_call, extension_call, reject_call, cancel_call, call_of,
}
use rsocket.RequestStream.Sends.{counts_of, asked, NoReady, Sends, guarded-Sends, handle_by-Sends}

-- A call, with the counts that it has asked for
extended-Sends :
    (id : Number) (e : Extension) (s : Requester)
    → s.done ≡ false
    → Sends s [] (extended (some id) e s)
extended-Sends id e s live = (refl, λ going. (live, λ rest. refl))

module _ (s : Requester) (b : Bool) (id : Number) (known : s.stream_id ≡ some id) where
  frame-Sends : (frame : Frame) → Sends s [] (if b then handle frame s else ([], s))
  unfolding handle
  frame-Sends frame =
      if_both (Sends s []) b
        (handle_by-Sends (as_payload frame) (as_error frame) (as_ext frame) frame s)
        (refl, λ going. (going, λ rest. refl))

  call_of-Sends :
      (call : Call) → NoReady (call ∷ []) → Sends s (asked (call ∷ [])) (call_of call s b)
  unfolding handle_reject request_more cancel_stream send_extension
  call_of-Sends (ready_call i) n = absurd n
  call_of-Sends (frame_call frame) n = frame-Sends frame
  call_of-Sends (request_call k) n = guarded-Sends s (k ∷ []) _ (λ live.
      subst (λ o. Sends s (k ∷ []) (requested_more o k s)) (sym known)
        (refl, λ going. (live, λ rest. refl)))
  call_of-Sends (extension_call t c i) n =
      let e = extension_of t c i in
      guarded-Sends s [] _
        (λ live. subst (λ o. Sends s [] (extended o e s)) (sym known) (extended-Sends id e s live))
  call_of-Sends (reject_call e) n =
      if_both (Sends s []) b (refl, λ going. (going, λ rest. refl))
        (guarded-Sends s [] _ (λ live. (refl, λ going. absurd cc)))
  call_of-Sends cancel_call n =
      guarded-Sends s [] _
        (λ live. subst (λ o. Sends s [] (cancelled o s)) (sym known) (refl, λ going. absurd cc))

NoReady-cons :
    (call : Call) (calls : List Call) → NoReady (call ∷ calls) → NoReady (call ∷ []) × NoReady calls
NoReady-cons (ready_call id) calls n = absurd n
NoReady-cons _ calls n = (tt, n)

asked-cons :
    (call : Call) (calls : List Call) → asked (call ∷ calls) ≡ asked (call ∷ []) ++ asked calls
asked-cons (request_call k) calls = refl
asked-cons _ calls = refl

-- Every call, for as long as the stream goes on
pub run-Sends :
    (calls : List Call) (s : Requester) (b : Bool) (id : Number)
    → NoReady calls
    → s.stream_id ≡ some id
    → (run call_of calls s b).1.done ≡ false
    → (s.done ≡ false) × (counts_of (run call_of calls s b).0 ≡ asked calls)
run-Sends [] s b id n known going = (going, refl)
run-Sends (call ∷ calls) s b id n known going =
    let (events, s') = call_of call s b in
    let b' = registered_after events b in
    let more = (run call_of calls s' b').0 in
    let (single, later) = NoReady-cons call calls n in
    let (same, sends) = call_of-Sends s b id known call single in
    let (going', rest) = run-Sends calls s' b' id later (same ∙ known) going in
    let (live, told) = sends going' in
    (live, told more ∙ ap (λ ns. asked (call ∷ []) ++ ns) rest ∙ sym (asked-cons call calls))
