-- ===== src/RequestChannel/Listed.antt =====
-- The registry of the multiplexer has the requester of a channel until both its directions are done,
-- or until the multiplexer closes it.
use rsocket.Prelude.{
  ◌≡◌, refl, sym, subst, ap, ◌∙◌, ◌⊎◌, Bool, true, false, not, ◌&&◌, ◌||◌, Option, none, some, List,
  [], ◌∷◌, ◌++◌, inl, inr, if_cases,
}
use rsocket.Prelude.Number.{Number}
use rsocket.Streams.{extension_of, registered_after, extension_frames, lease_cancelled}
use rsocket.Streams.Runs.{run, registered_after-append, registered_after-sent}
use rsocket.RequestChannel.{
  Requester, both_done, cancel_unless, request_frames, handle_ready, handle_reject, requested_more,
  request_more, cancelled, cancel_stream, sent_payload, next_payload, completed, complete_stream,
  failing, fail_stream, extended, send_extension,
}
use rsocket.RequestChannel.Calls.{
  Call, ready_call, reject_call, frame_call, request_call, cancel_call, next_call, complete_call,
  fail_call, extension_call, close_call, closes, any_closes, ready_once, reject_waiting, call_of,
  IsListed,
}
use rsocket.RequestChannel.Closed.{IsDone, close-IsDone, run-IsDone}
use rsocket.RequestChannel.Kept.{call-Kept}
use rsocket.RequestChannel.Stays.{Keeps, registered_after-cancel_unless}

-- Calls of a stream that has no id yet
module _ (s : Requester) (unset : s.stream_id ≡ none)
    (orderly : (s.inbound_done ≡ false) ⊎ (s.outbound_done ≡ true)) where
  waits : Keeps false ([], s)
  waits = (none, unset, (refl, orderly))

  pub ready-Keeps : (id : Number) → Keeps false (handle_ready id s)
  unfolding handle_ready
  ready-Keeps id =
      let frames = request_frames id s ++ extension_frames id s.extension in
      elim orderly [
        | inl fresh ↦
            if_cases (Keeps false) s.outbound_done (λ done. waits)
              (λ going. (
                some id,
                refl,
                registered_after-sent frames true ∙ sym (ap (λ i. not (i && s.is_complete)) fresh),
              ))
        | inr over ↦ if_cases (Keeps false) s.outbound_done (λ done. waits) (λ going. absurd cc)
      ]

  call-Waits : (call : Call) → Keeps false (call_of call s false)
  unfolding handle_reject request_more cancel_stream next_payload complete_stream fail_stream
      send_extension
  call-Waits (ready_call i) =
      subst (λ o. Keeps false (ready_once o i s)) (sym unset) (ready-Keeps i)
  call-Waits (reject_call e) =
      subst (λ o. Keeps false (reject_waiting o e s)) (sym unset)
        (if_cases (Keeps false) s.inbound_done (λ done. waits)
          (λ going. (none, unset, (refl, inr refl))))
  call-Waits (frame_call frame) = waits
  call-Waits (close_call e) = waits
  call-Waits (request_call n) =
      if_cases (Keeps false) s.inbound_done (λ done. waits)
        (λ going.
          subst (λ o. Keeps false (requested_more o n s)) (sym unset)
            (none, unset, (refl, inl going)))
  call-Waits cancel_call =
      if_cases (Keeps false) (both_done s) (λ done. waits)
        (λ going.
          subst (λ o. Keeps false (cancelled o s)) (sym unset)
            (
              none,
              unset,
              (
                registered_after-append (cancel_unless s.outbound_done) (lease_cancelled ∷ []) false
                    ∙ registered_after-cancel_unless s.outbound_done false,
                inr refl,
              ),
            ))
  call-Waits (next_call content is_complete) =
      if_cases (Keeps false) s.outbound_done (λ done. waits)
        (λ going.
          subst (λ o. Keeps false (sent_payload o content is_complete s)) (sym unset)
            (none, unset, (refl, elim orderly [ inl fresh ↦ inl fresh | inr over ↦ absurd cc ])))
  call-Waits complete_call =
      subst (λ o. Keeps false (completed o s)) (sym unset) (none, unset, (refl, orderly))
  call-Waits (fail_call e) =
      if_cases (Keeps false) s.outbound_done (λ done. waits)
        (λ going.
          subst (λ o. Keeps false (failing o e s)) (sym unset) (none, unset, (refl, inr refl)))
  call-Waits (extension_call t c i) =
      let e = extension_of t c i in
      if_cases (Keeps false) s.outbound_done (λ done. waits)
        (λ going.
          subst (λ o. Keeps false (extended o e s)) (sym unset) (none, unset, (refl, orderly)))

pub call-Keeps :
    (o : Option Number) (call : Call) (s : Requester) (b : Bool)
    → s.stream_id ≡ o
    → closes call ≡ false
    → IsListed o s b
    → Keeps b (call_of call s b)
call-Keeps none call s b unset other (off, orderly) =
    subst (λ c. Keeps c (call_of call s c)) (sym off) (call-Waits s unset orderly call)
call-Keeps (some id) call s b known other listed =
    let (known', listed') = call-Kept id s known b listed call other in (some id, known', listed')

or_true : (c : Bool) → (c || true) ≡ true
or_true true = refl
or_true false = refl

-- Calls other than `close`
pub call-IsListed :
    (call : Call) (s : Requester) (b : Bool)
    → closes call ≡ false
    → IsListed s.stream_id s b
    → let (events, s') = call_of call s b in IsListed s'.stream_id s' (registered_after events b)
call-IsListed call s b other listed =
    let (events, s') = call_of call s b in
    let (o, known, kept) = call-Keeps s.stream_id call s b refl other listed in
    subst (λ p. IsListed p s' (registered_after events b)) (sym known) kept

step-IsListed :
    (call : Call) (s : Requester) (b : Bool)
    → IsListed s.stream_id s b
    → let (events, s') = call_of call s b in
      IsListed s'.stream_id s' (registered_after events b) ⊎ ((closes call ≡ true) × IsDone s')
step-IsListed (close_call e) s true listed = inr (refl, close-IsDone e s)
step-IsListed (close_call e) s false listed = inl listed
step-IsListed call s b listed = inl (call-IsListed call s b refl listed)

-- The calls of the requester of a channel from its making on: it gets its id once, is rejected only
-- before that, gets frames and the close of the multiplexer only while the registry has it, and is
-- used in any way. As long as the multiplexer has not closed it, the registry does not have it
-- before it has an id, and has it from then on exactly as long as one of its two directions is not
-- done. Where that no longer holds, the multiplexer has closed it, and both its directions are
-- done.
pub run-IsListed :
    (calls : List Call) (s : Requester) (b : Bool)
    → IsListed s.stream_id s b
    → let (events, s', b') = run call_of calls s b in
      IsListed s'.stream_id s' b' ⊎ ((any_closes calls ≡ true) × IsDone s')
run-IsListed [] s b listed = inl listed
run-IsListed (call ∷ calls) s b listed =
    let (events, s') = call_of call s b in
    let b' = registered_after events b in
    elim (step-IsListed call s b listed) [
      | inr (shut, done) ↦ inr (ap (λ c. c || any_closes calls) shut, run-IsDone calls s' b' done)
      | inl kept ↦ elim (run-IsListed calls s' b' kept) [
        | inl listed' ↦ inl listed'
        | inr (shut, done) ↦ inr (ap (λ c. closes call || c) shut ∙ or_true (closes call), done)
      ]
    ]
