-- ===== src/RequestStream/Terminal.antt =====
-- The receiver of a request/stream gets payloads, and one signal that ends them.
use rsocket.Prelude.{
  ℕ, ◌≡◌, refl, sym, subst, ◌∙◌, ◌⊎◌, Bool, true, false, not, ◌||◌, Option, none, some, List, [],
  ◌∷◌, ◌++◌, inl, inr, if◌then◌else◌, if_both, if_cases,
}
use rsocket.Prelude.Number.{Number}
use rsocket.Frames.{Frame, PayloadFrame, ErrorFrame, ExtFrame, as_payload, as_error, as_ext}
use rsocket.Frames.Flags
use rsocket.Reassembler as Reassembler
use rsocket.Streams.{
  extension_of, StreamError, Event, disconnected, on_next, on_complete, registered_after, Extension,
  extension_frames, cancel_frame, response_of, canceled_by, terminal_of, on_error, given, remote,
  lease_cancelled,
}
use rsocket.Streams.Runs.{run, registered_after-disconnected, registered_after-append}
use rsocket.Streams.Orderly.{
  Orderly, Leads, Leads-nothing, Leads-silent, Leads-append, Leads-sent, Leads-terminal_of,
  Leads-cancel_frame, Orderly-Leads,
}
use rsocket.RequestStream.{
  Requester, request_frames, handle_ready, handle_reject, close, unexpected, handle_last, handle_by,
  handle, requested_more, request_more, cancelled, cancel_stream, extended, send_extension,
}
use rsocket.RequestStream.Calls.{
  Call, ready_call, frame_call, request_call, extension_call, reject_call, cancel_call, call_of,
  IsOpen,
}

-- What a call leads to
abbrev pub Step : Requester → Bool → List Event × Requester → Type 0
Step s b (events, s') = Leads s.done events s'.done × IsOpen s' (registered_after events b)

guarded-Step :
    (s : Requester) (b : Bool) (call : List Event × Requester)
    → IsOpen s b
    → (s.done ≡ false → Step s b call)
    → Step s b (if s.done then ([], s) else call)
guarded-Step s b call h live = if_cases (Step s b) s.done (λ done. (Leads-nothing s.done, h)) live

-- From a state that is not done, with the end told by a Boolean
leads :
    (s : Requester) (events : List Event) (d' : Bool)
    → s.done ≡ false
    → Leads false events d'
    → Leads s.done events d'
leads s events d' live h = subst (λ d. Leads d events d') (sym live) h

unexpected-Step :
    (message : List ℕ) (s : Requester) → s.done ≡ false → Step s true (unexpected message s)
unfolding unexpected close
unexpected-Step message s live =
    let told = cancel_frame s.stream_id ++ (disconnected ∷ []) in
    let closed : List Event × Requester = (
      terminal_of (some (canceled_by message)) ∷ [],
      record s { done = true; holder = Reassembler.cancel s.holder },
    ) in
    let either : Bool → Type 0 =
      λ d. let (events, s') = if d then ([], s) else closed in Step s true (events ++ told, s') in
    subst either (sym live) (
      leads s (closed.0 ++ told) true live (
          Leads-append false closed.0 true told true
            (Leads-terminal_of (some (canceled_by message))) (Leads-cancel_frame s.stream_id true)),
      inl (
          registered_after-append closed.0 told true
          ∙ registered_after-disconnected (cancel_frame s.stream_id) _),
    )

handle_last-Step :
    (f : PayloadFrame) (s : Requester)
    → s.done ≡ false
    → IsOpen s true
    → Step s true (handle_last f s)
unfolding handle_last
handle_last-Step f s live h =
    let (content, holder) = response_of s.holder f.body f.metadata in
    if_both (Step s true) (Flags.has_complete f.flags)
      (if_both (Step s true) (Flags.has_next f.flags)
        (
          leads s (disconnected ∷ on_next content true ∷ []) true live (λ rest r. (refl, r)),
          inl refl,
        )
        (leads s (disconnected ∷ on_complete ∷ []) true live (λ rest r. (refl, r)), inl refl))
      ((λ rest r. (live, subst (λ d. Orderly d rest) live r)), h)

handle_by-Step :
    (p : Option PayloadFrame) (e : Option ErrorFrame) (x : Option ExtFrame) (frame : Frame)
    (s : Requester)
    → s.done ≡ false
    → IsOpen s true
    → Step s true (handle_by p e x frame s)
handle_by-Step (some f) e x frame s live h =
    if_both (Step s true) (Flags.has_complete f.flags || not (Flags.has_follows f.flags))
      (handle_last-Step f s live h) (Leads-nothing s.done, h)
handle_by-Step none (some f) x frame s live h = (
  leads s (disconnected ∷ on_error (remote f.code f.message) ∷ []) true live (λ rest r. (refl, r)),
  inl refl,
)
handle_by-Step none none (some f) frame s live h =
    if_both (Step s true) s.holder.has_fragments (unexpected-Step _ s live)
      ((λ rest r. (live, subst (λ d. Orderly d rest) live r)), h)
handle_by-Step none none none frame s live h = unexpected-Step _ s live

pub frame-Step :
    (frame : Frame) (s : Requester) (b : Bool)
    → IsOpen s b
    → Step s b (if b then handle frame s else ([], s))
unfolding handle
frame-Step frame s false h = (Leads-nothing s.done, h)
frame-Step frame s true (inl gone) = absurd cc
frame-Step frame s true (inr (live, id, known)) =
    handle_by-Step (as_payload frame) (as_error frame) (as_ext frame) frame s live
      (inr (live, id, known))

requested_more-Step :
    (id : Option Number) (n : Number) (s : Requester) (b : Bool)
    → IsOpen s b
    → Step s b (requested_more id n s)
requested_more-Step none n s b h = (Leads-nothing s.done, h)
requested_more-Step (some id) n s b h = (λ rest r. r, h)

extended-Step :
    (id : Option Number) (e : Extension) (s : Requester) (b : Bool)
    → IsOpen s b
    → Step s b (extended id e s)
extended-Step none e s b h = (Leads-nothing s.done, h)
extended-Step (some id) e s b h = (Leads-sent (extension_frames id (some e)) s.done, h)

cancelled-Step :
    (id : Option Number) (s : Requester) (b : Bool)
    → s.done ≡ false
    → (b ≡ false) ⊎ ((k : Number) × (id ≡ some k))
    → Step s b (cancelled id s)
cancelled-Step none s b live (inl gone) =
    (leads s (lease_cancelled ∷ []) true live Leads-silent, inl gone)
cancelled-Step none s b live (inr (k, known)) = absurd cc
cancelled-Step (some id) s b live h =
    (leads s (cancel_frame (some id) ++ (disconnected ∷ [])) true live Leads-silent, inl refl)

pub call_of-Step :
    (call : Call) (s : Requester) (b : Bool) → IsOpen s b → Step s b (call_of call s b)
unfolding handle_ready handle_reject request_more cancel_stream send_extension
call_of-Step (ready_call id) s b h =
    let frames = request_frames id s ++ extension_frames id s.extension in
    guarded-Step s b _ h
      (λ live. ((λ rest r. Leads-sent frames s.done rest r), inr (live, id, refl)))
call_of-Step (frame_call frame) s b h = frame-Step frame s b h
call_of-Step (request_call n) s b h =
    guarded-Step s b _ h (λ live. requested_more-Step s.stream_id n s b h)
call_of-Step (extension_call t c i) s b h =
    let e = extension_of t c i in guarded-Step s b _ h (λ live. extended-Step s.stream_id e s b h)
call_of-Step (reject_call e) s true h = (Leads-nothing s.done, h)
call_of-Step (reject_call e) s false h =
    guarded-Step s false _ h
      (λ live. (leads s (on_error (given e) ∷ []) true live (λ rest r. (refl, r)), inl refl))
call_of-Step cancel_call s b h = guarded-Step s b _ h (λ live.
    cancelled-Step s.stream_id s b live
      (elim h [ inl gone ↦ inl gone | inr (going, id, known) ↦ inr (id, known) ]))

run-Step :
    (calls : List Call) (s : Requester) (b : Bool)
    → IsOpen s b
    → Leads s.done (run call_of calls s b).0 (run call_of calls s b).1.done
run-Step [] s b h = Leads-nothing s.done
run-Step (call ∷ calls) s b h =
    let (events, s') = call_of call s b in
    let b' = registered_after events b in
    let (first, h') = call_of-Step call s b h in
    Leads-append s.done events s'.done _ _ first (run-Step calls s' b' h')

closed_quiet : (e : Option StreamError) → registered_after (terminal_of e ∷ []) false ≡ false
closed_quiet none = refl
closed_quiet (some e) = refl

close-Leads :
    (e : Option StreamError) (s : Requester) → Leads s.done (close e s).0 (close e s).1.done
unfolding close
close-Leads e s =
    (guarded-Step s false _ (inl refl) (λ live.
      (leads s (terminal_of e ∷ []) true live (Leads-terminal_of e), inl (closed_quiet e)))).0

-- Whatever calls a request/stream gets that has its id, and is not done, if it is registered, and is
-- closed after them: its receiver gets payloads and extensions, and then at most one signal that ends
-- them, and nothing behind that.
pub run-Orderly :
    (calls : List Call) (s : Requester) (b : Bool) (e : Option StreamError)
    → IsOpen s b
    → let (events, s', b') = run call_of calls s b in Orderly s.done (events ++ (close e s').0)
run-Orderly calls s b e h =
    let (events, s', b') = run call_of calls s b in
    Orderly-Leads s.done (events ++ (close e s').0) (close e s').1.done
      (Leads-append s.done events s'.done _ _ (run-Step calls s b h) (close-Leads e s'))
