-- ===== src/RequestResponse/Ends.antt =====
-- What each call leads to: the stream ends with a signal, or goes on.
use rsocket.Streams.{
  extension_of, Event, sent, disconnected, Extension, extension_frames, cancel_frame, terminals,
  registered_after,
}
use rsocket.Prelude.{
  ◌+◌, ◌≤◌, ◌≡◌, refl, ◌⊎◌, Bool, true, false, not, ◌||◌, Option, none, some, List, [], ◌∷◌, ◌++◌,
  map, arith, ℕ, Bool-cases, inl, inr, if◌then◌else◌, if_both, if_cases,
}
use rsocket.Prelude.Number.{Number}
use rsocket.Bytes.{Bytes}
use rsocket.Frames.{Frame, error, payload, ext}
use rsocket.Frames.Flags
use rsocket.RequestResponse.{
  Requester, handle_ready, handle_reject, close, handle, unexpected, cancel_stream, send_extension,
  cancelled, extended, request_frames,
}
use rsocket.RequestResponse.Calls.{IsOpen, done_count}

-- What a call leads to: it ends the stream with a signal, or leaves it as done as it was.
abbrev pub Ends : Requester → Bool → List Event × Requester → Type 0
Ends s registered (events, s') =
    (terminals events + done_count s ≡ done_count s')
    × IsOpen s' (registered_after events registered)

terminals-sent : (frames : List Frame) → terminals (map sent frames) ≡ 0
terminals-sent [] = refl
terminals-sent (frame ∷ frames) = omega (arith, terminals-sent frames)

registered_after-sent : (frames : List Frame) (b : Bool) → registered_after (map sent frames) b ≡ b
registered_after-sent [] b = refl
registered_after-sent (frame ∷ frames) b = registered_after-sent frames b

pub terminals-append : (xs ys : List Event) → terminals (xs ++ ys) ≡ terminals xs + terminals ys
terminals-append [] ys = omega arith
terminals-append (x ∷ xs) ys = omega (arith, terminals-append xs ys)

terminals-cancel_frame :
    (id : Option Number) → terminals (cancel_frame id ++ (disconnected ∷ [])) ≡ 0
terminals-cancel_frame none = refl
terminals-cancel_frame (some id) = refl

registered_after-cancel_frame :
    (id : Option Number) (b : Bool)
    → registered_after (cancel_frame id ++ (disconnected ∷ [])) b ≡ false
registered_after-cancel_frame none b = refl
registered_after-cancel_frame (some id) b = refl

unexpected-Ends : (s : Requester) → s.done ≡ false → Ends s true (unexpected s)
unfolding unexpected close
unexpected-Ends s e =
    let silent = terminals-cancel_frame s.stream_id in
    rw e (omega (arith, silent), inl (registered_after-cancel_frame s.stream_id true))

handle-Ends :
    (frame : Frame) (s : Requester)
    → s.done ≡ false
    → (id : Number) × (s.stream_id ≡ some id)
    → Ends s true (handle frame s)
unfolding handle
handle-Ends (payload f) s e known =
    elim (Bool-cases (Flags.has_complete f.flags || not (Flags.has_follows f.flags))) [
      | inl last ↦ elim (Bool-cases (Flags.has_next f.flags)) [
        | inl next ↦ rw (last, next, e) (refl, inl refl)
        | inr end ↦ rw (last, end, e) (refl, inl refl)
      ]
      | inr more ↦ rw (more, e) (refl, inr (refl, known.0, known.1))
    ]
handle-Ends (error f) s e known = rw e (refl, inl refl)
handle-Ends (ext f) s e known =
    if_both (Ends s true) s.holder.has_fragments (unexpected-Ends s e)
      (omega arith, inr (e, known.0, known.1))
handle-Ends _ s e known = unexpected-Ends s e

pub ready-Ends :
    (id : Number) (s : Requester) (registered : Bool)
    → IsOpen s registered
    → Ends s registered (handle_ready id s)
unfolding handle_ready
ready-Ends id s registered h =
    let frames = request_frames id s ++ extension_frames id s.extension in
    if_cases (Ends s registered) s.done (λ done. (omega arith, h))
      (λ live. (omega (arith, terminals-sent frames), inr (live, id, refl)))

extended-Ends :
    (id : Option Number) (e : Extension) (s : Requester) (registered : Bool)
    → IsOpen s registered
    → Ends s registered (extended id e s)
extended-Ends none e s registered h = (omega arith, h)
extended-Ends (some id) e s registered h = (omega arith, h)

pub extension-Ends :
    (t : Number) (c : Option Bytes) (i : Bool) (s : Requester) (registered : Bool)
    → IsOpen s registered
    → Ends s registered (send_extension t c i s)
unfolding send_extension
extension-Ends t c i s registered h =
    let e = extension_of t c i in
    if_both (Ends s registered) s.done (omega arith, h) (extended-Ends s.stream_id e s registered h)

reject-live : (e : ℕ) (s : Requester) → Ends s false (handle_reject e s)
unfolding handle_reject
reject-live e s =
    if_cases (Ends s false) s.done (λ done. (omega arith, inl refl))
      (λ live. rw live (refl, inl refl))

pub reject-Ends :
    (e : ℕ) (s : Requester) (registered : Bool)
    → IsOpen s registered
    → Ends s registered (if registered then ([], s) else handle_reject e s)
reject-Ends e s true h = (omega arith, h)
reject-Ends e s false h = reject-live e s

pub frame-Ends :
    (frame : Frame) (s : Requester) (registered : Bool)
    → IsOpen s registered
    → Ends s registered (if registered then handle frame s else ([], s))
frame-Ends frame s false h = (omega arith, h)
frame-Ends frame s true (inl gone) = absurd cc
frame-Ends frame s true (inr (live, id, known)) = handle-Ends frame s live (id, known)

done_count-most : (s : Requester) → done_count s ≤ 1
done_count-most s = ground arith

-- `cancel` sends no signal, and takes the stream off the registry.
abbrev pub Cancels : Requester → Bool → List Event × Requester → Type 0
Cancels s registered (events, s') =
    (terminals events ≡ 0)
    × (done_count s ≤ done_count s')
    × IsOpen s' (registered_after events registered)

cancelled-Cancels :
    (id : Option Number) (s : Requester) (registered : Bool)
    → (registered ≡ false) ⊎ ((k : Number) × (id ≡ some k))
    → Cancels s registered (cancelled id s)
cancelled-Cancels none s registered (inl gone) = (refl, done_count-most s, inl gone)
cancelled-Cancels none s registered (inr (k, known)) = absurd cc
cancelled-Cancels (some id) s registered h = (refl, done_count-most s, inl refl)

pub cancel-Cancels :
    (s : Requester) (registered : Bool)
    → IsOpen s registered
    → Cancels s registered (cancel_stream s)
unfolding cancel_stream
cancel-Cancels s registered h =
    if_both (Cancels s registered) s.done (refl, omega arith, h)
      (cancelled-Cancels s.stream_id s registered
        (elim h [ inl gone ↦ inl gone | inr (still, id, known) ↦ inr (id, known) ]))
