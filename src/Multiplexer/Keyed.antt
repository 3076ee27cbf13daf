-- ===== src/Multiplexer/Keyed.antt =====
-- The registry has each stream under its own id.
use rsocket.Prelude.{
  ℕ, ◌≡◌, sym, subst, ◌∙◌, ap, Bool, true, false, not, Option, none, some, List, [], ◌∷◌, ◌==◌, All,
  if_both, if_cases, arith,
}
use rsocket.Prelude.Number.{Number, nan, pos, negsuc, eq, lt}
use rsocket.Frames.{Frame, stream_id_of, is_connection, is_request, type_of}
use rsocket.Frames.FrameTypes
use rsocket.StreamIds.{Offer, offered, not_offered, never_ends, next}
use rsocket.Streams.{StreamError, Event, registered_after}
use rsocket.RequestChannel.Responder.{Signal}
use rsocket.Multiplexer.Handlers.{StreamHandler, id_of, Opening, refuses, ready, RSocket, serve}
use rsocket.Multiplexer.{
  Registry, lookup, put, erase, put_under, erase_under, connect, settle, keys, Multiplexer, Output,
  opened, create_request_stream, close_all, closed_error, text_of_error, close, dispatch, joined,
  accept, handle,
}
use rsocket.Multiplexer.Inputs.{
  Input, receive, start_stream, use_stream_of, shut, used, step, run, new_multiplexer,
}
use rsocket.Multiplexer.Ids.{
  deliver-id, close_stream-id, use_of-id, ready-Named, Makes, serve-Makes,
}

abbrev pub IsKeyed : Registry → Type 0
IsKeyed r = All (λ e. id_of e.1 ≡ some e.0) r

pub eq_sound : (i k : Number) → eq i k ≡ true → i ≡ k
eq_sound nan k e = absurd cc
eq_sound (pos a) nan e = absurd cc
eq_sound (pos a) (pos b) e = let same : a ≡ b = ground arith in ap pos same
eq_sound (pos a) (negsuc b) e = absurd cc
eq_sound (negsuc a) nan e = absurd cc
eq_sound (negsuc a) (pos b) e = absurd cc
eq_sound (negsuc a) (negsuc b) e = let same : a ≡ b = ground arith in ap negsuc same

-- The stream that is found under an id has it.
abbrev pub Has : Number → Option StreamHandler → Type 0
Has id none = Unit
Has id (some h) = id_of h ≡ some id

pub lookup-Has : (id : Number) (r : Registry) → IsKeyed r → Has id (lookup id r)
lookup-Has id [] keyed = tt
lookup-Has id ((k, g) ∷ r) (own, keyed) =
    if_cases (Has id) (eq id k) (λ same. own ∙ ap some (sym (eq_sound id k same)))
      (λ other. lookup-Has id r keyed)

put-IsKeyed :
    (id : Number) (h : StreamHandler) (r : Registry)
    → id_of h ≡ some id
    → IsKeyed r
    → IsKeyed (put id h r)
put-IsKeyed id h [] own keyed = (own, tt)
put-IsKeyed id h ((k, g) ∷ r) own (here, keyed) =
    if_both IsKeyed (eq id k) (own, keyed)
      (if_both IsKeyed (lt id k) (own, (here, keyed)) (here, put-IsKeyed id h r own keyed))

erase-IsKeyed : (id : Number) (r : Registry) → IsKeyed r → IsKeyed (erase id r)
erase-IsKeyed id [] keyed = tt
erase-IsKeyed id ((k, g) ∷ r) (here, keyed) =
    if_both IsKeyed (eq id k) (erase-IsKeyed id r keyed) (here, erase-IsKeyed id r keyed)

connect-IsKeyed :
    (id : Number) (h : StreamHandler) (r : Registry)
    → id_of h ≡ some id
    → IsKeyed r
    → IsKeyed (connect h r)
connect-IsKeyed id h r own keyed =
    subst (λ o. IsKeyed (put_under o h r)) (sym own) (put-IsKeyed id h r own keyed)

settle-IsKeyed :
    (id : Number) (b : Bool) (h : StreamHandler) (r : Registry)
    → id_of h ≡ some id
    → IsKeyed r
    → IsKeyed (settle id b h r)
settle-IsKeyed id true h r own keyed = put-IsKeyed id h r own keyed
settle-IsKeyed id false h r own keyed =
    subst (λ o. IsKeyed (erase_under o r)) (sym own) (erase-IsKeyed id r keyed)

opened-IsKeyed :
    (offer : Offer) (o : Opening) (r : Registry) → IsKeyed r → IsKeyed (opened offer o r).1
opened-IsKeyed (offered id) o r keyed =
    let (events, h) = ready (pos id) o in
    if_cases IsKeyed (registered_after events false)
      (λ on. connect-IsKeyed (pos id) h r (ready-Named (pos id) o on) keyed) (λ off. keyed)
opened-IsKeyed not_offered o r keyed = keyed
opened-IsKeyed never_ends o r keyed = keyed

close_all-IsKeyed : (e : StreamError) (r : Registry) → IsKeyed r → IsKeyed (close_all e r).1
close_all-IsKeyed e [] keyed = tt
close_all-IsKeyed e ((k, h) ∷ r) (own, keyed) =
    (close_stream-id (some e) h ∙ own, close_all-IsKeyed e r keyed)

dispatch-IsKeyed :
    (known : Option StreamHandler) (frame : Frame) (m : Multiplexer)
    → Has (stream_id_of frame) known
    → IsKeyed m.registry
    → IsKeyed (dispatch known frame m).1.registry
dispatch-IsKeyed none frame m has keyed = keyed
dispatch-IsKeyed (some h) frame m has keyed =
    settle-IsKeyed (stream_id_of frame) _ _ m.registry (deliver-id frame h ∙ has) keyed

used-IsKeyed :
    (known : Option StreamHandler) (id : Number) (signal : Signal) (m : Multiplexer)
    → Has id known
    → IsKeyed m.registry
    → IsKeyed (used known id signal m).1.registry
used-IsKeyed none id signal m has keyed = keyed
used-IsKeyed (some h) id signal m has keyed =
    settle-IsKeyed id _ _ m.registry (use_of-id signal h ∙ has) keyed

joined-IsKeyed :
    (b : Bool) (id : Number) (h : Option StreamHandler) (r : Registry)
    → Has id h
    → IsKeyed r
    → IsKeyed (joined b h r)
joined-IsKeyed true id (some h) r own keyed = connect-IsKeyed id h r own keyed
joined-IsKeyed true id none r own keyed = keyed
joined-IsKeyed false id h r own keyed = keyed

abbrev Keyed : List Output × Multiplexer → Type 0
Keyed (outputs, m) = IsKeyed m.registry

module _ (rsocket : RSocket) (fragment_size : ℕ) where
  pub serve-Has : (frame : Frame) → Has (stream_id_of frame) (serve rsocket fragment_size frame).1
  serve-Has frame =
      made (serve rsocket fragment_size frame) (serve-Makes rsocket fragment_size frame)
    where
      made :
          (s : List Event × Option StreamHandler)
          → Makes (stream_id_of frame) s
          → Has (stream_id_of frame) s.1
      made (events, none) own = tt
      made (events, some h) own = own

  accept-IsKeyed :
      (known : Option StreamHandler) (frame : Frame) (m : Multiplexer)
      → IsKeyed m.registry
      → IsKeyed (accept rsocket fragment_size known frame m).1.registry
  accept-IsKeyed (some h) frame m keyed = keyed
  accept-IsKeyed none frame m keyed =
      joined-IsKeyed _ (stream_id_of frame) _ m.registry (serve-Has frame) keyed

  handle-IsKeyed :
      (frame : Frame) (m : Multiplexer)
      → IsKeyed m.registry
      → Keyed (handle rsocket fragment_size frame m)
  unfolding handle
  handle-IsKeyed frame m keyed =
      let id = stream_id_of frame in
      let known = lookup id m.registry in
      if_both Keyed (is_connection frame)
        (if_both Keyed (type_of frame == FrameTypes.reserved) keyed keyed)
        (if_both Keyed (is_request frame) (accept-IsKeyed known frame m keyed)
          (dispatch-IsKeyed known frame m (lookup-Has id m.registry keyed) keyed))

  step-IsKeyed :
      (input : Input) (m : Multiplexer)
      → IsKeyed m.registry
      → Keyed (step rsocket fragment_size input m)
  unfolding create_request_stream close
  step-IsKeyed (receive frame) m keyed = handle-IsKeyed frame m keyed
  step-IsKeyed (start_stream already_closed o) m keyed = if_both Keyed m.deferred.done keyed (
      opened-IsKeyed (next m.current_id (λ id. not (refuses o)) (keys m.registry)).0 o m.registry
        keyed)
  step-IsKeyed (use_stream_of id signal) m keyed =
      used-IsKeyed (lookup id m.registry) id signal m (lookup-Has id m.registry keyed) keyed
  step-IsKeyed (shut e) m keyed =
      if_both Keyed m.deferred.done keyed
        (close_all-IsKeyed (closed_error (text_of_error e)) m.registry keyed)

  run_from-IsKeyed :
      (inputs : List Input) (m : Multiplexer)
      → IsKeyed m.registry
      → Keyed (run rsocket fragment_size inputs m)
  run_from-IsKeyed [] m keyed = keyed
  run_from-IsKeyed (input ∷ inputs) m keyed =
      run_from-IsKeyed inputs (step rsocket fragment_size input m).1 (step-IsKeyed input m keyed)

  -- Whatever happens to a new multiplexer, its registry has each stream under the stream's own id.
  pub run-IsKeyed :
      (seed : Number) (inputs : List Input)
      → IsKeyed (run rsocket fragment_size inputs (new_multiplexer seed)).1.registry
  run-IsKeyed seed inputs = run_from-IsKeyed inputs (new_multiplexer seed) tt
