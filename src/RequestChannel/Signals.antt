-- ===== src/RequestChannel/Signals.antt =====
-- What the signals of an application do to the entry of a channel's responder in the registry.
use rsocket.Prelude.{
  ◌≡◌, refl, ap, ◌∙◌, Bool, true, false, not, ◌&&◌, Option, none, some, List, [], ◌∷◌, ◌++◌, map,
  if◌then◌else◌, if_cases,
}
use rsocket.Streams.{Failure, StreamError, Event, sent, registered_after}
use rsocket.Streams.Sending.{response_frames}
use rsocket.Streams.Runs.{registered_after-append, registered_after-sent}
use rsocket.RequestChannel.Stays.{and_false}
use rsocket.RequestChannel.Responder.{
  Signal, next, complete, fail, extend, ask, stop, Responder, both_done, disconnect_if, told,
  fail_stream, next_payload, complete_stream, extend_stream, request_more, cancel_inbound,
  signalled, signalled_all, missed, settled,
}
use rsocket.RequestChannel.Serving.{parting}

-- What a call leads to
abbrev pub Lists : Bool → List Event × Responder → Type 0
Lists b (events, s') = registered_after events b ≡ not (both_done s')

pub guarded-Lists :
    (d b : Bool) (s : Responder) (call : List Event × Responder)
    → b ≡ not (both_done s)
    → (d ≡ false → Lists b call)
    → Lists b (if d then ([], s) else call)
guarded-Lists d b s call h going = if_cases (Lists b) d (λ done. h) going

disconnect_if-true : (o : Bool) → registered_after (disconnect_if o) true ≡ not o
disconnect_if-true true = refl
disconnect_if-true false = refl

pub disconnect_if-both :
    (c i : Bool) → registered_after (disconnect_if (c && i)) true ≡ not (i && c)
disconnect_if-both true true = refl
disconnect_if-both true false = refl
disconnect_if-both false true = refl
disconnect_if-both false false = refl

disconnect_if-inbound : (i : Bool) → registered_after (disconnect_if i) true ≡ not (i && true)
disconnect_if-inbound true = refl
disconnect_if-inbound false = refl

pub told-quiet : (i r : Bool) (e : Failure) → registered_after (told i r e) false ≡ false
told-quiet true r e = refl
told-quiet false true e = refl
told-quiet false false e = refl

missed-quiet : (o : Bool) (e : Option Failure) (b : Bool) → registered_after (missed o e) b ≡ b
missed-quiet o none b = refl
missed-quiet true (some e) b = refl
missed-quiet false (some e) b = refl

pub parting-quiet :
    (r i o : Bool) (e : StreamError) → registered_after (parting r i o e) false ≡ false
parting-quiet true true true e = refl
parting-quiet true true false e = refl
parting-quiet true false true e = refl
parting-quiet true false false e = refl
parting-quiet false i o e = refl

module _ (s : Responder) (b : Bool) (h : b ≡ not (both_done s)) where
  on_if_outbound : s.outbound_done ≡ false → b ≡ true
  on_if_outbound going =
      h ∙ ap (λ o. not (s.inbound_done && o)) going ∙ ap not (and_false s.inbound_done)

  on_if_inbound : s.inbound_done ≡ false → b ≡ true
  on_if_inbound going = h ∙ ap (λ i. not (i && s.outbound_done)) going

  pub fail-Lists : (e : Failure) → Lists b (fail_stream e s)
  unfolding fail_stream
  fail-Lists e =
      guarded-Lists s.outbound_done b s _ h (λ going. told-quiet s.inbound_done s.has_receiver e)

  cancel-Lists : Lists b (cancel_inbound s)
  unfolding cancel_inbound
  cancel-Lists = guarded-Lists s.inbound_done b s _ h (λ going.
      ap (registered_after (disconnect_if s.outbound_done)) (on_if_inbound going)
      ∙ disconnect_if-true s.outbound_done)

  pub signalled-Lists : (signal : Signal) → Lists b (signalled signal s)
  unfolding next_payload complete_stream extend_stream request_more
  signalled-Lists (next content c) =
      let frames = response_frames s.stream_id s.fragment_size content c in
      let off = disconnect_if (c && s.inbound_done) in
      guarded-Lists s.outbound_done b s _ h (λ going.
        registered_after-append (map sent frames) off b
        ∙ ap (registered_after off) (registered_after-sent frames b ∙ on_if_outbound going)
        ∙ disconnect_if-both c s.inbound_done)
  signalled-Lists complete = guarded-Lists s.outbound_done b s _ h (λ going.
      ap (registered_after (disconnect_if s.inbound_done)) (on_if_outbound going)
      ∙ disconnect_if-inbound s.inbound_done)
  signalled-Lists (fail e) = fail-Lists e
  signalled-Lists (extend t c i) = guarded-Lists (both_done s) b s _ h (λ going. h)
  signalled-Lists (ask n) = guarded-Lists s.inbound_done b s _ h (λ going. h)
  signalled-Lists stop = cancel-Lists

pub signalled_all-Lists :
    (signals : List Signal) (s : Responder) (b : Bool)
    → b ≡ not (both_done s)
    → Lists b (signalled_all signals s)
signalled_all-Lists [] s b h = h
signalled_all-Lists (signal ∷ signals) s b h =
    let (events, s') = signalled signal s in
    registered_after-append events (signalled_all signals s').0 b
    ∙ signalled_all-Lists signals s' (registered_after events b) (signalled-Lists s b h signal)

shut_inbound : (i o : Bool) → (o && not i) ≡ false → not (i && o) ≡ not (true && o)
shut_inbound true o e = refl
shut_inbound false true e = absurd cc
shut_inbound false false e = refl

pub settled-Lists :
    (thrown : Option Failure) (s : Responder) (b : Bool)
    → b ≡ not (both_done s)
    → Lists b (settled thrown s)
unfolding settled
settled-Lists none s b h = missed-quiet s.outbound_done s.deferred_error b ∙ h
settled-Lists (some e) s b h =
    let Failed : List Event × Responder → Type 0 =
      λ (events, s'). let (more, s'') = fail_stream e s' in Lists b (events ++ more, s'') in
    let failing : (r : List Event × Responder) → Lists b r → Failed r = λ r k.
      registered_after-append r.0 (fail_stream e r.1).0 b
      ∙ fail-Lists r.1 (registered_after r.0 b) k e in
    if_cases Failed (s.outbound_done && not s.inbound_done)
      (λ half. failing (cancel_inbound s) (cancel-Lists s b h))
      (λ whole.
        failing ([], record s { inbound_done = true })
          (h ∙ shut_inbound s.inbound_done s.outbound_done whole))
