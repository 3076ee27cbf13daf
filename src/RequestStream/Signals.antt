-- ===== src/RequestStream/Signals.antt =====
-- What the signals of an application do to the responder of a request/stream.
use rsocket.Prelude.{
  ◌≤◌, ◌≡◌, refl, ◌∙◌, Bool, true, false, not, Option, none, some, List, [], ◌∷◌, ◌++◌, map, arith,
  if◌then◌else◌,
}
use rsocket.Frames.{Frame}
use rsocket.Streams.{Event, sent, disconnected, Failure}
use rsocket.Streams.Sending.{Signal, next, complete, fail, extend, response_frames}
use rsocket.Streams.Endings.{response_frames-ending}
use rsocket.Streams.Runs.{
  Answers, Answers-quiet, Answers-append, guarded-Answers, total, sent_ending, total-append,
  registered_after-disconnected, registered_after-append, bit, registered_after-sent,
}
use rsocket.RequestStream.Responder.{
  Responder, on_error, on_next, on_complete, extend_stream, signalled, signalled_all, settled,
}

abbrev pub done_of : Responder → Bool
done_of s = s.done

-- What `call` leads to from `s`, if the registry has the stream or has not.
abbrev pub Answered : Responder → Bool → List Event × Responder → Type 0
Answered s b (events, s') = Answers s.done b events s'.done

pub on_error-Answers :
    (f : Failure) (s : Responder) (b : Bool) → b ≡ not s.done → Answered s b (on_error f s)
unfolding on_error
on_error-Answers f s b h = guarded-Answers done_of s _ b h (λ listed live. (omega arith, refl))

next-Answers :
    (frames : List Frame) (is_completion b : Bool)
    → b ≡ true
    → total sent_ending (map sent frames) ≤ bit is_completion
    → Answers false b
        (map sent frames ++ (if is_completion then disconnected ∷ [] else []))
        is_completion
next-Answers frames true b listed few = (
  omega (arith, few, total-append sent_ending (map sent frames) (disconnected ∷ [])),
  registered_after-disconnected (map sent frames) b,
)
next-Answers frames false b listed few = (
  omega (arith, few, total-append sent_ending (map sent frames) []),
  registered_after-append (map sent frames) [] b ∙ registered_after-sent frames b ∙ listed,
)

pub signalled-Answers :
    (signal : Signal) (s : Responder) (b : Bool)
    → b ≡ not s.done
    → Answered s b (signalled signal s)
unfolding on_next on_complete extend_stream
signalled-Answers (next content is_completion) s b h =
    let frames = response_frames s.stream_id s.fragment_size content is_completion in
    let few = response_frames-ending s.stream_id s.fragment_size content is_completion in
    guarded-Answers done_of s _ b h (λ listed live. next-Answers frames is_completion b listed few)
signalled-Answers complete s b h =
    guarded-Answers done_of s _ b h (λ listed live. (ground arith, refl))
signalled-Answers (fail f) s b h = on_error-Answers f s b h
signalled-Answers (extend t c i) s b h =
    guarded-Answers done_of s _ b h (λ listed live. rw live (omega arith, listed))

pub signalled_all-Answers :
    (signals : List Signal) (s : Responder) (b : Bool)
    → b ≡ not s.done
    → Answered s b (signalled_all signals s)
signalled_all-Answers [] s b h = Answers-quiet s.done b h
signalled_all-Answers (signal ∷ signals) s b h =
    let first = signalled-Answers signal s b h in
    let (events, s') = signalled signal s in
    Answers-append s.done b events s'.done _ _ first (signalled_all-Answers signals s' _ first.1)

pub settled-Answers :
    (thrown : Option Failure) (s : Responder) (b : Bool)
    → b ≡ not s.done
    → Answered s b (settled thrown s)
settled-Answers none s b h = Answers-quiet s.done b h
settled-Answers (some f) s b h = on_error-Answers f s b h
