-- ===== src/RequestResponse/Terminal.antt =====
-- The receiver of a request/response gets one signal that ends it.
use rsocket.Streams.{StreamError, Event, terminal_of, terminals}
use rsocket.Prelude.{
  ◌+◌, ◌≤◌, ◌≡◌, refl, sym, subst, ap, Bool, true, false, Option, none, some, List, [], ◌∷◌, ◌++◌,
  arith, Bool-cases, inl, inr, if◌then◌else◌,
}
use rsocket.Reassembler as Reassembler
use rsocket.RequestResponse.{Requester, close}
use rsocket.RequestResponse.Calls.{
  World, Call, ready_call, reject_call, frame_call, cancel_call, extension_call, step, run, IsOpen,
  NoCancel, done_count,
}
use rsocket.RequestResponse.Ends.{
  ready-Ends, reject-Ends, extension-Ends, frame-Ends, cancel-Cancels, terminals-append,
}

-- Every call: signals and the stream's end.
step-bound :
    (call : Call) (w : World)
    → IsOpen w.stream w.registered
    → let (events, w') = step call w in
      (terminals events + done_count w.stream ≤ done_count w'.stream)
      × IsOpen w'.stream w'.registered
step-bound (ready_call id) w h =
    let (e, o) = ready-Ends id w.stream w.registered h in (omega arith, o)
step-bound (reject_call e) w h =
    let (ends, o) = reject-Ends e w.stream w.registered h in (omega arith, o)
step-bound (frame_call frame) w h =
    let (e, o) = frame-Ends frame w.stream w.registered h in (omega arith, o)
step-bound (extension_call t c i) w h =
    let (e, o) = extension-Ends t c i w.stream w.registered h in (omega arith, o)
step-bound cancel_call w h =
    let (silent, e, o) = cancel-Cancels w.stream w.registered h in (omega arith, o)

run-bound :
    (calls : List Call) (w : World)
    → IsOpen w.stream w.registered
    → terminals (run calls w).0 + done_count w.stream ≤ done_count (run calls w).1.stream
run-bound [] w h = omega arith
run-bound (call ∷ calls) w h =
    let (events, w') = step call w in
    let (e, o) = step-bound call w h in
    omega (arith, run-bound calls w' o, terminals-append events (run calls w').0)

run-exact :
    (calls : List Call) (w : World)
    → NoCancel calls
    → IsOpen w.stream w.registered
    → terminals (run calls w).0 + done_count w.stream ≡ done_count (run calls w).1.stream
run-exact [] w n h = omega arith
run-exact (cancel_call ∷ calls) w n h = absurd n
run-exact (ready_call id ∷ calls) w n h =
    let (events, w') = step (ready_call id) w in
    let (e, o) = ready-Ends id w.stream w.registered h in
    omega (arith, run-exact calls w' n o, terminals-append events (run calls w').0)
run-exact (reject_call e ∷ calls) w n h =
    let (events, w') = step (reject_call e) w in
    let (ends, o) = reject-Ends e w.stream w.registered h in
    omega (arith, run-exact calls w' n o, terminals-append events (run calls w').0)
run-exact (frame_call frame ∷ calls) w n h =
    let (events, w') = step (frame_call frame) w in
    let (e, o) = frame-Ends frame w.stream w.registered h in
    omega (arith, run-exact calls w' n o, terminals-append events (run calls w').0)
run-exact (extension_call t c i ∷ calls) w n h =
    let (events, w') = step (extension_call t c i) w in
    let (e, o) = extension-Ends t c i w.stream w.registered h in
    omega (arith, run-exact calls w' n o, terminals-append events (run calls w').0)

terminals-terminal_of : (e : Option StreamError) → terminals (terminal_of e ∷ []) + 0 ≡ 1
terminals-terminal_of none = refl
terminals-terminal_of (some e) = refl

close-signal : (e : Option StreamError) (s : Requester) → terminals (close e s).0 + done_count s ≡ 1
unfolding close
close-signal e s =
    let ended : List Event × Requester =
      (terminal_of e ∷ [], record s { done = true; holder = Reassembler.cancel s.holder }) in
    let kept : List Event × Requester = ([], s) in
    let either : Bool → Type 0 =
      λ done. terminals (if done then kept else ended).0 + (if done then 1 else 0) ≡ 1 in
    elim (Bool-cases s.done) [
      | inl done ↦ subst either (sym done) refl
      | inr live ↦ subst either (sym live) (terminals-terminal_of e)
    ]

-- Whatever calls a stream gets that is not done, and has its id if it is registered, and is closed
-- after them: its receiver gets at most one signal that ends it.
pub run_at_most_once :
    (calls : List Call) (w : World) (e : Option StreamError)
    → IsOpen w.stream w.registered
    → w.stream.done ≡ false
    → terminals ((run calls w).0 ++ (close e (run calls w).1.stream).0) ≤ 1
run_at_most_once calls w e h live =
    let (events, w') = run calls w in
    let bound = run-bound calls w h in
    let signal = close-signal e w'.stream in
    omega (arith, terminals-append events (close e w'.stream).0)

-- A request/response stream that is not done, and has its id if it is registered, gets any calls
-- but cancel: ids, frames while it is registered, extensions, and rejections while it is not
-- registered. It is closed after them. Then its receiver gets exactly one signal that ends it.
pub run_once :
    (calls : List Call) (w : World) (e : Option StreamError)
    → NoCancel calls
    → IsOpen w.stream w.registered
    → w.stream.done ≡ false
    → terminals ((run calls w).0 ++ (close e (run calls w).1.stream).0) ≡ 1
run_once calls w e n h live =
    let (events, w') = run calls w in
    let exact = run-exact calls w n h in
    let signal = close-signal e w'.stream in
    let fresh : done_count w.stream ≡ 0 = ap (λ b. if b then 1 else 0) live in
    omega (arith, terminals-append events (close e w'.stream).0)
