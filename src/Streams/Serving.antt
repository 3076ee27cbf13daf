-- ===== src/Streams/Serving.antt =====
-- The frames of a payload at a responder that waits for it: it adds each that says FOLLOWS to its
-- fragments, and acts at the first that does not.
use rsocket.Prelude.{
  ◌≡◌, refl, Bool, true, false, Option, some, List, [], map, append-nil, Bool-cases, inl, inr,
}
use rsocket.Prelude.Generator.{Generator, yield, return, out_of_fuel, yields, Every}
use rsocket.Bytes.{Bytes}
use rsocket.Frames.{Frame, PayloadFrame, payload}
use rsocket.Frames.Flags
use rsocket.Reassembler as Reassembler
use rsocket.Reassembler.{Payload, FragmentsHolder}
use rsocket.Fragmenter.Receive.{receive, last_payload, only_if_done-return}
use rsocket.Fragmenter.Flagged.{OfPayload}
use rsocket.Streams.{Event, registered_after}
use rsocket.Streams.Runs.{run}

module _ {C S : Type 0} (call_of : C → S → Bool → List Event × S) (to_call : Frame → C)
    (with_holder : S → FragmentsHolder → S) (Waits : S → Type 0) (Held : FragmentsHolder → Type 0)
    (held : (holder : FragmentsHolder) (b m : Option Bytes) → Held (Reassembler.add holder b m))
    (Q : PayloadFrame → Type 0) (handled : Payload → S → List Event × S)
    (more : (f : PayloadFrame) (s : S) (holder : FragmentsHolder)
      → Q f
      → Waits s
      → Flags.has_follows f.flags ≡ true
      → call_of (to_call (payload f)) (with_holder s holder) true
        ≡ ([], with_holder s (Reassembler.add holder f.body f.metadata)))
    (last : (f : PayloadFrame) (s : S) (holder : FragmentsHolder)
      → Q f
      → Waits s
      → Flags.has_follows f.flags ≡ false
      → Held holder
      → call_of (to_call (payload f)) (with_holder s holder) true
        ≡ handled (last_payload holder f.body f.metadata) s) where
  -- What is received is what it acts on.
  pub run-receive :
      (g : Generator Frame (Unit {0})) (s : S) (holder : FragmentsHolder) (content : Payload)
      → Waits s
      → Held holder
      → Every (OfPayload Q) g
      → receive holder g ≡ some content
      → let (events, s') = handled content s in
        run call_of (map to_call (yields g)) (with_holder s holder) true
        ≡ (events, s', registered_after events true)
  unfolding receive
  run-receive (yield (payload f) g) s holder content waits kept (q, rest) e =
      elim (Bool-cases (Flags.has_follows f.flags)) [
        | inl follows ↦ rw (more f s holder q waits follows) (
            run-receive g s (Reassembler.add holder f.body f.metadata) content waits
              (held holder f.body f.metadata) rest (rw follows at e))
        | inr done ↦
            let (answered, no_more) =
              only_if_done-return (last_payload holder f.body f.metadata) content g
                (rw done at e) in
            rw (no_more, last f s holder q waits done kept, answered, append-nil) refl
      ]
  run-receive (yield frame g) s holder content waits kept (q, rest) e = absurd q
  run-receive (return a) s holder content waits kept q e = absurd cc
  run-receive out_of_fuel s holder content waits kept q e = absurd cc
