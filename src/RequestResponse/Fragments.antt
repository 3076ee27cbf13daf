-- ===== src/RequestResponse/Fragments.antt =====
-- A fragmented response reaches the receiver as the payload that was sent.
use rsocket.Streams.{disconnected, on_next, response_of}
use rsocket.Prelude.{
  ℕ, ◌<◌, ◌≡◌, refl, ap, ◌∙◌, Bool, true, false, Option, some, [], ◌∷◌, map, length, Bool-cases,
  inl, inr, or_true,
}
use rsocket.Prelude.Number.{Number}
use rsocket.Prelude.Generator.{Generator, yield, return, out_of_fuel, yields}
use rsocket.Bytes.{Bytes}
use rsocket.Frames.{Frame, PayloadFrame, payload}
use rsocket.Frames.Flags
use rsocket.Frames.FrameTypes
use rsocket.Reassembler as Reassembler
use rsocket.Reassembler.{Payload, FragmentsHolder}
use rsocket.Reassembler.Shape.{idle, holder_of}
use rsocket.Fragmenter.{fragment, payload_kind, is_fragmentable}
use rsocket.Fragmenter.Receive.{receive, last_payload, only_if_done-return}
use rsocket.Fragmenter.Flagged.{AllFlagged, fragment-AllFlagged}
use rsocket.Fragmenter.RoundTrip.{receive-fragment}
use rsocket.RequestResponse.{Requester, handle}
use rsocket.RequestResponse.Calls.{frame_call, run}

response_of-last_payload :
    (holder : FragmentsHolder) (body metadata : Option Bytes)
    → (response_of holder body metadata).0 ≡ last_payload holder body metadata
response_of-last_payload holder body metadata = elim (Bool-cases holder.has_fragments) [
  | inl fragments ↦ rw fragments refl
  | inr whole ↦ rw whole refl
]

module _ (f : PayloadFrame) (s : Requester) where
  handle-more :
      Flags.has_follows f.flags ≡ true
      → Flags.has_complete f.flags ≡ false
      → handle (payload f) s
        ≡ ([], record s { holder = Reassembler.add s.holder f.body f.metadata })
  unfolding handle
  handle-more follows open_end = rw (open_end, follows) refl

  pub handle-last :
      Flags.has_follows f.flags ≡ false
      → Flags.has_next f.flags ≡ true
      → (handle (payload f) s).0
        ≡ disconnected ∷ on_next (last_payload s.holder f.body f.metadata) true ∷ []
  unfolding handle
  handle-last last next =
      rw (last, or_true (Flags.has_complete f.flags), next)
        (ap (λ c. disconnected ∷ on_next c true ∷ [])
          (response_of-last_payload s.holder f.body f.metadata))

-- What is received is what the stream answers.
run-receive :
    (g : Generator Frame (Unit {0})) (s : Requester) (content : Payload)
    → AllFlagged g
    → receive s.holder g ≡ some content
    → (run (map frame_call (yields g)) (record { stream = s; registered = true })).0
      ≡ disconnected ∷ on_next content true ∷ []
unfolding receive
run-receive (yield (payload f) g) s content ((next, flagged), rest) e =
    elim (Bool-cases (Flags.has_follows f.flags)) [
      | inl follows ↦ elim flagged [
        | inl last ↦ absurd cc
        | inr unfinished ↦
            let next_holder = Reassembler.add s.holder f.body f.metadata in
            rw (handle-more f s follows unfinished)
              (run-receive g (record s { holder = next_holder }) content rest (rw follows at e))
      ]
      | inr last ↦
          let (answered, no_more) =
            only_if_done-return (last_payload s.holder f.body f.metadata) content g
              (rw last at e) in
          rw (no_more, handle-last f s last next, answered) refl
    ]
run-receive (yield frame g) s content (flagged, rest) e = absurd flagged
run-receive (return a) s content flagged e = absurd cc
run-receive out_of_fuel s content flagged e = absurd cc

-- The frames of a response that has data, and that `isFragmentable` says is to be cut into fragments
-- of more than three bytes, take a registered stream that holds no fragments off the registry, and
-- give its receiver that payload, as the last one, and nothing else.
pub handle-fragment :
    (id : Number) (b : Bytes) (m : Option Bytes) (size : ℕ) (is_complete : Bool) (s : Requester)
    → 0 < length b
    → 3 < size
    → is_fragmentable (record { body = some b; metadata = m }) size FrameTypes.payload ≡ true
    → s.holder ≡ holder_of idle
    → (run
        (map frame_call (
          yields
            (fragment id (record { body = some b; metadata = m }) size payload_kind is_complete)))
        (record { stream = s; registered = true })).0
      ≡ disconnected ∷ on_next (record { body = some b; metadata = m }) true ∷ []
handle-fragment id b m size is_complete s h roomy big empty =
    let content : Payload = record { body = some b; metadata = m } in
    let g = fragment id content size payload_kind is_complete in
    run-receive g s content (fragment-AllFlagged id content size is_complete) (
      ap (λ holder. receive holder g) empty
      ∙ receive-fragment id b m size payload_kind is_complete h roomy big)
