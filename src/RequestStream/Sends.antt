-- ===== src/RequestStream/Sends.antt =====
-- What the frames that reach a request/stream requester do to its request counts: nothing.
use rsocket.Prelude.{
  ℕ, ◌≡◌, refl, true, false, not, ◌||◌, Option, none, some, List, [], ◌∷◌, ◌++◌, if◌then◌else◌,
  if_both, if_cases,
}
use rsocket.Prelude.Number.{Number}
use rsocket.Frames.{Frame, PayloadFrame, ErrorFrame, ExtFrame, type_of, request_n, request_stream}
use rsocket.Frames.Flags
use rsocket.Streams.{Event, sent}
use rsocket.Streams.Messages.{during_reassembly, unexpected_type}
use rsocket.RequestStream.{Requester, close, unexpected, handle_last, handle_by}
use rsocket.RequestStream.Calls.{Call, ready_call, request_call}

-- The request counts of the frames that are sent
abbrev pub counts_of : List Event → List Number
counts_of [] = []
counts_of (sent (request_stream f) ∷ events) = f.request_n ∷ counts_of events
counts_of (sent (request_n f) ∷ events) = f.request_n ∷ counts_of events
counts_of (_ ∷ events) = counts_of events

-- What the caller asks for
abbrev pub asked : List Call → List Number
asked [] = []
asked (request_call n ∷ calls) = n ∷ asked calls
asked (_ ∷ calls) = asked calls

-- Calls behind the one that gives the stream its id
abbrev pub NoReady : List Call → Type 0
NoReady [] = Unit
NoReady (ready_call id ∷ calls) = ⊥
NoReady (_ ∷ calls) = NoReady calls

-- A call that leaves the stream going has sent the counts `ns`.
abbrev pub Sends : Requester → List Number → List Event × Requester → Type 0
Sends s ns (events, s') =
    (s'.stream_id ≡ s.stream_id)
    × (s'.done ≡ false
        → (s.done ≡ false)
          × ((rest : List Event) → counts_of (events ++ rest) ≡ ns ++ counts_of rest))

pub guarded-Sends :
    (s : Requester) (ns : List Number) (call : List Event × Requester)
    → (s.done ≡ false → Sends s ns call)
    → Sends s ns (if s.done then ([], s) else call)
guarded-Sends s ns call live =
    if_cases (Sends s ns) s.done (λ done. (refl, λ going. absurd cc)) live

module _ (message : List ℕ) (s : Requester) where
  unexpected-done : (unexpected message s).1.done ≡ true
  unfolding unexpected close
  unexpected-done =
      if_cases (λ (r : List Event × Requester). r.1.done ≡ true) s.done (λ done. done)
        (λ live. refl)

  unexpected-stream_id : (unexpected message s).1.stream_id ≡ s.stream_id
  unfolding unexpected close
  unexpected-stream_id =
      if_both (λ (r : List Event × Requester). r.1.stream_id ≡ s.stream_id) s.done refl refl

handle_last-Sends : (f : PayloadFrame) (s : Requester) → Sends s [] (handle_last f s)
unfolding handle_last
handle_last-Sends f s =
    if_both (Sends s []) (Flags.has_complete f.flags)
      (if_both (Sends s []) (Flags.has_next f.flags) (refl, λ going. absurd cc)
        (refl, λ going. absurd cc))
      (refl, λ going. (going, λ rest. refl))

pub handle_by-Sends :
    (p : Option PayloadFrame) (e : Option ErrorFrame) (x : Option ExtFrame) (frame : Frame)
    (s : Requester)
    → Sends s [] (handle_by p e x frame s)
handle_by-Sends (some f) e x frame s =
    if_both (Sends s []) (Flags.has_complete f.flags || not (Flags.has_follows f.flags))
      (handle_last-Sends f s) (refl, λ going. (going, λ rest. refl))
handle_by-Sends none (some f) x frame s = (refl, λ going. absurd cc)
handle_by-Sends none none (some f) frame s =
    let over = unexpected-done (during_reassembly (type_of frame)) s in
    if_both (Sends s []) s.holder.has_fragments
      (unexpected-stream_id (during_reassembly (type_of frame)) s, λ going. absurd cc)
      (refl, λ going. (going, λ rest. refl))
handle_by-Sends none none none frame s =
    let over = unexpected-done (unexpected_type (type_of frame)) s in
    (unexpected-stream_id (unexpected_type (type_of frame)) s, λ going. absurd cc)
