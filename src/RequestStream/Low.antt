-- ===== src/RequestStream/Low.antt =====
-- The request counts that reach the application behind a request/stream responder, and what its
-- signals keep.
use rsocket.Prelude.{
  ℕ, ◌≡◌, refl, ◌⊎◌, Bool, true, false, ◌||◌, ◌==◌, Option, none, some, List, [], ◌∷◌, map, arith,
  Bool-cases, inl, inr, if◌then◌else◌, if_cases,
}
use rsocket.Prelude.Number.{Number, pos, lt}
use rsocket.Frames.{Frame, type_of}
use rsocket.Frames.FrameTypes
use rsocket.Streams.{Event, sent, disconnected, handler_called, requested, Failure}
use rsocket.Streams.Sending.{
  Signal, next, complete, fail, extend, response_frames, cancel_receiver, complaint,
}
use rsocket.Streams.Runs.{total, total-append, bit}
use rsocket.RequestStream.Responder.{
  Responder, on_error, on_next, on_complete, extend_stream, signalled, signalled_all, settled,
}

-- A count that reaches the application and is below one, as `requestN < 1` has it, or is not there. NaN,
-- which no frame that is read has, is not below one.
abbrev pub low_count : Option Number → ℕ
low_count none = 1
low_count (some n) = bit (lt n (pos 1))

abbrev pub low : Event → ℕ
low (handler_called content n) = low_count n
low (requested n) = low_count (some n)
low _ = 0

low-sent : (frames : List Frame) → total low (map sent frames) ≡ 0
low-sent [] = refl
low-sent (frame ∷ frames) = omega (arith, low-sent frames)

pub low-complaint :
    (frame : Frame) (id : Number) (message : List ℕ) → total low (complaint frame id message) ≡ 0
low-complaint frame id message =
    let quiet = type_of frame == FrameTypes.cancel || type_of frame == FrameTypes.error in
    elim (Bool-cases quiet) [ inl e ↦ rw e refl | inr e ↦ rw e refl ]

pub low-cancel_receiver : (r : Bool) → total low (cancel_receiver r) ≡ 0
low-cancel_receiver true = refl
low-cancel_receiver false = refl

-- What `call` leads to has no low count, and keeps `K`.
abbrev pub Fine : (Responder → Type 0) → List Event × Responder → Type 0
Fine K (events, s') = (total low events ≡ 0) × K s'

-- A predicate that does not depend on the end of a stream
module _ (K : Responder → Type 0)
    (stable : (s : Responder) (d : Bool) → s.done ≡ false → K s → K (record s { done = d })) where
  guarded-Fine :
      (s : Responder) (call : List Event × Responder)
      → K s
      → (s.done ≡ false → Fine K call)
      → Fine K (if s.done then ([], s) else call)
  guarded-Fine s call k live = if_cases (Fine K) s.done (λ done. (refl, k)) live

  pub on_error-Fine : (f : Failure) (s : Responder) → K s → Fine K (on_error f s)
  unfolding on_error
  on_error-Fine f s k = guarded-Fine s _ k (λ live. (refl, stable s true live k))

  pub signalled-Fine : (signal : Signal) (s : Responder) → K s → Fine K (signalled signal s)
  unfolding on_next on_complete extend_stream
  signalled-Fine (next content is_completion) s k =
      let frames = response_frames s.stream_id s.fragment_size content is_completion in
      let end : List Event = if is_completion then disconnected ∷ [] else [] in
      let quiet : total low end ≡ 0 =
        elim is_completion as (λ c. total low (if c then disconnected ∷ [] else []) ≡ 0) [
          | true ↦ refl
          | false ↦ refl
        ] in
      guarded-Fine s _ k (λ live. (
        omega (arith, quiet, low-sent frames, total-append low (map sent frames) end),
        stable s is_completion live k,
      ))
  signalled-Fine complete s k = guarded-Fine s _ k (λ live. (refl, stable s true live k))
  signalled-Fine (fail f) s k = on_error-Fine f s k
  signalled-Fine (extend t c i) s k = guarded-Fine s _ k (λ live. (refl, k))

  pub signalled_all-Fine :
      (signals : List Signal) (s : Responder) → K s → Fine K (signalled_all signals s)
  signalled_all-Fine [] s k = (refl, k)
  signalled_all-Fine (signal ∷ signals) s k =
      let (events, s') = signalled signal s in
      let (quiet, k') = signalled-Fine signal s k in
      let (quiet', k'') = signalled_all-Fine signals s' k' in
      (omega (arith, quiet, quiet', total-append low events (signalled_all signals s').0), k'')

abbrev pub IsCounted : Responder → Type 0
IsCounted s = (k : Number) × (s.initial_request_n ≡ some k) × (lt k (pos 1) ≡ false)

abbrev pub IsWhole : Responder → Type 0
IsWhole s = s.holder.has_fragments ≡ false

-- A responder that is not done has its receiver and no fragments, or its count for the handler.
abbrev pub Ready : Responder → Type 0
Ready s = (s.done ≡ true) ⊎ (IsCounted s ⊎ ((s.has_receiver ≡ true) × IsWhole s))

pub Ready-stable :
    (s : Responder) (d : Bool) → s.done ≡ false → Ready s → Ready (record s { done = d })
Ready-stable s d live (inl done) = absurd cc
Ready-stable s d live (inr h) = inr h

pub settled-Ready :
    (thrown : Option Failure) (s : Responder)
    → IsCounted s ⊎ IsWhole s
    → Fine Ready (settled thrown s)
unfolding on_error
settled-Ready none s (inl set) = (refl, inr (inl set))
settled-Ready none s (inr whole) = (refl, inr (inr (refl, whole)))
settled-Ready (some f) s h =
    if_cases (Fine Ready) s.done (λ done. (refl, inl done)) (λ going. (refl, inl refl))
