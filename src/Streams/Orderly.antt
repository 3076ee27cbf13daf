-- ===== src/Streams/Orderly.antt =====
-- What a receiver may get: payloads and extensions, and one signal that ends them.
use rsocket.Prelude.{
  ◌≡◌, refl, sym, subst, Bool, true, false, Option, none, some, List, [], ◌∷◌, ◌++◌, map,
  append_assoc, append-nil,
}
use rsocket.Prelude.Number.{Number}
use rsocket.Frames.{Frame}
use rsocket.Streams.{
  Event, sent, disconnected, on_next, on_complete, on_error, on_extension, StreamError, terminal_of,
  cancel_frame,
}

-- No signal comes if the receiver's signals have ended, and none after the one that ends them.
abbrev pub Orderly : Bool → List Event → Type 0
Orderly ended [] = Unit
Orderly ended (on_next content last ∷ events) = (ended ≡ false) × Orderly last events
Orderly ended (on_complete ∷ events) = (ended ≡ false) × Orderly true events
Orderly ended (on_error e ∷ events) = (ended ≡ false) × Orderly true events
Orderly ended (on_extension t c i ∷ events) = (ended ≡ false) × Orderly false events
Orderly ended (_ ∷ events) = Orderly ended events

-- What is orderly behind the end is orderly at any time.
pub Orderly-weaken : (d : Bool) (events : List Event) → Orderly true events → Orderly d events
Orderly-weaken d [] h = tt
Orderly-weaken d (on_next content last ∷ events) h = absurd cc
Orderly-weaken d (on_complete ∷ events) h = absurd cc
Orderly-weaken d (on_error e ∷ events) h = absurd cc
Orderly-weaken d (on_extension t c i ∷ events) h = absurd cc
Orderly-weaken d (_ ∷ events) h = Orderly-weaken d events h

-- `events` lead from a receiver that has ended or not to one that has ended or not: what is orderly
-- afterwards is orderly behind them.
abbrev pub Leads : Bool → List Event → Bool → Type 0
Leads d events d' = (rest : List Event) → Orderly d' rest → Orderly d (events ++ rest)

pub Leads-nothing : (d : Bool) → Leads d [] d
Leads-nothing d rest h = h

pub Leads-silent : Leads false [] true
Leads-silent rest h = Orderly-weaken false rest h

pub Leads-append :
    (d : Bool) (xs : List Event) (d' : Bool) (ys : List Event) (d'' : Bool)
    → Leads d xs d'
    → Leads d' ys d''
    → Leads d (xs ++ ys) d''
Leads-append d xs d' ys d'' h k rest r =
    subst (Orderly d) (sym (append_assoc xs ys rest)) (h (ys ++ rest) (k rest r))

pub Leads-sent : (frames : List Frame) (d : Bool) → Leads d (map sent frames) d
Leads-sent [] d rest h = h
Leads-sent (frame ∷ frames) d rest h = Leads-sent frames d rest h

pub Leads-terminal_of : (e : Option StreamError) → Leads false (terminal_of e ∷ []) true
Leads-terminal_of none rest h = (refl, h)
Leads-terminal_of (some e) rest h = (refl, h)

pub Leads-cancel_frame :
    (id : Option Number) (d : Bool) → Leads d (cancel_frame id ++ (disconnected ∷ [])) d
Leads-cancel_frame none d rest h = h
Leads-cancel_frame (some id) d rest h = h

pub Orderly-Leads :
    (d : Bool) (events : List Event) (d' : Bool) → Leads d events d' → Orderly d events
Orderly-Leads d events d' h = subst (Orderly d) (append-nil events) (h [] tt)
