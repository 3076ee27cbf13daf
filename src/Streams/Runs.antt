-- ===== src/Streams/Runs.antt =====
-- Calls one after the other on a stream that the registry of the multiplexer has or has not, and
-- what holds of all of them because it holds of each.
use rsocket.Prelude.{
  append_assoc, ap, ℕ, ◌+◌, ◌≤◌, ◌≡◌, refl, sym, subst, ◌∙◌, Bool, true, false, not, List, [], ◌∷◌,
  ◌++◌, map, arith, if◌then◌else◌,
}
use rsocket.Frames.{Frame, payload, error}
use rsocket.Frames.Flags
use rsocket.Streams.{frames_of, Event, sent, connected, disconnected, registered_after}

abbrev pub total : (Event → ℕ) → List Event → ℕ
total weight [] = 0
total weight (event ∷ events) = weight event + total weight events

-- The frames with which a responder ends its stream: an ERROR, and a PAYLOAD with COMPLETE.
abbrev pub ending : Frame → ℕ
ending (error f) = 1
ending (payload f) = if Flags.has_complete f.flags then 1 else 0
ending _ = 0

abbrev pub sent_ending : Event → ℕ
sent_ending (sent frame) = ending frame
sent_ending _ = 0

abbrev pub bit : Bool → ℕ
bit b = if b then 1 else 0

-- What a call of a stream that is done, or not, leads to: it sends at most one frame that ends the
-- stream, and does so only if it makes it done; the registry has the stream as long as it is not done.
abbrev pub Answers : Bool → Bool → List Event → Bool → Type 0
Answers d b events d' =
    (total sent_ending events + bit d ≤ bit d') × (registered_after events b ≡ not d')

-- What the construction of a responder leads to, before which the registry does not have it.
abbrev pub Starts : List Event → Bool → Type 0
Starts events d = (total sent_ending events ≤ bit d) × (registered_after events false ≡ not d)

pub bit_most : (b : Bool) → bit b ≤ 1
bit_most true = omega arith
bit_most false = omega arith

pub total-append :
    (weight : Event → ℕ) (xs ys : List Event)
    → total weight (xs ++ ys) ≡ total weight xs + total weight ys
total-append weight [] ys = omega arith
total-append weight (x ∷ xs) ys = omega (arith, total-append weight xs ys)

pub registered_after-append :
    (xs ys : List Event) (b : Bool)
    → registered_after (xs ++ ys) b ≡ registered_after ys (registered_after xs b)
registered_after-append [] ys b = refl
registered_after-append (connected ∷ xs) ys b = registered_after-append xs ys true
registered_after-append (disconnected ∷ xs) ys b = registered_after-append xs ys false
registered_after-append (_ ∷ xs) ys b = registered_after-append xs ys b

pub registered_after-sent :
    (frames : List Frame) (b : Bool) → registered_after (map sent frames) b ≡ b
registered_after-sent [] b = refl
registered_after-sent (frame ∷ frames) b = registered_after-sent frames b

pub registered_after-disconnected :
    (events : List Event) (b : Bool) → registered_after (events ++ (disconnected ∷ [])) b ≡ false
registered_after-disconnected events b = registered_after-append events (disconnected ∷ []) b

pub frames_of-sent :
    (frames : List Frame) (events : List Event)
    → frames_of (map sent frames ++ events) ≡ frames ++ frames_of events
frames_of-sent [] events = refl
frames_of-sent (frame ∷ frames) events = ap (λ r. frame ∷ r) (frames_of-sent frames events)

pub frames_of-map_sent : (frames : List Frame) → frames_of (map sent frames) ≡ frames
frames_of-map_sent [] = refl
frames_of-map_sent (frame ∷ frames) = ap (λ r. frame ∷ r) (frames_of-map_sent frames)

pub frames_of-append : (xs ys : List Event) → frames_of (xs ++ ys) ≡ frames_of xs ++ frames_of ys
frames_of-append [] ys = refl
frames_of-append (sent frame ∷ xs) ys = ap (λ r. frame ∷ r) (frames_of-append xs ys)
frames_of-append (_ ∷ xs) ys = frames_of-append xs ys

pub listed→live : (d : Bool) → true ≡ not d → d ≡ false
listed→live false h = refl
listed→live true h = absurd cc

-- A call that leaves the stream as done as it was, and nothing that concerns its end.
pub Answers-quiet : (d b : Bool) → b ≡ not d → Answers d b [] d
Answers-quiet d b h = (omega arith, h)

pub Answers-append :
    (d b : Bool) (xs : List Event) (d' : Bool) (ys : List Event) (d'' : Bool)
    → Answers d b xs d'
    → Answers d' (registered_after xs b) ys d''
    → Answers d b (xs ++ ys) d''
Answers-append d b xs d' ys d'' h k =
    (omega (arith, h.0, k.0, total-append sent_ending xs ys), registered_after-append xs ys b ∙ k.1)

guarded_by :
    {S : Type 0} (done : S → Bool) (s : S) (call : List Event × S) (b d : Bool)
    → done s ≡ d
    → b ≡ not d
    → (b ≡ true → d ≡ false → Answers false b call.0 (done call.1))
    → Answers d b (if d then ([], s) else call).0 (done (if d then ([], s) else call).1)
guarded_by done s call b true e h live =
    subst (λ x. Answers true b [] x) (sym e) (Answers-quiet true b h)
guarded_by done s call b false e h live = live h refl

-- A call that does nothing to a stream that is done
pub guarded-Answers :
    {S : Type 0} (done : S → Bool) (s : S) (call : List Event × S) (b : Bool)
    → b ≡ not (done s)
    → (b ≡ true → done s ≡ false → Answers false b call.0 (done call.1))
    → Answers
        (done s)
        b
        (if done s then ([], s) else call).0
        (done (if done s then ([], s) else call).1)
guarded-Answers done s call b h live = guarded_by done s call b (done s) refl h live

-- A call of a stream that the registry has or has not: the frame is dropped if not.
pub listed-Answers :
    {S : Type 0} (done : S → Bool) (s : S) (call : List Event × S) (b : Bool)
    → b ≡ not (done s)
    → (done s ≡ false → Answers (done s) true call.0 (done call.1))
    → Answers (done s) b (if b then call else ([], s)).0 (done (if b then call else ([], s)).1)
listed-Answers done s call false h live = Answers-quiet (done s) false h
listed-Answers done s call true h live = live (listed→live (done s) h)

module _ {S C : Type 0} (call_of : C → S → Bool → List Event × S) where
  abbrev pub run : List C → S → Bool → List Event × S × Bool
  run [] s b = ([], s, b)
  run (call ∷ calls) s b =
      let (events, s') = call_of call s b in
      let (more, s'', b'') = run calls s' (registered_after events b) in (events ++ more, s'', b'')

  pub run-Answers :
      (done : S → Bool)
      → ((call : C) (s : S) (b : Bool)
          → b ≡ not (done s)
          → Answers (done s) b (call_of call s b).0 (done (call_of call s b).1))
      → (calls : List C) (s : S) (b : Bool) → b ≡ not (done s)
      → let (events, s', b') = run calls s b in
        Answers (done s) b events (done s') × (registered_after events b ≡ b')
  run-Answers done each [] s b h = (Answers-quiet (done s) b h, refl)
  run-Answers done each (call ∷ calls) s b h =
      let (events, s') = call_of call s b in
      let first = each call s b h in
      let (more, s'', b'') = run calls s' (registered_after events b) in
      let (rest, listed) = run-Answers done each calls s' (registered_after events b) first.1 in
      (
        Answers-append (done s) b events (done s') more (done s'') first rest,
        registered_after-append events more b ∙ listed,
      )

  -- A state that no call changes, and that calls get nothing out of.
  pub run_silent :
      (s : S) (b : Bool)
      → ((call : C) → call_of call s b ≡ ([], s))
      → (calls : List C) → run calls s b ≡ ([], s, b)
  run_silent s b quiet [] = refl
  run_silent s b quiet (call ∷ calls) = rw (quiet call) (run_silent s b quiet calls)

  -- What a call brings is paid for by what the state holds.
  pub run-paid :
      (weight : Event → ℕ) (holds : S → Bool → ℕ) (Keeps : S → Bool → Type 0)
      → ((call : C) (s : S) (b : Bool)
          → Keeps s b
          → let (events, s') = call_of call s b in
            (total weight events + holds s' (registered_after events b) ≤ holds s b)
            × Keeps s' (registered_after events b))
      → (calls : List C) (s : S) (b : Bool) → Keeps s b
      → let (events, s', b') = run calls s b in
        (total weight events + holds s' b' ≤ holds s b) × Keeps s' b'
  run-paid weight holds Keeps each [] s b k = (omega arith, k)
  run-paid weight holds Keeps each (call ∷ calls) s b k =
      let (events, s') = call_of call s b in
      let b' = registered_after events b in
      let more = (run calls s' b').0 in
      let (now, k') = each call s b k in
      let (later, end) = run-paid weight holds Keeps each calls s' b' k' in
      (omega (arith, now, later, total-append weight events more), end)

  pub run-append :
      (xs ys : List C) (s : S) (b : Bool)
      → let (events, s', b') = run xs s b in
        let (more, s'', b'') = run ys s' b' in run (xs ++ ys) s b ≡ (events ++ more, s'', b'')
  run-append [] ys s b = refl
  run-append (x ∷ xs) ys s b =
      let (events, s') = call_of x s b in
      let b' = registered_after events b in
      let (rest, s'', b'') = run xs s' b' in
      let (more, t, c) = run ys s'' b'' in
      ap (λ (r : List Event × S × Bool). (events ++ r.0, r.1, r.2)) (run-append xs ys s' b')
      ∙ ap (λ l. (l, t, c)) (sym (append_assoc events rest more))
