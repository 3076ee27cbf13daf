-- ===== src/Lease/Conserved.antt =====
-- Every request is accounted for.
use rsocket.Prelude.{
  ℕ, ◌+◌, ◌≡◌, refl, List, [], ◌∷◌, ◌++◌, map, arith, Bool-cases, leb, ◌==◌, ◌&&◌, inl, inr,
  if◌then◌else◌, length,
}
use rsocket.Prelude.Number.{Number, pos, sub, lt}
use rsocket.Lease.{
  Event, created, rejected, withdrawn, LeaseHandler, grant_loop, handle, take_off, cancel_request,
  close, request_lease, Call, handle_call, request_call, cancel_call, close_call, step, run,
}

-- How often a handler is in a queue, has been requested, and has been dealt with.
abbrev pub count : ℕ → List ℕ → ℕ
count h [] = 0
count h (x ∷ xs) = (if x == h then 1 else 0) + count h xs

abbrev pub handler_of : Event → ℕ
handler_of (created x) = x
handler_of (rejected x) = x
handler_of (withdrawn x) = x

abbrev pub dealt_with : ℕ → List Event → ℕ
dealt_with h [] = 0
dealt_with h (event ∷ events) = (if handler_of event == h then 1 else 0) + dealt_with h events

count-append : (h : ℕ) (xs ys : List ℕ) → count h (xs ++ ys) ≡ count h xs + count h ys
count-append h [] ys = omega arith
count-append h (x ∷ xs) ys = omega (arith, count-append h xs ys)

dealt_with-append :
    (h : ℕ) (xs ys : List Event) → dealt_with h (xs ++ ys) ≡ dealt_with h xs + dealt_with h ys
dealt_with-append h [] ys = omega arith
dealt_with-append h (x ∷ xs) ys = omega (arith, dealt_with-append h xs ys)

dealt_with-map : (h : ℕ) (xs : List ℕ) → dealt_with h (map rejected xs) ≡ count h xs
dealt_with-map h [] = refl
dealt_with-map h (x ∷ xs) = omega (arith, dealt_with-map h xs)

grant_loop-count :
    (h : ℕ) (pending : List ℕ) (available : Number)
    → dealt_with h (grant_loop pending available).0 + count h (grant_loop pending available).1
      ≡ count h pending
unfolding grant_loop
grant_loop-count h [] available = omega arith
grant_loop-count h (x ∷ pending) available =
    let rest = grant_loop-count h pending (sub available (pos 1)) in
    elim (Bool-cases (lt (pos 0) available)) [
      | inl go ↦ rw go (omega (arith, rest))
      | inr stop ↦ rw stop (omega arith)
    ]

take_off-count :
    (h handler : ℕ) (pending : List ℕ)
    → dealt_with h (take_off handler pending).0 + count h (take_off handler pending).1
      ≡ count h pending
unfolding take_off
take_off-count h handler [] = omega arith
take_off-count h handler (x ∷ xs) =
    let rest = take_off-count h handler xs in
    elim (Bool-cases (x == handler)) [
      | inl here ↦ rw here (omega arith)
      | inr on ↦ rw on (omega (arith, rest))
    ]

abbrev pub requests : ℕ → List Call → ℕ
requests h [] = 0
requests h (handle_call frame now ∷ calls) = requests h calls
requests h (request_call handler now ∷ calls) = (if handler == h then 1 else 0) + requests h calls
requests h (cancel_call handler ∷ calls) = requests h calls
requests h (close_call ∷ calls) = requests h calls

module _ (max_pending : ℕ) where
  step-count :
      (h : ℕ) (call : Call) (s : LeaseHandler)
      → dealt_with h (step max_pending call s).0
          + count h (step max_pending call s).1.pending_requests
        ≡ count h s.pending_requests + requests h (call ∷ [])
  unfolding handle request_lease cancel_request close
  step-count h (handle_call frame now) s =
      let l = grant_loop-count h s.pending_requests frame.request_count in omega (arith, l)
  step-count h (request_call handler now) s =
      let l = count-append h s.pending_requests (handler ∷ []) in
      elim (Bool-cases (lt (pos 0) s.available_lease && lt now s.expiration_time)) [
        | inl go ↦ rw go (omega arith)
        | inr wait ↦ elim (Bool-cases (leb max_pending (length s.pending_requests))) [
          | inl full ↦ rw (wait, full) (omega arith)
          | inr room ↦ rw (wait, room) (omega (arith, l))
        ]
      ]
  step-count h (cancel_call handler) s =
      let l = take_off-count h handler s.pending_requests in omega (arith, l)
  step-count h close_call s = let l = dealt_with-map h s.pending_requests in omega (arith, l)

  requests_step :
      (h : ℕ) (call : Call) (calls : List Call)
      → requests h (call ∷ calls) ≡ requests h (call ∷ []) + requests h calls
  requests_step h (handle_call frame now) calls = omega arith
  requests_step h (request_call handler now) calls = omega arith
  requests_step h (cancel_call handler) calls = omega arith
  requests_step h close_call calls = omega arith

  -- Whatever calls the component gets, each request that it had waiting or was given is waiting
  -- still, or its stream has been created, or it has been rejected or taken off, once.
  pub run-count :
      (h : ℕ) (calls : List Call) (s : LeaseHandler)
      → dealt_with h (run max_pending calls s).0
          + count h (run max_pending calls s).1.pending_requests
        ≡ count h s.pending_requests + requests h calls
  run-count h [] s = omega arith
  run-count h (call ∷ calls) s =
      let s' = (step max_pending call s).1 in
      let l = dealt_with-append h (step max_pending call s).0 (run max_pending calls s').0 in
      omega (arith, l, step-count h call s, run-count h calls s', requests_step h call calls)
