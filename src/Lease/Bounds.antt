-- ===== src/Lease/Bounds.antt =====
-- The queue of requests that wait for a lease is bounded.
use rsocket.Prelude.{ℕ, ◌≤◌, List, [], ◌∷◌, arith, length, length-append}
use rsocket.Prelude.Number.{Number, pos, sub}
use rsocket.Lease.{
  LeaseHandler, grant_loop, handle, take_off, cancel_request, close, request_lease, Call,
  handle_call, request_call, cancel_call, close_call, step, run,
}

length-grant_loop :
    (pending : List ℕ) (available : Number)
    → length (grant_loop pending available).1 ≤ length pending
unfolding grant_loop
length-grant_loop [] available = omega arith
length-grant_loop (handler ∷ pending) available =
    let rest = length-grant_loop pending (sub available (pos 1)) in ground arith

length-take_off :
    (handler : ℕ) (pending : List ℕ) → length (take_off handler pending).1 ≤ length pending
unfolding take_off
length-take_off handler [] = omega arith
length-take_off handler (x ∷ xs) = let rest = length-take_off handler xs in ground arith

module _ (max_pending : ℕ) where
  step_bound :
      (call : Call) (s : LeaseHandler)
      → length s.pending_requests ≤ max_pending
      → length (step max_pending call s).1.pending_requests ≤ max_pending
  unfolding handle request_lease cancel_request close
  step_bound (handle_call frame now) s h =
      let l = length-grant_loop s.pending_requests frame.request_count in omega (arith, l)
  step_bound (request_call handler now) s h =
      let l = length-append s.pending_requests (handler ∷ []) in ground arith
  step_bound (cancel_call handler) s h =
      let l = length-take_off handler s.pending_requests in omega (arith, l)
  step_bound close_call s h = omega arith

  -- Whatever calls the component gets, no more requests wait than it allows, if that holds before.
  pub run_bound :
      (calls : List Call) (s : LeaseHandler)
      → length s.pending_requests ≤ max_pending
      → length (run max_pending calls s).1.pending_requests ≤ max_pending
  run_bound [] s h = h
  run_bound (call ∷ calls) s h = run_bound calls (step max_pending call s).1 (step_bound call s h)
