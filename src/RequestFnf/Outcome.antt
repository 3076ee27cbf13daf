-- ===== src/RequestFnf/Outcome.antt =====
-- The first call decides what becomes of a fire-and-forget request.
use rsocket.Prelude.{
  ℕ, ◌≡◌, refl, Bool, true, false, List, [], ◌∷◌, ◌++◌, map, append-nil, if_true, if_false, some,
}
use rsocket.Prelude.Number.{Number}
use rsocket.Streams.{Event, sent, on_complete, on_error, given, lease_cancelled, registered_after}
use rsocket.Streams.Runs.{run, run_silent}
use rsocket.RequestFnf.{Requester, request_frames, handle_ready, handle_reject, cancel_stream}

-- What the multiplexer, the lease manager and the caller do with a request.
pub data Call : Type 0 where
  ready_call : Number → Call
  reject_call : ℕ → Call
  cancel_call : Call

abbrev pub call_of : Call → Requester → Bool → List Event × Requester
call_of (ready_call id) s registered = handle_ready id s
call_of (reject_call e) s registered = handle_reject e s
call_of cancel_call s registered = cancel_stream s

-- What leaves a request that gets `call` first
abbrev pub outcome : Call → Requester → List Event
outcome (ready_call id) s = map sent (request_frames id s) ++ (on_complete ∷ [])
outcome (reject_call e) s = on_error (given e) ∷ []
outcome cancel_call s = lease_cancelled ∷ []

-- The request behind that call
abbrev ended : Call → Requester → Requester
ended (ready_call id) s = record s { stream_id = some id; done = true }
ended (reject_call e) s = record s { done = true }
ended cancel_call s = record s { done = true }

call_of-first :
    (call : Call) (s : Requester) (b : Bool)
    → s.done ≡ false
    → call_of call s b ≡ (outcome call s, ended call s)
unfolding handle_ready handle_reject cancel_stream
call_of-first (ready_call id) s b live = if_false s.done ([], s) _ live
call_of-first (reject_call e) s b live = if_false s.done ([], s) _ live
call_of-first cancel_call s b live = if_false s.done ([], s) _ live

ended-done : (call : Call) (s : Requester) → (ended call s).done ≡ true
ended-done (ready_call id) s = refl
ended-done (reject_call e) s = refl
ended-done cancel_call s = refl

call_of_quiet :
    (s : Requester) (b : Bool) → s.done ≡ true → (call : Call) → call_of call s b ≡ ([], s)
unfolding handle_ready handle_reject cancel_stream
call_of_quiet s b done (ready_call id) = if_true s.done ([], s) _ done
call_of_quiet s b done (reject_call e) = if_true s.done ([], s) _ done
call_of_quiet s b done cancel_call = if_true s.done ([], s) _ done

-- A fire-and-forget request that is not done, and gets its id, a rejection and `cancel` in any order
-- and any number: the first of these decides. With an id all its frames are sent and its receiver is
-- told that it is complete, a rejection reaches the receiver as an error, `cancel` takes it off the
-- waiting requests; the later calls lead to nothing.
pub run-outcome :
    (call : Call) (calls : List Call) (s : Requester) (b : Bool)
    → s.done ≡ false
    → (run call_of (call ∷ calls) s b).0 ≡ outcome call s
run-outcome call calls s b live =
    let b' = registered_after (outcome call s) b in
    let quiet =
      run_silent call_of (ended call s) b' (call_of_quiet (ended call s) b' (ended-done call s))
        calls in
    rw (call_of-first call s b live, quiet) (append-nil (outcome call s))
