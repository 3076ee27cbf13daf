-- ===== src/Lease/Grants.antt =====
-- A lease grants no more streams than it says.
use rsocket.Prelude.{
  ℕ, zero, suc, ◌+◌, ◌-◌, ◌≤◌, ◌≡◌, refl, ap, ◌∙◌, sym, List, [], ◌∷◌, ◌++◌, map, arith, Bool-cases,
  true, false, leb, ◌==◌, ◌&&◌, inl, inr, Bool, length, ltb,
}
use rsocket.Prelude.Number.{Number, pos, sub, lt, sub-pos}
use rsocket.Frames.{LeaseFrame}
use rsocket.Lease.{
  Event, created, rejected, withdrawn, LeaseHandler, grant_loop, handle, take_off, cancel_request,
  close, request_lease, Call, handle_call, request_call, cancel_call, close_call, run,
}

abbrev pub created_count : List Event → ℕ
created_count [] = 0
created_count (created x ∷ events) = suc (created_count events)
created_count (rejected x ∷ events) = created_count events
created_count (withdrawn x ∷ events) = created_count events

created_count-append :
    (xs ys : List Event) → created_count (xs ++ ys) ≡ created_count xs + created_count ys
created_count-append [] ys = omega arith
created_count-append (created x ∷ xs) ys = omega (arith, created_count-append xs ys)
created_count-append (rejected x ∷ xs) ys = created_count-append xs ys
created_count-append (withdrawn x ∷ xs) ys = created_count-append xs ys

created_count-map : (xs : List ℕ) → created_count (map rejected xs) ≡ 0
created_count-map [] = refl
created_count-map (x ∷ xs) = created_count-map xs

-- No lease comes.
abbrev pub NoLease : List Call → Type 0
NoLease [] = Unit
NoLease (handle_call frame now ∷ calls) = ⊥
NoLease (request_call handler now ∷ calls) = NoLease calls
NoLease (cancel_call handler ∷ calls) = NoLease calls
NoLease (close_call ∷ calls) = NoLease calls

-- What is created and what is left make `n`.
abbrev Spends : ℕ → List Event → Number → Type 0
Spends n events available = (left : ℕ) × (available ≡ pos left) × (created_count events + left ≡ n)

grant_loop-Spends :
    (pending : List ℕ) (n : ℕ)
    → Spends n (grant_loop pending (pos n)).0 (grant_loop pending (pos n)).2
unfolding grant_loop
grant_loop-Spends [] n = (n, refl, omega arith)
grant_loop-Spends (x ∷ pending) zero = (0, refl, omega arith)
grant_loop-Spends (x ∷ pending) (suc n) =
    let one : sub (pos (suc n)) (pos 1) ≡ pos n = ground arith in
    let go : ltb 0 (suc n) ≡ true = ground arith in
    let (left, e, total) = grant_loop-Spends pending n in rw (one, go) (left, e, omega arith)

take_off-created : (handler : ℕ) (pending : List ℕ) → created_count (take_off handler pending).0 ≡ 0
unfolding take_off
take_off-created handler [] = refl
take_off-created handler (x ∷ xs) = elim (Bool-cases (x == handler)) [
  | inl here ↦ rw here refl
  | inr on ↦ rw on (take_off-created handler xs)
]

and-left : (a b : Bool) → (a && b) ≡ true → a ≡ true
and-left true b h = refl
and-left false b h = h

module _ (max_pending : ℕ) where
  request_lease-Spends :
      (handler : ℕ) (now : Number) (s : LeaseHandler) (n : ℕ)
      → s.available_lease ≡ pos n
      → Spends n
          (request_lease max_pending handler now s).0
          (request_lease max_pending handler now s).1.available_lease
  unfolding request_lease
  request_lease-Spends handler now s n e =
      elim (Bool-cases (lt (pos 0) s.available_lease && lt now s.expiration_time)) [
        | inl go ↦
            let some_left : ltb 0 n ≡ true =
              ap (lt (pos 0)) (sym e)
              ∙ and-left (lt (pos 0) s.available_lease) (lt now s.expiration_time) go in
            let positive : 1 ≤ n = ground arith in
            rw go (n - 1, ap (λ a. sub a (pos 1)) e ∙ sub-pos n 1 positive, omega arith)
        | inr wait ↦ elim (Bool-cases (leb max_pending (length s.pending_requests))) [
          | inl full ↦ rw (wait, full) (n, e, omega arith)
          | inr room ↦ rw (wait, room) (n, e, omega arith)
        ]
      ]

  run-Spends :
      (calls : List Call) (s : LeaseHandler) (n : ℕ)
      → NoLease calls
      → s.available_lease ≡ pos n
      → Spends n (run max_pending calls s).0 (run max_pending calls s).1.available_lease
  unfolding cancel_request close
  run-Spends [] s n h e = (n, e, omega arith)
  run-Spends (handle_call frame now ∷ calls) s n h e = absurd h
  run-Spends (request_call handler now ∷ calls) s n h e =
      let (events, s') = request_lease max_pending handler now s in
      let (left, e', spent) = request_lease-Spends handler now s n e in
      let (left', e'', more) = run-Spends calls s' left h e' in
      (left', e'', omega (arith, created_count-append events (run max_pending calls s').0))
  run-Spends (cancel_call handler ∷ calls) s n h e =
      let (events, s') = cancel_request handler s in
      let (left', e'', more) = run-Spends calls s' n h e in
      let none = take_off-created handler s.pending_requests in
      (left', e'', omega (arith, created_count-append events (run max_pending calls s').0))
  run-Spends (close_call ∷ calls) s n h e =
      let (events, s') = close s in
      let (left', e'', more) = run-Spends calls s' n h e in
      let none = created_count-map s.pending_requests in
      (left', e'', omega (arith, created_count-append events (run max_pending calls s').0))

  -- From a lease of `n` requests until the next one comes, no more than `n` streams are created,
  -- whatever waited before and whatever is requested.
  pub lease_bound :
      (frame : LeaseFrame) (now : Number) (calls : List Call) (s : LeaseHandler) (n : ℕ)
      → frame.request_count ≡ pos n
      → NoLease calls
      → created_count (run max_pending (handle_call frame now ∷ calls) s).0 ≤ n
  unfolding handle
  lease_bound frame now calls s n e h =
      let (events, s') = handle frame now s in
      let granted : Spends n events s'.available_lease =
        rw e (grant_loop-Spends s.pending_requests n) in
      let (left, e', spent) = granted in
      let (left', e'', more) = run-Spends calls s' left h e' in
      omega (arith, created_count-append events (run max_pending calls s').0)
