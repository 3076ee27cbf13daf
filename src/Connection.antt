-- ===== src/Connection.antt =====
-- packages/rsocket-core/src/RSocketSupport.ts: `KeepAliveSender`, and `DefaultConnectionFrameHandler`,
-- which has the keep-alive handler, the sender and the lease handler of a connection.
pub mod Agree
pub mod Tests
use rsocket.Prelude.{ℕ, Bool, true, false, Option, none, some, List, [], ◌∷◌, map, if◌then◌else◌}
use rsocket.Prelude.Number.{Number, pos}
use rsocket.Bytes.{Bytes}
use rsocket.Frames.{Frame, keepalive, lease, error, metadata_push}
use rsocket.Frames.Flags
use rsocket.KeepAlive as KeepAlive
use rsocket.KeepAlive.{KeepAliveState, paused, running, closed, KeepAliveHandler}
use rsocket.Lease as Lease
use rsocket.Lease.{LeaseHandler}

-- `KeepAliveSenderStates` has the states of the handler. `interval` is whether the timer is set that
-- calls `sendKeepAlive` again and again.
pub record KeepAliveSender : Type 0 where
  pub state : KeepAliveState
  pub interval : Bool

abbrev pub new_sender : KeepAliveSender
new_sender = record { state = paused; interval = false }

-- `sendKeepAlive`
abbrev pub keep_alive_frame : Frame
keep_alive_frame =
    keepalive (record { flags = Flags.respond; body = none; last_received_position = pos 0 })

unfoldable pub start_sender : KeepAliveSender → KeepAliveSender
start_sender s = elim s.state [
  | paused ↦ record { state = running; interval = true }
  | running ↦ s
  | closed ↦ s
]

unfoldable pub pause_sender : KeepAliveSender → KeepAliveSender
pause_sender s = elim s.state [
  | paused ↦ s
  | running ↦ record { state = paused; interval = false }
  | closed ↦ s
]

unfoldable pub close_sender : KeepAliveSender → KeepAliveSender
close_sender s = record { state = closed; interval = false }

-- The timer of the sender
unfoldable pub tick : KeepAliveSender → List Frame
tick s = if s.interval then keep_alive_frame ∷ [] else []

-- The handler of the application that has `metadataPush`, or has not, is a Boolean, and so is `close`.
pub record ConnectionHandler : Type 0 where
  pub keep_alive : KeepAliveHandler
  pub sender : Option KeepAliveSender
  pub leases : Option LeaseHandler
  pub has_metadata_push : Bool
  pub has_close : Bool

pub data Output : Type 0 where
  of_keep_alive : KeepAlive.Event → Output
  of_lease : Lease.Event → Output
  connection_closed : Number → List ℕ → Output
  metadata_pushed : Bytes → Output
  rsocket_closed : Option ℕ → Output

-- `frame.metadata ?? Bytes.alloc(0)`
abbrev pub pushed : Option Bytes → Bytes
pushed none = []
pushed (some metadata) = metadata

abbrev pub sender_map :
    (KeepAliveSender → KeepAliveSender) → Option KeepAliveSender → Option KeepAliveSender
sender_map f none = none
sender_map f (some s) = some (f s)

-- `now` is `performance.now()`, which both handlers read.
abbrev pub leased :
    Option LeaseHandler → Frame → ℕ → ConnectionHandler → List Output × ConnectionHandler
leased (some h) (lease f) now s =
    let (events, h') = Lease.handle f (pos now) h in
    (map of_lease events, record s { leases = some h' })
leased h frame now s = ([], s)

unfoldable pub handle : Frame → ℕ → ConnectionHandler → List Output × ConnectionHandler
handle (keepalive f) now s =
    let (events, k) = KeepAlive.handle f now s.keep_alive in
    (map of_keep_alive events, record s { keep_alive = k })
handle (lease f) now s = leased s.leases (lease f) now s
handle (error f) now s = (connection_closed f.code f.message ∷ [], s)
handle (metadata_push f) now s =
    (if s.has_metadata_push then metadata_pushed (pushed f.metadata) ∷ [] else [], s)
handle frame now s = ([], s)

unfoldable pub pause : ConnectionHandler → ConnectionHandler
pause s = record s {
  keep_alive = KeepAlive.pause s.keep_alive;
  sender = sender_map pause_sender s.sender;
}

unfoldable pub resume : ℕ → ℕ → ConnectionHandler → ConnectionHandler
resume duration now s = record s {
  keep_alive = KeepAlive.start duration now s.keep_alive;
  sender = sender_map start_sender s.sender;
}

unfoldable pub close : Option ℕ → ConnectionHandler → List Output × ConnectionHandler
close e s = (
  if s.has_close then rsocket_closed e ∷ [] else [],
  record s { keep_alive = KeepAlive.close s.keep_alive },
)
