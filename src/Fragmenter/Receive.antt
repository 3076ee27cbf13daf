-- ===== src/Fragmenter/Receive.antt =====
-- The other end of a fragmented payload: it adds every frame that says FOLLOWS to its holder, and
-- reassembles at the first that does not.
use rsocket.Prelude.{◌≡◌, refl, ap, ℕ, true, false, Option, none, some, if◌then◌else◌, []}
use rsocket.Prelude.Generator.{Generator, yield, return, out_of_fuel, yields}
use rsocket.Bytes.{Bytes}
use rsocket.Frames.{Frame, payload, request_fnf, request_response, request_stream, request_channel}
use rsocket.Frames.Flags
use rsocket.Reassembler.{Payload, FragmentsHolder, add, reassemble}
use rsocket.Reassembler.Shape.{
  Shape, idle, held, holder_of, extend, complete, add-extend, reassemble-complete,
}

pub record Part : Type 0 where
  pub flags : ℕ
  pub body : Option Bytes
  pub metadata : Option Bytes

abbrev pub part_of : Frame → Part
part_of (payload f) = record { flags = f.flags; body = f.body; metadata = f.metadata }
part_of (request_fnf f) = record { flags = f.flags; body = f.body; metadata = f.metadata }
part_of (request_response f) = record { flags = f.flags; body = f.body; metadata = f.metadata }
part_of (request_stream f) = record { flags = f.flags; body = f.body; metadata = f.metadata }
part_of (request_channel f) = record { flags = f.flags; body = f.body; metadata = f.metadata }
part_of _ = record { flags = 0; body = none; metadata = none }

-- The payload of the last frame, as the streams take it.
abbrev pub last_payload : FragmentsHolder → Option Bytes → Option Bytes → Payload
last_payload holder body metadata =
    if holder.has_fragments
    then (reassemble holder body metadata).0
    else record { body = body; metadata = metadata }

-- What a last frame is followed by: nothing.
abbrev pub only_if_done {ℓ κ} : {Y : Type ℓ} {A : Type κ} → Payload → Generator Y A → Option Payload
only_if_done content (yield y g) = none
only_if_done content (return a) = some content
only_if_done content out_of_fuel = none

pub only_if_done-return :
    {A : Type 0} (content answer : Payload) (g : Generator Frame A)
    → only_if_done content g ≡ some answer
    → (content ≡ answer) × (yields g ≡ [])
only_if_done-return content answer (yield frame g) e = absurd cc
only_if_done-return content answer (return a) e = (cc, refl)
only_if_done-return content answer out_of_fuel e = absurd cc

unfoldable pub receive {ℓ} : {A : Type ℓ} → FragmentsHolder → Generator Frame A → Option Payload
receive holder (yield frame g) =
    let part = part_of frame in
    let more = receive (add holder part.body part.metadata) g in
    if Flags.has_follows part.flags
    then more
    else only_if_done (last_payload holder part.body part.metadata) g
receive holder (return a) = none
receive holder out_of_fuel = none

last_payload-complete :
    (s : Shape) (body metadata : Option Bytes)
    → last_payload (holder_of s) body metadata ≡ complete s body metadata
last_payload-complete idle body metadata = refl
last_payload-complete (held b m) body metadata = reassemble-complete b m body metadata

module _ {ℓ} {A : Type ℓ} (s : Shape) (frame : Frame) where
  pub receive-more :
      (g : Generator Frame A)
      → let part = part_of frame in
        Flags.has_follows part.flags ≡ true
        → receive (holder_of s) (yield frame g)
          ≡ receive (holder_of (extend s part.body part.metadata)) g
  unfolding receive
  receive-more g follows =
      let part = part_of frame in
      rw follows (ap (λ h. receive h g) (add-extend s part.body part.metadata))

  pub receive-last :
      (g : Generator Frame A) (a : A)
      → let part = part_of frame in
        Flags.has_follows part.flags ≡ false
        → g ≡ return a
        → receive (holder_of s) (yield frame g) ≡ some (complete s part.body part.metadata)
  unfolding receive
  receive-last g a last done =
      let part = part_of frame in
      rw (last, done) (ap some (last_payload-complete s part.body part.metadata))
