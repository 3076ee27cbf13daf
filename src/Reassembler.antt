-- ===== src/Reassembler.antt =====
-- packages/rsocket-core/src/Reassembler.ts: the fragments of a payload that a stream holds. `null`
-- and `undefined` are both `none`. A function that changes its holder returns the new one.
pub mod Shape
use rsocket.Prelude.{Bool, true, false, Option, none, some, [], ◌∷◌, if◌then◌else◌}
use rsocket.Bytes.{Bytes, concat}

-- The interface `Payload` of RSocket.ts
pub record Payload : Type 0 where
  pub body : Option Bytes
  pub metadata : Option Bytes

pub record FragmentsHolder : Type 0 where
  pub has_fragments : Bool
  pub body : Option Bytes
  pub metadata : Option Bytes

-- `holder.data ? Bytes.concat([holder.data, fragment]) : fragment`
abbrev extend_body : Option Bytes → Bytes → Bytes
extend_body none fragment = fragment
extend_body (some held) fragment = concat (held ∷ fragment ∷ [])

add_body : Option Bytes → Option Bytes → Option Bytes
add_body held none = held
add_body held (some fragment) = some (extend_body held fragment)

add_metadata : Option Bytes → Option Bytes → Option Bytes
add_metadata none fragment = none
add_metadata (some held) none = some held
add_metadata (some held) (some fragment) = some (concat (held ∷ fragment ∷ []))

-- Without fragments the holder's old metadata is replaced only if the fragment has some.
first_metadata : Option Bytes → Option Bytes → Option Bytes
first_metadata old none = old
first_metadata old (some fragment) = some fragment

unfoldable pub add : FragmentsHolder → Option Bytes → Option Bytes → FragmentsHolder
unfolding add_body add_metadata first_metadata
add holder body metadata =
    if holder.has_fragments
    then record {
      has_fragments = true;
      body = add_body holder.body body;
      metadata = add_metadata holder.metadata metadata;
    }
    else record {
      has_fragments = true;
      body = body;
      metadata = first_metadata holder.metadata metadata;
    }

unfoldable pub reassemble :
    FragmentsHolder → Option Bytes → Option Bytes → Payload × FragmentsHolder
unfolding add_body add_metadata
reassemble holder body metadata = (
  record { body = add_body holder.body body; metadata = add_metadata holder.metadata metadata },
  record { has_fragments = false; body = none; metadata = none },
)

unfoldable pub cancel : FragmentsHolder → FragmentsHolder
cancel holder = record { has_fragments = false; body = none; metadata = none }
