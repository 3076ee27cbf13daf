-- ===== src/Reassembler/Shape.antt =====
-- What a holder stands for: nothing, or the bytes that have arrived.
use rsocket.Prelude.{
  Bool-cases, inl, inr, ◌≡◌, true, false, Option, none, some, refl, ap, ap₂, ◌++◌, append_assoc,
}
use rsocket.Bytes.{Bytes}
use rsocket.Bytes.Filled.{concat_two}
use rsocket.Reassembler.{
  Payload, FragmentsHolder, add_body, add_metadata, first_metadata, add, reassemble,
}

pub data Shape : Type 0 where
  idle : Shape
  held : Option Bytes → Option Bytes → Shape

abbrev pub holder_of : Shape → FragmentsHolder
holder_of idle = record { has_fragments = false; body = none; metadata = none }
holder_of (held body metadata) = record { has_fragments = true; body = body; metadata = metadata }

abbrev pub join : Option Bytes → Option Bytes → Option Bytes
join none b = b
join (some a) none = some a
join (some a) (some b) = some (a ++ b)

-- Metadata that comes after a first fragment without any is dropped.
abbrev pub join_metadata : Option Bytes → Option Bytes → Option Bytes
join_metadata none b = none
join_metadata (some a) b = join (some a) b

abbrev pub extend : Shape → Option Bytes → Option Bytes → Shape
extend idle body metadata = held body metadata
extend (held b m) body metadata = held (join b body) (join_metadata m metadata)

-- The payload that the holder's bytes and those of the last frame make.
abbrev pub complete : Shape → Option Bytes → Option Bytes → Payload
complete idle body metadata = record { body = body; metadata = metadata }
complete (held b m) body metadata = record {
  body = join b body;
  metadata = join_metadata m metadata;
}

add_body-join : (a b : Option Bytes) → add_body a b ≡ join a b
unfolding add_body
add_body-join none none = refl
add_body-join none (some b) = refl
add_body-join (some a) none = refl
add_body-join (some a) (some b) = ap some (concat_two a b)

add_metadata-join : (a b : Option Bytes) → add_metadata a b ≡ join_metadata a b
unfolding add_metadata
add_metadata-join none b = refl
add_metadata-join (some a) none = refl
add_metadata-join (some a) (some b) = ap some (concat_two a b)

pub add-extend :
    (s : Shape) (body metadata : Option Bytes)
    → add (holder_of s) body metadata ≡ holder_of (extend s body metadata)
unfolding add first_metadata
add-extend idle body none = refl
add-extend idle body (some m) = refl
add-extend (held b m) body metadata =
    ap₂ (λ b' m'. holder_of (held b' m')) (add_body-join b body) (add_metadata-join m metadata)

pub reassemble-complete :
    (b m body metadata : Option Bytes)
    → (reassemble (holder_of (held b m)) body metadata).0 ≡ complete (held b m) body metadata
unfolding reassemble
reassemble-complete b m body metadata =
    ap₂ (λ b' m'. record { body = b'; metadata = m' }) (add_body-join b body)
      (add_metadata-join m metadata)

-- A part in two pieces makes the payload that it makes in one.
pub complete-body :
    (s : Shape) (a b : Bytes) (m : Option Bytes)
    → complete (extend s (some a) m) (some b) none ≡ complete s (some (a ++ b)) m
complete-body idle a b none = refl
complete-body idle a b (some m) = refl
complete-body (held none none) a b m = refl
complete-body (held none (some x)) a b none = refl
complete-body (held none (some x)) a b (some m) = refl
complete-body (held (some y) none) a b m = rw (append_assoc y a b) refl
complete-body (held (some y) (some x)) a b none = rw (append_assoc y a b) refl
complete-body (held (some y) (some x)) a b (some m) = rw (append_assoc y a b) refl

pub complete-metadata :
    (s : Shape) (a : Bytes) (b : Bytes)
    → complete (extend s none (some a)) (some b) none ≡ complete s (some b) (some a)
complete-metadata idle a b = refl
complete-metadata (held none none) a b = refl
complete-metadata (held none (some x)) a b = refl
complete-metadata (held (some y) none) a b = refl
complete-metadata (held (some y) (some x)) a b = refl

pub complete-metadata_parts :
    (s : Shape) (a c : Bytes) (b : Bytes)
    → complete (extend s none (some a)) (some b) (some c) ≡ complete s (some b) (some (a ++ c))
complete-metadata_parts idle a c b = refl
complete-metadata_parts (held none none) a c b = refl
complete-metadata_parts (held none (some x)) a c b = rw (append_assoc x a c) refl
complete-metadata_parts (held (some y) none) a c b = refl
complete-metadata_parts (held (some y) (some x)) a c b = rw (append_assoc x a c) refl

pub add-has_fragments :
    (holder : FragmentsHolder) (body metadata : Option Bytes)
    → (add holder body metadata).has_fragments ≡ true
unfolding add
add-has_fragments holder body metadata = elim (Bool-cases holder.has_fragments) [
  | inl more ↦ rw more refl
  | inr first ↦ rw first refl
]
