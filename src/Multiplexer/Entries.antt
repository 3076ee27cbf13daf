-- ===== src/Multiplexer/Entries.antt =====
-- The entries of a registry: what holds of each of them, and the one under an id.
use rsocket.Prelude.{◌≡◌, refl, Bool, true, false, Option, none, some, [], ◌∷◌, All, if_both}
use rsocket.Prelude.Number.{Number, eq, lt}
use rsocket.Multiplexer.Handlers.{StreamHandler, id_of}
use rsocket.Multiplexer.{Registry, lookup, put, erase, put_under, erase_under, connect, settle}

abbrev pub Entries : (StreamHandler → Type 0) → Registry → Type 0
Entries P entries = All (λ e. P e.1) entries

abbrev pub Found : (StreamHandler → Type 0) → Option StreamHandler → Type 0
Found P none = Unit
Found P (some h) = P h

module _ (P : StreamHandler → Type 0) where
  pub lookup-Entries : (id : Number) (r : Registry) → Entries P r → Found P (lookup id r)
  lookup-Entries id [] h = tt
  lookup-Entries id ((k, g) ∷ r) (h, hs) = if_both (Found P) (eq id k) h (lookup-Entries id r hs)

  pub put-Entries :
      (id : Number) (g : StreamHandler) (r : Registry) → P g → Entries P r → Entries P (put id g r)
  put-Entries id g [] p h = (p, tt)
  put-Entries id g ((k, x) ∷ r) p (h, hs) =
      if_both (Entries P) (eq id k) (p, hs)
        (if_both (Entries P) (lt id k) (p, (h, hs)) (h, put-Entries id g r p hs))

  pub erase-Entries : (id : Number) (r : Registry) → Entries P r → Entries P (erase id r)
  erase-Entries id [] h = tt
  erase-Entries id ((k, x) ∷ r) (h, hs) =
      if_both (Entries P) (eq id k) (erase-Entries id r hs) (h, erase-Entries id r hs)

  put_under-Entries :
      (o : Option Number) (g : StreamHandler) (r : Registry)
      → P g
      → Entries P r
      → Entries P (put_under o g r)
  put_under-Entries none g r p h = h
  put_under-Entries (some id) g r p h = put-Entries id g r p h

  erase_under-Entries :
      (o : Option Number) (r : Registry) → Entries P r → Entries P (erase_under o r)
  erase_under-Entries none r h = h
  erase_under-Entries (some id) r h = erase-Entries id r h

  pub connect-Entries :
      (g : StreamHandler) (r : Registry) → P g → Entries P r → Entries P (connect g r)
  connect-Entries g r p h = put_under-Entries (id_of g) g r p h

  pub settle-Entries :
      (id : Number) (b : Bool) (g : StreamHandler) (r : Registry)
      → (b ≡ true → P g)
      → Entries P r
      → Entries P (settle id b g r)
  settle-Entries id true g r p h = put-Entries id g r (p refl) h
  settle-Entries id false g r p h = erase_under-Entries (id_of g) r h
