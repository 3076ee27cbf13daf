-- ===== src/Deferred/Closed.antt =====
-- Each callback of a `Deferred` is called once, with the error of the first close.
use rsocket.Prelude.{
  ℕ, ◌≡◌, refl, sym, ap, ◌∙◌, Option, none, List, [], ◌∷◌, ◌++◌, map, append_assoc, true, false,
}
use rsocket.Deferred.{
  Deferred, new_deferred, Event, called, close, on_close, Call, close_call, on_close_call, run,
}

abbrev pub registered : List Call → List ℕ
registered [] = []
registered (close_call error ∷ calls) = registered calls
registered (on_close_call callback ∷ calls) = callback ∷ registered calls

abbrev pub NoClose : List Call → Type 0
NoClose [] = Unit
NoClose (close_call error ∷ calls) = ⊥
NoClose (on_close_call callback ∷ calls) = NoClose calls

map-append : (f : ℕ → Event) (xs ys : List ℕ) → map f (xs ++ ys) ≡ map f xs ++ map f ys
map-append f [] ys = refl
map-append f (x ∷ xs) ys = ap (λ t. f x ∷ t) (map-append f xs ys)

abbrev closed : Option ℕ → Deferred
closed error = record { done = true; error = error; on_close_callbacks = [] }

abbrev waiting : List ℕ → Deferred
waiting callbacks = record { done = false; error = none; on_close_callbacks = callbacks }

run-closed :
    (calls : List Call) (error : Option ℕ)
    → run calls (closed error) ≡ (map (called error) (registered calls), closed error)
unfolding close on_close
run-closed [] error = refl
run-closed (close_call again ∷ calls) error = run-closed calls error
run-closed (on_close_call callback ∷ calls) error = rw (run-closed calls error) refl

run-waiting :
    (before after : List Call) (error : Option ℕ) (callbacks : List ℕ)
    → NoClose before
    → (run (before ++ (close_call error ∷ after)) (waiting callbacks)).0
      ≡ map (called error) (callbacks ++ registered (before ++ after))
unfolding close on_close
run-waiting [] after error callbacks h =
    rw (run-closed after error) (sym (map-append (called error) callbacks (registered after)))
run-waiting (close_call e ∷ before) after error callbacks h = absurd h
run-waiting (on_close_call callback ∷ before) after error callbacks h =
    run-waiting before after error (callbacks ++ (callback ∷ [])) h
    ∙ ap (map (called error))
        (append_assoc callbacks (callback ∷ []) (registered (before ++ after)))

-- Once an object is closed, each callback that is registered before or after has been called once, in
-- the order of registration, with the error of the first close, and later closes do nothing.
pub run-close :
    (before after : List Call) (error : Option ℕ)
    → NoClose before
    → (run (before ++ (close_call error ∷ after)) new_deferred).0
      ≡ map (called error) (registered (before ++ after))
run-close before after error h = run-waiting before after error [] h
