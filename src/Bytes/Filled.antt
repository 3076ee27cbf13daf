-- ===== src/Bytes/Filled.antt =====
-- A buffer that is being written from the left: what stands before the offset is written, and the
-- rest is still as `alloc` made it.
use rsocket.Prelude.{
  ℕ, zero, suc, ◌+◌, ◌-◌, ◌/◌, ◌%◌, ◌^◌, ◌≤◌, ◌<◌, ◌≡◌, refl, sym, ap, subst, ◌∙◌, List, [], ◌∷◌,
  ◌++◌, append-nil, append_assoc, arith, All, length, set, drop, replicate, suc-add, length-append,
  length-replicate, take-append,
}
use rsocket.Prelude.Number.{Number, to_u32, high_half, low_half}
use rsocket.Prelude.Result.{ok}
use rsocket.Bytes.{
  Bytes, IsByte, overwrite, write_uint8, write_uint16, write_uint24, write_uint32, write_int32,
  write_uint64, alloc, copy, write_ascii, concat,
}

-- The bytes of a word, high byte first.
abbrev pub be16 : ℕ → Bytes
be16 v = (v / 256 % 256) ∷ (v % 256) ∷ []

abbrev pub be24 : ℕ → Bytes
be24 v = (v / 2 ^ 16 % 256) ∷ (v / 256 % 256) ∷ (v % 256) ∷ []

abbrev pub be32 : ℕ → Bytes
be32 v = (v / 2 ^ 24 % 256) ∷ (v / 2 ^ 16 % 256) ∷ (v / 256 % 256) ∷ (v % 256) ∷ []

abbrev pub be64 : Number → Bytes
be64 v = be32 (to_u32 (high_half v)) ++ be32 (to_u32 (low_half v))

-- Of a buffer of `n` bytes the bytes `p` are written, and the next offset is behind them.
pub record Filled (n : ℕ) (p buffer : Bytes) (offset : ℕ) : Type 0 where
  pub fits : length p ≤ n
  pub holds : buffer ≡ p ++ replicate (n - length p) 0
  pub next : offset ≡ length p

pub alloc-Filled : (n : ℕ) → Filled n [] (alloc n) 0
unfolding alloc
alloc-Filled n = record {
  fits = omega arith;
  holds = ap (λ k. replicate k 0) (omega arith);
  next = refl;
}

-- At its end the buffer is what was written.
pub Filled-full : {n : ℕ} {p b : Bytes} {o : ℕ} → Filled n p b o → length p ≡ n → b ≡ p
Filled-full {n} {p} f e =
    let left : n - length p ≡ 0 = omega arith in
    f.holds ∙ ap (λ k. p ++ replicate k 0) left ∙ append-nil p

set-append : (p r : Bytes) (x v i : ℕ) → i ≡ length p → set (p ++ (x ∷ r)) i v ≡ p ++ (v ∷ r)
set-append [] r x v zero e = refl
set-append [] r x v (suc i) e = absurd (omega arith)
set-append (y ∷ p) r x v zero e = absurd (omega arith)
set-append (y ∷ p) r x v (suc i) e = ap (λ t. y ∷ t) (set-append p r x v i (omega arith))

set-zeros :
    (p : Bytes) (v i k : ℕ)
    → i ≡ length p
    → 0 < k
    → set (p ++ replicate k 0) i v ≡ (p ++ (v ∷ [])) ++ replicate (k - 1) 0
set-zeros p v i zero e h = absurd (omega arith)
set-zeros p v i (suc k) e h =
    set-append p (replicate k 0) 0 v i e
    ∙ sym (append_assoc p (v ∷ []) (replicate k 0))
    ∙ ap (λ j. (p ++ (v ∷ [])) ++ replicate j 0) (omega arith)

length-snoc : (p : Bytes) (x : ℕ) → length (p ++ (x ∷ [])) ≡ length p + 1
length-snoc p x = omega (arith, length-append p (x ∷ []))

-- One byte written by index.
set-Filled :
    {n : ℕ} {p b : Bytes} {o : ℕ} (v o' : ℕ)
    → Filled n p b o
    → length p + 1 ≤ n
    → o' ≡ o + 1
    → Filled n (p ++ (v ∷ [])) (set b o v) o'
set-Filled {n} {p} {b} {o} v o' f h e = record {
  fits = omega (arith, length-append p (v ∷ []));
  holds =
      ap (λ (t : Bytes). set t o v) f.holds
      ∙ set-zeros p v o (n - length p) f.next (omega arith)
      ∙ ap (λ j. (p ++ (v ∷ [])) ++ replicate j 0) (omega (arith, length-append p (v ∷ [])));
  next = omega (arith, length-append p (v ∷ []), f.next);
}

-- Each write of a word extends what is written by the word's bytes.
module _ {n : ℕ} {p b : Bytes} {o : ℕ} (v : Number) (f : Filled n p b o) where
  pub write_uint8-Filled :
      length p + 1 ≤ n
      → let (b', o') = write_uint8 b v o in Filled n (p ++ (to_u32 v % 256 ∷ [])) b' o'
  unfolding write_uint8
  write_uint8-Filled h = set-Filled (to_u32 v % 256) (o + 1) f h refl

  pub write_uint16-Filled :
      length p + 2 ≤ n → let (b', o') = write_uint16 b v o in Filled n (p ++ be16 (to_u32 v)) b' o'
  unfolding write_uint16
  write_uint16-Filled h =
      let f1 = set-Filled (to_u32 v / 256 % 256) (o + 1) f (omega arith) refl in
      let f2 = set-Filled (to_u32 v % 256) (o + 2) f1 (omega (arith, length-snoc)) (omega arith) in
      rw append_assoc at f2

  pub write_uint24-Filled :
      length p + 3 ≤ n → let (b', o') = write_uint24 b v o in Filled n (p ++ be24 (to_u32 v)) b' o'
  unfolding write_uint24
  write_uint24-Filled h =
      let f1 = set-Filled (to_u32 v / 2 ^ 16 % 256) (o + 1) f (omega arith) refl in
      let f2 =
        set-Filled (to_u32 v / 256 % 256) (o + 2) f1 (omega (arith, length-snoc)) (omega arith) in
      let f3 = set-Filled (to_u32 v % 256) (o + 3) f2 (omega (arith, length-snoc)) (omega arith) in
      simp append_assoc at f3

  pub write_uint32-Filled :
      length p + 4 ≤ n → let (b', o') = write_uint32 b v o in Filled n (p ++ be32 (to_u32 v)) b' o'
  unfolding write_uint32
  write_uint32-Filled h =
      let f1 = set-Filled (to_u32 v / 2 ^ 24 % 256) (o + 1) f (omega arith) refl in
      let f2 =
        set-Filled (to_u32 v / 2 ^ 16 % 256) (o + 2) f1 (omega (arith, length-snoc))
          (omega arith) in
      let f3 =
        set-Filled (to_u32 v / 256 % 256) (o + 3) f2 (omega (arith, length-snoc)) (omega arith) in
      let f4 = set-Filled (to_u32 v % 256) (o + 4) f3 (omega (arith, length-snoc)) (omega arith) in
      simp append_assoc at f4

  pub write_int32-Filled :
      length p + 4 ≤ n → let (b', o') = write_int32 b v o in Filled n (p ++ be32 (to_u32 v)) b' o'
  unfolding write_int32
  write_int32-Filled h = write_uint32-Filled h

pub write_uint64-Filled :
    {n : ℕ} {p b : Bytes} {o : ℕ} (v : Number)
    → Filled n p b o
    → length p + 8 ≤ n
    → let (b', o') = write_uint64 b v o in Filled n (p ++ be64 v) b' o'
unfolding write_uint64
write_uint64-Filled {p = p} v f h =
    let f1 = write_uint32-Filled (high_half v) f (omega arith) in
    let q1 = length-append p (be32 (to_u32 (high_half v))) in
    rw append_assoc at (write_uint32-Filled (low_half v) f1 (omega (arith, q1)))

abbrev zeros : ℕ → Bytes
zeros k = replicate k 0

drop-zeros : (j k : ℕ) → drop j (zeros k) ≡ zeros (k - j)
drop-zeros zero k = let e : k ≡ k - 0 = omega arith in ap zeros e
drop-zeros (suc j) zero = let e : 0 ≡ 0 - suc j = omega arith in ap zeros e
drop-zeros (suc j) (suc k) =
    let e : k - j ≡ suc k - suc j = omega arith in drop-zeros j k ∙ ap zeros e

drop-append_add : (p r : Bytes) (j : ℕ) → drop (length p + j) (p ++ r) ≡ drop j r
drop-append_add [] r j = ap (λ t. drop t r) (omega arith)
drop-append_add (x ∷ p) r j = rw suc-add (drop-append_add p r j)

overwrite-zeros :
    (p s : Bytes) (o k : ℕ)
    → o ≡ length p
    → overwrite (p ++ replicate k 0) s o ≡ (p ++ s) ++ replicate (k - length s) 0
overwrite-zeros p s o k e = rw (
  take-append o p (replicate k 0) e,
  e,
  drop-append_add p (replicate k 0) (length s),
  drop-zeros,
  append_assoc,
)

overwrite-Filled :
    {n : ℕ} {p b : Bytes} {o : ℕ} (s : Bytes)
    → Filled n p b o
    → length p + length s ≤ n
    → Filled n (p ++ s) (overwrite b s o) (o + length s)
overwrite-Filled {n} {p} {b} {o} s f h = record {
  fits = omega (arith, length-append p s);
  holds =
      ap (λ (t : Bytes). overwrite t s o) f.holds
      ∙ overwrite-zeros p s o (n - length p) f.next
      ∙ ap (λ j. (p ++ s) ++ replicate j 0) (omega (arith, length-append p s));
  next = omega (arith, length-append p s, f.next);
}

pub length-Filled : {n : ℕ} {p b : Bytes} {o : ℕ} → Filled n p b o → length b ≡ n
length-Filled {n} {p} f =
    ap length f.holds
    ∙ omega (
      arith,
      length-append p (replicate (n - length p) 0),
      length-replicate {A = ℕ} (n - length p) 0,
      f.fits,
    )

-- A copy that fits does not throw.
pub copy-Filled :
    {n : ℕ} {p b : Bytes} {o : ℕ} (s : Bytes)
    → Filled n p b o
    → length p + length s ≤ n
    → (b' : Bytes) × (o' : ℕ) × (copy s b o ≡ ok (b', o')) × Filled n (p ++ s) b' o'
unfolding copy
copy-Filled {b = b} {o = o} s f h =
    (overwrite b s o, o + length s, ground (arith, length-Filled f, f.next), overwrite-Filled s f h)

-- The code units of an ASCII text are its bytes.
pub write_ascii-Filled :
    (s : List ℕ) {n : ℕ} {p b : Bytes} {o : ℕ}
    → All IsByte s
    → Filled n p b o
    → length p + length s ≤ n
    → let (b', o') = write_ascii b s o in Filled n (p ++ s) b' o'
unfolding write_ascii
write_ascii-Filled [] {p = p} a f h = rw append-nil f
write_ascii-Filled (c ∷ s) {n} {p} {b} {o} (hc, hs) f h =
    let low : c % 256 ≡ c = omega arith in
    let f1 = set-Filled (c % 256) (o + 1) f (omega arith) refl in
    let f2 = write_ascii-Filled s hs f1 (omega (arith, length-append p (c % 256 ∷ []))) in
    let (b', o') = write_ascii (set b o (c % 256)) s (o + 1) in
    subst (λ (q : Bytes). Filled n q b' o')
      (append_assoc p (c % 256 ∷ []) s ∙ ap (λ (x : ℕ). p ++ (x ∷ s)) low) f2

-- `concat` of two chunks is their join.
pub concat_two : (a b : Bytes) → concat (a ∷ b ∷ []) ≡ a ++ b
unfolding concat
concat_two a b =
    let f1 = overwrite-Filled a (alloc-Filled (length a + (length b + 0))) (omega arith) in
    let f2 = overwrite-Filled b f1 (omega arith) in
    Filled-full f2 (omega (arith, length-append a b))
