-- ===== src/Streams/Messages.antt =====
-- The words of the errors that streams send, and those of the numbers in them.
use Prim.Native.Char.{code}
use Prim.Native.String.{String}
use rsocket.Prelude.{ℕ, zero, suc, ◌+◌, ◌/◌, ◌%◌, List, [], ◌∷◌, ◌++◌, ltb, if◌then◌else◌}
use rsocket.Prelude.Number.{Number, nan, pos, negsuc}

abbrev pub codes : String → List ℕ
codes String.[] = []
codes (String.◌∷◌ c s) = code c ∷ codes s

-- The digits of a number below 10 ^ fuel
unfoldable pub digits : ℕ → ℕ → List ℕ
digits zero n = []
digits (suc fuel) n =
    let front = digits fuel (n / 10) in (if ltb n 10 then [] else front) ++ ((b'0' + n % 10) ∷ [])

-- `${n}`; numbers of 16 digits are exact in JavaScript.
unfoldable pub text_of : Number → List ℕ
unfolding digits
text_of nan = codes "NaN"
text_of (pos n) = digits 20 n
text_of (negsuc n) = codes "-" ++ digits 20 (suc n)

unfoldable pub unexpected_type : ℕ → List ℕ
unexpected_type t = codes "Unexpected frame type [" ++ (text_of (pos t) ++ codes "]")

unfoldable pub during_reassembly : ℕ → List ℕ
during_reassembly t =
    codes "Unexpected frame type [" ++ (text_of (pos t) ++ codes "] during reassembly")

unfoldable pub invalid_request_n : Number → List ℕ
invalid_request_n n =
    codes "Invalid REQUEST_N frame: requestN must be greater than 0, but got ["
    ++ (text_of n ++ codes "]")
