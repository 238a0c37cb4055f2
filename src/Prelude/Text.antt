-- ===== src/Prelude/Text.antt =====
-- The bytes of a literal, and numbers in decimal as `%u` prints them.
use Prim.Native.Nat.{ℕ, zero, suc, ◌+◌, ◌/◌, ◌%◌}
use Prim.Native.Char.{code}
use Prim.Native.String.{String}
use mathlib.Core.List.{List, [], ◌∷◌}
use nlif.Prelude.Tests.{ltb, if◌then◌else◌}

abbrev pub codes : String → List ℕ
codes String.[] = []
codes (String.◌∷◌ c s) = code c ∷ codes s

-- The digits of `n` before `rest`, the first argument bounding their number.
unfoldable pub put_dec : ℕ → ℕ → List ℕ → List ℕ
put_dec zero n rest = rest
put_dec (suc f) n rest =
    let more = put_dec f (n / 10) ((48 + n % 10) ∷ rest) in
    if ltb n 10 then (48 + n) ∷ rest else more

-- A number below 2 ^ 64 has 20 digits at most.
unfoldable pub dec_str : ℕ → List ℕ
unfolding put_dec
dec_str n = put_dec 20 n []
