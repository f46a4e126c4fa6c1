-- ===== src/Prelude/Text.antt =====
-- Texts: concatenation, and `%d` of a number.
use bidflock.Prelude.Basic.{ltb, if◌then◌else◌}
use Prim.Native.Nat.{ℕ, zero, suc, ◌/◌, ◌%◌}
use Prim.Native.String
use Prim.Native.String.{String}

abbrev pub concat : String → String → String
concat s t = String.◌++◌ s t

abbrev pub digit : ℕ → String
digit zero = "0"
digit (suc zero) = "1"
digit (suc (suc zero)) = "2"
digit (suc (suc (suc zero))) = "3"
digit (suc (suc (suc (suc zero)))) = "4"
digit (suc (suc (suc (suc (suc zero))))) = "5"
digit (suc (suc (suc (suc (suc (suc zero)))))) = "6"
digit (suc (suc (suc (suc (suc (suc (suc zero))))))) = "7"
digit (suc (suc (suc (suc (suc (suc (suc (suc zero)))))))) = "8"
digit _ = "9"

-- The digits of `n`, of which there are at most one more than the fuel.
abbrev show_digits : ℕ → ℕ → String
show_digits zero n = digit (n % 10)
show_digits (suc fuel) n =
    let more = show_digits fuel (n / 10) in
    if ltb n 10 then digit n else concat more (digit (n % 10))

-- `%d`: a number is below ten to the power of itself.
abbrev pub show_ℕ : ℕ → String
show_ℕ n = show_digits n n
