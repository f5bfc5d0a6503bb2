-- ===== src/Common/Decimal.antt =====
-- `%d` of printf.
use Prim.Native.Nat.{ℕ, zero, suc, ◌+◌, ◌/◌, ◌%◌}
use mathlib.Core.List.{[], ◌∷◌}
use pcut.Common.Tests.{◌==◌, if◌then◌else◌, ℤ, pos, negsuc}
use pcut.Common.Lists.{Bytes}

-- The digits of a number in front of `rest`, with fuel for as many.
unfoldable pub decimal_loop : ℕ → ℕ → Bytes → Bytes
decimal_loop zero n rest = rest
decimal_loop (suc f) n rest =
    let here = (b'0' + n % 10) ∷ rest in
    let more = decimal_loop f (n / 10) here in if n / 10 == 0 then here else more

unfoldable pub decimal : ℕ → Bytes
unfolding decimal_loop
decimal n = decimal_loop (suc n) n []

unfoldable pub decimal_int : ℤ → Bytes
unfolding decimal
decimal_int (pos n) = decimal n
decimal_int (negsuc n) = b'-' ∷ decimal (suc n)
