-- ===== src/Base/Decimal.antt =====
-- `Display` of an unsigned integer: its decimal digits.
use Prim.Native.Nat.{ℕ, zero, suc, ◌/◌, ◌%◌}
use Prim.Native.String.{String, ◌++◌ as ◌<>◌}
use rust_browser_proofs.Base.Equality.{if◌then◌else◌, nat_beq}

digit : ℕ → String
digit d =
    if nat_beq d 0
    then "0"
    else if nat_beq d 1
    then "1"
    else if nat_beq d 2
    then "2"
    else if nat_beq d 3
    then "3"
    else if nat_beq d 4
    then "4"
    else if nat_beq d 5
    then "5"
    else if nat_beq d 6
    then "6"
    else if nat_beq d 7
    then "7"
    else if nat_beq d 8
    then "8"
    else "9"

-- A number has at most as many digits as it counts, and one more.
digits : ℕ → ℕ → String → String
digits zero n rest = rest
digits (suc fuel) n rest =
    let more = digits fuel (n / 10) (digit (n % 10) <> rest) in
    if nat_beq (n / 10) 0 then digit (n % 10) <> rest else more

unfoldable pub decimal : ℕ → String
unfolding digit digits
decimal n = digits (suc n) n ""
