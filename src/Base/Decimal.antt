-- ===== src/Base/Decimal.antt =====
-- The text of a number in a template literal, and the key `${projectName}#${issueNumber}`.
use symphonika.Base.{ℕ, zero, suc, ◌/◌, ◌%◌, String, ◌<>◌}
use symphonika.Base.Tests.{if◌then◌else◌, ltb}

digit : ℕ → String
digit zero = "0"
digit (suc zero) = "1"
digit (suc (suc zero)) = "2"
digit (suc (suc (suc zero))) = "3"
digit (suc (suc (suc (suc zero)))) = "4"
digit (suc (suc (suc (suc (suc zero))))) = "5"
digit (suc (suc (suc (suc (suc (suc zero)))))) = "6"
digit (suc (suc (suc (suc (suc (suc (suc zero))))))) = "7"
digit (suc (suc (suc (suc (suc (suc (suc (suc zero)))))))) = "8"
digit _ = "9"

-- A number below the fuel is printed whole: each round divides it by ten.
digits : ℕ → ℕ → String
unfolding digit
digits zero n = ""
digits (suc fuel) n =
    let rest = digits fuel (n / 10) <> digit (n % 10) in if ltb n 10 then digit n else rest

unfoldable pub decimal : ℕ → String
unfolding digits
decimal n = digits (suc n) n
