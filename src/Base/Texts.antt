-- ===== src/Base/Texts.antt =====
-- Texts as the source's string methods treat them: `trim`, `split`, `join`, and the quoting of
-- `JSON.stringify`.
use Prim.Native.Nat.{ℕ, suc, ◌-◌, ◌/◌, ◌%◌}
use Prim.Native.Char.{Char, code}
use Prim.Native.String.{String, [] as ε, ◌∷◌ as ◌◂◌, ◌++◌ as ◌<>◌, slice}
use mathlib.Core.Bool.{Bool, false, ◌&&◌, ◌||◌}
use mathlib.Core.List.{List, [], ◌∷◌}
use text.Mathlib.Text.{◌==◌ as str_eq}
use symphonika.Base.Tests.{if◌then◌else◌, ltb, leb, ◌==◌}

abbrev is_in : ℕ → List ℕ → Bool
is_in n [] = false
is_in n (m ∷ ms) = n == m || is_in n ms

-- The characters that `String.prototype.trim` removes.
unfoldable pub is_space : Char → Bool
is_space c =
    (leb 9 (code c) && leb (code c) 13)
    || (leb 8192 (code c) && leb (code c) 8202)
    || is_in (code c) (32 ∷ 160 ∷ 5760 ∷ 8232 ∷ 8233 ∷ 8239 ∷ 8287 ∷ 12288 ∷ 65279 ∷ [])

unfoldable pub trim_start : String → String
unfolding is_space
trim_start ε = ε
trim_start (c ◂ s) = let rest = trim_start s in if is_space c then rest else c ◂ s

unfoldable pub trim_end : String → String
unfolding is_space
trim_end ε = ε
trim_end (c ◂ s) = let rest = trim_end s in if is_space c && str_eq rest ε then ε else c ◂ rest

unfoldable pub trim : String → String
unfolding trim_start trim_end
trim s = trim_end (trim_start s)

unfoldable pub has_code : ℕ → String → Bool
has_code n ε = false
has_code n (c ◂ s) = code c == n || has_code n s

-- The pieces between the characters of the given code: always at least one.
unfoldable pub split_at : ℕ → String → String × List String
split_at n ε = (ε, [])
split_at n (c ◂ s) =
    let rest = split_at n s in if code c == n then (ε, rest.0 ∷ rest.1) else (c ◂ rest.0, rest.1)

unfoldable pub split : ℕ → String → List String
unfolding split_at
split n s = let parts = split_at n s in parts.0 ∷ parts.1

unfoldable pub join : String → List String → String
join sep [] = ε
join sep (s ∷ []) = s
join sep (s ∷ t ∷ r) = s <> sep <> join sep (t ∷ r)

hex_digit : ℕ → String
hex_digit n = slice "0123456789abcdef" n (suc n)

-- One character between the quotes of `JSON.stringify`.
json_char : Char → String
unfolding hex_digit
json_char c =
    if code c == 34
    then "\\\""
    else if code c == 92
    then "\\\\"
    else if code c == 8
    then "\\b"
    else if code c == 9
    then "\\t"
    else if code c == 10
    then "\\n"
    else if code c == 12
    then "\\f"
    else if code c == 13
    then "\\r"
    else if ltb (code c) 32
    then "\\u00" <> hex_digit (code c / 16) <> hex_digit (code c % 16)
    else c ◂ ε

json_chars : String → String
unfolding json_char
json_chars ε = ε
json_chars (c ◂ s) = json_char c <> json_chars s

unfoldable pub json_text : String → String
unfolding json_chars
json_text s = "\"" <> json_chars s <> "\""

-- A letter of ASCII in lower case, and any other character as it is.
lower : Char → String
lower c =
    if leb 65 (code c) && leb (code c) 90
    then slice "abcdefghijklmnopqrstuvwxyz" (code c - 65) (code c - 64)
    else c ◂ ε

-- SQLite's `lower`, and `toLowerCase` on GitHub's names, which are ASCII.
unfoldable pub lower_case : String → String
unfolding lower
lower_case ε = ε
lower_case (c ◂ s) = lower c <> lower_case s
