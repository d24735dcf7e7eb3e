-- ===== src/Prompts/Base64.antt =====
-- `validateBase64` of src/prompt.ts, and the length of a JavaScript string.

use Prim.Native.String.{◌∷◌}
use Prim.Native.Char.{Char, code}
use deepseek_harness_relay_m.Base.{
  ℕ, ◌+◌, ◌-◌, ◌%◌, String, Bool, false, ◌&&◌, Option, none, some, ltb, leb, ◌==◌, nat_eq,
  string_eq, if◌then◌else◌, is_some,
}

-- `text.length`: UTF-16 code units.
unfoldable pub utf16_length : String → ℕ
utf16_length String.[] = 0
utf16_length (c ∷ s) = (if ltb (code c) 65536 then 1 else 2) + utf16_length s

-- The value of a letter of base64.
pub sextet : ℕ → Option ℕ
sextet n =
    if leb 65 n && leb n 90
    then some (n - 65)
    else if leb 97 n && leb n 122
    then some (n - 71)
    else if leb 48 n && leb n 57
    then some (n + 4)
    else if n == 43
    then some 62
    else if n == 47
    then some 63
    else none

-- Whether the last `2 ^ k` values of the letter are unused, as the canonical text has it.
abbrev ends_in_zeros : Option ℕ → ℕ → Bool
ends_in_zeros none modulus = false
ends_in_zeros (some n) modulus = n % modulus == 0

abbrev is_padding : Char → Bool
is_padding c = code c == 61

abbrev is_letter : Char → Bool
is_letter c = is_some (sextet (code c))

-- The bytes of the last four letters; `none` where the text is not canonical.
last_group : Char → Char → Char → Option ℕ
unfolding sextet
last_group a b c =
    if is_padding c
    then (if is_letter a && ends_in_zeros (sextet (code b)) 16 then some 1 else none)
    else if is_letter a && (is_letter b && ends_in_zeros (sextet (code c)) 4)
    then some 2
    else none

add : ℕ → Option ℕ → Option ℕ
add n none = none
add n (some m) = some (n + m)

-- The bytes that a text in groups of four letters stands for.
pub base64_groups : String → Option ℕ
unfolding last_group sextet add
base64_groups String.[] = some 0
base64_groups (a ∷ (b ∷ (c ∷ (d ∷ rest)))) =
    let others = base64_groups rest in
    if is_padding d
    then (if rest == "" then last_group a b c else none)
    else if is_letter a && (is_letter b && (is_letter c && is_letter d))
    then add 3 others
    else none
base64_groups _ = none

-- `validateBase64`
unfoldable pub validate_base64 : String → Option ℕ
unfolding base64_groups
validate_base64 s = if s == "" then none else base64_groups s
