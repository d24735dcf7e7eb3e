-- ===== src/Monitoring/Cursor.antt =====
-- Cursors of src/monitoring/notification-buffer.ts as texts: `String(n)`, the pattern
-- `/^(0|[1-9]\d*)$/` and `Number`. A text is the list of its character codes.
use deepseek_harness_relay_m.Base.{
  ℕ, zero, suc, ◌+◌, ◌-◌, ◌*◌, ◌/◌, ◌%◌, ◌^◌, ◌≤◌, ◌<◌, ◌≡◌, refl, ap, ◌∙◌, Bool, true, false, ◌&&◌,
  Option, none, some, List, [], ◌∷◌, arith, ltb, leb, ◌==◌, nat_eq, if◌then◌else◌, Bool-cases, inl,
  inr,
}

abbrev pub Text : Type 0
Text = List ℕ

abbrev pub max_safe_integer : ℕ
max_safe_integer = 2 ^ 53 - 1

-- The decimal digits of a number in front of a text; a number has at most as many digits as it is
-- large, so that fuel `suc n` is enough.
digits_onto : ℕ → ℕ → Text → Text
digits_onto zero n acc = acc
digits_onto (suc fuel) n acc =
    let rest = digits_onto fuel (n / 10) ((48 + n % 10) ∷ acc) in
    if ltb n 10 then (48 + n) ∷ acc else rest

-- `String(n)`
pub number_text : ℕ → Text
unfolding digits_onto
number_text n = digits_onto (suc n) n []

abbrev is_digit : ℕ → Bool
is_digit c = leb 48 c && leb c 57

all_digits : Text → Bool
all_digits [] = true
all_digits (c ∷ cs) = if is_digit c then all_digits cs else false

-- `/^(0|[1-9]\d*)$/.test(text)`
is_canonical : Text → Bool
unfolding all_digits
is_canonical [] = false
is_canonical (c ∷ cs) =
    if c == 48
    then (elim cs [ [] ↦ true | _ ∷ _ ↦ false ])
    else if is_digit c
    then all_digits cs
    else false

-- `Number(text)` of a text of digits.
value : ℕ → Text → ℕ
value acc [] = acc
value acc (c ∷ cs) = value (acc * 10 + (c - 48)) cs

-- `#parseCursor`; `none` is the error INVALID_CURSOR.
pub parse_cursor : Text → Option ℕ
unfolding is_canonical value
parse_cursor text =
    if is_canonical text
    then (if leb (value 0 text) max_safe_integer then some (value 0 text) else none)
    else none

value-digits_onto :
    (fuel n : ℕ) (acc : Text) → n < fuel → value 0 (digits_onto fuel n acc) ≡ value n acc
unfolding value digits_onto
value-digits_onto zero n acc h = absurd (omega arith)
value-digits_onto (suc fuel) n acc h = elim (Bool-cases (ltb n 10)) [
  | inl small ↦ rw small (ap (λ k. value k acc) (ground arith))
  | inr large ↦ rw large (
      value-digits_onto fuel (n / 10) ((48 + n % 10) ∷ acc) (ground arith)
      ∙ ap (λ k. value k acc) (ground arith))
]

-- A text that begins with a digit other than 0 and goes on with digits.
abbrev Leads : Text → Type 0
Leads [] = ⊥
Leads (c ∷ cs) = (49 ≤ c) × (c ≤ 57) × (all_digits cs ≡ true)

Leads-digits_onto :
    (fuel n : ℕ) (acc : Text)
    → n < fuel
    → 0 < n
    → all_digits acc ≡ true
    → Leads (digits_onto fuel n acc)
unfolding digits_onto all_digits
Leads-digits_onto zero n acc h pos d = absurd (omega arith)
Leads-digits_onto (suc fuel) n acc h pos d = elim (Bool-cases (ltb n 10)) [
  | inl small ↦ rw small (ground arith, ground arith, d)
  | inr large ↦ rw large (
      Leads-digits_onto fuel (n / 10) ((48 + n % 10) ∷ acc) (ground arith) (ground arith)
        (ground arith))
]

Leads-is_canonical : (text : Text) → Leads text → is_canonical text ≡ true
unfolding is_canonical
Leads-is_canonical [] h = absurd h
Leads-is_canonical (c ∷ cs) h = ground arith

number_text-is_canonical : (n : ℕ) → is_canonical (number_text n) ≡ true
unfolding number_text is_canonical
number_text-is_canonical zero = refl
number_text-is_canonical (suc n) = Leads-is_canonical _ (
    Leads-digits_onto (suc (suc n)) (suc n) [] (omega arith) (omega arith)
      (unfold all_digits in refl))

-- Every number up to 2 ^ 53 - 1 is read back from its decimal text.
pub parse_cursor-number_text :
    (n : ℕ) → n ≤ max_safe_integer → parse_cursor (number_text n) ≡ some n
unfolding parse_cursor number_text
parse_cursor-number_text n h =
    let read : value 0 (number_text n) ≡ n = value-digits_onto (suc n) n [] (omega arith) in
    ground (arith, number_text-is_canonical n, read)
