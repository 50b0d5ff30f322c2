-- ===== src/Config/Prompt.antt =====
-- The questions of the wizard in Guardian/src/config.cpp. The input is the list of the lines that are left; at
-- its end `std::getline` leaves the text empty. A question that is asked for ever gives none.
use nicechunk_guardian.Base.{
  ℕ, zero, suc, ◌+◌, ◌/◌, ◌%◌, ◌^◌, ◌<◌, ◌≤◌, ◌≡◌, refl, ap, ◌∙◌, leb, ltb, Bool, true, false, ◌&&◌,
  ◌||◌, if◌then◌else◌, Option, none, some, List, [], ◌∷◌, map, arith, Bool-cases, Option-cases, inl,
  inr,
}
use nicechunk_guardian.Wire.{Bytes}
use nicechunk_guardian.Config.{is_empty, codes}
use nicechunk_guardian.Config.Text.{
  is_digit, is_text, trim, trim_start, parse_bool, stoul, number_at, more_digits, sign_of,
}

-- `std::to_string`. Every round but the last divides by 10, so more rounds than the number are enough.
unfoldable pub put_digits : ℕ → ℕ → Bytes → Bytes
put_digits zero n text = text
put_digits (suc fuel) n text =
    let rest = put_digits fuel (n / 10) ((b'0' + n % 10) ∷ text) in
    if ltb n 10 then (b'0' + n) ∷ text else rest

unfoldable pub to_string : ℕ → Bytes
unfolding put_digits
to_string n = put_digits (suc n) n []

unfoldable pub prompt_string : Bytes → List Bytes → Bytes × List Bytes
unfolding trim
prompt_string current [] = (current, [])
prompt_string current (line ∷ lines) = (if is_empty (trim line) then current else trim line, lines)

-- The body of the loop of `prompt_u16` behind the question.
unfoldable pub u16_of : Bytes → Option ℕ
unfolding stoul
u16_of value = elim (stoul value) [
  | none ↦ none
  | some parsed ↦ if leb parsed 65535 then some parsed else none
]

unfoldable pub prompt_u16 : ℕ → List Bytes → Option (ℕ × List Bytes)
unfolding prompt_string u16_of to_string
prompt_u16 current [] = elim (u16_of (prompt_string (to_string current) []).0) [
  | none ↦ none
  | some n ↦ some (n, [])
]
prompt_u16 current (line ∷ lines) =
    let again = prompt_u16 current lines in
    elim (u16_of (prompt_string (to_string current) (line ∷ lines)).0) [
      | none ↦ again
      | some n ↦ some (n, lines)
    ]

unfoldable pub parse_no : Bytes → Bool
unfolding is_text
parse_no value =
    is_text value (codes "false")
    || is_text value (codes "0")
    || is_text value (codes "no")
    || is_text value (codes "n")
    || is_text value (codes "off")

-- `std::tolower` in the C locale.
abbrev pub to_lower : ℕ → ℕ
to_lower c = if leb b'A' c && leb c b'Z' then c + 32 else c

-- The body of the loop of `prompt_bool` behind the question.
unfoldable pub bool_of : Bytes → Option Bool
unfolding parse_bool parse_no
bool_of value =
    if parse_bool (map to_lower value)
    then some true
    else if parse_no (map to_lower value)
    then some false
    else none

abbrev pub yes_or_no : Bool → Bytes
yes_or_no true = codes "yes"
yes_or_no false = codes "no"

unfoldable pub prompt_bool : Bool → List Bytes → Option (Bool × List Bytes)
unfolding prompt_string bool_of
prompt_bool current [] = elim (bool_of (prompt_string (yes_or_no current) []).0) [
  | none ↦ none
  | some b ↦ some (b, [])
]
prompt_bool current (line ∷ lines) =
    let again = prompt_bool current lines in
    elim (bool_of (prompt_string (yes_or_no current) (line ∷ lines)).0) [
      | none ↦ again
      | some b ↦ some (b, lines)
    ]

abbrev starts_with_digit : Bytes → Bool
starts_with_digit [] = false
starts_with_digit (c ∷ text) = is_digit c

put_digits_first :
    (fuel n : ℕ) (text : Bytes) → n < fuel → starts_with_digit (put_digits fuel n text) ≡ true
unfolding put_digits
put_digits_first zero n text h = absurd (omega (arith, h))
put_digits_first (suc fuel) n text h = elim (Bool-cases (ltb n 10)) [
  | inl small ↦ rw (small, put_digits) (ground (arith, small))
  | inr large ↦
      rw (large, put_digits)
        (put_digits_first fuel (n / 10) ((b'0' + n % 10) ∷ text) (ground (arith, h, large)))
]

number_at-put_digits :
    (fuel n : ℕ) (text : Bytes)
    → n < fuel
    → number_at (put_digits fuel n text) ≡ some (more_digits n text)
unfolding put_digits number_at more_digits
number_at-put_digits zero n text h = absurd (omega (arith, h))
number_at-put_digits (suc fuel) n text h = elim (Bool-cases (ltb n 10)) [
  | inl small ↦ ground (arith, small)
  | inr large ↦
      rw (large, put_digits)
        (number_at-put_digits fuel (n / 10) ((b'0' + n % 10) ∷ text) (ground (arith, h, large))
          ∙ ap some (ground (arith, ap (λ v. more_digits v text))))
]

digits_bare :
    (text : Bytes) → starts_with_digit text ≡ true → sign_of (trim_start text) ≡ (false, text)
unfolding sign_of trim_start
digits_bare [] h = absurd (ground (arith, h))
digits_bare (c ∷ text) h = ground (arith, h)

stoul_digits :
    (text : Bytes) (n : ℕ)
    → starts_with_digit text ≡ true
    → number_at text ≡ some n
    → n < 2 ^ 64
    → stoul text ≡ some n
unfolding stoul
stoul_digits text n first e small = rw (digits_bare text first, stoul, e) (ground (arith, small))

pub stoul-to_string : (n : ℕ) → n < 2 ^ 64 → stoul (to_string n) ≡ some n
unfolding to_string more_digits
stoul-to_string n h =
    stoul_digits (put_digits (suc n) n []) n (put_digits_first (suc n) n [] (omega arith))
      (number_at-put_digits (suc n) n [] (omega arith)) h

to_string-u16_of : (n : ℕ) → n ≤ 65535 → u16_of (to_string n) ≡ some n
unfolding u16_of
to_string-u16_of n h = rw (stoul-to_string n (omega (arith, h)), u16_of) (ground (arith, h))

u16_of-le : (value : Bytes) (n : ℕ) → u16_of value ≡ some n → n ≤ 65535
unfolding u16_of
u16_of-le value n e = ground (arith, e)

-- A question that is answered with a number in its range.
abbrev pub IsAnswered : Option (ℕ × List Bytes) → Type 0
IsAnswered none = ⊥
IsAnswered (some r) = r.0 ≤ 65535

-- While the present value fits in 16 bits, `prompt_u16` ends for any input, also one that ends early, with a number of
-- at most 65535.
pub prompt_u16-IsAnswered :
    (current : ℕ) (lines : List Bytes) → current ≤ 65535 → IsAnswered (prompt_u16 current lines)
unfolding prompt_u16 prompt_string
prompt_u16-IsAnswered current [] h = rw (to_string-u16_of current h, prompt_u16) h
prompt_u16-IsAnswered current (line ∷ lines) h =
    elim (Option-cases (u16_of (prompt_string (to_string current) (line ∷ lines)).0)) [
      | inl bad ↦ rw (bad, prompt_u16) (prompt_u16-IsAnswered current lines h)
      | inr (n, good) ↦
          rw (good, prompt_u16)
            (u16_of-le (prompt_string (to_string current) (line ∷ lines)).0 n good)
    ]

prompt_string_enter :
    (current line : Bytes) (lines : List Bytes)
    → is_empty (trim line) ≡ true
    → (prompt_string current (line ∷ lines)).0 ≡ current
unfolding prompt_string
prompt_string_enter current line lines blank = rw (blank, prompt_string) refl

-- An empty answer, or one of spaces, keeps a present value that fits in 16 bits.
pub prompt_u16_enter :
    (current : ℕ) (line : Bytes) (lines : List Bytes)
    → current ≤ 65535
    → is_empty (trim line) ≡ true
    → prompt_u16 current (line ∷ lines) ≡ some (current, lines)
unfolding prompt_u16
prompt_u16_enter current line lines h blank =
    rw
      (
        ap u16_of (prompt_string_enter (to_string current) line lines blank)
            ∙ to_string-u16_of current h,
        prompt_u16,
      )
      refl
