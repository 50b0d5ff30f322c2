-- ===== src/Config/Text.antt =====
-- How Guardian/src/config.cpp reads a text: `trim`, `parse_bool`, and `std::stoul` and `std::stoi`, which throw
-- where they give none.
use nicechunk_guardian.Base.{
  ℕ, ◌+◌, ◌-◌, ◌*◌, ◌%◌, ◌^◌, ◌==◌, leb, ltb, Bool, true, false, ◌&&◌, ◌||◌, if◌then◌else◌, Option,
  none, some, [], ◌∷◌,
}
use nicechunk_guardian.Base.Int.{ℤ, pos, ◌-ℤ◌}
use nicechunk_guardian.Wire.{Bytes}
use nicechunk_guardian.Config.{codes}

-- `==` on two strings.
unfoldable pub is_text : Bytes → Bytes → Bool
is_text [] [] = true
is_text [] (b ∷ bs) = false
is_text (a ∷ more) [] = false
is_text (a ∷ more) (b ∷ bs) = a == b && is_text more bs

-- `std::isspace` in the C locale.
abbrev pub is_space : ℕ → Bool
is_space c = c == b' ' || leb 9 c && leb c 13

unfoldable pub trim_start : Bytes → Bytes
trim_start [] = []
trim_start (c ∷ text) = if is_space c then trim_start text else c ∷ text

abbrev pub keep_unless_space : ℕ → Bytes → Bytes
keep_unless_space c [] = if is_space c then [] else c ∷ []
keep_unless_space c (d ∷ text) = c ∷ d ∷ text

unfoldable pub trim_end : Bytes → Bytes
trim_end [] = []
trim_end (c ∷ text) = keep_unless_space c (trim_end text)

-- The text without its last byte, and whether that is a quotation mark.
unfoldable pub before_quote : ℕ → Bytes → Option Bytes
before_quote c [] = if c == b'"' then some [] else none
before_quote c (d ∷ text) = elim (before_quote d text) [
  | none ↦ none
  | some inner ↦ some (c ∷ inner)
]

-- One pair of quotation marks goes.
unfoldable pub unquote : Bytes → Bytes
unfolding before_quote
unquote [] = []
unquote (c ∷ []) = c ∷ []
unquote (c ∷ d ∷ text) =
    if c == b'"'
    then elim (before_quote d text) [ none ↦ c ∷ d ∷ text | some inner ↦ inner ]
    else c ∷ d ∷ text

unfoldable pub trim : Bytes → Bytes
unfolding trim_start trim_end unquote
trim value = unquote (trim_end (trim_start value))

unfoldable pub parse_bool : Bytes → Bool
unfolding is_text
parse_bool value =
    is_text value (codes "true")
    || is_text value (codes "1")
    || is_text value (codes "yes")
    || is_text value (codes "on")

abbrev pub is_digit : ℕ → Bool
is_digit c = leb b'0' c && leb c b'9'

-- The digits at the start of a text, behind those that gave `value`.
unfoldable pub more_digits : ℕ → Bytes → ℕ
more_digits value [] = value
more_digits value (c ∷ text) =
    let more = more_digits (value * 10 + (c - b'0')) text in if is_digit c then more else value

unfoldable pub number_at : Bytes → Option ℕ
unfolding more_digits
number_at [] = none
number_at (c ∷ text) = if is_digit c then some (more_digits (c - b'0') text) else none

-- The sign, true for `-`, and what is behind it.
unfoldable pub sign_of : Bytes → Bool × Bytes
sign_of [] = (false, [])
sign_of (c ∷ text) =
    if c == b'-' then (true, text) else if c == b'+' then (false, text) else (false, c ∷ text)

unfoldable pub stoul : Bytes → Option ℕ
unfolding trim_start number_at sign_of
stoul text =
    let (negative, rest) = sign_of (trim_start text) in
    elim (number_at rest) [
      | none ↦ none
      | some n ↦
          if leb (2 ^ 64) n then none else if negative then some ((2 ^ 64 - n) % 2 ^ 64) else some n
    ]

unfoldable pub stoi : Bytes → Option ℤ
unfolding trim_start number_at sign_of
stoi text =
    let (negative, rest) = sign_of (trim_start text) in
    elim (number_at rest) [
      | none ↦ none
      | some n ↦
          if ltb (if negative then 2 ^ 31 else 2 ^ 31 - 1) n
          then none
          else if negative
          then some (pos 0 -ℤ pos n)
          else some (pos n)
    ]
