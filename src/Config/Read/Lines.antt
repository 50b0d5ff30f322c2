-- ===== src/Config/Read/Lines.antt =====
-- The format that `load_config_file` of Guardian/src/config.cpp reads.
use nicechunk_guardian.Base.{
  ℕ, ◌≡◌, refl, ap, ◌∙◌, ◌==◌, Bool, true, false, not, ◌&&◌, Option, none, some, [], ◌∷◌, ◌++◌,
  arith, &&-true,
}
use nicechunk_guardian.Wire.{Bytes}
use nicechunk_guardian.Config.{Config, is_empty}
use nicechunk_guardian.Config.Text.{
  is_space, trim_start, keep_unless_space, trim_end, unquote, trim,
}
use nicechunk_guardian.Config.Read.{apply_pair, split_at, without_comment, read_line}

unfoldable pub all_spaces : Bytes → Bool
all_spaces [] = true
all_spaces (c ∷ text) = is_space c && all_spaces text

unfoldable pub lacks : ℕ → Bytes → Bool
lacks mark [] = true
lacks mark (c ∷ text) = not (c == mark) && lacks mark text

-- The text starts with a byte that is neither a space nor a quotation mark.
abbrev pub starts_bare : Bytes → Bool
starts_bare [] = false
starts_bare (c ∷ text) = not (is_space c) && not (c == b'"')

abbrev pub ends_bare : Bytes → Bool
ends_bare [] = false
ends_bare (c ∷ []) = not (is_space c)
ends_bare (c ∷ d ∷ text) = ends_bare (d ∷ text)

-- A key or a value without quotation marks around it.
abbrev pub IsBare : Bytes → Type 0
IsBare text = (starts_bare text ≡ true) × (ends_bare text ≡ true) × (lacks b'#' text ≡ true)

split_at-append :
    (mark : ℕ) (a b : Bytes) → lacks mark a ≡ true → split_at mark (a ++ (mark ∷ b)) ≡ some (a, b)
unfolding split_at lacks
split_at-append mark [] b h = ground arith
split_at-append mark (c ∷ a) b h =
    let (other, rest) = &&-true (not (c == mark)) (lacks mark a) h in
    rw (split_at-append mark a b rest, split_at) (ground (arith, other))

split_at-none : (mark : ℕ) (a : Bytes) → lacks mark a ≡ true → split_at mark a ≡ none
unfolding split_at lacks
split_at-none mark [] h = refl
split_at-none mark (c ∷ a) h =
    let (other, rest) = &&-true (not (c == mark)) (lacks mark a) h in
    rw (split_at-none mark a rest, split_at) (ground (arith, other))

lacks-append :
    (mark : ℕ) (a b : Bytes)
    → lacks mark a ≡ true
    → lacks mark b ≡ true
    → lacks mark (a ++ b) ≡ true
unfolding lacks
lacks-append mark [] b h k = k
lacks-append mark (c ∷ a) b h k = ground (arith, h, lacks-append mark a b, k)

-- Neither mark of the format is a space.
lacks_spaces :
    (pad : Bytes) → all_spaces pad ≡ true → (lacks b'#' pad ≡ true) × (lacks b'=' pad ≡ true)
unfolding lacks all_spaces
lacks_spaces [] h = (refl, refl)
lacks_spaces (c ∷ pad) h =
    let rest = lacks_spaces pad in (ground (arith, h, rest), ground (arith, h, rest))

trim_start_spaces :
    (pad text : Bytes) → all_spaces pad ≡ true → trim_start (pad ++ text) ≡ trim_start text
unfolding trim_start all_spaces
trim_start_spaces [] text h = refl
trim_start_spaces (c ∷ pad) text h = ground (arith, h, trim_start_spaces pad text)

trim_end_spaces : (pad : Bytes) → all_spaces pad ≡ true → trim_end pad ≡ []
unfolding trim_end all_spaces
trim_end_spaces [] h = refl
trim_end_spaces (c ∷ pad) h =
    let (space, rest) = &&-true (is_space c) (all_spaces pad) h in
    rw (trim_end_spaces pad rest, trim_end) (ground (arith, space))

trim_end-append :
    (text pad : Bytes) → all_spaces pad ≡ true → trim_end (text ++ pad) ≡ trim_end text
unfolding trim_end
trim_end-append [] pad h = trim_end_spaces pad h
trim_end-append (c ∷ text) pad h = ap (keep_unless_space c) (trim_end-append text pad h)

trim_end_bare : (text : Bytes) → ends_bare text ≡ true → trim_end text ≡ text
unfolding trim_end
trim_end_bare [] h = refl
trim_end_bare (c ∷ []) h = ground (arith, h)
trim_end_bare (c ∷ d ∷ text) h = ap (keep_unless_space c) (trim_end_bare (d ∷ text) h)

trim_start_bare :
    (text pad : Bytes) → starts_bare text ≡ true → trim_start (text ++ pad) ≡ text ++ pad
unfolding trim_start
trim_start_bare [] pad h = absurd (ground (arith, h))
trim_start_bare (c ∷ text) pad h = ground (arith, h)

unquote_bare : (text : Bytes) → starts_bare text ≡ true → unquote text ≡ text
unfolding unquote
unquote_bare [] h = refl
unquote_bare (c ∷ []) h = refl
unquote_bare (c ∷ d ∷ text) h = ground (arith, h)

trim_padded :
    (left text right : Bytes)
    → all_spaces left ≡ true
    → all_spaces right ≡ true
    → IsBare text
    → trim (left ++ (text ++ right)) ≡ text
unfolding trim
trim_padded left text right l r (starts, ends, clean) =
    ap (λ t. unquote (trim_end t))
      (trim_start_spaces left (text ++ right) l ∙ trim_start_bare text right starts)
    ∙ ap unquote (trim_end-append text right r ∙ trim_end_bare text ends)
    ∙ unquote_bare text starts

bare_not_empty : (text : Bytes) → IsBare text → is_empty text ≡ false
bare_not_empty [] h = absurd (ground (arith, h.0))
bare_not_empty (c ∷ text) h = refl

-- A line, perhaps with a comment behind it.
abbrev pub with_comment : Bytes → Option Bytes → Bytes
with_comment line none = line
with_comment line (some comment) = line ++ (b'#' ∷ comment)

without_comment-with_comment :
    (line : Bytes) (comment : Option Bytes)
    → lacks b'#' line ≡ true
    → without_comment (with_comment line comment) ≡ line
unfolding without_comment
without_comment-with_comment line none h = rw (split_at-none b'#' line h, without_comment) refl
without_comment-with_comment line (some comment) h =
    rw (split_at-append b'#' line comment h, without_comment) refl

pub read_line_pair :
    (cfg : Config) (a key b c value d : Bytes) (comment : Option Bytes)
    → all_spaces a ≡ true
    → all_spaces b ≡ true
    → all_spaces c ≡ true
    → all_spaces d ≡ true
    → IsBare key
    → lacks b'=' key ≡ true
    → IsBare value
    → read_line cfg (with_comment ((a ++ (key ++ b)) ++ (b'=' ∷ (c ++ (value ++ d)))) comment)
      ≡ apply_pair cfg key value
unfolding read_line
read_line_pair cfg a key b c value d comment sa sb sc sd bare plain worth =
    let left = a ++ (key ++ b) in
    let right = c ++ (value ++ d) in
    let no_equals =
      lacks-append b'=' a (key ++ b) (lacks_spaces a sa).1
        (lacks-append b'=' key b plain (lacks_spaces b sb).1) in
    let no_hash =
      lacks-append b'#' a (key ++ b) (lacks_spaces a sa).0
        (lacks-append b'#' key b bare.2 (lacks_spaces b sb).0) in
    let no_hash_right =
      lacks-append b'#' c (value ++ d) (lacks_spaces c sc).0
        (lacks-append b'#' value d worth.2 (lacks_spaces d sd).0) in
    rw
      (
        without_comment-with_comment (left ++ (b'=' ∷ right)) comment (
            lacks-append b'#' left (b'=' ∷ right) no_hash
              (unfold lacks in ground (arith, no_hash_right))),
        split_at-append b'=' left right no_equals,
        read_line,
        trim_padded a key b sa sb bare,
        trim_padded c value d sc sd worth,
        bare_not_empty key bare,
        bare_not_empty value worth,
      )
      refl
