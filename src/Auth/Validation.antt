-- ===== src/Auth/Validation.antt =====
-- internal/server/validation/validation.go. A regular expression that is one class of characters is
-- a test on code points.
use sfpg_go.Base.{
  ℕ, Bool, true, false, ◌&&◌, ◌||◌, not, List, [], ◌∷◌, ◌++◌, ltb, leb, ◌==◌, if◌then◌else◌,
}
use sfpg_go.Base.Text.{Str, byte_len}

pub data Missing : Type 0 where
  lowercase_letter uppercase_letter number special_character : Missing

pub data Invalid : Type 0 where
  username_required username_short username_chars password_short : Invalid
  password_missing : List Missing → Invalid

abbrev pub is_lower : ℕ → Bool
is_lower c = leb 97 c && leb c 122

abbrev pub is_upper : ℕ → Bool
is_upper c = leb 65 c && leb c 90

abbrev pub is_digit : ℕ → Bool
is_digit c = leb 48 c && leb c 57

-- The ASCII punctuation of specialRe: all but the backquote (96) and the tilde (126).
abbrev pub is_special : ℕ → Bool
is_special c =
    (leb 33 c && leb c 47)
    || (leb 58 c && leb c 64)
    || (leb 91 c && leb c 95)
    || (leb 123 c && leb c 125)

abbrev pub is_name_char : ℕ → Bool
is_name_char c = is_lower c || is_upper c || is_digit c || (c == 95) || (c == 45)

unfoldable pub any : (ℕ → Bool) → Str → Bool
any p [] = false
any p (c ∷ cs) = p c || any p cs

unfoldable pub all : (ℕ → Bool) → Str → Bool
all p [] = true
all p (c ∷ cs) = p c && all p cs

-- None stands for nil, no error.
pub data Verdict : Type 0 where
  valid : Verdict
  invalid : Invalid → Verdict

unfoldable pub validate_username : Str → Verdict
validate_username [] = invalid username_required
validate_username (c ∷ cs) =
    if ltb (byte_len (c ∷ cs)) 8
    then invalid username_short
    else if not (all is_name_char (c ∷ cs))
    then invalid username_chars
    else valid

unfoldable pub is_valid_password : Str → Bool
is_valid_password s =
    leb 8 (byte_len s) && any is_lower s && any is_upper s && any is_digit s && any is_special s

abbrev pub unless : Bool → Missing → List Missing
unless b m = if not b then m ∷ [] else []

unfoldable pub missing : Str → List Missing
missing s =
    unless (any is_lower s) lowercase_letter
    ++ (unless (any is_upper s) uppercase_letter
        ++ (unless (any is_digit s) number ++ unless (any is_special s) special_character))

unfoldable pub validate_password : Str → Verdict
unfolding is_valid_password missing
validate_password s =
    if ltb (byte_len s) 8
    then invalid password_short
    else if not (is_valid_password s)
    then invalid (password_missing (missing s))
    else valid
