-- ===== src/Json/Text.antt =====
-- Strings of src/json.cpp as lists of bytes, and its scanners. A position in a string is the part
-- of the string from it on; where the code looks backward, the bytes before it are kept, the last first.
use armrx_aarch64_random_x_v.Common.{
  ℕ, Bool, true, false, not, ◌||◌, Option, none, some, List, [], ◌∷◌, if◌then◌else◌, ◌==◌,
}

abbrev pub quote : ℕ
quote = 34

abbrev pub backslash : ℕ
backslash = 92

abbrev pub space : ℕ
space = 32

abbrev pub tab : ℕ
tab = 9

abbrev pub newline : ℕ
newline = 10

abbrev pub carriage_return : ℕ
carriage_return = 13

abbrev pub comma : ℕ
comma = 44

abbrev pub colon : ℕ
colon = 58

abbrev pub open_brace : ℕ
open_brace = 123

abbrev pub close_brace : ℕ
close_brace = 125

abbrev pub open_bracket : ℕ
open_bracket = 91

abbrev pub close_bracket : ℕ
close_bracket = 93

abbrev pub is_blank : ℕ → Bool
is_blank c = c == space || c == tab

abbrev pub is_white : ℕ → Bool
is_white c = is_blank c || (c == newline || c == carriage_return)

-- Whether an odd number of backslashes stands before the position.
unfoldable pub is_escaped : List ℕ → Bool
is_escaped [] = false
is_escaped (c ∷ before) = let rest = is_escaped before in if c == backslash then not rest else false

-- `skip_string` after the opening quote: the rest after the closing quote, `none` for `npos`.
unfoldable pub string_end : Bool → List ℕ → Option (List ℕ)
string_end escaped [] = none
string_end true (c ∷ cs) = string_end false cs
string_end false (c ∷ cs) =
    let rest = string_end (c == backslash) cs in if c == quote then some cs else rest

unfoldable pub skip_string : List ℕ → Option (List ℕ)
unfolding string_end
skip_string [] = none
skip_string (c ∷ cs) = if c == quote then string_end false cs else none

unfoldable pub skip_ws : List ℕ → List ℕ
skip_ws [] = []
skip_ws (c ∷ cs) = let rest = skip_ws cs in if is_white c then rest else c ∷ cs
