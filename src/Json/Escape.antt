-- ===== src/Json/Escape.antt =====
-- `escape` of src/json.cpp.
use armrx_aarch64_random_x_v.Common.{
  ℕ, ◌/◌, ◌%◌, List, [], ◌∷◌, ◌++◌, get_or, if◌then◌else◌, ◌==◌, ltb,
}
use armrx_aarch64_random_x_v.Json.Text.{quote, backslash, tab, newline, carriage_return}

-- "0123456789abcdef".
abbrev pub hex : List ℕ
hex = 48 ∷ 49 ∷ 50 ∷ 51 ∷ 52 ∷ 53 ∷ 54 ∷ 55 ∷ 56 ∷ 57 ∷ 97 ∷ 98 ∷ 99 ∷ 100 ∷ 101 ∷ 102 ∷ []

-- One case of the switch: the letters are n, r, t and u.
unfoldable pub escape_char : ℕ → List ℕ
escape_char c =
    if c == backslash
    then backslash ∷ backslash ∷ []
    else if c == quote
    then backslash ∷ quote ∷ []
    else if c == newline
    then backslash ∷ 110 ∷ []
    else if c == carriage_return
    then backslash ∷ 114 ∷ []
    else if c == tab
    then backslash ∷ 116 ∷ []
    else if ltb c 32
    then backslash ∷ 117 ∷ 48 ∷ 48 ∷ get_or hex (c / 16 % 16) 48 ∷ get_or hex (c % 16) 48 ∷ []
    else c ∷ []

unfoldable pub escape : List ℕ → List ℕ
unfolding escape_char
escape [] = []
escape (c ∷ s) = escape_char c ++ escape s
