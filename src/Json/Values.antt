-- ===== src/Json/Values.antt =====
-- The readers of src/json.cpp for one value.
use armrx_aarch64_random_x_v.Common.{
  ℕ, zero, suc, Bool, true, false, not, ◌&&◌, ◌||◌, Option, none, some, List, [], ◌∷◌,
  if◌then◌else◌, ◌==◌,
}
use armrx_aarch64_random_x_v.Json.Text.{
  quote, backslash, newline, comma, open_brace, close_brace, open_bracket, close_bracket, is_blank,
  is_escaped, skip_ws,
}
use armrx_aarch64_random_x_v.Json.Lookup.{find_key}

-- The bytes of a string up to its closing quote, each escape without its backslash.
unfoldable pub read_string : Bool → List ℕ → List ℕ
read_string escaped [] = []
read_string true (c ∷ cs) = c ∷ read_string false cs
read_string false (c ∷ cs) =
    let rest = read_string (c == backslash) cs in
    if c == quote then [] else if c == backslash then rest else c ∷ rest

-- The reader that a value's first byte calls for; a missing value is the empty string.
abbrev pub string_value : Option (List ℕ) → List ℕ
string_value none = []
string_value (some []) = []
string_value (some (c ∷ cs)) = if c == quote then read_string false cs else []

unfoldable pub get_string : List ℕ → List ℕ → List ℕ
unfolding read_string
get_string json key = string_value (find_key json key)

-- The bytes before the first one that `stops`.
unfoldable pub take_until : (ℕ → Bool) → List ℕ → List ℕ
take_until stops [] = []
take_until stops (c ∷ cs) = let rest = take_until stops cs in if stops c then [] else c ∷ rest

-- Without the blanks at the end.
unfoldable pub trim_end : List ℕ → List ℕ
trim_end [] = []
trim_end (c ∷ cs) = or_blank c (trim_end cs)
  where
    or_blank : ℕ → List ℕ → List ℕ
    or_blank c [] = if is_blank c then [] else c ∷ []
    or_blank c (d ∷ ds) = c ∷ d ∷ ds

abbrev pub ends_raw : ℕ → Bool
ends_raw c = (c == comma || c == close_brace) || (c == close_bracket || c == newline)

abbrev pub raw_value : Option (List ℕ) → List ℕ
raw_value none = []
raw_value (some text) = trim_end (take_until ends_raw text)

unfoldable pub get_raw : List ℕ → List ℕ → List ℕ
unfolding take_until trim_end
get_raw json key = raw_value (find_key json key)

-- The bytes of a string up to its closing quote, its escapes as they stand.
unfoldable pub raw_string : Bool → List ℕ → List ℕ
raw_string escaped [] = []
raw_string true (c ∷ cs) = c ∷ raw_string false cs
raw_string false (c ∷ cs) =
    let rest = raw_string (c == backslash) cs in if c == quote then [] else c ∷ rest

abbrev pub ends_element : ℕ → Bool
ends_element c = (c == comma || c == close_bracket) || is_blank c

abbrev pub first_element : List ℕ → List ℕ
first_element [] = []
first_element (c ∷ cs) =
    if c == quote then raw_string false cs else trim_end (take_until ends_element (c ∷ cs))

abbrev pub in_array : List ℕ → List ℕ
in_array [] = []
in_array (c ∷ cs) = if c == open_bracket then first_element (skip_ws cs) else []

abbrev pub array_first : Option (List ℕ) → List ℕ
array_first none = []
array_first (some text) = in_array (skip_ws text)

unfoldable pub get_array_first : List ℕ → List ℕ → List ℕ
unfolding raw_string take_until trim_end skip_ws
get_array_first json key = array_first (find_key json key)

-- The loop of `get_object`: the bytes up to where the depth becomes 0. `before` holds the bytes that
-- `is_escaped` looks back on.
unfoldable pub object_end : ℕ → ℕ → ℕ → Bool → List ℕ → List ℕ → List ℕ
unfolding is_escaped
object_end opening closing zero in_string before text = []
object_end opening closing (suc depth) in_string before [] = []
object_end opening closing (suc depth) in_string before (c ∷ cs) =
    let marks = c == quote && not (is_escaped before) in
    let now_in = if marks then not in_string else in_string in
    let counts = not marks && not in_string in
    let depth' =
      if counts && c == opening
      then suc (suc depth)
      else if counts && c == closing
      then depth
      else suc depth in
    c ∷ object_end opening closing depth' now_in (c ∷ before) cs

abbrev pub object_value : List ℕ → List ℕ → List ℕ
object_value before [] = []
object_value before (c ∷ cs) =
    if c == open_brace
    then c ∷ object_end open_brace close_brace 1 false (c ∷ before) cs
    else if c == open_bracket
    then c ∷ object_end open_bracket close_bracket 1 false (c ∷ before) cs
    else []

-- The byte before the value is a colon or a blank, and the first byte of an object is no backslash,
-- so that nothing before the value counts for `is_escaped`.
unfoldable pub get_object : List ℕ → List ℕ → List ℕ
unfolding object_end
get_object json key = elim (find_key json key) [ none ↦ [] | some text ↦ object_value [] text ]
