-- ===== src/Json/Arrays.antt =====
-- `get_str_array` and `get_array_element` of src/json.cpp, whose loops pass over the elements of an
-- array in the same way.
use armrx_aarch64_random_x_v.Common.{
  ℕ, Bool, true, false, Option, none, some, List, [], ◌∷◌, get_elem?, if◌then◌else◌, ◌==◌,
}
use armrx_aarch64_random_x_v.Json.Text.{
  quote, backslash, comma, open_bracket, close_bracket, is_white, skip_ws,
}
use armrx_aarch64_random_x_v.Json.Lookup.{find_key}
use armrx_aarch64_random_x_v.Json.Values.{read_string, take_until, trim_end, ends_element}

-- Where a loop is: before an element, within a string (after a backslash or not), within another one.
pub data Place : Type 0 where
  between in_token : Place
  in_string : Bool → Place

-- The place after a byte that is no closing bracket.
abbrev pub next_place : Place → ℕ → Place
next_place (in_string true) c = in_string false
next_place (in_string false) c = if c == quote then between else in_string (c == backslash)
next_place between c =
    if is_white c
    then between
    else if c == comma
    then between
    else if c == quote
    then in_string false
    else in_token
next_place in_token c = if ends_element c then between else in_token

abbrev pub starts : Place → ℕ → Bool
starts between c = if is_white c then false else if c == comma then false else true
starts place c = false

abbrev pub ends : Place → ℕ → Bool
ends (in_string escaped) c = false
ends place c = c == close_bracket

-- The positions at which the elements start, up to the closing bracket.
unfoldable pub element_starts : Place → List ℕ → List (List ℕ)
element_starts place [] = []
element_starts place (c ∷ cs) =
    let rest = element_starts (next_place place c) cs in
    if ends place c then [] else if starts place c then (c ∷ cs) ∷ rest else rest

-- The text after the opening bracket of the key's value.
abbrev pub after_bracket : List ℕ → List ℕ
after_bracket [] = []
after_bracket (c ∷ cs) = if c == open_bracket then cs else []

abbrev pub array_body : Option (List ℕ) → List ℕ
array_body none = []
array_body (some text) = after_bracket (skip_ws text)

-- Elements that are no strings are passed over.
unfoldable pub strings : List (List ℕ) → List (List ℕ)
strings [] = []
strings ([] ∷ more) = strings more
strings ((c ∷ cs) ∷ more) =
    let rest = strings more in if c == quote then read_string false cs ∷ rest else rest

unfoldable pub get_str_array : List ℕ → List ℕ → List (List ℕ)
unfolding element_starts strings skip_ws
get_str_array json key = strings (element_starts between (array_body (find_key json key)))

abbrev pub element_value : Option (List ℕ) → List ℕ
element_value none = []
element_value (some []) = []
element_value (some (c ∷ cs)) =
    if c == quote then read_string false cs else trim_end (take_until ends_element (c ∷ cs))

unfoldable pub get_array_element : List ℕ → List ℕ → ℕ → List ℕ
unfolding element_starts skip_ws read_string take_until trim_end
get_array_element json key index =
    element_value (get_elem? (element_starts between (array_body (find_key json key))) index)
