-- ===== src/Json/Lookup.antt =====
-- `find_key` of src/json.cpp.
use armrx_aarch64_random_x_v.Common.{
  ℕ, zero, suc, Bool, true, ◌||◌, Option, none, some, List, [], ◌∷◌, ◌++◌, length, if◌then◌else◌,
  ◌==◌,
}
use armrx_aarch64_random_x_v.Json.Text.{quote, comma, colon, open_brace, is_blank, skip_ws}

-- The rest after `prefix`, if the text starts with it.
unfoldable pub strip : List ℕ → List ℕ → Option (List ℕ)
strip [] text = some text
strip (p ∷ prefix) [] = none
strip (p ∷ prefix) (c ∷ text) = let rest = strip prefix text in if p == c then rest else none

abbrev pub key_text : List ℕ → List ℕ
key_text key = quote ∷ key ++ (quote ∷ [])

-- The test of the scope of a key: the bytes before it, the last first.
unfoldable pub is_key_position : List ℕ → Bool
is_key_position [] = true
is_key_position (c ∷ before) =
    let rest = is_key_position before in if is_blank c then rest else c == open_brace || c == comma

-- The bytes that an occurrence found here still has after its first.
abbrev pub bytes_left : List ℕ → Option (List ℕ) → ℕ
bytes_left key none = zero
bytes_left key (some after) = suc (length key)

abbrev pub choose : Option (List ℕ) → Bool → Option (List ℕ) → Option (List ℕ)
choose (some after) true later = some after
choose here is_key later = later

-- The search for a key from a position on. An occurrence out of place is skipped whole: `skip` bytes
-- of it are still to pass.
unfoldable pub find_occurrence : List ℕ → ℕ → List ℕ → List ℕ → Option (List ℕ)
unfolding strip is_key_position
find_occurrence key skip before [] = none
find_occurrence key (suc skip) before (c ∷ text) = find_occurrence key skip (c ∷ before) text
find_occurrence key zero before (c ∷ text) =
    let here = strip (key_text key) (c ∷ text) in
    let later = find_occurrence key (bytes_left key here) (c ∷ before) text in
    choose here (is_key_position before) later

abbrev pub at_colon : List ℕ → Option (List ℕ)
at_colon [] = none
at_colon (c ∷ rest) = if c == colon then some (skip_ws rest) else none

-- After the key: blanks, the colon, blanks.
unfoldable pub after_colon : List ℕ → Option (List ℕ)
unfolding skip_ws
after_colon text = at_colon (skip_ws text)

abbrev pub after_key : Option (List ℕ) → Option (List ℕ)
after_key none = none
after_key (some text) = after_colon text

unfoldable pub find_key : List ℕ → List ℕ → Option (List ℕ)
unfolding find_occurrence after_colon
find_key json key = after_key (find_occurrence key zero [] json)
