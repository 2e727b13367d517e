-- ===== src/Json/ArrayStrings.antt =====
-- Arrays of strings that `escape` of src/json.cpp wrote.
use mathlib.Core.List.{append_assoc}
use armrx_aarch64_random_x_v.Common.{
  ℕ, zero, suc, ◌/◌, ◌%◌, ◌≡◌, refl, false, some, List, [], ◌∷◌, ◌++◌, get_or, get_elem?, ◌==◌, ltb,
  Bool-cases, inl, inr,
}
use armrx_aarch64_random_x_v.Json.Text.{
  quote, backslash, newline, carriage_return, tab, comma, colon, open_brace, open_bracket,
  close_bracket, skip_ws,
}
use armrx_aarch64_random_x_v.Json.Escape.{escape_char, escape}
use armrx_aarch64_random_x_v.Json.Lookup.{
  key_text, find_key, find_occurrence, after_colon, strip, is_key_position,
}
use armrx_aarch64_random_x_v.Json.Arrays.{
  between, in_string, element_starts, strings, get_str_array, get_array_element, element_value,
}
use armrx_aarch64_random_x_v.Json.Strings.{IsPlain, hex-safe, read_string-escape, strip_self}

element_starts-char :
    (c : ℕ) (tail : List ℕ)
    → element_starts (in_string false) (escape_char c ++ tail)
      ≡ element_starts (in_string false) tail
unfolding element_starts escape_char
element_starts-char c tail = elim (Bool-cases (c == backslash)) [
  | inl b ↦ rw b refl
  | inr nb ↦ elim (Bool-cases (c == quote)) [
    | inl q ↦ rw (nb, q) refl
    | inr nq ↦ elim (Bool-cases (c == newline)) [
      | inl n ↦ rw (nb, nq, n) refl
      | inr nn ↦ elim (Bool-cases (c == carriage_return)) [
        | inl r ↦ rw (nb, nq, nn, r) refl
        | inr nr ↦ elim (Bool-cases (c == tab)) [
          | inl t ↦ rw (nb, nq, nn, nr, t) refl
          | inr nt ↦ elim (Bool-cases (ltb c 32)) [
            | inl small ↦
                let (q1, b1) = hex-safe (c / 16 % 16) in
                let (q2, b2) = hex-safe (c % 16) in
                rw (nb, nq, nn, nr, nt, small, q1, b1, q2, b2) refl
            | inr large ↦ rw (nb, nq, nn, nr, nt, large, nq, nb) refl
          ]
        ]
      ]
    ]
  ]
]

element_starts-escape :
    (s more : List ℕ)
    → element_starts (in_string false) (escape s ++ (quote ∷ more)) ≡ element_starts between more
unfolding escape element_starts
element_starts-escape [] more = refl
element_starts-escape (c ∷ s) more =
    rw
      (
        append_assoc (escape_char c) (escape s) (quote ∷ more),
        element_starts-char c (escape s ++ (quote ∷ more)),
      )
      (element_starts-escape s more)

-- The elements after the first one, each with the comma before it, and the closing bracket.
unfoldable pub more_text : List (List ℕ) → List ℕ → List ℕ
more_text [] tail = close_bracket ∷ tail
more_text (x ∷ xs) tail = comma ∷ quote ∷ escape x ++ (quote ∷ more_text xs tail)

unfoldable pub body_text : List (List ℕ) → List ℕ → List ℕ
body_text [] tail = close_bracket ∷ tail
body_text (x ∷ xs) tail = quote ∷ escape x ++ (quote ∷ more_text xs tail)

unfoldable pub ArePlain : List (List ℕ) → Type 0
ArePlain [] = Unit
ArePlain (x ∷ xs) = IsPlain x × ArePlain xs

starts-more :
    (xs : List (List ℕ)) (tail : List ℕ)
    → ArePlain xs
    → strings (element_starts between (more_text xs tail)) ≡ xs
unfolding more_text ArePlain element_starts strings
starts-more [] tail plain = refl
starts-more (x ∷ xs) tail (first, plain) =
    rw
      (
        element_starts-escape x (more_text xs tail),
        read_string-escape x (more_text xs tail) first,
        starts-more xs tail plain,
      )
      refl

starts-body :
    (xs : List (List ℕ)) (tail : List ℕ)
    → ArePlain xs
    → strings (element_starts between (body_text xs tail)) ≡ xs
unfolding body_text ArePlain element_starts strings
starts-body [] tail plain = refl
starts-body (x ∷ xs) tail (first, plain) =
    rw
      (
        element_starts-escape x (more_text xs tail),
        read_string-escape x (more_text xs tail) first,
        starts-more xs tail plain,
      )
      refl

more-element :
    (xs : List (List ℕ)) (tail : List ℕ) (i : ℕ)
    → ArePlain xs
    → element_value (get_elem? (element_starts between (more_text xs tail)) i) ≡ get_or xs i []
unfolding more_text ArePlain element_starts
more-element [] tail i plain = refl
more-element (x ∷ xs) tail zero (first, plain) = read_string-escape x (more_text xs tail) first
more-element (x ∷ xs) tail (suc i) (first, plain) =
    rw (element_starts-escape x (more_text xs tail)) (more-element xs tail i plain)

body-element :
    (xs : List (List ℕ)) (tail : List ℕ) (i : ℕ)
    → ArePlain xs
    → element_value (get_elem? (element_starts between (body_text xs tail)) i) ≡ get_or xs i []
unfolding body_text ArePlain element_starts
body-element [] tail i plain = refl
body-element (x ∷ xs) tail zero (first, plain) = read_string-escape x (more_text xs tail) first
body-element (x ∷ xs) tail (suc i) (first, plain) =
    rw (element_starts-escape x (more_text xs tail)) (more-element xs tail i plain)

-- The object with one member, an array of strings that `escape` wrote.
unfoldable pub array_object : List ℕ → List (List ℕ) → List ℕ → List ℕ
array_object key xs tail = open_brace ∷ key_text key ++ (colon ∷ open_bracket ∷ body_text xs tail)

find_key-array_object :
    (key : List ℕ) (xs : List (List ℕ)) (tail : List ℕ)
    → find_key (array_object key xs tail) key ≡ some (open_bracket ∷ body_text xs tail)
unfolding array_object find_key find_occurrence is_key_position after_colon skip_ws strip
find_key-array_object key xs tail =
    rw (strip_self (key ++ (quote ∷ [])) (colon ∷ open_bracket ∷ body_text xs tail)) refl

-- `get_str_array` reads back an array of texts without control characters that `escape` wrote, for
-- every key whose member comes first, whatever follows the closing bracket.
pub get_str_array-escape :
    (key : List ℕ) (xs : List (List ℕ)) (tail : List ℕ)
    → ArePlain xs
    → get_str_array (array_object key xs tail) key ≡ xs
unfolding get_str_array
get_str_array-escape key xs tail plain =
    rw (find_key-array_object key xs tail) (starts-body xs tail plain)

-- For such an array and every index, `get_array_element` gives the text at the index, and the empty
-- text past the end.
pub get_array_element-escape :
    (key : List ℕ) (xs : List (List ℕ)) (tail : List ℕ) (i : ℕ)
    → ArePlain xs
    → get_array_element (array_object key xs tail) key i ≡ get_or xs i []
unfolding get_array_element
get_array_element-escape key xs tail i plain =
    rw (find_key-array_object key xs tail) (body-element xs tail i plain)
