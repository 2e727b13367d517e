-- ===== src/Json/Strings.antt =====
-- What `escape` of src/json.cpp writes, the scanners and readers of strings read back.
use mathlib.Core.List.{append_assoc}
use armrx_aarch64_random_x_v.Common.{
  ℕ, zero, suc, ◌/◌, ◌%◌, ◌≡◌, ◌≤◌, refl, arith, false, true, some, List, [], ◌∷◌, ◌++◌, get_or,
  ◌==◌, ltb, Bool-cases, inl, inr,
}
use armrx_aarch64_random_x_v.Json.Text.{
  quote, backslash, newline, carriage_return, tab, open_brace, colon, string_end, skip_string,
  skip_ws,
}
use armrx_aarch64_random_x_v.Json.Escape.{hex, escape_char, escape}
use armrx_aarch64_random_x_v.Json.Lookup.{
  key_text, strip, find_occurrence, find_key, after_colon, is_key_position,
}
use armrx_aarch64_random_x_v.Json.Values.{read_string, get_string}

-- A digit is neither a quote nor a backslash.
pub hex-safe : (d : ℕ) → (get_or hex d 48 == quote ≡ false) × (get_or hex d 48 == backslash ≡ false)
hex-safe zero = (refl, refl)
hex-safe (suc zero) = (refl, refl)
hex-safe (suc (suc zero)) = (refl, refl)
hex-safe (suc (suc (suc zero))) = (refl, refl)
hex-safe (suc (suc (suc (suc zero)))) = (refl, refl)
hex-safe (suc (suc (suc (suc (suc zero))))) = (refl, refl)
hex-safe (suc (suc (suc (suc (suc (suc zero)))))) = (refl, refl)
hex-safe (suc (suc (suc (suc (suc (suc (suc zero))))))) = (refl, refl)
hex-safe (suc (suc (suc (suc (suc (suc (suc (suc zero)))))))) = (refl, refl)
hex-safe (suc (suc (suc (suc (suc (suc (suc (suc (suc zero))))))))) = (refl, refl)
hex-safe (suc (suc (suc (suc (suc (suc (suc (suc (suc (suc zero)))))))))) = (refl, refl)
hex-safe (suc (suc (suc (suc (suc (suc (suc (suc (suc (suc (suc zero))))))))))) = (refl, refl)
hex-safe (suc (suc (suc (suc (suc (suc (suc (suc (suc (suc (suc (suc zero)))))))))))) = (refl, refl)
hex-safe (suc (suc (suc (suc (suc (suc (suc (suc (suc (suc (suc (suc (suc zero))))))))))))) =
    (refl, refl)
hex-safe (suc (suc (suc (suc (suc (suc (suc (suc (suc (suc (suc (suc (suc (suc zero)))))))))))))) =
    (refl, refl)
hex-safe
      (suc
        (suc (suc (suc (suc (suc (suc (suc (suc (suc (suc (suc (suc (suc (suc zero))))))))))))))) =
    (refl, refl)
hex-safe
      (suc (
        suc
          (suc (suc (suc (suc (suc (suc (suc (suc (suc (suc (suc (suc (suc (suc d)))))))))))))))) =
    (refl, refl)

string_end-char :
    (c : ℕ) (tail : List ℕ) → string_end false (escape_char c ++ tail) ≡ string_end false tail
unfolding string_end escape_char
string_end-char c tail = elim (Bool-cases (c == backslash)) [
  | inl b ↦ rw b refl
  | inr nb ↦ elim (Bool-cases (c == quote)) [
    | inl q ↦ rw (nb, q) refl
    | inr nq ↦ elim (Bool-cases (c == newline)) [
      | inl n ↦ rw (nb, nq, n) refl
      | inr nn ↦ elim (Bool-cases (c == carriage_return)) [
        | inl r ↦ rw (nb, nq, nn, r) refl
        | inr nr ↦ elim (Bool-cases (c == tab)) [
          | inl t ↦ rw (nb, nq, nn, nr, t) refl
          | inr nt ↦ elim (Bool-cases (ltb c 32)) [
            | inl small ↦
                let (q1, b1) = hex-safe (c / 16 % 16) in
                let (q2, b2) = hex-safe (c % 16) in
                rw (nb, nq, nn, nr, nt, small, q1, b1, q2, b2) refl
            | inr large ↦ rw (nb, nq, nn, nr, nt, large, nq, nb) refl
          ]
        ]
      ]
    ]
  ]
]

string_end-escape : (s rest : List ℕ) → string_end false (escape s ++ (quote ∷ rest)) ≡ some rest
unfolding escape string_end
string_end-escape [] rest = refl
string_end-escape (c ∷ s) rest =
    rw
      (
        append_assoc (escape_char c) (escape s) (quote ∷ rest),
        string_end-char c (escape s ++ (quote ∷ rest)),
      )
      (string_end-escape s rest)

-- For every text: `skip_string` on the quoted result of `escape` stops right after the closing
-- quote, whatever follows.
pub skip_string-escape :
    (s rest : List ℕ) → skip_string (quote ∷ escape s ++ (quote ∷ rest)) ≡ some rest
unfolding skip_string
skip_string-escape s rest = string_end-escape s rest

-- No control characters, which `escape` writes with a letter and `get_string` reads as that letter.
unfoldable pub IsPlain : List ℕ → Type 0
IsPlain [] = Unit
IsPlain (c ∷ s) = (32 ≤ c) × IsPlain s

read_string-char :
    (c : ℕ) (tail : List ℕ)
    → 32 ≤ c
    → read_string false (escape_char c ++ tail) ≡ c ∷ read_string false tail
unfolding read_string escape_char
read_string-char c tail plain = elim (Bool-cases (c == backslash)) [
  | inl b ↦ let e : c ≡ backslash = ground arith in rw e refl
  | inr nb ↦ elim (Bool-cases (c == quote)) [
    | inl q ↦ let e : c ≡ quote = ground arith in rw e refl
    | inr nq ↦
        let n : (c == newline) ≡ false = ground arith in
        let r : (c == carriage_return) ≡ false = ground arith in
        let t : (c == tab) ≡ false = ground arith in
        let large : ltb c 32 ≡ false = ground arith in rw (nb, nq, n, r, t, large, nq, nb) refl
  ]
]

pub read_string-escape :
    (s rest : List ℕ) → IsPlain s → read_string false (escape s ++ (quote ∷ rest)) ≡ s
unfolding read_string escape IsPlain
read_string-escape [] rest plain = refl
read_string-escape (c ∷ s) rest (first, plain) =
    rw
      (
        append_assoc (escape_char c) (escape s) (quote ∷ rest),
        read_string-char c (escape s ++ (quote ∷ rest)) first,
        read_string-escape s rest plain,
      )
      refl

pub strip_self : (p rest : List ℕ) → strip p (p ++ rest) ≡ some rest
unfolding strip
strip_self [] rest = refl
strip_self (c ∷ p) rest =
    let same : (c == c) ≡ true = ground arith in rw (same, strip_self p rest) refl

-- The object with one member, whose value `escape` wrote.
abbrev pub object_of : List ℕ → List ℕ → List ℕ → List ℕ
object_of key s rest = open_brace ∷ key_text key ++ (colon ∷ quote ∷ escape s ++ (quote ∷ rest))

find_key-object_of :
    (key s rest : List ℕ)
    → find_key (object_of key s rest) key ≡ some (quote ∷ escape s ++ (quote ∷ rest))
unfolding find_key find_occurrence is_key_position after_colon skip_ws strip
find_key-object_of key s rest =
    rw (strip_self (key ++ (quote ∷ [])) (colon ∷ quote ∷ escape s ++ (quote ∷ rest))) refl

-- `get_string` reads back the first member of an object, for every key and every text without
-- control characters that `escape` wrote as its value, whatever follows the closing quote.
pub get_string-escape :
    (key s rest : List ℕ) → IsPlain s → get_string (object_of key s rest) key ≡ s
unfolding get_string
get_string-escape key s rest plain =
    rw (find_key-object_of key s rest) (read_string-escape s rest plain)
