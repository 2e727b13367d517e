-- ===== src/Json/Tests.antt =====
-- Texts with quotes and backslashes in them.
use armrx_aarch64_random_x_v.Common.{ℕ, ◌≡◌, refl, arith, some, List, [], ◌∷◌, ◌++◌, get_or}
use armrx_aarch64_random_x_v.Json.Text.{quote, skip_string}
use armrx_aarch64_random_x_v.Json.Escape.{escape}
use armrx_aarch64_random_x_v.Json.Values.{get_string}
use armrx_aarch64_random_x_v.Json.Arrays.{get_str_array, get_array_element}
use armrx_aarch64_random_x_v.Json.Strings.{
  IsPlain, object_of, skip_string-escape, get_string-escape,
}
use armrx_aarch64_random_x_v.Json.ArrayStrings.{
  ArePlain, array_object, get_str_array-escape, get_array_element-escape,
}

-- `a"b\c`.
abbrev awkward : List ℕ
awkward = 97 ∷ 34 ∷ 98 ∷ 92 ∷ 99 ∷ []

-- A newline and a control character.
abbrev control : List ℕ
control = 10 ∷ 7 ∷ []

abbrev word_key : List ℕ
word_key = 105 ∷ 100 ∷ []

awkward-IsPlain : IsPlain awkward
unfolding IsPlain
awkward-IsPlain = (omega arith, (omega arith, (omega arith, (omega arith, (omega arith, tt)))))

abbrev pair : List (List ℕ)
pair = awkward ∷ word_key ∷ []

pair-ArePlain : ArePlain pair
unfolding ArePlain IsPlain
pair-ArePlain = (awkward-IsPlain, ((omega arith, (omega arith, tt)), tt))

skip_string-escape_example :
    skip_string (quote ∷ escape control ++ (quote ∷ awkward)) ≡ some awkward
skip_string-escape_example = skip_string-escape control awkward

get_string-escape_example : get_string (object_of word_key awkward control) word_key ≡ awkward
get_string-escape_example = get_string-escape word_key awkward control awkward-IsPlain

get_str_array-escape_example : get_str_array (array_object word_key pair control) word_key ≡ pair
get_str_array-escape_example = get_str_array-escape word_key pair control pair-ArePlain

get_array_element-escape_example :
    get_array_element (array_object word_key pair control) word_key 1 ≡ get_or pair 1 []
get_array_element-escape_example = get_array_element-escape word_key pair control 1 pair-ArePlain

-- A newline that `escape` wrote comes back as the letter n.
newline_as_letter : get_string (object_of word_key (10 ∷ []) []) word_key ≡ 110 ∷ []
unfolding get_string escape armrx_aarch64_random_x_v.Json.Lookup.find_key
newline_as_letter = refl
