-- ===== src/Events/Text.antt =====
-- Texts as server/internal/app reads them: strings.TrimSpace and strings.ToLower on ASCII,
-- `mergeUniqueStrings` of mapper.go, lines 1165-1179, and `searchTokens` of store.go.
use gp_sdr.Prelude.{
  ℕ, Bool, true, false, ◌&&◌, ◌||◌, List, [], ◌∷◌, ◌++◌, map, ltb, leb, ◌==◌, if◌then◌else◌,
}
use gp_sdr.Prelude.Text.{Text, codes_eq, to_lower, trim_space}

-- The order of sort.Strings.
unfoldable pub text_less : Text → Text → Bool
text_less s [] = false
text_less [] (b ∷ t) = true
text_less (a ∷ s) (b ∷ t) = ltb a b || ((a == b) && text_less s t)

-- A value in its place in a sorted list without repetitions.
unfoldable pub insert_unique : Text → List Text → List Text
unfolding codes_eq text_less
insert_unique v [] = v ∷ []
insert_unique v (w ∷ ws) =
    if codes_eq v w then w ∷ ws else if text_less v w then v ∷ w ∷ ws else w ∷ insert_unique v ws

is_empty : Text → Bool
is_empty [] = true
is_empty (c ∷ s) = false

-- The set of the trimmed values that are not empty, sorted.
unfoldable pub sorted_set : List Text → List Text
unfolding trim_space insert_unique is_empty
sorted_set [] = []
sorted_set (v ∷ vs) =
    let rest = sorted_set vs in
    if is_empty (trim_space v) then rest else insert_unique (trim_space v) rest

unfoldable pub merge_unique_strings : List Text → List Text → List Text
unfolding sorted_set
merge_unique_strings existing additions = sorted_set (existing ++ additions)

unfoldable pub is_token_char : ℕ → Bool
is_token_char c = (leb b'a' c && leb c b'z') || (leb b'0' c && leb c b'9')

-- A field that ends is kept if it has a character and is new.
unfoldable pub contains_text : Text → List Text → Bool
unfolding codes_eq
contains_text v [] = false
contains_text v (w ∷ ws) = codes_eq v w || contains_text v ws

add_field : Text → List Text → List Text
unfolding is_empty
add_field field fields =
    if is_empty field || contains_text field fields then fields else fields ++ field ∷ []

-- strings.FieldsFunc with the fields seen so far, and the field that is being read.
split_fields : Text → Text → List Text → List Text
unfolding add_field is_token_char
split_fields [] field fields = add_field field fields
split_fields (c ∷ s) field fields = elim (is_token_char c) [
  | true ↦ split_fields s (field ++ c ∷ []) fields
  | false ↦ split_fields s [] (add_field field fields)
]

unfoldable pub search_tokens : Text → List Text
unfolding split_fields to_lower contains_text
search_tokens value = split_fields (map to_lower value) [] []
