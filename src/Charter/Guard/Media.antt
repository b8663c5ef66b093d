-- ===== src/Charter/Guard/Media.antt =====
-- agent/charter_response_guard.py: `_media_reason`, the test of the Content-Type occurrences.
-- A value that passes the first test holds printable ASCII alone, in which a space is the only
-- white space.
use sentinel_security_platfo.Base.{
  ℕ, ◌+◌, String, ◌≡◌, refl, Bool, true, false, not, ◌&&◌, ◌||◌, Option, none, some, List, [], ◌∷◌,
  any, count_if, nat_eq, ltb, leb, if◌then◌else◌, codes,
}
use mathlib.Core.List.{reverse}

abbrev pub Text : Type 0
Text = List ℕ

abbrev pub is_space : ℕ → Bool
is_space c = nat_eq c b' '

abbrev pub is_unprintable : ℕ → Bool
is_unprintable c = ltb c 32 || ltb 126 c

-- value.split(sep)
unfoldable pub split : ℕ → Text → List Text
split sep [] = [] ∷ []
split sep (c ∷ text) = elim (split sep text) [
  | [] ↦ [] ∷ []
  | piece ∷ pieces ↦ if nat_eq c sep then [] ∷ piece ∷ pieces else (c ∷ piece) ∷ pieces
]

unfoldable pub lstrip : Text → Text
lstrip [] = []
lstrip (c ∷ text) = if is_space c then lstrip text else c ∷ text

-- value.strip()
unfoldable pub strip : Text → Text
unfolding lstrip
strip text = reverse (lstrip (reverse (lstrip text)))

unfoldable pub lower : Text → Text
lower [] = []
lower (c ∷ text) = (if leb b'A' c && leb c b'Z' then c + 32 else c) ∷ lower text

abbrev pub is_empty : Text → Bool
is_empty [] = true
is_empty (c ∷ text) = false

abbrev pub blank : Text → Bool
blank piece = is_empty (strip piece)

abbrev pub is_equals : ℕ → Bool
is_equals c = nat_eq c b'='

abbrev pub is_slash : ℕ → Bool
is_slash c = nat_eq c b'/'

-- A parameter that has one "=", split there.
unfoldable pub split_parameter : List Text → Option (Text × Text)
unfolding strip lower
split_parameter (name ∷ value ∷ []) =
    let name' = strip name in
    let value' = strip value in
    if is_empty name' || is_empty value' || any is_space value'
    then none
    else some (lower name', lower value')
split_parameter _ = none

unfoldable pub parse_parameter : Text → Option (Text × Text)
unfolding split split_parameter count_if
parse_parameter parameter =
    if nat_eq (count_if is_equals parameter) 1 then split_parameter (split b'=' parameter) else none

-- The loop over the parameters: one that is malformed ends it.
unfoldable pub parse_parameters : List Text → Option (List (Text × Text))
unfolding parse_parameter strip
parse_parameters [] = some []
parse_parameters (piece ∷ pieces) = elim (parse_parameter (strip piece)) [
  | none ↦ none
  | some p ↦ elim (parse_parameters pieces) [ none ↦ none | some ps ↦ some (p ∷ ps) ]
]

unfoldable pub text_eq : Text → Text → Bool
text_eq [] [] = true
text_eq (c ∷ s) (d ∷ t) = nat_eq c d && text_eq s t
text_eq _ _ = false

abbrev pub charset : Text
charset = codes "charset"

abbrev pub utf8 : Text
utf8 = codes "utf-8"

abbrev pub json_media : Text
json_media = codes "application/json"

abbrev pub names_charset : Text × Text → Bool
names_charset (name, value) = text_eq name charset

unfoldable pub is_json_utf8 : Text → List (Text × Text) → Bool
unfolding text_eq
is_json_utf8 media ((name, value) ∷ []) =
    text_eq media json_media && text_eq name charset && text_eq value utf8
is_json_utf8 media _ = false

unfoldable pub judge_parameters : Text → Option (List (Text × Text)) → Option String
unfolding is_json_utf8 count_if
judge_parameters media none = some "media-malformed"
judge_parameters media (some parsed) =
    if ltb 1 (count_if names_charset parsed)
    then some "media-duplicate"
    else if not (is_json_utf8 media parsed)
    then some "media-unsupported"
    else none

-- `value.split(";")` has a first piece.
unfoldable pub judge_pieces : List Text → Option String
unfolding strip lower any parse_parameters judge_parameters
judge_pieces [] = some "media-malformed"
judge_pieces (first ∷ pieces) =
    let media = lower (strip first) in
    if not (any is_slash media) || any is_space media
    then some "media-malformed"
    else judge_parameters media (parse_parameters pieces)

unfoldable pub judge_value : Text → Option String
unfolding any split strip judge_pieces
judge_value value =
    if is_empty value || any is_unprintable value
    then some "media-malformed"
    else let pieces = split b';' value in
      if any blank pieces then some "media-malformed" else judge_pieces pieces

unfoldable pub media_reason : List Text → Option String
unfolding judge_value
media_reason [] = some "media-missing"
media_reason (value ∷ []) = judge_value value
media_reason (value ∷ other ∷ rest) = some "media-duplicate"

accepts_json : media_reason (codes "Application/JSON; charset = UTF-8" ∷ []) ≡ none
unfolding media_reason
accepts_json = refl

refuses_html : media_reason (codes "text/html; charset=utf-8" ∷ []) ≡ some "media-unsupported"
unfolding media_reason
refuses_html = refl
