-- ===== src/Charter/Guard/JsonMedia.antt =====
-- Which Content-Type occurrences `_media_reason` holds nothing against.
use sentinel_security_platfo.Base.{
  ◌≡◌, refl, Bool, true, false, not, ◌||◌, Option, none, some, List, [], ◌∷◌, any, count_if, nat_eq,
  arith, inl, inr, Bool-cases, Option-cases, codes, ap, ◌∙◌, ◌↔◌,
}
use sentinel_security_platfo.Charter.Guard.Media.{
  Text, is_space, is_unprintable, split, strip, lower, is_empty, blank, is_equals, is_slash,
  split_parameter, parse_parameter, parse_parameters, text_eq, charset, utf8, json_media,
  is_json_utf8, judge_parameters, judge_pieces, judge_value, media_reason,
}

-- There is one Content-Type occurrence: printable, and application/json with the one parameter
-- charset=utf-8, up to letter case and surrounding spaces.
pub record IsJsonMedia (content_types : List Text) : Type 0 where
  pub value : Text
  pub alone : content_types ≡ value ∷ []
  pub printable : any is_unprintable value ≡ false
  pub media : Text
  pub parameter : Text
  pub parts : split b';' value ≡ media ∷ parameter ∷ []
  pub json : lower (strip media) ≡ codes "application/json"
  pub equals_signs : count_if is_equals (strip parameter) ≡ 1
  pub name : Text
  pub given : Text
  pub assignment : split b'=' (strip parameter) ≡ name ∷ given ∷ []
  pub names_charset : lower (strip name) ≡ codes "charset"
  pub names_utf8 : lower (strip given) ≡ codes "utf-8"

text_eq-eq : (s t : Text) → text_eq s t ≡ true → s ≡ t
unfolding text_eq
text_eq-eq [] [] h = refl
text_eq-eq [] (d ∷ t) h = cc
text_eq-eq (c ∷ s) [] h = cc
text_eq-eq (c ∷ s) (d ∷ t) h =
    let same : c ≡ d = ground arith in
    let rest : text_eq s t ≡ true = ground arith in rw (same, text_eq-eq s t rest) refl

lower-is_empty : (t : Text) → is_empty (lower t) ≡ is_empty t
unfolding lower
lower-is_empty [] = refl
lower-is_empty (c ∷ t) = refl

lower-any_space : (t : Text) → any is_space (lower t) ≡ any is_space t
unfolding lower any
lower-any_space [] = refl
lower-any_space (c ∷ t) = ground (arith, lower-any_space t)

-- The first pass: a value that is held to nothing has two pieces, a media type and a parameter.
split_parameter-some :
    (pieces : List Text) (n v : Text)
    → split_parameter pieces ≡ some (n, v)
    → (name : Text) × (given : Text) × (pieces ≡ name ∷ given ∷ [])
      × (lower (strip name) ≡ n)
      × (lower (strip given) ≡ v)
unfolding split_parameter
split_parameter-some [] n v h = cc
split_parameter-some (a ∷ []) n v h = cc
split_parameter-some (a ∷ b ∷ c ∷ rest) n v h = cc
split_parameter-some (name ∷ given ∷ []) n v h =
    elim (Bool-cases
      (is_empty (strip name) || is_empty (strip given) || any is_space (strip given))) [
        | inl e ↦ absurd (ground (arith, e, h))
        | inr e ↦ (name, given, refl, ground (arith, e, h), ground (arith, e, h))
      ]

charset_parameter :
    (name given : Text)
    → lower (strip name) ≡ charset
    → lower (strip given) ≡ utf8
    → split_parameter (name ∷ given ∷ []) ≡ some (charset, utf8)
unfolding split_parameter any
charset_parameter name given n v =
    let named : is_empty (strip name) ≡ false = rw (← lower-is_empty (strip name), n) refl in
    let valued : is_empty (strip given) ≡ false = rw (← lower-is_empty (strip given), v) refl in
    let tight : any is_space (strip given) ≡ false = rw (← lower-any_space (strip given), v) refl in
    rw (named, valued, tight, n, v) refl

parse_parameter-some :
    (q n v : Text)
    → parse_parameter q ≡ some (n, v)
    → (count_if is_equals q ≡ 1) × (split_parameter (split b'=' q) ≡ some (n, v))
unfolding parse_parameter
parse_parameter-some q n v h = elim (Bool-cases (nat_eq (count_if is_equals q) 1)) [
  | inl e ↦ (ground (arith, e), rw e at h)
  | inr e ↦ absurd (ground (arith, e, h))
]

parse_parameters-one :
    (ps : List Text) (p : Text × Text)
    → parse_parameters ps ≡ some (p ∷ [])
    → (piece : Text) × (ps ≡ piece ∷ []) × (parse_parameter (strip piece) ≡ some p)
unfolding parse_parameters
parse_parameters-one [] p h = cc
parse_parameters-one (piece ∷ []) p h = elim (Option-cases (parse_parameter (strip piece))) [
  | inl e ↦ absurd (ground (arith, e, h))
  | inr (q, e) ↦ let same : q ≡ p = ground (arith, e, h) in (piece, refl, rw (← same) e)
]
parse_parameters-one (piece ∷ other ∷ ps) p h =
    elim (Option-cases (parse_parameter (strip piece))) [
      | inl e ↦ absurd (ground (arith, e, h))
      | inr (q, e) ↦ elim (Option-cases (parse_parameter (strip other))) [
        | inl f ↦ absurd (ground (arith, e, f, h))
        | inr (r, f) ↦ elim (Option-cases (parse_parameters ps)) [
          | inl g ↦ absurd (ground (arith, e, f, g, h))
          | inr (rs, g) ↦ absurd (ground (arith, e, f, g, h))
        ]
      ]
    ]

is_json_utf8-eq :
    (media : Text) (parsed : List (Text × Text))
    → is_json_utf8 media parsed ≡ true
    → (media ≡ json_media) × (parsed ≡ (charset, utf8) ∷ [])
unfolding is_json_utf8
is_json_utf8-eq media [] h = cc
is_json_utf8-eq media (p ∷ q ∷ rest) h = cc
is_json_utf8-eq media ((n, v) ∷ []) h = (
  text_eq-eq media json_media (ground arith),
  rw (text_eq-eq n charset (ground arith), text_eq-eq v utf8 (ground arith)) refl,
)

judge_parameters-none :
    (media : Text) (o : Option (List (Text × Text)))
    → judge_parameters media o ≡ none
    → (media ≡ json_media) × (o ≡ some ((charset, utf8) ∷ []))
unfolding judge_parameters
judge_parameters-none media none h = cc
judge_parameters-none media (some parsed) h = elim (Bool-cases (is_json_utf8 media parsed)) [
  | inl e ↦ let (same, listed) = is_json_utf8-eq media parsed e in (same, ap some listed)
  | inr e ↦ absurd (ground (arith, e, h))
]

judge_pieces-none :
    (pieces : List Text)
    → judge_pieces pieces ≡ none
    → (media : Text) × (parameter : Text) × (pieces ≡ media ∷ parameter ∷ [])
      × (lower (strip media) ≡ json_media)
      × (parse_parameter (strip parameter) ≡ some (charset, utf8))
unfolding judge_pieces
judge_pieces-none [] h = cc
judge_pieces-none (media ∷ ps) h =
    let m = lower (strip media) in
    elim (Bool-cases (not (any is_slash m) || any is_space m)) [
      | inl e ↦ absurd (ground (arith, e, h))
      | inr e ↦
          let (json, parsed) = judge_parameters-none m (parse_parameters ps) (rw e at h) in
          let (parameter, one, assigned) = parse_parameters-one ps (charset, utf8) parsed in
          (media, parameter, ap (λ z. media ∷ z) one, json, assigned)
    ]

judge_value-none :
    (value : Text)
    → judge_value value ≡ none
    → (any is_unprintable value ≡ false) × (judge_pieces (split b';' value) ≡ none)
unfolding judge_value
judge_value-none value h = elim (Bool-cases (is_empty value || any is_unprintable value)) [
  | inl e ↦ absurd (ground (arith, e, h))
  | inr e ↦ elim (Bool-cases (any blank (split b';' value))) [
    | inl f ↦ absurd (ground (arith, e, f, h))
    | inr f ↦ (second _ _ e, rw (e, f) at h)
  ]
]
  where
    second : (a b : Bool) → (a || b) ≡ false → b ≡ false
    second a b h = ground (arith, h)

media_reason-IsJsonMedia :
    (content_types : List Text) → media_reason content_types ≡ none → IsJsonMedia content_types
unfolding media_reason
media_reason-IsJsonMedia [] h = cc
media_reason-IsJsonMedia (a ∷ b ∷ rest) h = cc
media_reason-IsJsonMedia (value ∷ []) h =
    let (printable, judged) = judge_value-none value h in
    let (media, parameter, parts, json, assigned) = judge_pieces-none (split b';' value) judged in
    let (equals_signs, pair) = parse_parameter-some (strip parameter) charset utf8 assigned in
    let (name, given, assignment, names_charset, names_utf8) =
      split_parameter-some (split b'=' (strip parameter)) charset utf8 pair in
    record {
      value = value;
      alone = refl;
      printable = printable;
      media = media;
      parameter = parameter;
      parts = parts;
      json = json;
      equals_signs = equals_signs;
      name = name;
      given = given;
      assignment = assignment;
      names_charset = names_charset;
      names_utf8 = names_utf8;
    }

no_value : (a b : Text) → split b';' [] ≡ a ∷ b ∷ [] → ⊥
unfolding split
no_value a b h = cc

not_blank : (media : Text) → lower (strip media) ≡ json_media → blank media ≡ false
not_blank media h = rw (← lower-is_empty (strip media), h) refl

parameter_not_blank : (t : Text) → count_if is_equals t ≡ 1 → is_empty t ≡ false
unfolding count_if
parameter_not_blank [] h = absurd (omega (arith, h))
parameter_not_blank (c ∷ t) h = refl

one_parameter :
    (piece : Text) (p : Text × Text)
    → parse_parameter (strip piece) ≡ some p
    → parse_parameters (piece ∷ []) ≡ some (p ∷ [])
unfolding parse_parameters
one_parameter piece p h = ground (arith, h)

assigned :
    (q name given : Text)
    → count_if is_equals q ≡ 1
    → split b'=' q ≡ name ∷ given ∷ []
    → parse_parameter q ≡ split_parameter (name ∷ given ∷ [])
unfolding parse_parameter
assigned q name given one pieces = ground (arith, one, pieces)

parameter-parsed :
    {content_types : List Text} (h : IsJsonMedia content_types)
    → parse_parameters (h.parameter ∷ []) ≡ some ((charset, utf8) ∷ [])
parameter-parsed h =
    one_parameter h.parameter (charset, utf8)
      (assigned (strip h.parameter) h.name h.given h.equals_signs h.assignment
        ∙ charset_parameter h.name h.given h.names_charset h.names_utf8)

pieces-judged :
    {content_types : List Text} (h : IsJsonMedia content_types)
    → judge_pieces (h.media ∷ h.parameter ∷ []) ≡ none
unfolding judge_pieces judge_parameters any
pieces-judged h = rw (h.json, parameter-parsed h) refl

value-judged :
    {content_types : List Text} (h : IsJsonMedia content_types) → judge_value h.value ≡ none
unfolding judge_value any
value-judged h =
    rw
      (
        some_value h.value h.parts,
        h.printable,
        h.parts,
        not_blank h.media h.json,
        parameter_not_blank (strip h.parameter) h.equals_signs,
        pieces-judged h,
      )
      refl
  where
    some_value : {a b : Text} (v : Text) → split b';' v ≡ a ∷ b ∷ [] → is_empty v ≡ false
    some_value {a} {b} [] e = absurd (no_value a b e)
    some_value (c ∷ v) e = refl

-- `_media_reason` names no reason exactly for one such occurrence.
pub media_reason_iff :
    (content_types : List Text) → (media_reason content_types ≡ none) ↔ IsJsonMedia content_types
unfolding media_reason
media_reason_iff content_types =
    (media_reason-IsJsonMedia content_types, λ h. rw h.alone (value-judged h))
