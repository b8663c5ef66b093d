-- ===== src/Charter/Guard/Prefix.antt =====
-- agent/charter_response_guard.py: `_bounded_prefix`, the preview's limits in scalars and bytes.
use sentinel_security_platfo.Base.{
  ℕ, ◌+◌, ◌≤◌, ◌<◌, ◌≡◌, refl, ◌⊎◌, inl, inr, Bool, true, false, not, ◌||◌, [], ◌∷◌, ◌++◌, length,
  nat_eq, ltb, if◌then◌else◌, arith, ap, Bool-cases, ◌↔◌,
}
use mathlib.Core.Path.{subst₂}
use sentinel_security_platfo.Charter.Guard.Media.{Text, text_eq}

abbrev pub preview_byte_limit : ℕ
preview_byte_limit = 512

abbrev pub preview_scalar_limit : ℕ
preview_scalar_limit = 256

-- len(character.encode("utf-8"))
unfoldable pub encoded_length : ℕ → ℕ
encoded_length c =
    if ltb c 0x80 then 1 else if ltb c 0x800 then 2 else if ltb c 0x10000 then 3 else 4

-- The loop: the prefix that is still added to `scalars` characters in `byte_count` bytes.
unfoldable pub prefix_from : ℕ → ℕ → Text → Text
unfolding encoded_length
prefix_from scalars byte_count [] = []
prefix_from scalars byte_count (c ∷ text) =
    let rest = c ∷ prefix_from (scalars + 1) (byte_count + encoded_length c) text in
    if nat_eq scalars preview_scalar_limit || ltb preview_byte_limit (byte_count + encoded_length c)
    then []
    else rest

unfoldable pub bounded_prefix : Text → Text × Bool
unfolding prefix_from text_eq
bounded_prefix text = let value = prefix_from 0 0 text in (value, not (text_eq value text))

unfoldable pub total_bytes : Text → ℕ
unfolding encoded_length
total_bytes [] = 0
total_bytes (c ∷ text) = encoded_length c + total_bytes text

-- What is left after the prefix begins with a character that does not fit.
abbrev pub Overflows : ℕ → ℕ → Text → Type 0
Overflows scalars byte_count [] = Unit
Overflows scalars byte_count (c ∷ rest) =
    (scalars ≡ preview_scalar_limit) ⊎ (preview_byte_limit < byte_count + encoded_length c)

-- A preview: the longest prefix of the text within both limits.
pub record IsPreview (text value : Text) : Type 0 where
  pub rest : Text
  pub splits : value ++ rest ≡ text
  pub scalars : length value ≤ preview_scalar_limit
  pub size : total_bytes value ≤ preview_byte_limit
  pub longest : Overflows (length value) (total_bytes value) rest

module _ (scalars byte_count : ℕ) where
  record IsPrefixFrom (text value : Text) : Type 0 where
    rest : Text
    splits : value ++ rest ≡ text
    count : scalars + length value ≤ preview_scalar_limit
    size : byte_count + total_bytes value ≤ preview_byte_limit
    longest : Overflows (scalars + length value) (byte_count + total_bytes value) rest

Overflows-at :
    (a a' b b' : ℕ) (rest : Text) → a ≡ a' → b ≡ b' → Overflows a b rest → Overflows a' b' rest
Overflows-at a a' b b' rest p q h = subst₂ (λ x y. Overflows x y rest) p q h

extend-IsPrefixFrom :
    (scalars byte_count c : ℕ) (text value : Text)
    → IsPrefixFrom (scalars + 1) (byte_count + encoded_length c) text value
    → IsPrefixFrom scalars byte_count (c ∷ text) (c ∷ value)
unfolding total_bytes
extend-IsPrefixFrom scalars byte_count c text value h = record {
  rest = h.rest;
  splits = ap (◌∷◌ c) h.splits;
  count = omega (arith, h.count);
  size = omega (arith, h.size);
  longest = Overflows-at _ _ _ _ h.rest (omega arith) (omega arith) h.longest;
}

stop-IsPrefixFrom :
    (scalars byte_count c : ℕ) (text : Text)
    → scalars ≤ preview_scalar_limit
    → byte_count ≤ preview_byte_limit
    → (scalars ≡ preview_scalar_limit) ⊎ (preview_byte_limit < byte_count + encoded_length c)
    → IsPrefixFrom scalars byte_count (c ∷ text) []
unfolding total_bytes
stop-IsPrefixFrom scalars byte_count c text hs hb full = record {
  rest = c ∷ text;
  splits = refl;
  count = omega arith;
  size = omega arith;
  longest = ground (arith, full);
}

abbrev is_full : ℕ → ℕ → ℕ → Bool
is_full scalars byte_count c =
    nat_eq scalars preview_scalar_limit || ltb preview_byte_limit (byte_count + encoded_length c)

prefix_from-IsPrefixFrom :
    (scalars byte_count : ℕ) (text : Text)
    → scalars ≤ preview_scalar_limit
    → byte_count ≤ preview_byte_limit
    → IsPrefixFrom scalars byte_count text (prefix_from scalars byte_count text)
unfolding prefix_from total_bytes
prefix_from-IsPrefixFrom scalars byte_count [] hs hb = record {
  rest = [];
  splits = refl;
  count = omega arith;
  size = omega arith;
  longest = tt;
}
prefix_from-IsPrefixFrom scalars byte_count (c ∷ text) hs hb =
    let ih = prefix_from-IsPrefixFrom (scalars + 1) (byte_count + encoded_length c) text in
    elim (Bool-cases (is_full scalars byte_count c)) [
      | inl full ↦ rw full (stop-IsPrefixFrom scalars byte_count c text hs hb (ground arith))
      | inr room ↦
          rw room
            (extend-IsPrefixFrom scalars byte_count c text _ (ih (ground arith) (ground arith)))
    ]

text_eq_iff : (s t : Text) → (text_eq s t ≡ true) ↔ (s ≡ t)
unfolding text_eq
text_eq_iff [] [] = ground arith
text_eq_iff [] (d ∷ t) = ground arith
text_eq_iff (c ∷ s) [] = ground arith
text_eq_iff (c ∷ s) (d ∷ t) = ground (arith, text_eq_iff s t)

-- The preview of a text is its longest prefix of at most 256 characters and 512 bytes of UTF-8,
-- and the truncation mark is set exactly when the preview is not the whole text.
pub bounded_prefix-IsPreview :
    (text : Text)
    → IsPreview text (bounded_prefix text).0
      × (((bounded_prefix text).1 ≡ false) ↔ ((bounded_prefix text).0 ≡ text))
unfolding bounded_prefix
bounded_prefix-IsPreview text =
    let h = prefix_from-IsPrefixFrom 0 0 text (omega arith) (omega arith) in
    let v = prefix_from 0 0 text in
    (
      record {
        rest = h.rest;
        splits = h.splits;
        scalars = omega (arith, h.count);
        size = omega (arith, h.size);
        longest = Overflows-at _ _ _ _ h.rest (omega arith) (omega arith) h.longest;
      },
      ground (arith, text_eq_iff v text),
    )
