-- ===== src/Workbench/Truth/Places.antt =====
-- Where the loop of `match_worklist` puts each proposal.
use sentinel_security_platfo.Base.{
  String, ◌≡◌, refl, ◌∙◌, inl, inr, false, ◌||◌, Option, none, some, List, [], ◌∷◌, ◌++◌, any,
  arith, ◌==◌, eq_iff, Bool-cases, Bool, not, ◌&&◌, is_some, Option-cases, ap, sym, if◌then◌else◌,
}
use sentinel_security_platfo.Base.Table.{find}
use sentinel_security_platfo.Workbench.Truth.{
  TruthManifest, is_in, Entry, unit_key, Tally, tally_unit, tally_units, index_defects,
}

unfoldable pub keep : (String → Bool) → List String → List String
keep test [] = []
keep test (x ∷ xs) = let rest = keep test xs in if test x then x ∷ rest else rest

append-snoc : (xs ys : List String) (x : String) → (xs ++ (x ∷ [])) ++ ys ≡ xs ++ (x ∷ ys)
append-snoc [] ys x = refl
append-snoc (y ∷ xs) ys x = ap (λ z. y ∷ z) (append-snoc xs ys x)

-- The places of the proposals, with the index of the defects. Nothing here looks at a tally.
module _ (truth : TruthManifest) where
  -- The entry of a unit in the index of the manifest's defects.
  abbrev pub entry_of : String → Option Entry
  entry_of u = find unit_key u (index_defects truth.defects [])

  abbrev is_for : String → Option Entry → Bool
  is_for v none = false
  is_for v (some e) = e.vulnerability == v

  -- The unit lies at the vulnerability.
  abbrev pub lies_at : String → String → Bool
  lies_at v u = is_for v (entry_of u)

  abbrev pub is_clear : String → Bool
  is_clear u = not (is_some (entry_of u)) && is_in truth.negative_universe_unit_ids u

  abbrev pub is_unseen : String → Bool
  is_unseen u = not (is_some (entry_of u)) && not (is_in truth.negative_universe_unit_ids u)

  abbrev place_first : List String → Option Entry → List String → List String
  place_first before none rest = rest
  place_first before (some e) rest =
      if any (lies_at e.vulnerability) before then rest else e.vulnerability ∷ rest

  abbrev place_repeat : List String → String → Option Entry → List String → List String
  place_repeat before u none rest = rest
  place_repeat before u (some e) rest =
      if any (lies_at e.vulnerability) before then u ∷ rest else rest

  -- The vulnerabilities at which a proposal lies and none of those before it.
  unfoldable pub first_hits : List String → List String → List String
  first_hits before [] = []
  first_hits before (u ∷ units) =
      place_first before (entry_of u) (first_hits (before ++ (u ∷ [])) units)

  -- The proposals that lie at a vulnerability at which one before them lies.
  unfoldable pub repeated_hits : List String → List String → List String
  repeated_hits before [] = []
  repeated_hits before (u ∷ units) =
      place_repeat before u (entry_of u) (repeated_hits (before ++ (u ∷ [])) units)

  any-snoc :
      (test : String → Bool) (xs : List String) (x : String)
      → any test (xs ++ (x ∷ [])) ≡ (any test xs || test x)
  unfolding any
  any-snoc test [] x = ground arith
  any-snoc test (y ∷ xs) x = ground (arith, any-snoc test xs x)

  -- The tally after some proposals has claimed what they lie at.
  abbrev pub Claims : List String → Tally → Type 0
  Claims before t = (v : String) → is_in t.claimed v ≡ any (lies_at v) before

  -- What the tally after the rest of the proposals is, from what it is before.
  abbrev pub IsPlaced : List String → List String → Tally → Tally → Type 0
  IsPlaced before units t r =
      (r.recalled ≡ t.recalled ++ first_hits before units)
      × (r.duplicates ≡ t.duplicates ++ repeated_hits before units)
      × (r.negatives ≡ t.negatives ++ keep is_clear units)
      × (r.unmeasured ≡ t.unmeasured ++ keep is_unseen units)

  Claims-tally_unit :
      (before : List String) (u : String) (t : Tally)
      → Claims before t
      → Claims (before ++ (u ∷ [])) (tally_unit truth u (entry_of u) t)
  unfolding tally_unit is_in any
  Claims-tally_unit before u t h = λ v. elim (Option-cases (entry_of u)) [
    | inl e ↦ elim (Bool-cases (is_in truth.negative_universe_unit_ids u)) [
      | inl n ↦ rw (e, n) ground (arith, any-snoc (lies_at v) before u, e, h v)
      | inr n ↦ rw (e, n) ground (arith, any-snoc (lies_at v) before u, e, h v)
    ]
    | inr (d, e) ↦ elim (Bool-cases (is_in t.claimed d.vulnerability)) [
      | inl c ↦
          rw (e, c) ground
            (arith, any-snoc (lies_at v) before u, e, h v, c, eq_iff d.vulnerability v)
      | inr c ↦ rw (e, c) ground (arith, any-snoc (lies_at v) before u, e, h v)
    ]
  ]

  -- The first proposal goes to one of the four lists, and the rest follow.
  one-IsPlaced :
      (before : List String) (u : String) (units : List String) (t r : Tally)
      → Claims before t
      → IsPlaced (before ++ (u ∷ [])) units (tally_unit truth u (entry_of u) t) r
      → IsPlaced before (u ∷ units) t r
  unfolding tally_unit keep first_hits repeated_hits
  one-IsPlaced before u units t r h placed = elim (Option-cases (entry_of u)) [
    | inl e ↦ elim (Bool-cases (is_in truth.negative_universe_unit_ids u)) [
      | inl n ↦
          let (a, b, c, d) = rw (e, n) at placed in
          rw (e, n) (a, b, c ∙ append-snoc t.negatives (keep is_clear units) u, d)
      | inr n ↦
          let (a, b, c, d) = rw (e, n) at placed in
          rw (e, n) (a, b, c, d ∙ append-snoc t.unmeasured (keep is_unseen units) u)
    ]
    | inr (entry, e) ↦ elim (Bool-cases (is_in t.claimed entry.vulnerability)) [
      | inl again ↦
          let (a, b, c, d) = rw (e, again) at placed in
          let hit = sym (h entry.vulnerability) ∙ again in
          rw (e, hit)
            (a, b ∙ append-snoc t.duplicates (repeated_hits (before ++ (u ∷ [])) units) u, c, d)
      | inr first ↦
          let (a, b, c, d) = rw (e, first) at placed in
          let miss = sym (h entry.vulnerability) ∙ first in
          rw (e, miss)
            (
              a
                  ∙ append-snoc t.recalled (first_hits (before ++ (u ∷ [])) units)
                      entry.vulnerability,
              b,
              c,
              d,
            )
    ]
  ]

  append-nil : (xs : List String) → xs ≡ xs ++ []
  append-nil [] = refl
  append-nil (x ∷ xs) = ap (λ z. x ∷ z) (append-nil xs)

  pub tally_units-IsPlaced :
      (before units : List String) (t : Tally)
      → Claims before t
      → IsPlaced before units t (tally_units truth (index_defects truth.defects []) units t)
  unfolding tally_units keep first_hits repeated_hits
  tally_units-IsPlaced before [] t h = (
    append-nil t.recalled,
    append-nil t.duplicates,
    append-nil t.negatives,
    append-nil t.unmeasured,
  )
  tally_units-IsPlaced before (u ∷ units) t h =
      one-IsPlaced before u units t
        (tally_units truth (index_defects truth.defects []) units
          (tally_unit truth u (entry_of u) t))
        h
        (tally_units-IsPlaced (before ++ (u ∷ [])) units (tally_unit truth u (entry_of u) t)
          (Claims-tally_unit before u t h))
