-- ===== src/Workbench/Truth/Attribution.antt =====
-- What an admitted manifest means for the scoring: each unit counts for one vulnerability.
use sentinel_security_platfo.Base.{
  String, ◌≡◌, refl, inl, inr, Bool, true, false, none, some, List, [], ◌∷◌, ◌++◌, ok, ◌>>=◌,
  then-ok, ◌∙◌, All, any, arith, ◌==◌, if◌then◌else◌, Bool-cases, eq_iff,
}
use mathlib.Core.Path.{subst}
use sentinel_security_platfo.Base.Json.{
  Json, null, boolean, int, negative, float, string, array, object, Fields, is_in,
}
use sentinel_security_platfo.Base.Table.{find}
use sentinel_security_platfo.Workbench.Selection.Neighbors.{is_in-append}
use sentinel_security_platfo.Workbench.Truth.{
  Defect, Entry, TruthManifest, add_alternatives, index_defects, unit_key,
}
use sentinel_security_platfo.Workbench.Truth.Manifest.{
  Checked, admit_defect, admit_defects, check_defect, from_mapping, header_of, listed_defects,
  manifest, labelled_defect, units_of,
}

-- A unit of some defect.
abbrev is_claimed : String → List Defect → Bool
is_claimed u ds = any (λ d. is_in u (units_of d)) ds

-- The index of one defect's alternatives, over what was there.
add_alternatives-find :
    (v u : String) (units : List String) (entries : List Entry)
    → find unit_key u (add_alternatives v units entries) ≡ (
        if is_in u units
        then some (record { unit = u; vulnerability = v })
        else find unit_key u entries)
unfolding add_alternatives find is_in any
add_alternatives-find v u [] entries = refl
add_alternatives-find v u (x ∷ units) entries = elim (Bool-cases (x == u)) [
  | inl e ↦
      let same : x ≡ u = (eq_iff x u).0 e in
      rw
        (
          add_alternatives-find v u units (record { unit = x; vulnerability = v } ∷ entries),
          e,
          same,
        )
        ground arith
  | inr e ↦
      rw (add_alternatives-find v u units (record { unit = x; vulnerability = v } ∷ entries), e)
        refl
]

-- The units of a defect are new, and none is a negative.
abbrev IsApart : List String → List String → Defect → Type 0
IsApart negatives claimed d =
    (u : String)
    → is_in u (units_of d) ≡ true
    → (is_in u negatives ≡ false) × (is_in u claimed ≡ false)

none_in :
    (u : String) (xs ys : List String)
    → any (λ x. is_in x ys) xs ≡ false
    → is_in u xs ≡ true
    → is_in u ys ≡ false
unfolding any is_in
none_in u [] ys h here = ground (arith, here)
none_in u (x ∷ xs) ys h here = ground (arith, here, h, none_in u xs ys, eq_iff x u)

check_defect-IsApart :
    (negatives claimed : List String) (d : Defect)
    → check_defect negatives claimed d ≡ ok tt
    → IsApart negatives claimed d
unfolding check_defect
check_defect-IsApart negatives claimed d h u here = (
  none_in u (units_of d) negatives (ground (arith, h)) here,
  none_in u (units_of d) claimed (ground (arith, h)) here,
)

admit_defect-IsApart :
    (negatives seen claimed : List String) (v : Json) (d : Defect)
    → admit_defect negatives seen claimed v ≡ ok d
    → IsApart negatives claimed d
unfolding admit_defect
admit_defect-IsApart negatives seen claimed (object fs) d h =
    let (d0, _, rest) =
      then-ok (labelled_defect seen fs) (λ x. check_defect negatives claimed x >>= λ _. ok x) d h in
    let (u, checked, same) = then-ok (check_defect negatives claimed d0) (λ _. ok d0) d rest in
    let found : d0 ≡ d = ground (arith, same) in
    subst (IsApart negatives claimed) found (check_defect-IsApart negatives claimed d0 checked)
admit_defect-IsApart negatives seen claimed null d h = cc
admit_defect-IsApart negatives seen claimed (boolean b) d h = cc
admit_defect-IsApart negatives seen claimed (int n) d h = cc
admit_defect-IsApart negatives seen claimed (negative n) d h = cc
admit_defect-IsApart negatives seen claimed (float x) d h = cc
admit_defect-IsApart negatives seen claimed (string t) d h = cc
admit_defect-IsApart negatives seen claimed (array vs) d h = cc

-- The index with one defect more.
abbrev with_defect : Defect → List Entry → List Entry
with_defect d entries =
    add_alternatives d.vulnerability_id d.allowed_alternatives
      (record { unit = d.canonical_unit_id; vulnerability = d.vulnerability_id } ∷ entries)

with_defect-find :
    (u : String) (d : Defect) (entries : List Entry)
    → find unit_key u (with_defect d entries) ≡ (
        if is_in u (units_of d)
        then some (record { unit = u; vulnerability = d.vulnerability_id })
        else find unit_key u entries)
unfolding find is_in any
with_defect-find u d entries = elim (Bool-cases (d.canonical_unit_id == u)) [
  | inl e ↦
      let same : d.canonical_unit_id ≡ u = (eq_iff d.canonical_unit_id u).0 e in
      rw
        (
          add_alternatives-find d.vulnerability_id u d.allowed_alternatives
              (record { unit = d.canonical_unit_id; vulnerability = d.vulnerability_id } ∷ entries),
          e,
          same,
        )
        ground arith
  | inr e ↦
      rw
        (
          add_alternatives-find d.vulnerability_id u d.allowed_alternatives
              (record { unit = d.canonical_unit_id; vulnerability = d.vulnerability_id } ∷ entries),
          e,
        )
        refl
]

-- A unit of no further defect keeps what the index says of it.
index_defects-other :
    (u : String) (ds : List Defect) (entries : List Entry)
    → is_claimed u ds ≡ false
    → find unit_key u (index_defects ds entries) ≡ find unit_key u entries
unfolding index_defects any
index_defects-other u [] entries h = refl
index_defects-other u (d ∷ ds) entries h =
    ground
      (arith, h, index_defects-other u ds (with_defect d entries), with_defect-find u d entries)

-- Each unit of the defect is attributed to it.
abbrev IsAttributed : List Entry → Defect → Type 0
IsAttributed entries d =
    (u : String)
    → is_in u (units_of d) ≡ true
    → find unit_key u entries ≡ some (record { unit = u; vulnerability = d.vulnerability_id })

-- Every unit of the defects is new, and none is a negative.
abbrev AreApart : List String → List String → List Defect → Type 0
AreApart negatives claimed ds =
    (u : String) → is_claimed u ds ≡ true → (is_in u negatives ≡ false) × (is_in u claimed ≡ false)

abbrev Admits : List String → List String → List Entry → List Defect → Type 0
Admits negatives claimed entries ds =
    All (IsAttributed (index_defects ds entries)) ds × AreApart negatives claimed ds

admit_one :
    (negatives claimed : List String) (entries : List Entry) (d : Defect) (ds : List Defect)
    → IsApart negatives claimed d
    → Admits negatives (units_of d ++ claimed) (with_defect d entries) ds
    → Admits negatives claimed entries (d ∷ ds)
unfolding index_defects any
admit_one negatives claimed entries d ds apart (attributed, rest) = (
  (
    λ u here.
        let alone : is_claimed u ds ≡ false =
          ground (arith, here, rest u, is_in-append u (units_of d) claimed) in
        index_defects-other u ds (with_defect d entries) alone
        ∙ (rw (with_defect-find u d entries, here) refl),
    attributed,
  ),
  λ u h. elim (Bool-cases (is_in u (units_of d))) [
    | inl here ↦ apart u here
    | inr off ↦
        let later : is_claimed u ds ≡ true = ground (arith, h, off) in
        let (clear, fresh) = rest u later in
        (clear, ground (arith, fresh, is_in-append u (units_of d) claimed))
  ],
)

admit_defects-Admits :
    (negatives seen claimed : List String) (vs : List Json) (ds : List Defect)
    (entries : List Entry)
    → admit_defects negatives seen claimed vs ≡ ok ds
    → Admits negatives claimed entries ds
unfolding admit_defects any
admit_defects-Admits negatives seen claimed [] ds entries h =
    let none_left : [] ≡ ds = ground (arith, h) in
    subst (Admits negatives claimed entries) none_left (tt, λ u c. absurd (ground (arith, c)))
admit_defects-Admits negatives seen claimed (v ∷ vs) ds entries h =
    let (d, admitted, more) =
      then-ok (admit_defect negatives seen claimed v)
        (λ x.
          admit_defects negatives (x.vulnerability_id ∷ seen) (units_of x ++ claimed) vs >>= λ xs.
          ok (x ∷ xs))
        ds h in
    let (later, rest, same) =
      then-ok (admit_defects negatives (d.vulnerability_id ∷ seen) (units_of d ++ claimed) vs)
        (λ xs. ok (d ∷ xs)) ds more in
    let shape : d ∷ later ≡ ds = ground (arith, same) in
    subst (Admits negatives claimed entries) shape (
      admit_one negatives claimed entries d later
        (admit_defect-IsApart negatives seen claimed v d admitted)
        (admit_defects-Admits negatives (d.vulnerability_id ∷ seen) (units_of d ++ claimed) vs later
          (with_defect d entries) rest))

abbrev pub Attributes : TruthManifest → Type 0
Attributes truth =
    All (IsAttributed (index_defects truth.defects [])) truth.defects
    × ((u : String)
        → is_in u truth.negative_universe_unit_ids ≡ true
        → find unit_key u (index_defects truth.defects []) ≡ none)

attributes :
    (negatives : List String) (ds : List Defect)
    → Admits negatives [] [] ds
    → Attributes (manifest negatives ds)
unfolding find
attributes negatives ds (attributed, apart) = (
  attributed,
  λ u bad. elim (Bool-cases (is_claimed u ds)) [
    | inr off ↦ index_defects-other u ds [] off
    | inl here ↦ let (clear, _) = apart u here in absurd (ground (arith, bad, clear))
  ],
)

same_manifest :
    (c e : String) (a b : TruthManifest)
    → Path (Checked (String × TruthManifest)) (ok (c, a)) (ok (e, b))
    → a ≡ b
same_manifest c e a b h = ground (arith, h)

-- In a manifest that is admitted, the scoring attributes each unit of a defect, canonical or an
-- alternative, to that defect's vulnerability, and an adjudicated negative to none.
pub from_mapping-IsAttributed :
    (data_ : Fields) (candidate : String) (truth : TruthManifest)
    → from_mapping data_ ≡ ok (candidate, truth)
    → Attributes truth
unfolding from_mapping
from_mapping-IsAttributed data_ candidate truth h =
    let ((digest, negatives), _, h0) =
      then-ok (header_of data_)
        (λ (c, ns).
          listed_defects data_ >>= λ vs. admit_defects ns [] [] vs >>= λ ds. ok (c, manifest ns ds))
        (candidate, truth) h in
    let (vs, _, h1) =
      then-ok (listed_defects data_)
        (λ vs. admit_defects negatives [] [] vs >>= λ ds. ok (digest, manifest negatives ds))
        (candidate, truth) h0 in
    let (ds, admitted, h2) =
      then-ok (admit_defects negatives [] [] vs) (λ ds. ok (digest, manifest negatives ds))
        (candidate, truth) h1 in
    let shape : manifest negatives ds ≡ truth =
      same_manifest digest candidate (manifest negatives ds) truth h2 in
    subst Attributes shape
      (attributes negatives ds (admit_defects-Admits negatives [] [] vs ds [] admitted))
