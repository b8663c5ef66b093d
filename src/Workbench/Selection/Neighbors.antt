-- ===== src/Workbench/Selection/Neighbors.antt =====
-- The neighbours that an entry of the graph lists, and what `neighbors_of` makes of it.
use sentinel_security_platfo.Base.{
  String, true, ◌||◌, none, some, List, [], ◌∷◌, ◌++◌, ◌≡◌, refl, inl, inr, any, arith, Bool-cases,
  Option-cases, eq_iff, ap,
}
use sentinel_security_platfo.Base.Dict.{Dict, lookup}
use sentinel_security_platfo.Base.Json.{
  Json, null, boolean, int, negative, float, string, array, object, Fields, Items, get, is_in,
  items,
}
use sentinel_security_platfo.Workbench.Selection.{is_true, known_list, known_texts, neighbors_of}

abbrev pub Subset : List String → List String → Type 0
Subset xs ys = (x : String) → is_in x xs ≡ true → is_in x ys ≡ true

abbrev pub as_texts : List String → List Json
as_texts [] = []
as_texts (t ∷ ts) = string t ∷ as_texts ts

-- The graph has an entry of the unit that is marked complete, by a Boolean and not by a truthy
-- value, and whose neighbours are exactly these texts, each a unit of the universe.
pub record HasNeighbors (graph : Dict Fields) (universe : List String) (unit : String)
    (ns : List String) : Type 0 where
  pub entry : Fields
  pub found : lookup unit graph ≡ some entry
  pub complete : get "complete" entry ≡ boolean true
  pub listed : Items
  pub neighbors : get "neighbors" entry ≡ array listed
  pub texts : items listed ≡ as_texts ns
  pub known : Subset ns universe

pub is_in-append :
    (x : String) (xs ys : List String) → is_in x (xs ++ ys) ≡ (is_in x xs || is_in x ys)
unfolding is_in any
is_in-append x [] ys = refl
is_in-append x (y ∷ xs) ys = ground (arith, is_in-append x xs ys)

known_texts-same :
    (known other : List String)
    → ((x : String) → is_in x known ≡ is_in x other)
    → (vs : List Json) → known_texts known vs ≡ known_texts other vs
unfolding known_texts
known_texts-same known other same [] = refl
known_texts-same known other same (null ∷ vs) = refl
known_texts-same known other same (boolean b ∷ vs) = refl
known_texts-same known other same (int n ∷ vs) = refl
known_texts-same known other same (negative n ∷ vs) = refl
known_texts-same known other same (float x ∷ vs) = refl
known_texts-same known other same (array xs ∷ vs) = refl
known_texts-same known other same (object fs ∷ vs) = refl
known_texts-same known other same (string t ∷ vs) =
    rw (same t, known_texts-same known other same vs) refl

known_list-same :
    (known other : List String)
    → ((x : String) → is_in x known ≡ is_in x other)
    → (v : Json) → known_list known v ≡ known_list other v
unfolding known_list
known_list-same known other same null = refl
known_list-same known other same (boolean b) = refl
known_list-same known other same (int n) = refl
known_list-same known other same (negative n) = refl
known_list-same known other same (float x) = refl
known_list-same known other same (string t) = refl
known_list-same known other same (object fs) = refl
known_list-same known other same (array vs) = known_texts-same known other same (items vs)

-- What is selected lies in the universe, so it adds nothing to what is known.
pub neighbors_of-known :
    (graph : Dict Fields) (universe selected : List String) (unit : String)
    → Subset selected universe
    → neighbors_of graph (selected ++ universe) unit ≡ neighbors_of graph universe unit
unfolding neighbors_of
neighbors_of-known graph universe selected unit inside =
    let same : (x : String) → is_in x (selected ++ universe) ≡ is_in x universe =
      λ x. ground (arith, is_in-append x selected universe, inside x) in
    elim (Option-cases (lookup unit graph)) [
      | inl e ↦ rw (neighbors_of, e) refl
      | inr (entry, e) ↦
          rw
            (
              neighbors_of,
              e,
              known_list-same (selected ++ universe) universe same (get "neighbors" entry),
            )
            refl
    ]

known_texts-Subset :
    (known : List String) (vs : List Json) (ts : List String)
    → known_texts known vs ≡ some ts
    → Subset ts known
unfolding known_texts is_in any
known_texts-Subset known [] ts h = λ x t. ground (arith, h, t)
known_texts-Subset known (null ∷ vs) ts h = cc
known_texts-Subset known (boolean b ∷ vs) ts h = cc
known_texts-Subset known (int n ∷ vs) ts h = cc
known_texts-Subset known (negative n ∷ vs) ts h = cc
known_texts-Subset known (float x ∷ vs) ts h = cc
known_texts-Subset known (array xs ∷ vs) ts h = cc
known_texts-Subset known (object fs ∷ vs) ts h = cc
known_texts-Subset known (string t ∷ vs) ts h = elim (Bool-cases (is_in t known)) [
  | inr off ↦ absurd (ground (arith, off, h))
  | inl e ↦ elim (Option-cases (known_texts known vs)) [
    | inl none_ ↦ absurd (ground (arith, e, none_, h))
    | inr (rest, f) ↦
        let shape : t ∷ rest ≡ ts = ground (arith, e, f, h) in
        rw (← shape)
          λ x found. ground (arith, e, found, known_texts-Subset known vs rest f x, eq_iff t x)
  ]
]

known_list-Subset :
    (known : List String) (v : Json) (ts : List String)
    → known_list known v ≡ some ts
    → Subset ts known
unfolding known_list
known_list-Subset known null ts h = cc
known_list-Subset known (boolean b) ts h = cc
known_list-Subset known (int n) ts h = cc
known_list-Subset known (negative n) ts h = cc
known_list-Subset known (float x) ts h = cc
known_list-Subset known (string t) ts h = cc
known_list-Subset known (object fs) ts h = cc
known_list-Subset known (array vs) ts h = known_texts-Subset known (items vs) ts h

neighbors_of-entry :
    (graph : Dict Fields) (known ns : List String) (unit : String) (entry : Fields)
    → lookup unit graph ≡ some entry
    → neighbors_of graph known unit ≡ some ns
    → known_list known (get "neighbors" entry) ≡ some ns
unfolding neighbors_of
neighbors_of-entry graph known ns unit entry e h = ground (arith, e, h)

neighbors_of-missing :
    (graph : Dict Fields) (known : List String) (unit : String)
    → lookup unit graph ≡ none
    → neighbors_of graph known unit ≡ none
unfolding neighbors_of
neighbors_of-missing graph known unit e = ground (arith, e)

known_texts-texts :
    (known : List String) (vs : List Json) (ts : List String)
    → known_texts known vs ≡ some ts
    → vs ≡ as_texts ts
unfolding known_texts
known_texts-texts known [] [] h = refl
known_texts-texts known [] (t ∷ ts) h = cc
known_texts-texts known (null ∷ vs) ts h = cc
known_texts-texts known (boolean b ∷ vs) ts h = cc
known_texts-texts known (int n ∷ vs) ts h = cc
known_texts-texts known (negative n ∷ vs) ts h = cc
known_texts-texts known (float x ∷ vs) ts h = cc
known_texts-texts known (array xs ∷ vs) ts h = cc
known_texts-texts known (object fs ∷ vs) ts h = cc
known_texts-texts known (string t ∷ vs) ts h = elim (Bool-cases (is_in t known)) [
  | inr off ↦ absurd (ground (arith, off, h))
  | inl e ↦ elim (Option-cases (known_texts known vs)) [
    | inl none_ ↦ absurd (ground (arith, e, none_, h))
    | inr (rest, f) ↦
        let shape : t ∷ rest ≡ ts = ground (arith, e, f, h) in
        rw (← shape) (ap (λ z. string t ∷ z) (known_texts-texts known vs rest f))
  ]
]

known_texts-as_texts :
    (known ts : List String) → Subset ts known → known_texts known (as_texts ts) ≡ some ts
unfolding known_texts is_in any
known_texts-as_texts known [] inside = refl
known_texts-as_texts known (t ∷ ts) inside =
    rw
      (
        inside t (ground (arith, eq_iff t t)),
        known_texts-as_texts known ts (λ x h. inside x (ground (arith, h))),
      )
      refl

known_list-array :
    (known : List String) (v : Json) (ts : List String)
    → known_list known v ≡ some ts
    → (vs : Items) × (v ≡ array vs) × (known_texts known (items vs) ≡ some ts)
unfolding known_list
known_list-array known null ts h = cc
known_list-array known (boolean b) ts h = cc
known_list-array known (int n) ts h = cc
known_list-array known (negative n) ts h = cc
known_list-array known (float x) ts h = cc
known_list-array known (string t) ts h = cc
known_list-array known (object fs) ts h = cc
known_list-array known (array vs) ts h = (vs, refl, h)

is_true-eq : (v : Json) → is_true v ≡ true → v ≡ boolean true
unfolding is_true
is_true-eq (boolean b) h = ap boolean h
is_true-eq null h = cc
is_true-eq (int n) h = cc
is_true-eq (negative n) h = cc
is_true-eq (float x) h = cc
is_true-eq (string t) h = cc
is_true-eq (array vs) h = cc
is_true-eq (object fs) h = cc

neighbors_of_complete :
    (graph : Dict Fields) (known ns : List String) (unit : String) (entry : Fields)
    → lookup unit graph ≡ some entry
    → neighbors_of graph known unit ≡ some ns
    → is_true (get "complete" entry) ≡ true
unfolding neighbors_of
neighbors_of_complete graph known ns unit entry e h = ground (arith, e, h)

pub neighbors_of-HasNeighbors :
    (graph : Dict Fields) (universe ns : List String) (unit : String)
    → neighbors_of graph universe unit ≡ some ns
    → HasNeighbors graph universe unit ns
neighbors_of-HasNeighbors graph universe ns unit h = elim (Option-cases (lookup unit graph)) [
  | inl e ↦ absurd (ground (arith, neighbors_of-missing graph universe unit e, h))
  | inr (entry, e) ↦
      let given = neighbors_of-entry graph universe ns unit entry e h in
      let (listed, neighbors, texts) = known_list-array universe (get "neighbors" entry) ns given in
      record {
        entry = entry;
        found = e;
        complete =
            is_true-eq (get "complete" entry)
              (neighbors_of_complete graph universe ns unit entry e h);
        listed = listed;
        neighbors = neighbors;
        texts = known_texts-texts universe (items listed) ns texts;
        known = known_list-Subset universe (get "neighbors" entry) ns given;
      }
]

pub HasNeighbors-neighbors_of :
    (graph : Dict Fields) (universe ns : List String) (unit : String)
    → HasNeighbors graph universe unit ns
    → neighbors_of graph universe unit ≡ some ns
unfolding neighbors_of known_list is_true
HasNeighbors-neighbors_of graph universe ns unit h =
    rw (h.found, neighbors_of, h.complete, h.neighbors, h.texts)
      (known_texts-as_texts universe ns h.known)

pub neighbors_of-Subset :
    (graph : Dict Fields) (known ns : List String) (unit : String)
    → neighbors_of graph known unit ≡ some ns
    → Subset ns known
neighbors_of-Subset graph known ns unit h = elim (Option-cases (lookup unit graph)) [
  | inl e ↦ absurd (ground (arith, neighbors_of-missing graph known unit e, h))
  | inr (entry, e) ↦
      known_list-Subset known (get "neighbors" entry) ns
        (neighbors_of-entry graph known ns unit entry e h)
]
