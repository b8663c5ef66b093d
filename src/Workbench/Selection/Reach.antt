-- ===== src/Workbench/Selection/Reach.antt =====
-- The units that a change reaches along the graph's complete entries, as the artifact lists them.
use sentinel_security_platfo.Base.{
  ℕ, suc, ◌+◌, ◌≤◌, String, true, false, not, ◌&&◌, ◌||◌, List, [], ◌∷◌, ◌++◌, ◌≡◌, inl, inr, any,
  count_if, length, length-append, arith, Bool-cases, eq_iff,
}
use sentinel_security_platfo.Base.Dict.{Dict}
use sentinel_security_platfo.Base.Json.{Fields, is_in}
use sentinel_security_platfo.Workbench.Selection.{add_new}
use sentinel_security_platfo.Workbench.Selection.Neighbors.{HasNeighbors, Subset, is_in-append}

pub data Reaches (graph : Dict Fields) (universe changed : List String) : String → Type 0 where
  seed : (u : String) → is_in u changed ≡ true → Reaches graph universe changed u
  edge :
      (u v : String) (ns : List String)
      → Reaches graph universe changed v
      → HasNeighbors graph universe v ns
      → is_in u ns ≡ true
      → Reaches graph universe changed u

pub add_new-selected :
    (x : String) (ns selected queue : List String)
    → is_in x (add_new ns selected queue).0 ≡ (is_in x selected || is_in x ns)
unfolding add_new is_in any
add_new-selected x [] selected queue = ground arith
add_new-selected x (n ∷ ns) selected queue = elim (Bool-cases (is_in n selected)) [
  | inl e ↦ rw (add_new, e) ground (arith, e, eq_iff n x, add_new-selected x ns selected queue)
  | inr e ↦
      rw (add_new, e) ground
        (arith, e, eq_iff n x, add_new-selected x ns (n ∷ selected) (queue ++ n ∷ []))
]

-- What the queue has gained is what is newly selected.
pub add_new-queue :
    (x : String) (ns selected queue : List String)
    → is_in x (add_new ns selected queue).1
      ≡ (is_in x queue || (not (is_in x selected) && is_in x ns))
unfolding add_new is_in any
add_new-queue x [] selected queue = ground arith
add_new-queue x (n ∷ ns) selected queue = elim (Bool-cases (is_in n selected)) [
  | inl e ↦ rw (add_new, e) ground (arith, e, eq_iff n x, add_new-queue x ns selected queue)
  | inr e ↦
      rw (add_new, e) ground
        (
          arith,
          e,
          eq_iff n x,
          is_in-append x queue (n ∷ []),
          add_new-queue x ns (n ∷ selected) (queue ++ n ∷ []),
        )
]

-- The units that are not selected.
abbrev pub unselected : List String → List String → ℕ
unselected universe selected = count_if (λ u. not (is_in u selected)) universe

unselected-le :
    (n : String) (universe selected : List String)
    → unselected universe (n ∷ selected) ≤ unselected universe selected
unfolding count_if is_in any
unselected-le n [] selected = omega arith
unselected-le n (u ∷ universe) selected = ground (arith, unselected-le n universe selected)

unselected-less :
    (n : String) (universe selected : List String)
    → is_in n universe ≡ true
    → is_in n selected ≡ false
    → suc (unselected universe (n ∷ selected)) ≤ unselected universe selected
unfolding count_if is_in any
unselected-less n [] selected here new = ground arith
unselected-less n (u ∷ universe) selected here new = ground (
  arith,
  new,
  eq_iff u n,
  eq_iff n u,
  unselected-le n universe selected,
  unselected-less n universe selected,
)

-- Each unit that enters the queue is one that was not selected.
pub add_new-measure :
    (universe ns selected queue : List String)
    → Subset ns universe
    → unselected universe (add_new ns selected queue).0 + length (add_new ns selected queue).1
      ≤ unselected universe selected + length queue
unfolding add_new
add_new-measure universe [] selected queue inside = omega arith
add_new-measure universe (n ∷ ns) selected queue inside =
    let rest : Subset ns universe = λ x h. inside x (ground (arith, h)) in
    elim (Bool-cases (is_in n selected)) [
      | inl e ↦ rw (add_new, e) (add_new-measure universe ns selected queue rest)
      | inr e ↦
          rw (add_new, e) omega
            (
              arith,
              add_new-measure universe ns (n ∷ selected) (queue ++ n ∷ []) rest,
              unselected-less n universe selected (inside n (ground (arith, eq_iff n n))) e,
              length-append queue (n ∷ []),
            )
    ]

pub unselected_bound :
    (universe selected : List String) → unselected universe selected ≤ length universe
unfolding count_if
unselected_bound [] selected = omega arith
unselected_bound (u ∷ universe) selected = ground (arith, unselected_bound universe selected)
