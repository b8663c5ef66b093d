-- ===== src/Workbench/Selection.antt =====
-- workbench/selection.py: `conservative_b1_closure`, the units that B1 reviews. `changed_units`, a
-- set, is the sorted list of its elements; a mapping of the graph is a dictionary of JSON objects.
pub mod Neighbors
pub mod Reach
pub mod Visiting
pub mod Closure
use sentinel_security_platfo.Base.{
  ℕ, zero, suc, ◌+◌, String, Bool, true, false, not, ◌&&◌, ◌||◌, Option, none, some, List, [], ◌∷◌,
  ◌++◌, Result, ok, err, all, any, length, ◌==◌, if◌then◌else◌,
}
use sentinel_security_platfo.Base.Dict.{Dict, lookup}
use sentinel_security_platfo.Base.Json.{
  Json, null, boolean, int, negative, float, string, array, object, Fields, get, is_in, items,
}

pub data SelectionViolation : Type 0 where
  incomplete_universe unknown_change : SelectionViolation

-- No text stands twice: `len(tuple(dict.fromkeys(texts))) == len(texts)`.
unfoldable pub is_distinct : List String → Bool
unfolding is_in
is_distinct [] = true
is_distinct (x ∷ xs) = not (is_in x xs) && is_distinct xs

-- The neighbours, when each is a text that is known.
unfoldable pub known_texts : List String → List Json → Option (List String)
unfolding is_in
known_texts known [] = some []
known_texts known (string t ∷ vs) =
    let rest = known_texts known vs in
    if is_in t known then elim rest [ none ↦ none | some ts ↦ some (t ∷ ts) ] else none
known_texts known (_ ∷ vs) = none

unfoldable pub known_list : List String → Json → Option (List String)
unfolding known_texts
known_list known (array vs) = known_texts known (items vs)
known_list known _ = none

-- `is True`
unfoldable pub is_true : Json → Bool
is_true (boolean b) = b
is_true _ = false

-- The neighbours of a unit, or none where the evidence is incomplete.
unfoldable pub neighbors_of : Dict Fields → List String → String → Option (List String)
unfolding lookup get known_list is_true
neighbors_of graph known unit = elim (lookup unit graph) [
  | none ↦ none
  | some entry ↦
      if is_true (get "complete" entry) then known_list known (get "neighbors" entry) else none
]

abbrev add_one : String → List String → List String → List String × List String
add_one n selected queue =
    if is_in n selected then (selected, queue) else (n ∷ selected, queue ++ n ∷ [])

-- The `for` over the neighbours: what is selected, and the queue.
unfoldable pub add_new : List String → List String → List String → List String × List String
unfolding is_in
add_new [] selected queue = (selected, queue)
add_new (n ∷ ns) selected queue =
    let (more, later) = add_one n selected queue in add_new ns more later

-- How the `while` ends: out of units, at incomplete evidence, or out of fuel.
pub data Visit : Type 0 where
  closed : List String → Visit
  incomplete out_of_fuel : Visit

unfoldable pub visit : Dict Fields → List String → ℕ → List String → List String → Visit
unfolding neighbors_of add_new
visit graph universe fuel [] selected = closed selected
visit graph universe zero (unit ∷ queue) selected = out_of_fuel
visit graph universe (suc fuel) (unit ∷ queue) selected =
    elim (neighbors_of graph (selected ++ universe) unit) [
      | none ↦ incomplete
      | some ns ↦
          let (more, later) = add_new ns selected queue in visit graph universe fuel later more
    ]

unfoldable pub selected_of : List String → List String → List String
unfolding is_in
selected_of [] selected = []
selected_of (u ∷ universe) selected =
    let rest = selected_of universe selected in if is_in u selected then u ∷ rest else rest

unfoldable pub closure_of : List String → Visit → Option (List String)
unfolding selected_of
closure_of universe (closed selected) = some (selected_of universe selected)
closure_of universe incomplete = some universe
closure_of universe out_of_fuel = none

abbrev is_empty : List String → Bool
is_empty [] = true
is_empty (x ∷ xs) = false

-- `some units`, or none without enough fuel, which does not happen.
unfoldable pub conservative_b1_closure :
    List String → List String → Dict Fields → Result SelectionViolation (Option (List String))
unfolding is_distinct visit closure_of is_in all
conservative_b1_closure changed universe graph =
    if is_empty changed || is_empty universe || not (all (λ u. not (u == "")) universe)
    then err incomplete_universe
    else if not (is_distinct universe && all (λ u. is_in u universe) changed)
    then err unknown_change
    else ok (
        closure_of universe
          (visit graph universe (length universe + length changed) changed changed))
