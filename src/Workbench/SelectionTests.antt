-- ===== src/Workbench/SelectionTests.antt =====
-- The closure of a small graph.
use sentinel_security_platfo.Base.{
  String, ◌≡◌, refl, ◌↔◌, true, not, ◌==◌, some, List, [], ◌∷◌, ok, all, any,
}
use sentinel_security_platfo.Base.Dict.{Dict}
use sentinel_security_platfo.Base.Json.{
  Fields, end_fields, field, boolean, array, string, Items, end_items, item, is_in,
}
use sentinel_security_platfo.Workbench.Selection.{conservative_b1_closure, is_distinct}
use sentinel_security_platfo.Workbench.Selection.Closure.{Needs, conservative_b1_closure_iff}

abbrev entry : Items → Fields
entry neighbors = field "complete" (boolean true) (field "neighbors" (array neighbors) end_fields)

abbrev graph : Dict Fields
graph =
    ("a", entry (item (string "b") end_items))
    ∷ ("b", entry (item (string "a") end_items))
    ∷ ("c", entry (item (string "d") end_items))
    ∷ []

abbrev universe : List String
universe = "a" ∷ "b" ∷ "c" ∷ []

closes : conservative_b1_closure ("a" ∷ []) universe graph ≡ ok (some ("a" ∷ "b" ∷ []))
unfolding conservative_b1_closure
closes = refl

widens : conservative_b1_closure ("c" ∷ []) universe graph ≡ ok (some universe)
unfolding conservative_b1_closure
widens = refl

universe-labelled : all (λ u. not (u == "")) universe ≡ true
unfolding all
universe-labelled = refl

universe-distinct : is_distinct universe ≡ true
unfolding is_distinct
universe-distinct = refl

change-known : all (λ u. is_in u universe) ("a" ∷ []) ≡ true
unfolding all is_in any
change-known = refl

conservative_b1_closure_iff_example :
    (units : List String) × (conservative_b1_closure ("a" ∷ []) universe graph ≡ ok (some units))
    × ((x : String)
        → (is_in x units ≡ true) ↔ ((is_in x universe ≡ true) × Needs graph universe ("a" ∷ []) x))
conservative_b1_closure_iff_example =
    conservative_b1_closure_iff graph universe ("a" ∷ []) refl refl universe-labelled
      universe-distinct change-known
