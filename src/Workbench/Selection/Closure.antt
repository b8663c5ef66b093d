-- ===== src/Workbench/Selection/Closure.antt =====
-- What `conservative_b1_closure` selects.
use sentinel_security_platfo.Base.{
  ◌+◌, String, Bool, true, false, not, ◌&&◌, Option, none, some, List, [], ◌∷◌, ◌≡◌, refl, ◌⊎◌, ◌↔◌,
  inl, inr, any, all, length, arith, ◌==◌, eq_iff, ok,
}
use sentinel_security_platfo.Base.Dict.{Dict}
use sentinel_security_platfo.Base.Json.{Fields, is_in}
use sentinel_security_platfo.Workbench.Selection.{
  Visit, closure_of, conservative_b1_closure, is_distinct, neighbors_of, selected_of, is_empty,
}
use sentinel_security_platfo.Workbench.Selection.Neighbors.{
  HasNeighbors, HasNeighbors-neighbors_of, Subset, neighbors_of-HasNeighbors,
}
use sentinel_security_platfo.Workbench.Selection.Reach.{Reaches, unselected_bound}
use sentinel_security_platfo.Workbench.Selection.Visiting.{
  IsVisited, full, partial, start, visit-IsVisited, closed-reached,
}

selected_of-is_in :
    (x : String) (universe selected : List String)
    → is_in x (selected_of universe selected) ≡ (is_in x universe && is_in x selected)
unfolding selected_of is_in any
selected_of-is_in x [] selected = refl
selected_of-is_in x (u ∷ universe) selected =
    ground (arith, selected_of-is_in x universe selected, eq_iff u x)

all-Subset :
    (xs universe : List String) → all (λ u. is_in u universe) xs ≡ true → Subset xs universe
unfolding all is_in any
all-Subset [] universe h = λ x e. ground (arith, e)
all-Subset (y ∷ xs) universe h =
    λ x e. ground (arith, h, e, eq_iff y x, all-Subset xs universe (ground (arith, h)) x)

-- The graph does not list the unit's neighbours: no entry, one not marked complete, or neighbours
-- that are no list of units of the universe.
abbrev pub IsIncomplete : Dict Fields → List String → String → Type 0
IsIncomplete graph universe v = (ns : List String) → ¬ HasNeighbors graph universe v ns

-- B1 has to review the unit: a change reaches it, or reaches incomplete evidence.
abbrev pub Needs : Dict Fields → List String → List String → String → Type 0
Needs graph universe changed x =
    Reaches graph universe changed x
    ⊎ ((v : String) × Reaches graph universe changed v × IsIncomplete graph universe v)

both_true : (a b : Bool) → (a && b) ≡ true → (a ≡ true) × (b ≡ true)
both_true a b h = (ground arith, ground arith)

none_found : (ns : List String) (found : Option (List String)) → found ≡ none → found ≡ some ns → ⊥
none_found ns found missing here = ground (arith, missing, here)

-- The units that the loop's outcome selects are those of the universe that B1 has to review.
IsVisited-Needs :
    (graph : Dict Fields) (universe changed : List String) {v : Visit}
    → IsVisited graph universe changed v
    → (units : List String) × (closure_of universe v ≡ some units)
      × ((x : String)
          → (is_in x units ≡ true) ↔ ((is_in x universe ≡ true) × Needs graph universe changed x))
unfolding closure_of
IsVisited-Needs graph universe changed (full selected seeds sound expand) =
    let closed_ = closed-reached graph universe changed selected seeds expand in
    (
      selected_of universe selected,
      refl,
      λ x. (
        (λ e.
            let both =
              both_true (is_in x universe) (is_in x selected)
                (rw (← selected_of-is_in x universe selected) e) in
            (both.0, inl (sound x both.1))),
        (λ h.
            rw (selected_of-is_in x universe selected, h.0)
              elim h.1 [
                | inl reached ↦ closed_ x reached
                | inr (v, reached, missing) ↦
                    let (ns, found, _) = expand v (closed_ v reached) in
                    absurd (missing ns (neighbors_of-HasNeighbors graph universe ns v found))
              ]),
      ),
    )
IsVisited-Needs graph universe changed (partial v reached missing) =
    let incomplete_ : IsIncomplete graph universe v = λ ns h.
      none_found ns (neighbors_of graph universe v) missing
        (HasNeighbors-neighbors_of graph universe ns v h) in
    (universe, refl, λ x. ((λ e. (e, inr (v, reached, incomplete_))), (λ h. h.0)))

-- For a universe of distinct, labelled units that has the changed ones, the closure is computed,
-- and it selects a unit of the universe exactly if a change reaches it over complete entries of the
-- graph, or reaches a unit whose entry is missing, is not marked complete, or has neighbours that
-- are no list of units of the universe.
pub conservative_b1_closure_iff :
    (graph : Dict Fields) (universe changed : List String)
    → is_empty changed ≡ false
    → is_empty universe ≡ false
    → all (λ u. not (u == "")) universe ≡ true
    → is_distinct universe ≡ true
    → all (λ u. is_in u universe) changed ≡ true
    → (units : List String) × (conservative_b1_closure changed universe graph ≡ ok (some units))
      × ((x : String)
          → (is_in x units ≡ true) ↔ ((is_in x universe ≡ true) × Needs graph universe changed x))
unfolding conservative_b1_closure
conservative_b1_closure_iff graph universe changed some_change some_unit labelled distinct known =
    let inside : Subset changed universe = all-Subset changed universe known in
    let ended =
      visit-IsVisited graph universe changed (length universe + length changed) changed changed
        (start graph universe changed inside) (omega (arith, unselected_bound universe changed)) in
    let (units, e, h) = IsVisited-Needs graph universe changed ended in
    (units, rw (some_change, some_unit, labelled, distinct, known, e) refl, h)
