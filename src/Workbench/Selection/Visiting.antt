-- ===== src/Workbench/Selection/Visiting.antt =====
-- The loop of `conservative_b1_closure`: what holds whenever it is tested, and how it ends.
use sentinel_security_platfo.Base.{
  ℕ, zero, suc, ◌+◌, ◌≤◌, String, true, Option, none, some, List, [], ◌∷◌, ◌≡◌, ◌⊎◌, inl, inr, any,
  length, arith, ◌==◌, Bool-cases, Option-cases, eq_iff,
}
use sentinel_security_platfo.Base.Dict.{Dict}
use sentinel_security_platfo.Base.Json.{Fields, is_in}
use sentinel_security_platfo.Workbench.Selection.{
  Visit, add_new, closed, incomplete, neighbors_of, visit,
}
use sentinel_security_platfo.Workbench.Selection.Neighbors.{
  Subset, neighbors_of-Subset, neighbors_of-known, neighbors_of-HasNeighbors,
  HasNeighbors-neighbors_of,
}
use sentinel_security_platfo.Workbench.Selection.Reach.{
  Reaches, seed, edge, add_new-measure, add_new-queue, add_new-selected, unselected,
}

module _ (graph : Dict Fields) (universe changed : List String) where
  -- The entry of the unit is complete, and its neighbours are among the units.
  abbrev Expands : List String → String → Type 0
  Expands units u = (ns : List String) × (neighbors_of graph universe u ≡ some ns) × Subset ns units

  -- What holds whenever the `while` is tested.
  pub record IsVisiting (queue selected : List String) : Type 0 where
    seeds : Subset changed selected
    inside : Subset selected universe
    queued : Subset queue selected
    sound : (x : String) → is_in x selected ≡ true → Reaches graph universe changed x
    expanded : (x : String) → is_in x selected ≡ true → (is_in x queue ≡ true) ⊎ Expands selected x

  -- How the loop ends.
  pub data IsVisited : Visit → Type 0 where
    full :
        (units : List String)
        → Subset changed units
        → ((x : String) → is_in x units ≡ true → Reaches graph universe changed x)
        → ((x : String) → is_in x units ≡ true → Expands units x)
        → IsVisited (closed units)
    partial :
        (v : String)
        → Reaches graph universe changed v
        → neighbors_of graph universe v ≡ none
        → IsVisited incomplete

  nothing_waits : (x : String) → is_in x [] ≡ true → ⊥
  unfolding is_in any
  nothing_waits x h = ground arith

  first_selected :
      (unit : String) (queue selected : List String)
      → IsVisiting (unit ∷ queue) selected
      → is_in unit selected ≡ true
  unfolding is_in any
  first_selected unit queue selected h = h.queued unit (ground (arith, eq_iff unit unit))

  same_neighbors :
      (ns ms : List String) (found : Option (List String))
      → found ≡ some ns
      → found ≡ some ms
      → ms ≡ ns
  same_neighbors ns ms found known known0 = ground (arith, known, known0)

  step :
      (unit : String) (queue selected ns : List String)
      → IsVisiting (unit ∷ queue) selected
      → neighbors_of graph universe unit ≡ some ns
      → IsVisiting (add_new ns selected queue).1 (add_new ns selected queue).0
  unfolding is_in any
  step unit queue selected ns h found =
      let here : is_in unit selected ≡ true = h.queued unit (ground (arith, eq_iff unit unit)) in
      let grown : Subset selected (add_new ns selected queue).0 =
        λ x e. ground (arith, e, add_new-selected x ns selected queue) in
      record {
        seeds = λ x e. grown x (h.seeds x e);
        inside = λ x e. ground (
          arith,
          e,
          add_new-selected x ns selected queue,
          h.inside x,
          neighbors_of-Subset graph universe ns unit found x,
        );
        queued = λ x e. ground (
          arith,
          e,
          add_new-selected x ns selected queue,
          add_new-queue x ns selected queue,
          h.queued x,
        );
        sound = λ x e. elim (Bool-cases (is_in x selected)) [
          | inl old ↦ h.sound x old
          | inr new ↦
              edge x unit ns (h.sound unit here)
                (neighbors_of-HasNeighbors graph universe ns unit found)
                (ground (arith, new, e, add_new-selected x ns selected queue))
        ];
        expanded = λ x e. elim (Bool-cases (is_in x selected)) [
          | inr new ↦ inl (
              ground (
                arith,
                new,
                e,
                add_new-selected x ns selected queue,
                add_new-queue x ns selected queue,
              ))
          | inl old ↦ elim (h.expanded x old) [
            | inr (ms, known, sub) ↦ inr (ms, known, λ y m. grown y (sub y m))
            | inl waits ↦ elim (Bool-cases (unit == x)) [
              | inr other ↦ inl (ground (arith, waits, other, add_new-queue x ns selected queue))
              | inl this ↦
                  let same : unit ≡ x = (eq_iff unit x).0 this in
                  inr (
                    ns,
                    rw (← same) found,
                    λ y m. ground (arith, m, add_new-selected y ns selected queue),
                  )
            ]
          ]
        ];
      }

  -- The units that are not selected, with the queue, are fewer after each round.
  pub visit-IsVisited :
      (fuel : ℕ) (queue selected : List String)
      → IsVisiting queue selected
      → unselected universe selected + length queue ≤ fuel
      → IsVisited (visit graph universe fuel queue selected)
  unfolding visit
  visit-IsVisited fuel [] selected h enough =
      full selected h.seeds h.sound λ x e. elim (h.expanded x e) [
        | inl waits ↦ absurd (nothing_waits x waits)
        | inr done ↦ done
      ]
  visit-IsVisited zero (unit ∷ queue) selected h enough = absurd (omega (arith, enough))
  visit-IsVisited (suc fuel) (unit ∷ queue) selected h enough =
      let here = first_selected unit queue selected h in
      elim (Option-cases (neighbors_of graph universe unit)) [
        | inl e ↦
            rw (visit, neighbors_of-known graph universe selected unit h.inside, e)
              (partial unit (h.sound unit here) e)
        | inr (ns, e) ↦
            rw (visit, neighbors_of-known graph universe selected unit h.inside, e)
              (visit-IsVisited fuel (add_new ns selected queue).1 (add_new ns selected queue).0
                (step unit queue selected ns h e)
                (omega (
                  arith,
                  enough,
                  add_new-measure universe ns selected queue
                      (neighbors_of-Subset graph universe ns unit e),
                )))
      ]

  pub start : Subset changed universe → IsVisiting changed changed
  start inside = record {
    seeds = λ x e. e;
    inside = inside;
    queued = λ x e. e;
    sound = λ x e. seed x e;
    expanded = λ x e. inl e;
  }

  -- A closed selection that has the changed units has all that they reach.
  pub closed-reached :
      (units : List String)
      → Subset changed units
      → ((x : String) → is_in x units ≡ true → Expands units x)
      → (x : String) → Reaches graph universe changed x
      → is_in x units ≡ true
  closed-reached units seeds expand x (seed u e) = seeds x e
  closed-reached units seeds expand x (edge u v ns before known m) =
      let (ms, known0, sub) = expand v (closed-reached units seeds expand v before) in
      let listed = HasNeighbors-neighbors_of graph universe ns v known in
      sub x (rw (same_neighbors ns ms (neighbors_of graph universe v) listed known0) m)
