-- ===== src/Workbench/Gates/Clusters.antt =====
-- The clusters of an inventory, sorted and each once.
use sentinel_security_platfo.Base.{
  String, ◌≡◌, refl, inl, inr, true, false, ◌||◌, List, [], ◌∷◌, any, arith, ◌==◌, Bool-cases,
  eq_iff,
}
use sentinel_security_platfo.Base.Json.{is_in}
use sentinel_security_platfo.Workbench.Selection.{is_distinct}
use sentinel_security_platfo.Workbench.Gates.Ledger.{insert, sorted_set}

insert-is_in : (x y : String) (ys : List String) → is_in x (insert y ys) ≡ (y == x || is_in x ys)
unfolding insert is_in any
insert-is_in x y [] = ground arith
insert-is_in x y (z ∷ ys) = ground (arith, insert-is_in x y ys, eq_iff y z, eq_iff y x, eq_iff z x)

insert-is_distinct :
    (y : String) (ys : List String)
    → is_in y ys ≡ false
    → is_distinct ys ≡ true
    → is_distinct (insert y ys) ≡ true
unfolding insert is_distinct is_in any
insert-is_distinct y [] new h = refl
insert-is_distinct y (z ∷ ys) new h =
    ground (arith, new, h, insert-is_distinct y ys, insert-is_in z y ys, eq_iff y z, eq_iff z y)

pub sorted_set-is_in : (x : String) (xs : List String) → is_in x (sorted_set xs) ≡ is_in x xs
unfolding sorted_set is_in any
sorted_set-is_in x [] = refl
sorted_set-is_in x (y ∷ xs) = ground (
  arith,
  sorted_set-is_in x xs,
  sorted_set-is_in y xs,
  insert-is_in x y (sorted_set xs),
  eq_iff y x,
)

pub sorted_set-is_distinct : (xs : List String) → is_distinct (sorted_set xs) ≡ true
unfolding sorted_set is_distinct
sorted_set-is_distinct [] = refl
sorted_set-is_distinct (y ∷ xs) = elim (Bool-cases (is_in y (sorted_set xs))) [
  | inl e ↦ rw (sorted_set, e) (sorted_set-is_distinct xs)
  | inr e ↦ rw (sorted_set, e) (insert-is_distinct y (sorted_set xs) e (sorted_set-is_distinct xs))
]
