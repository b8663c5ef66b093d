-- ===== src/Base/Count.antt =====
-- Counting with a condition: what keeps a count, and what bounds it.
use Prim.Native.Nat.{◌≤◌, ◌+◌}
use Prim.Native.String.{String}
use mathlib.Core.Path.{◌≡◌, refl}
use mathlib.Core.Bool.{Bool, true, false, ◌&&◌}
use mathlib.Core.Logic.{inl, inr}
use mathlib.Core.Option.{Option, none, some}
use mathlib.Core.List.{List, [], ◌∷◌, ◌++◌}
use native.Mathlib.Omega.{arith}
use text.Mathlib.Text.{◌==◌}
use text.Mathlib.TextEquality.{eq_iff}
use sentinel_security_platfo.Base.Tests.{if◌then◌else◌, Bool-cases}
use sentinel_security_platfo.Base.Lists.{any, count_if, All}
use sentinel_security_platfo.Base.Table.{find, update, update_where, IsKeyed}

module _ {Row : Type 0} where
  module _ (key : Row → String) (f : Row → Row) where
    -- An update that a test does not see changes no count.
    pub count_if-update :
        (test : Row → Bool)
        → ((r : Row) → test (f r) ≡ test r)
        → (k : String) (rows : List Row) → count_if test (update key k f rows) ≡ count_if test rows
    unfolding count_if update
    count_if-update test same k [] = refl
    count_if-update test same k (r ∷ rows) =
        ground (arith, same r, count_if-update test same k rows)

    pub update-All :
        {P : Row → Type 0}
        → ((r : Row) → P r → P (f r))
        → (k : String) (rows : List Row) → All P rows
        → All P (update key k f rows)
    unfolding update
    update-All keep k [] h = tt
    update-All keep k (r ∷ rows) h = elim (Bool-cases (key r == k)) [
      | inl e ↦ rw e (keep r h.0, update-All keep k rows h.1)
      | inr e ↦ rw e (h.0, update-All keep k rows h.1)
    ]

  -- A test that implies another counts no more.
  pub count_if-le :
      (test wide : Row → Bool)
      → ((r : Row) → test r ≡ true → wide r ≡ true)
      → (rows : List Row) → count_if test rows ≤ count_if wide rows
  unfolding count_if
  count_if-le test wide h [] = omega arith
  count_if-le test wide h (r ∷ rows) = ground (arith, h r, count_if-le test wide h rows)

  pub count_if_of_any :
      (test : Row → Bool) (rows : List Row) → any test rows ≡ false → count_if test rows ≡ 0
  unfolding any count_if
  count_if_of_any test [] h = refl
  count_if_of_any test (r ∷ rows) h = ground (arith, count_if_of_any test rows)

  pub count_if-append :
      (test : Row → Bool) (xs ys : List Row)
      → count_if test (xs ++ ys) ≡ count_if test xs + count_if test ys
  unfolding count_if
  count_if-append test [] ys = omega arith
  count_if-append test (x ∷ xs) ys = ground (arith, count_if-append test xs ys)

  -- A rewriting that makes no new row pass the test raises no count.
  pub count_if-update_where :
      (test where_ : Row → Bool) (f : Row → Row)
      → ((r : Row) → where_ r ≡ true → test (f r) ≡ true → test r ≡ true)
      → (rows : List Row) → count_if test (update_where where_ f rows) ≤ count_if test rows
  unfolding count_if update_where
  count_if-update_where test where_ f keep [] = omega arith
  count_if-update_where test where_ f keep (r ∷ rows) =
      ground (arith, keep r, count_if-update_where test where_ f keep rows)

-- The test on the row that a key finds, when there is one.
abbrev pub row_passes : {Row : Type 0} → (Row → Bool) → Option Row → Bool
row_passes test none = false
row_passes test (some r) = test r

module _ {Row : Type 0} (key : Row → String) where
  none_keyed :
      (test : Row → Bool) (k : String) (rows : List Row)
      → find key k rows ≡ none
      → count_if (λ r. key r == k && test r) rows ≡ 0
  unfolding count_if find
  none_keyed test k [] h = refl
  none_keyed test k (r ∷ rows) h = ground (arith, none_keyed test k rows)

  -- Where keys are unique, a WHERE clause that names a key selects one row or none.
  pub count_if-key :
      (test : Row → Bool) (k : String) (rows : List Row)
      → IsKeyed key rows
      → count_if (λ r. key r == k && test r) rows
        ≡ (if row_passes test (find key k rows) then 1 else 0)
  unfolding count_if find
  count_if-key test k [] h = refl
  count_if-key test k (r ∷ rows) h = elim (Bool-cases (key r == k)) [
    | inl e ↦
        let here : key r ≡ k = (eq_iff (key r) k).0 e in
        let gone : find key k rows ≡ none = rw (← here) h.0 in
        rw e ground (arith, none_keyed test k rows gone)
    | inr e ↦ rw e (count_if-key test k rows h.1)
  ]
