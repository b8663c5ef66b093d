-- ===== src/Base/Table.antt =====
-- A SQL table whose primary key is a text. A list of rows, the newest first: `INSERT` puts a row
-- in front, `SELECT ... WHERE key = ?` finds the one row, `UPDATE ... WHERE key = ?` rewrites it.
use Prim.Native.String.{String}
use mathlib.Core.Path.{◌≡◌, refl}
use mathlib.Core.Bool.{Bool, true}
use mathlib.Core.Option
use mathlib.Core.Option.{Option, none, some}
use mathlib.Core.Logic.{inl, inr}
use native.Mathlib.Omega.{arith}
use text.Mathlib.TextEquality.{eq_iff}
use mathlib.Core.List.{List, [], ◌∷◌, ◌++◌}
use text.Mathlib.Text.{◌==◌}
use sentinel_security_platfo.Base.Tests.{if◌then◌else◌, Bool-cases, is_some}

module _ {Row : Type 0} where
  -- `UPDATE ... WHERE test`, any number of rows
  unfoldable pub update_where : (Row → Bool) → (Row → Row) → List Row → List Row
  update_where test f [] = []
  update_where test f (r ∷ rows) = (if test r then f r else r) ∷ update_where test f rows

module _ {Row : Type 0} (key : Row → String) where
  unfoldable pub find : String → List Row → Option Row
  find k [] = none
  find k (r ∷ rows) = if key r == k then some r else find k rows

  unfoldable pub update : String → (Row → Row) → List Row → List Row
  update k f [] = []
  update k f (r ∷ rows) = (if key r == k then f r else r) ∷ update k f rows

  -- No key occurs twice: the PRIMARY KEY constraint.
  abbrev pub IsKeyed : List Row → Type 0
  IsKeyed [] = Unit
  IsKeyed (r ∷ rows) = (find (key r) rows ≡ none) × IsKeyed rows

  module _ (f : Row → Row) (same_key : (r : Row) → key (f r) ≡ key r) where
    pub find-update :
        (k j : String) (rows : List Row)
        → find j (update k f rows) ≡ (if k == j then Option.map f (find j rows) else find j rows)
    unfolding find update
    find-update k j [] = ground arith
    find-update k j (r ∷ rows) =
        ground
          (arith, find-update k j rows, same_key r, eq_iff (key r) k, eq_iff (key r) j, eq_iff k j)

    pub find-update-none :
        (k j : String) (rows : List Row) → find j rows ≡ none → find j (update k f rows) ≡ none
    find-update-none k j rows h = ground (arith, find-update k j rows)

    pub update-IsKeyed : (k : String) (rows : List Row) → IsKeyed rows → IsKeyed (update k f rows)
    unfolding update
    update-IsKeyed k [] h = tt
    update-IsKeyed k (r ∷ rows) h = elim (Bool-cases (key r == k)) [
      | inl e ↦ rw (e, same_key r) (find-update-none k (key r) rows h.0, update-IsKeyed k rows h.1)
      | inr e ↦ rw e (find-update-none k (key r) rows h.0, update-IsKeyed k rows h.1)
    ]

  -- The row that a key finds has that key.
  pub find-key : (k : String) (r : Row) (rows : List Row) → find k rows ≡ some r → key r ≡ k
  unfolding find
  find-key k r [] h = cc
  find-key k r (x ∷ rows) h = ground (arith, find-key k r rows, eq_iff (key x) k)

  -- The first table's row, or else the second's.
  pub find-append :
      (k : String) (xs ys : List Row)
      → find k (xs ++ ys) ≡ (if is_some (find k xs) then find k xs else find k ys)
  unfolding find
  find-append k [] ys = refl
  find-append k (x ∷ xs) ys = ground (arith, find-append k xs ys)

  pub find-update_where :
      (test : Row → Bool) (f : Row → Row)
      → ((r : Row) → test r ≡ true → key (f r) ≡ key r)
      → (k : String) (rows : List Row)
      → find k (update_where test f rows)
        ≡ Option.map (λ r. if test r then f r else r) (find k rows)
  unfolding find update_where
  find-update_where test f same k [] = refl
  find-update_where test f same k (r ∷ rows) =
      ground (arith, same r, find-update_where test f same k rows, eq_iff (key r) k)

  pub update_where-IsKeyed :
      (test : Row → Bool) (f : Row → Row)
      → ((r : Row) → test r ≡ true → key (f r) ≡ key r)
      → (rows : List Row) → IsKeyed rows
      → IsKeyed (update_where test f rows)
  unfolding update_where
  update_where-IsKeyed test f same [] h = tt
  update_where-IsKeyed test f same (r ∷ rows) h = (
    ground (arith, same r, find-update_where test f same (key r) rows, h.0),
    update_where-IsKeyed test f same rows h.1,
  )
