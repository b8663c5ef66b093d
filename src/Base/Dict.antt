-- ===== src/Base/Dict.antt =====
-- A Python dict: the newest entry of a key is the one that is read.
use Prim.Native.String.{String}
use mathlib.Core.Path.{◌≡◌, refl}
use mathlib.Core.Option.{Option, none, some}
use mathlib.Core.List.{List, [], ◌∷◌}
use native.Mathlib.Omega.{arith}
use text.Mathlib.Text.{◌==◌}
use text.Mathlib.TextEquality.{eq_iff}
use sentinel_security_platfo.Base.Tests.{if◌then◌else◌}

abbrev pub Dict : Type 0 → Type 0
Dict A = List (String × A)

module _ {A : Type 0} where
  -- `dict.get(key)`
  unfoldable pub lookup : String → Dict A → Option A
  lookup k [] = none
  lookup k ((j, a) ∷ d) = if j == k then some a else lookup k d

  -- `dict[key] = value`
  unfoldable pub put : String → A → Dict A → Dict A
  put k a d = (k, a) ∷ d

  -- `dict.pop(key, None)`
  unfoldable pub pop : String → Dict A → Dict A
  pop k [] = []
  pop k ((j, a) ∷ d) = let rest = pop k d in if j == k then rest else (j, a) ∷ rest

  pub lookup-put :
      (k j : String) (a : A) (d : Dict A)
      → lookup j (put k a d) ≡ (if k == j then some a else lookup j d)
  unfolding lookup put
  lookup-put k j a d = refl

  lookup-pop :
      (k j : String) (d : Dict A) → lookup j (pop k d) ≡ (if k == j then none else lookup j d)
  unfolding lookup pop
  lookup-pop k j [] = ground arith
  lookup-pop k j ((i, a) ∷ d) = ground (arith, lookup-pop k j d, eq_iff i k, eq_iff i j, eq_iff k j)
