-- ===== src/Base/Json.antt =====
-- Decoded JSON: the values that Python's `json.loads` returns. An object's fields stand with
-- distinct keys; a float is known by its `repr`.
use Prim.Native.Nat.{ℕ}
use Prim.Native.String.{String}
use mathlib.Core.Path.{◌≡◌}
use mathlib.Core.Bool.{Bool, true, false, ◌&&◌}
use mathlib.Core.List.{List, [], ◌∷◌}
use native.Mathlib.Omega.{arith}
use text.Mathlib.Text.{◌==◌}
use text.Mathlib.TextEquality.{eq_iff}
use sentinel_security_platfo.Base.Tests.{if◌then◌else◌}
use sentinel_security_platfo.Base.Lists.{any, all}

mutual
  pub data Json : Type 0 where
    null : Json
    boolean : Bool → Json
    int : ℕ → Json
    -- `negative n` is -1 - n
    negative : ℕ → Json
    float : String → Json
    string : String → Json
    array : Items → Json
    object : Fields → Json

  pub data Items : Type 0 where
    end_items : Items
    item : Json → Items → Items

  pub data Fields : Type 0 where
    end_fields : Fields
    field : String → Json → Fields → Fields

abbrev pub keys : Fields → List String
keys end_fields = []
keys (field k v fs) = k ∷ keys fs

abbrev pub items : Items → List Json
items end_items = []
items (item v vs) = v ∷ items vs

-- `mapping.get(key)`: None for a missing key, as for null
unfoldable pub get : String → Fields → Json
get k end_fields = null
get k (field j v fs) = if j == k then v else get k fs

-- `text in texts`
unfoldable pub is_in : String → List String → Bool
unfolding any
is_in x xs = any (λ y. y == x) xs

-- `set(mapping) == fields`
unfoldable pub has_fields : List String → Fields → Bool
unfolding all is_in
has_fields names fs = all (λ k. is_in k names) (keys fs) && all (λ k. is_in k (keys fs)) names

-- `value == expected`, for a text
unfoldable pub is_string : String → Json → Bool
is_string expected (string t) = t == expected
is_string expected _ = false

is_string-eq : (t : String) (v : Json) → is_string t v ≡ true → v ≡ string t
unfolding is_string
is_string-eq t null h = cc
is_string-eq t (boolean b) h = cc
is_string-eq t (int n) h = cc
is_string-eq t (negative n) h = cc
is_string-eq t (float x) h = cc
is_string-eq t (string x) h = ground (arith, eq_iff x t)
is_string-eq t (array xs) h = cc
is_string-eq t (object fs) h = cc
