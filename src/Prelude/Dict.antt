-- ===== src/Prelude/Dict.antt =====
-- Go's maps with string keys, as association lists, and sets of keys. The order of a list stands
-- for the order in which the runtime happens to walk the map.
use mathlib.Core.Path.{◌≡◌, refl}
use mathlib.Core.Bool.{Bool, true, false, ◌||◌}
use mathlib.Core.Option.{Option, none, some}
use mathlib.Core.List.{List, [], ◌∷◌, ◌++◌}
use Prim.Native.String.{String}
use native.Mathlib.Omega.{arith}
use text.Mathlib.Text.{◌==◌ as str_eq}
use text.Mathlib.TextEquality.{eq_iff}
use raft_recovery.Prelude.Tests.{if◌then◌else◌}

module _ {ℓ} {V : Type ℓ} where
  -- Reading a key, with the comma-ok form.
  unfoldable pub lookup : String → List (String × V) → Option V
  lookup key [] = none
  lookup key ((first, value) ∷ dict) = if str_eq first key then some value else lookup key dict

  -- Writing a key keeps its place, or adds it at the end.
  unfoldable pub insert : String → V → List (String × V) → List (String × V)
  insert key new [] = (key, new) ∷ []
  insert key new ((first, value) ∷ dict) =
      let rest = insert key new dict in
      if str_eq first key then (key, new) ∷ dict else (first, value) ∷ rest

  pub lookup-insert :
      (key j : String) (new : V) (dict : List (String × V))
      → lookup j (insert key new dict) ≡ (if str_eq key j then some new else lookup j dict)
  unfolding insert lookup
  lookup-insert key j new [] = refl
  lookup-insert key j new ((first, value) ∷ dict) =
      ground (arith, lookup-insert key j new dict, eq_iff first j, eq_iff first key, eq_iff key j)

-- Sets of keys: the index maps, of which only the keys carry information.
unfoldable pub contains : String → List String → Bool
contains k [] = false
contains k (j ∷ xs) = str_eq j k || contains k xs

unfoldable pub add_key : String → List String → List String
add_key k [] = k ∷ []
add_key k (j ∷ xs) = if str_eq j k then j ∷ xs else j ∷ add_key k xs

unfoldable pub delete_key : String → List String → List String
delete_key k [] = []
delete_key k (j ∷ xs) = if str_eq j k then delete_key k xs else j ∷ delete_key k xs

pub contains-add_key :
    (k j : String) (xs : List String)
    → contains j (add_key k xs) ≡ (if str_eq k j then true else contains j xs)
unfolding contains add_key
contains-add_key k j [] = ground arith
contains-add_key k j (i ∷ xs) =
    ground (arith, eq_iff k j, eq_iff i k, eq_iff i j, contains-add_key k j xs)

pub contains-delete_key :
    (k j : String) (xs : List String)
    → contains j (delete_key k xs) ≡ (if str_eq k j then false else contains j xs)
unfolding contains delete_key
contains-delete_key k j [] = ground arith
contains-delete_key k j (i ∷ xs) =
    ground (arith, eq_iff k j, eq_iff i k, eq_iff i j, contains-delete_key k j xs)

pub contains-append :
    (k : String) (xs ys : List String) → contains k (xs ++ ys) ≡ (contains k xs || contains k ys)
unfolding contains
contains-append k [] ys = refl
contains-append k (x ∷ xs) ys = ground (arith, contains-append k xs ys)

-- A key at the end of a queue.
pub contains-push :
    (k j : String) (xs : List String)
    → contains j (xs ++ k ∷ []) ≡ (if str_eq k j then true else contains j xs)
unfolding contains
contains-push k j xs = ground (arith, contains-append j xs (k ∷ []))
