-- ===== src/Shared/Maps.antt =====
-- A JavaScript `Map` and `Set` with ids for keys, as lists in insertion order.
use Prim.Native.Nat.{ℕ}
use mathlib.Core.Path.{◌≡◌, refl}
use mathlib.Core.Bool.{Bool, true, false, ◌||◌}
use mathlib.Core.Option.{Option, none, some}
use mathlib.Core.List.{List, [], ◌∷◌, foldl}
use native.Mathlib.Omega.{arith}
use gig_drive.Shared.Tests.{if◌then◌else◌, ◌==◌}

-- `xs.includes(x)`
abbrev pub includes : ℕ → List ℕ → Bool
includes x [] = false
includes x (y ∷ ys) = if y == x then true else includes x ys

-- `[...new Set(xs)]`, in the order of the first occurrences.
abbrev add_new : List ℕ → ℕ → List ℕ
add_new [] x = x ∷ []
add_new (y ∷ ys) x = if y == x then y ∷ ys else y ∷ add_new ys x

abbrev pub unique : List ℕ → List ℕ
unique = foldl add_new []

includes-add_new : (x y : ℕ) (ys : List ℕ) → includes x (add_new ys y) ≡ (includes x ys || (y == x))
includes-add_new x y [] = ground arith
includes-add_new x y (z ∷ zs) = ground (arith, includes-add_new x y zs)

includes-foldl :
    (x : ℕ) (acc xs : List ℕ)
    → includes x (foldl add_new acc xs) ≡ (includes x acc || includes x xs)
includes-foldl x acc [] = ground arith
includes-foldl x acc (y ∷ ys) =
    ground (arith, includes-foldl x (add_new acc y) ys, includes-add_new x y acc)

-- A set of the elements has the same members.
pub includes-unique : (x : ℕ) (xs : List ℕ) → includes x (unique xs) ≡ includes x xs
includes-unique x xs = includes-foldl x [] xs

module _ {V : Type 0} where
  -- `map.get(k)`
  abbrev pub lookup : ℕ → List (ℕ × V) → Option V
  lookup k [] = none
  lookup k ((j, v) ∷ m) = if j == k then some v else lookup k m

  -- `map.set(k, v)`
  abbrev pub insert : ℕ → V → List (ℕ × V) → List (ℕ × V)
  insert k v [] = (k, v) ∷ []
  insert k v ((j, w) ∷ m) = if j == k then (j, v) ∷ m else (j, w) ∷ insert k v m

  pub lookup-insert :
      (k j : ℕ) (v : V) (m : List (ℕ × V))
      → lookup j (insert k v m) ≡ (if k == j then some v else lookup j m)
  lookup-insert k j v [] = refl
  lookup-insert k j v ((i, w) ∷ m) = ground (arith, lookup-insert k j v m)

  -- `new Map(entries)`
  abbrev pub of_entries : List (ℕ × V) → List (ℕ × V)
  of_entries = foldl (λ m e. insert e.0 e.1 m) []
