-- ===== src/Prelude/Maps.antt =====
-- std::unordered_map and std::unordered_set with 64-bit keys, as association lists and lists.
-- A missing key reads as `none`; the order in the list is not observed by the program.
use Prim.Native.Nat.{ℕ}
use mathlib.Core.Path.{◌≡◌, refl}
use mathlib.Core.Bool.{Bool, true, false, ◌||◌}
use mathlib.Core.List.{List, [], ◌∷◌}
use mathlib.Core.Option.{Option, none, some}
use native.Mathlib.Omega.{arith}
use edge_vision.Prelude.Tests.{◌==◌, if◌then◌else◌}

module _ {ℓ} {V : Type ℓ} where
  unfoldable pub lookup : ℕ → List (ℕ × V) → Option V
  lookup k [] = none
  lookup k ((j, v) ∷ m) = if j == k then some v else lookup k m

  unfoldable pub insert : ℕ → V → List (ℕ × V) → List (ℕ × V)
  insert k v [] = (k, v) ∷ []
  insert k v ((j, w) ∷ m) = if j == k then (k, v) ∷ m else (j, w) ∷ insert k v m

  unfoldable pub erase : ℕ → List (ℕ × V) → List (ℕ × V)
  erase k [] = []
  erase k ((j, w) ∷ m) = let rest = erase k m in if j == k then rest else (j, w) ∷ rest

  pub lookup-insert :
      (j k : ℕ) (v : V) (m : List (ℕ × V))
      → lookup j (insert k v m) ≡ (if k == j then some v else lookup j m)
  unfolding lookup insert
  lookup-insert j k v [] = refl
  lookup-insert j k v ((i, w) ∷ m) = ground (arith, lookup-insert j k v m)

  pub lookup-erase :
      (j k : ℕ) (m : List (ℕ × V)) → lookup j (erase k m) ≡ (if k == j then none else lookup j m)
  unfolding lookup erase
  lookup-erase j k [] = ground arith
  lookup-erase j k ((i, w) ∷ m) = ground (arith, lookup-erase j k m)

-- A set of keys.
unfoldable pub contains : ℕ → List ℕ → Bool
contains k [] = false
contains k (j ∷ s) = j == k || contains k s

unfoldable pub add : ℕ → List ℕ → List ℕ
unfolding contains
add k s = if contains k s then s else k ∷ s

unfoldable pub discard : ℕ → List ℕ → List ℕ
discard k [] = []
discard k (j ∷ s) = let rest = discard k s in if j == k then rest else j ∷ rest

pub contains-add :
    (j k : ℕ) (s : List ℕ) → contains j (add k s) ≡ (if k == j then true else contains j s)
unfolding add
contains-add j k s = ground (arith)

pub contains-discard :
    (j k : ℕ) (s : List ℕ) → contains j (discard k s) ≡ (if k == j then false else contains j s)
unfolding contains discard
contains-discard j k [] = ground arith
contains-discard j k (i ∷ s) = ground (arith, contains-discard j k s)
