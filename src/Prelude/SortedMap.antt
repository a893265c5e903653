-- ===== src/Prelude/SortedMap.antt =====
-- `std::map` with numbers for keys: an association list in ascending order of the keys.
use Prim.Native.Nat.{ℕ, suc, ◌<◌, ◌≤◌}
use mathlib.Core.Path.{◌≡◌, refl}
use mathlib.Core.List.{List, [], ◌∷◌}
use mathlib.Core.Option.{Option, none, some}
use native.Mathlib.Omega.{arith}
use msde_robotics.Prelude.Tests.{ltb, ◌==◌, if◌then◌else◌}

module _ {ℓ} {A : Type ℓ} where
  -- `find`, and `at` where `count` is not 0.
  unfoldable pub lookup : ℕ → List (ℕ × A) → Option A
  lookup k [] = none
  lookup k ((j, w) ∷ m) = if j == k then some w else lookup k m

  -- `emplace` changes nothing where the key is there.
  unfoldable pub emplace : ℕ → A → List (ℕ × A) → List (ℕ × A)
  emplace k v [] = (k, v) ∷ []
  emplace k v ((j, w) ∷ m) =
      if ltb k j then (k, v) ∷ (j, w) ∷ m else if j == k then (j, w) ∷ m else (j, w) ∷ emplace k v m

  unfoldable pub erase : ℕ → List (ℕ × A) → List (ℕ × A)
  erase k [] = []
  erase k ((j, w) ∷ m) = if j == k then m else (j, w) ∷ erase k m

  -- `map[key] = value`
  unfoldable pub assign : ℕ → A → List (ℕ × A) → List (ℕ × A)
  assign k v [] = (k, v) ∷ []
  assign k v ((j, w) ∷ m) =
      if ltb k j then (k, v) ∷ (j, w) ∷ m else if j == k then (k, v) ∷ m else (j, w) ∷ assign k v m

  -- A call through the pointer that is stored under a key.
  unfoldable pub update : ℕ → (A → A) → List (ℕ × A) → List (ℕ × A)
  update k f [] = []
  update k f ((j, w) ∷ m) = if j == k then (j, f w) ∷ m else (j, w) ∷ update k f m

  -- The keys ascend, from the bound on.
  abbrev pub From : ℕ → List (ℕ × A) → Type 0
  From n [] = Unit {0}
  From n ((j, w) ∷ m) = (n ≤ j) × From (suc j) m

  abbrev pub IsSorted : List (ℕ × A) → Type 0
  IsSorted m = From 0 m

  pub lookup_below : (k n : ℕ) (m : List (ℕ × A)) → k < n → From n m → lookup k m ≡ none
  unfolding lookup
  lookup_below k n [] h b = refl
  lookup_below k n ((j, w) ∷ m) h b =
      ground (arith, lookup_below k (suc j) m (omega (arith, b.0)) b.1)

  pub From-weaken : (k n : ℕ) (m : List (ℕ × A)) → k ≤ n → From n m → From k m
  From-weaken k n [] h b = tt
  From-weaken k n ((j, w) ∷ m) h b = (omega (arith, b.0), b.1)

  pub emplace-From :
      (k n : ℕ) (v : A) (m : List (ℕ × A)) → n ≤ k → From n m → From n (emplace k v m)
  unfolding emplace
  emplace-From k n v [] h b = (h, tt)
  emplace-From k n v ((j, w) ∷ m) h b = ground (arith, emplace-From k (suc j) v m)

  pub erase-From : (k n : ℕ) (m : List (ℕ × A)) → From n m → From n (erase k m)
  unfolding erase
  erase-From k n [] b = tt
  erase-From k n ((j, w) ∷ m) b = ground (arith, erase-From k (suc j) m, From-weaken n (suc j) m)

  pub update-From : (k n : ℕ) (f : A → A) (m : List (ℕ × A)) → From n m → From n (update k f m)
  unfolding update
  update-From k n f [] b = tt
  update-From k n f ((j, w) ∷ m) b = ground (arith, update-From k (suc j) f m)

  pub assign-From : (k n : ℕ) (v : A) (m : List (ℕ × A)) → n ≤ k → From n m → From n (assign k v m)
  unfolding assign
  assign-From k n v [] h b = (h, tt)
  assign-From k n v ((j, w) ∷ m) h b = ground (arith, assign-From k (suc j) v m)

  abbrev pub or_else : Option A → A → A
  or_else none v = v
  or_else (some w) v = w

  -- The value that is there stays.
  pub lookup-emplace :
      (i k n : ℕ) (v : A) (m : List (ℕ × A))
      → From n m
      → lookup i (emplace k v m) ≡ (if k == i then some (or_else (lookup k m) v) else lookup i m)
  unfolding lookup emplace
  lookup-emplace i k n v [] b = ground arith
  lookup-emplace i k n v ((j, w) ∷ m) b =
      ground (arith, lookup-emplace i k (suc j) v m b.1, lookup_below k (suc j) m)

  abbrev pub map_some : (A → A) → Option A → Option A
  map_some f none = none
  map_some f (some w) = some (f w)

  pub lookup-update :
      (i k : ℕ) (f : A → A) (m : List (ℕ × A))
      → lookup i (update k f m) ≡ (if k == i then map_some f (lookup i m) else lookup i m)
  unfolding lookup update
  lookup-update i k f [] = ground arith
  lookup-update i k f ((j, w) ∷ m) = ground (arith, lookup-update i k f m)

  pub lookup-erase :
      (i k n : ℕ) (m : List (ℕ × A))
      → From n m
      → lookup i (erase k m) ≡ (if k == i then none else lookup i m)
  unfolding lookup erase
  lookup-erase i k n [] b = ground arith
  lookup-erase i k n ((j, w) ∷ m) b =
      ground (arith, lookup-erase i k (suc j) m b.1, lookup_below k (suc j) m)

  pub lookup-assign :
      (i k : ℕ) (v : A) (m : List (ℕ × A))
      → lookup i (assign k v m) ≡ (if k == i then some v else lookup i m)
  unfolding lookup assign
  lookup-assign i k v [] = ground arith
  lookup-assign i k v ((j, w) ∷ m) = ground (arith, lookup-assign i k v m)
