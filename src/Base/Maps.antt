-- ===== src/Base/Maps.antt =====
-- Finite maps (`HashMap`, a directory, a table by primary key) as association lists. A key that is
-- inserted again replaces its entry, so a map that the operations build holds each key once.
use smartfs.Base.Tests.{Eq, ◌==◌, if◌then◌else◌}
use smartfs.Base.Lists.{length}
use Prim.Native.Nat.{ℕ, ◌+◌, ◌≤◌}
use mathlib.Core.Path.{◌≡◌, refl}
use mathlib.Core.Logic.{◌≢◌}
use mathlib.Core.Bool.{Bool}
use mathlib.Core.List.{List, [], ◌∷◌}
use mathlib.Core.Option.{Option, none, some}
use native.Mathlib.Omega.{arith}

abbrev pub Map {ℓ κ} : Type ℓ → Type κ → Type (ℓ ⊔ κ)
Map K V = List (K × V)

module _ {ℓ κ} {K : Type ℓ} {V : Type κ} ⦃e : Eq K⦄ where
  unfoldable pub lookup : K → Map K V → Option V
  lookup k [] = none
  lookup k ((j, v) ∷ m) = if j == k then some v else lookup k m

  unfoldable pub remove : K → Map K V → Map K V
  remove k [] = []
  remove k ((j, v) ∷ m) = let rest = remove k m in if j == k then rest else (j, v) ∷ rest

  unfoldable pub insert : K → V → Map K V → Map K V
  unfolding remove
  insert k v m = (k, v) ∷ remove k m

  pub lookup-remove :
      (k j : K) (m : Map K V) → lookup j (remove k m) ≡ (if k == j then none else lookup j m)
  unfolding lookup remove
  lookup-remove k j [] = ground arith
  lookup-remove k j ((i, v) ∷ m) =
      ground (arith, lookup-remove k j m, e.beq_iff i k, e.beq_iff i j, e.beq_iff k j)

  pub lookup-insert :
      (k j : K) (v : V) (m : Map K V)
      → lookup j (insert k v m) ≡ (if k == j then some v else lookup j m)
  unfolding lookup insert
  lookup-insert k j v m = ground (arith, lookup-remove k j m)

  pub lookup-remove_self : (k : K) (m : Map K V) → lookup k (remove k m) ≡ none
  lookup-remove_self k m = ground (arith, lookup-remove k k m, e.beq_iff k k)

  pub lookup-remove_ne : (k j : K) (m : Map K V) → j ≢ k → lookup j (remove k m) ≡ lookup j m
  lookup-remove_ne k j m h = ground (arith, lookup-remove k j m, e.beq_iff k j)

  pub lookup-insert_self : (k : K) (v : V) (m : Map K V) → lookup k (insert k v m) ≡ some v
  lookup-insert_self k v m = ground (arith, lookup-insert k k v m, e.beq_iff k k)

  pub lookup-insert_ne :
      (k j : K) (v : V) (m : Map K V) → j ≢ k → lookup j (insert k v m) ≡ lookup j m
  lookup-insert_ne k j v m h = ground (arith, lookup-insert k j v m, e.beq_iff k j)

  -- Each key occurs once.
  abbrev pub Distinct : Map K V → Type (ℓ ⊔ κ)
  Distinct [] = Unit
  Distinct ((j, v) ∷ m) = (lookup j m ≡ none) × Distinct m

  pub remove-Distinct : (k : K) (m : Map K V) → Distinct m → Distinct (remove k m)
  unfolding remove
  remove-Distinct k [] d = tt
  remove-Distinct k ((j, v) ∷ m) d = ground (arith, lookup-remove k j m, remove-Distinct k m d.1)

  pub insert-Distinct : (k : K) (v : V) (m : Map K V) → Distinct m → Distinct (insert k v m)
  unfolding insert
  insert-Distinct k v m d =
      ground (arith, lookup-remove k k m, remove-Distinct k m d, e.beq_iff k k)

  -- A removal leaves a map without the key as it is.
  pub remove-absent : (k : K) (m : Map K V) → lookup k m ≡ none → remove k m ≡ m
  unfolding lookup remove
  remove-absent k [] h = refl
  remove-absent k ((j, v) ∷ m) h = ground (arith, remove-absent k m)

  -- An entry that is inserted and removed again leaves no trace.
  pub remove-insert :
      (k : K) (v : V) (m : Map K V) → lookup k m ≡ none → remove k (insert k v m) ≡ m
  unfolding insert remove
  remove-insert k v m h = ground (arith, remove-absent k m h, e.beq_iff k k)

  -- How many entries pass a test.
  unfoldable pub count_where : (V → Bool) → Map K V → ℕ
  count_where p [] = 0
  count_where p ((j, v) ∷ m) = (if p v then 1 else 0) + count_where p m

  pub count_where-le-length : (p : V → Bool) (m : Map K V) → count_where p m ≤ length m
  unfolding count_where
  count_where-le-length p [] = omega arith
  count_where-le-length p ((j, v) ∷ m) = ground (arith, count_where-le-length p m)

  pub length-remove_le : (k : K) (m : Map K V) → length (remove k m) ≤ length m
  unfolding remove
  length-remove_le k [] = omega arith
  length-remove_le k ((j, v) ∷ m) = ground (arith, length-remove_le k m)

  -- The removal of a key that is there makes the map shorter.
  pub length-remove_lt :
      (k : K) (v : V) (m : Map K V) → lookup k m ≡ some v → length (remove k m) + 1 ≤ length m
  unfolding lookup remove
  length-remove_lt k v [] h = cc
  length-remove_lt k v ((j, w) ∷ m) h = ground (arith, length-remove_lt k v m, length-remove_le k m)

  pub length-insert_le : (k : K) (v : V) (m : Map K V) → length (insert k v m) ≤ length m + 1
  unfolding insert
  length-insert_le k v m = omega (arith, length-remove_le k m)

  -- A new key adds its entry to the count.
  pub count_where-insert :
      (p : V → Bool) (k : K) (v : V) (m : Map K V)
      → lookup k m ≡ none
      → count_where p (insert k v m) ≡ (if p v then 1 else 0) + count_where p m
  unfolding count_where insert
  count_where-insert p k v m h = rw (remove-absent k m h)

  pub count_where-remove :
      (p : V → Bool) (k : K) (v : V) (m : Map K V)
      → Distinct m
      → lookup k m ≡ some v
      → count_where p m ≡ (if p v then 1 else 0) + count_where p (remove k m)
  unfolding count_where lookup remove
  count_where-remove p k v [] d h = cc
  count_where-remove p k v ((j, w) ∷ m) d h =
      ground (arith, count_where-remove p k v m d.1, remove-absent k m, e.beq_iff j k)

abbrev pub map_option {ℓ} : {V : Type ℓ} → (V → V) → Option V → Option V
map_option f none = none
map_option f (some v) = some (f v)

-- `f` applied to every value.
module _ {ℓ κ} {K : Type ℓ} {V : Type κ} where
  unfoldable pub map_values : (V → V) → Map K V → Map K V
  map_values f [] = []
  map_values f ((j, v) ∷ m) = (j, f v) ∷ map_values f m

  pub length-map_values : (f : V → V) (m : Map K V) → length (map_values f m) ≡ length m
  unfolding map_values
  length-map_values f [] = refl
  length-map_values f ((j, v) ∷ m) = omega (arith, length-map_values f m)

module _ {ℓ κ} {K : Type ℓ} {V : Type κ} ⦃e : Eq K⦄ where
  pub lookup-map_values :
      (f : V → V) (k : K) (m : Map K V) → lookup k (map_values f m) ≡ map_option f (lookup k m)
  unfolding lookup map_values
  lookup-map_values f k [] = refl
  lookup-map_values f k ((j, v) ∷ m) = ground (arith, lookup-map_values f k m)

  pub map_values-Distinct : (f : V → V) (m : Map K V) → Distinct m → Distinct (map_values f m)
  unfolding map_values
  map_values-Distinct f [] d = tt
  map_values-Distinct f ((j, v) ∷ m) d =
      ground (arith, lookup-map_values f j m, map_values-Distinct f m d.1)

  unfoldable pub modify : K → (V → V) → Map K V → Map K V
  modify k f [] = []
  modify k f ((j, v) ∷ m) = (j, (if j == k then f v else v)) ∷ modify k f m

  pub lookup-modify :
      (f : V → V) (k j : K) (m : Map K V)
      → lookup j (modify k f m) ≡ (if k == j then map_option f (lookup j m) else lookup j m)
  unfolding lookup modify
  lookup-modify f k j [] = ground arith
  lookup-modify f k j ((i, v) ∷ m) =
      ground (arith, lookup-modify f k j m, e.beq_iff i k, e.beq_iff i j, e.beq_iff k j)

  pub modify-Distinct : (f : V → V) (k : K) (m : Map K V) → Distinct m → Distinct (modify k f m)
  unfolding modify
  modify-Distinct f k [] d = tt
  modify-Distinct f k ((j, v) ∷ m) d =
      ground (arith, lookup-modify f k j m, modify-Distinct f k m d.1)

  pub length-modify : (f : V → V) (k : K) (m : Map K V) → length (modify k f m) ≡ length m
  unfolding modify
  length-modify f k [] = refl
  length-modify f k ((j, v) ∷ m) = omega (arith, length-modify f k m)

  pub count_where-modify :
      (p : V → Bool) (f : V → V) (k : K) (m : Map K V)
      → ((v : V) → p (f v) ≡ p v)
      → count_where p (modify k f m) ≡ count_where p m
  unfolding count_where modify
  count_where-modify p f k [] h = refl
  count_where-modify p f k ((j, v) ∷ m) h = ground (arith, count_where-modify p f k m h, h v)

  -- A change of the values that a test does not see leaves the count.
  pub count_where-map_values :
      (p : V → Bool) (f : V → V) (m : Map K V)
      → ((v : V) → p (f v) ≡ p v)
      → count_where p (map_values f m) ≡ count_where p m
  unfolding count_where map_values
  count_where-map_values p f [] h = refl
  count_where-map_values p f ((j, v) ∷ m) h = ground (arith, count_where-map_values p f m h, h v)

abbrev pub keep_if {ℓ} : {V : Type ℓ} → (V → Bool) → Option V → Option V
keep_if p none = none
keep_if p (some v) = if p v then some v else none

-- `HashMap::retain`
module _ {ℓ κ} {K : Type ℓ} {V : Type κ} ⦃e : Eq K⦄ where
  unfoldable pub retain : (V → Bool) → Map K V → Map K V
  retain p [] = []
  retain p ((j, v) ∷ m) = let rest = retain p m in if p v then (j, v) ∷ rest else rest

  pub lookup-retain :
      (p : V → Bool) (k : K) (m : Map K V)
      → Distinct m
      → lookup k (retain p m) ≡ keep_if p (lookup k m)
  unfolding lookup retain
  lookup-retain p k [] d = refl
  lookup-retain p k ((j, v) ∷ m) d = grind (arith, lookup-retain p k m d.1, d.0, e.beq_iff j k)

  pub retain-Distinct : (p : V → Bool) (m : Map K V) → Distinct m → Distinct (retain p m)
  unfolding retain
  retain-Distinct p [] d = tt
  retain-Distinct p ((j, v) ∷ m) d =
      ground (arith, lookup-retain p j m d.1, retain-Distinct p m d.1, d.0)

pub ruleset map_laws = (lookup-remove, lookup-insert, lookup-map_values, lookup-modify)
