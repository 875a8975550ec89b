-- ===== src/Db/Inodes/Rows.antt =====
-- A table searched by a condition on its columns: the first row that meets it
-- (crates/smartfs-db/src/inodes.rs, the SELECTs by name and by number).
use smartfs.Base.{
  ℕ, ◌≡◌, refl, Bool, true, false, Option, none, some, [], ◌∷◌, if◌then◌else◌, Map, lookup,
  Distinct, nat_eq, arith, Option-cases, inl, inr, modify,
}

module _ {ℓ} {V : Type ℓ} where
  unfoldable pub find_row : (V → Bool) → Map ℕ V → Option (ℕ × V)
  find_row q [] = none
  find_row q ((id, v) ∷ rest) = if q v then some (id, v) else find_row q rest

  -- The row that is found is in the table and meets the condition.
  pub find_row_sound :
      (q : V → Bool) (m : Map ℕ V) (k : ℕ) (v : V)
      → Distinct m
      → find_row q m ≡ some (k, v)
      → (lookup k m ≡ some v) × (q v ≡ true)
  unfolding find_row lookup
  find_row_sound q [] k v d e = cc
  find_row_sound q ((j, w) ∷ m) k v d e =
      ground (arith, find_row_sound q m k v d.1, d.0, e, nat_eq.beq_iff j k)

  -- No row that is in the table meets the condition if none is found.
  pub find_row_nothing :
      (q : V → Bool) (m : Map ℕ V) (k : ℕ) (v : V)
      → find_row q m ≡ none
      → lookup k m ≡ some v
      → q v ≡ false
  unfolding find_row lookup
  find_row_nothing q [] k v e h = cc
  find_row_nothing q ((j, w) ∷ m) k v e h = ground (arith, find_row_nothing q m k v, e, h)

  -- A row that meets the condition is found if it is the only one that does.
  pub find_row_unique :
      (q : V → Bool) (m : Map ℕ V) (k : ℕ) (v : V)
      → Distinct m
      → lookup k m ≡ some v
      → q v ≡ true
      → ((j : ℕ) (w : V) → lookup j m ≡ some w → q w ≡ true → j ≡ k)
      → find_row q m ≡ some (k, v)
  find_row_unique q m k v d h t only = elim (Option-cases (find_row q m)) [
    | inl e ↦ ground (arith, find_row_nothing q m k v e h, t)
    | inr (r, e) ↦
        let found = find_row_sound q m r.0 r.1 d e in
        ground (arith, found, only r.0 r.1 found.0 found.1, h, e)
  ]

  -- Nothing is found if no row meets the condition.
  pub find_row_absent :
      (q : V → Bool) (m : Map ℕ V)
      → Distinct m
      → ((j : ℕ) (w : V) → lookup j m ≡ some w → q w ≡ false)
      → find_row q m ≡ none
  find_row_absent q m d only = elim (Option-cases (find_row q m)) [
    | inl e ↦ e
    | inr (r, e) ↦
        let found = find_row_sound q m r.0 r.1 d e in ground (arith, found, only r.0 r.1 found.0)
  ]

  abbrev pub key_of : Option (ℕ × V) → Option ℕ
  key_of none = none
  key_of (some (id, v)) = some id

  -- A change that the condition does not see leaves the key that is found.
  pub find_row-modify :
      (q : V → Bool) (f : V → V) (k : ℕ) (m : Map ℕ V)
      → ((v : V) → q (f v) ≡ q v)
      → key_of (find_row q (modify k f m)) ≡ key_of (find_row q m)
  unfolding find_row modify
  find_row-modify q f k [] h = refl
  find_row-modify q f k ((j, v) ∷ m) h = ground (arith, find_row-modify q f k m h, h v)
