-- ===== src/Schema/Marker/Order.antt =====
-- The file names of markers sort as their sequence numbers (crates/smartfs-schema/src/pending.rs).
use native.Mathlib.Decide.{dec_lt}
use native.Mathlib.Nat.{mul-le-mul_right, div-add-mod', mod-lt}
use smartfs.Base.{
  ℕ, zero, suc, ◌+◌, ◌*◌, ◌/◌, ◌%◌, ◌^◌, ◌<◌, ◌≡◌, ◌≢◌, ap, ◌∙◌, bytes_ltb_asym, ◌⊎◌, inl, inr,
  true, Bytes, ◌++◌, ltb, bytes_ltb, arith,
}
use smartfs.Schema.Marker.{zero_padded, file_name_for}
use smartfs.Schema.Marker.Names.{pow_pos}

eq_of : (a b : ℕ) → ¬ (a < b) → ¬ (b < a) → a ≡ b
eq_of a b p q = omega arith

division_order :
    (q r q' r' d : ℕ) → q * d + r < q' * d + r' → r < d → r' < d → (q < q') ⊎ ((q ≡ q') × (r < r'))
division_order q r q' r' d h b b' = elim (dec_lt q q') [
  | yes below ↦ inl below
  | no above ↦ elim (dec_lt q' q) [
    | yes over ↦ absurd (omega (arith, mul-le-mul_right d over))
    | no equal ↦ inr (omega arith, omega (arith, ap (λ (t : ℕ). t * d) (eq_of q q' above equal)))
  ]
]

zero_padded_order :
    (k m n : ℕ) (s t : Bytes)
    → m < n
    → n < 10 ^ k
    → bytes_ltb (zero_padded k m ++ s) (zero_padded k n ++ t) ≡ true
unfolding zero_padded bytes_ltb
zero_padded_order zero m n s t h b = absurd (omega arith)
zero_padded_order (suc k) m n s t h b = ground (
  arith,
  division_order (m / 10 ^ k) (m % 10 ^ k) (n / 10 ^ k) (n % 10 ^ k) (10 ^ k),
  div-add-mod' m (10 ^ k),
  div-add-mod' n (10 ^ k),
  mod-lt m (pow_pos k),
  mod-lt n (pow_pos k),
  zero_padded_order k (m % 10 ^ k) (n % 10 ^ k) s t,
)

-- For two sequence numbers that differ, the names of their markers sort as the numbers do, whatever
-- the hashes: sorting the directory gives the order of the queue.
pub file_name_for_order :
    (m n : ℕ) (h g : Bytes)
    → m < 2 ^ 64
    → n < 2 ^ 64
    → m ≢ n
    → bytes_ltb (file_name_for m h) (file_name_for n g) ≡ ltb m n
unfolding file_name_for
file_name_for_order m n h g bm bn ne = elim (dec_lt m n) [
  | yes lt ↦ zero_padded_order 20 m n _ _ lt (omega arith) ∙ ground arith
  | no ge ↦
      bytes_ltb_asym _ _ (zero_padded_order 20 n m _ _ (omega arith) (omega arith)) ∙ ground arith
]
