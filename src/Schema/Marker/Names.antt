-- ===== src/Schema/Marker/Names.antt =====
-- The file name of a marker is read back, and what is read is well formed
-- (crates/smartfs-schema/src/pending.rs).
use native.Mathlib.Nat.{div-add-mod', mod-lt, pow-suc, div-lt_iff_lt-mul}
use mathlib.Core.List.{append_assoc}
use smartfs.Base.{
  ℕ, zero, suc, ◌+◌, ◌-◌, ◌*◌, ◌/◌, ◌%◌, ◌^◌, ◌≤◌, ◌<◌, ◌≡◌, ◌≢◌, refl, ap, ◌∙◌, true, false, some,
  [], ◌∷◌, ◌++◌, Bytes, length, nat_eq, bytes_eq, bytes_beq_iff, Bool-cases, Option-cases,
  bytes_beq, ◌==◌, arith, length-append, inl, inr,
}
use smartfs.Schema.Marker.{
  zero_padded, underscore, suffix, file_name_for, strip_suffix, split_once, is_digit, all_hex,
  parse_digits, parse_u64, parse_file_name, parse_parts,
}

pub pow_pos : (k : ℕ) → 0 < 10 ^ k
pow_pos zero = omega arith
pow_pos (suc k) = omega (arith, pow-suc 10 k, pow_pos k)

longer_ne : (x : ℕ) (s : Bytes) → ((x ∷ (s ++ suffix)) == suffix) ≡ false
longer_ne x s = elim (Bool-cases ((x ∷ (s ++ suffix)) == suffix)) [
  | inl t ↦ absurd (
      omega
        (arith, ap length ((bytes_beq_iff (x ∷ (s ++ suffix)) suffix).0 t), length-append s suffix))
  | inr f ↦ f
]

strip_suffix-append : (s : Bytes) → strip_suffix suffix (s ++ suffix) ≡ some s
unfolding strip_suffix bytes_beq
strip_suffix-append [] = refl
strip_suffix-append (x ∷ s) = ground (arith, longer_ne x s, strip_suffix-append s)

-- A byte that does not occur in a text.
abbrev Free : ℕ → Bytes → Type 0
Free c [] = Unit
Free c (x ∷ s) = (x ≢ c) × Free c s

split_once-append : (c : ℕ) (s t : Bytes) → Free c s → split_once c (s ++ (c ∷ t)) ≡ some (s, t)
unfolding split_once
split_once-append c [] t f = ground arith
split_once-append c (x ∷ s) t f = ground (arith, split_once-append c s t f.1)

digit_small : (k n : ℕ) → n < 10 ^ suc k → n / 10 ^ k < 10
digit_small k n h = (div-lt_iff_lt-mul (pow_pos k)).1 (omega (arith, pow-suc 10 k))

zero_padded-Free : (k n : ℕ) → n < 10 ^ k → Free underscore (zero_padded k n)
unfolding zero_padded
zero_padded-Free zero n h = tt
zero_padded-Free (suc k) n h =
    (omega (arith, digit_small k n h), zero_padded-Free k (n % 10 ^ k) (mod-lt n (pow_pos k)))

length-zero_padded : (k n : ℕ) → length (zero_padded k n) ≡ k
unfolding zero_padded
length-zero_padded zero n = refl
length-zero_padded (suc k) n = ap suc (length-zero_padded k (n % 10 ^ k))

le-mul_pos : (a d : ℕ) → 0 < d → a ≤ a * d
le-mul_pos a d h = grind arith

digit_algebra : (acc q r d n : ℕ) → q * d + r ≡ n → (acc * 10 + q) * d + r ≡ acc * (d * 10) + n
digit_algebra acc q r d n e = omega arith

-- One digit is taken off the front of a decimal.
digit_step : (k n acc : ℕ) → (acc * 10 + n / 10 ^ k) * 10 ^ k + n % 10 ^ k ≡ acc * 10 ^ suc k + n
digit_step k n acc =
    rw (pow-suc 10 k)
      (digit_algebra acc (n / 10 ^ k) (n % 10 ^ k) (10 ^ k) n (div-add-mod' n (10 ^ k)))

parse_digits-zero_padded :
    (k n acc : ℕ)
    → n < 10 ^ k
    → acc * 10 ^ k + n < 2 ^ 64
    → parse_digits acc (zero_padded k n) ≡ some (acc * 10 ^ k + n)
unfolding parse_digits zero_padded is_digit
parse_digits-zero_padded zero n acc h b = ground arith
parse_digits-zero_padded (suc k) n acc h b = ground (
  arith,
  digit_small k n h,
  digit_step k n acc,
  mod-lt n (pow_pos k),
  le-mul_pos (acc * 10 + n / 10 ^ k) (10 ^ k) (pow_pos k),
  parse_digits-zero_padded k (n % 10 ^ k) (acc * 10 + n / 10 ^ k),
)

parse_u64-zero_padded :
    (k n : ℕ) → n < 10 ^ suc (suc k) → n < 2 ^ 64 → parse_u64 (zero_padded (suc (suc k)) n) ≡ some n
parse_u64-zero_padded k n h b =
    unfold parse_u64 zero_padded in
    ground (arith, parse_digits-zero_padded (suc (suc k)) n 0 h (omega arith))

-- The name of a marker is read back as its sequence number and hash, for every `u64` and every
-- hash of 64 hexadecimal digits.
pub parse_file_name-file_name_for :
    (seq : ℕ) (hash : Bytes)
    → seq < 2 ^ 64
    → length hash ≡ 64
    → all_hex hash ≡ true
    → parse_file_name (file_name_for seq hash) ≡ some (seq, hash)
unfolding parse_file_name file_name_for
parse_file_name-file_name_for seq hash b l x = rw (
  ← append_assoc (zero_padded 20 seq) (underscore ∷ hash) suffix,
  strip_suffix-append (zero_padded 20 seq ++ (underscore ∷ hash)),
  split_once-append underscore (zero_padded 20 seq) hash (zero_padded-Free 20 seq (omega arith)),
  l,
  x,
  parse_u64-zero_padded 18 seq (omega arith) b,
)

strip_suffix_sound : (suf s r : Bytes) → strip_suffix suf s ≡ some r → s ≡ r ++ suf
unfolding strip_suffix
strip_suffix_sound suf [] r e = ground (arith, bytes_beq_iff [] suf)
strip_suffix_sound suf (x ∷ s) [] e = ground (arith, bytes_beq_iff (x ∷ s) suf)
strip_suffix_sound suf (x ∷ s) (y ∷ r) e = ground (arith, strip_suffix_sound suf s r)

split_once_sound : (c : ℕ) (s a b : Bytes) → split_once c s ≡ some (a, b) → s ≡ a ++ (c ∷ b)
unfolding split_once
split_once_sound c [] a b e = cc
split_once_sound c (x ∷ s) [] b e = ground arith
split_once_sound c (x ∷ s) (y ∷ a) b e = ground (arith, split_once_sound c s a b)

parse_digits-lt : (s : Bytes) (acc n : ℕ) → acc < 2 ^ 64 → parse_digits acc s ≡ some n → n < 2 ^ 64
unfolding parse_digits
parse_digits-lt [] acc n b e = ground arith
parse_digits-lt (c ∷ s) acc n b e = ground (arith, parse_digits-lt s (acc * 10 + (c - 48)) n)

parse_u64-lt : (s : Bytes) (n : ℕ) → parse_u64 s ≡ some n → n < 2 ^ 64
unfolding parse_u64 is_digit
parse_u64-lt [] n e = cc
parse_u64-lt (c ∷ []) n e = ground arith
parse_u64-lt (c ∷ d ∷ s) n e =
    ground (arith, parse_digits-lt (d ∷ s) 0 n, parse_digits-lt (c ∷ d ∷ s) 0 n)

-- What `parse_file_name` reads out of a name: a text `digits` in front of the first underscore.
pub record Reads (name : Bytes) (seq : ℕ) (hash : Bytes) : Type 0 where
  pub digits : Bytes
  pub shape : name ≡ digits ++ (underscore ∷ (hash ++ suffix))
  pub number : parse_u64 digits ≡ some seq
  pub width : length hash ≡ 64
  pub hex : all_hex hash ≡ true
  pub range : seq < 2 ^ 64

parts_sound :
    (name stem digits text hash : Bytes) (seq : ℕ)
    → name ≡ stem ++ suffix
    → stem ≡ digits ++ (underscore ∷ text)
    → parse_parts (some (digits, text)) ≡ some (seq, hash)
    → Reads name seq hash
parts_sound name stem digits text hash seq p q e = record {
  digits = digits;
  shape = rw (p, q) (append_assoc digits (underscore ∷ text) suffix ∙ ground arith);
  number = ground arith;
  width = ground arith;
  hex = ground arith;
  range = parse_u64-lt digits seq (ground arith);
}

-- A name is read only if it is made of a decimal `u64`, an underscore, 64 hexadecimal digits and
-- ".json"; any other name in the queue directory is skipped.
pub parse_file_name_sound :
    (name hash : Bytes) (seq : ℕ) → parse_file_name name ≡ some (seq, hash) → Reads name seq hash
unfolding parse_file_name
parse_file_name_sound name hash seq e = elim (Option-cases (strip_suffix suffix name)) [
  | inl p ↦ absurd (ground arith)
  | inr (stem, p) ↦ elim (Option-cases (split_once underscore stem)) [
    | inl q ↦ absurd (ground arith)
    | inr ((digits, text), q) ↦
        parts_sound name stem digits text hash seq (strip_suffix_sound suffix name stem p)
          (split_once_sound underscore stem digits text q) (ground arith)
  ]
]
