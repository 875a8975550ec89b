-- ===== src/Schema/Error.antt =====
-- The error type of all crates and its `Result` (crates/smartfs-schema/src/error.rs), and the errno
-- that the filesystem answers for each error (crates/smartfs-fuse/src/error.rs).
-- An error's message text is not modelled; an I/O error keeps its raw errno, if it has one.
use smartfs.Base.{ℕ, Option, none, some, ◌≡◌, refl, ◌⊎◌, inl, inr}

pub data SmartFsError : Type 0 where
  io : Option ℕ → SmartFsError
  db store compression syntax_error not_found conflict : SmartFsError
  missing_calibration advisory_lock_unavailable pending_queue_full other : SmartFsError

pub data Result {ℓ} (A : Type ℓ) : Type ℓ where
  ok : A → Result A
  err : SmartFsError → Result A

pub Result-cases {ℓ} :
    {A : Type ℓ} (r : Result A) → ((e : SmartFsError) × (r ≡ err e)) ⊎ ((a : A) × (r ≡ ok a))
Result-cases (ok a) = inr (a, refl)
Result-cases (err e) = inl (e, refl)

infixl 5 ◌>>=◌ ◌>>◌
abbrev pub ◌>>=◌ {ℓ κ} : {A : Type ℓ} {B : Type κ} → Result A → (A → Result B) → Result B
ok a >>= f = f a
err e >>= f = err e

abbrev pub ◌>>◌ {ℓ κ} : {A : Type ℓ} {B : Type κ} → Result A → Result B → Result B
m >> n = m >>= λ _. n

-- Linux's numbers for the errnos that the code names.
abbrev pub enoent : ℕ
enoent = 2

abbrev pub eio : ℕ
eio = 5

abbrev pub eagain : ℕ
eagain = 11

abbrev pub eacces : ℕ
eacces = 13

abbrev pub eexist : ℕ
eexist = 17

abbrev pub efbig : ℕ
efbig = 27

abbrev pub eperm : ℕ
eperm = 1

abbrev pub enotdir : ℕ
enotdir = 20

abbrev pub einval : ℕ
einval = 22

abbrev pub enametoolong : ℕ
enametoolong = 36

abbrev pub enotempty : ℕ
enotempty = 39

abbrev pub enotsup : ℕ
enotsup = 95

unfoldable pub error_to_errno : SmartFsError → ℕ
error_to_errno not_found = enoent
error_to_errno conflict = eexist
error_to_errno syntax_error = eacces
error_to_errno (io none) = eio
error_to_errno (io (some n)) = n
error_to_errno pending_queue_full = eagain
error_to_errno _ = eio
