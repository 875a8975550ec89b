-- ===== src/Fuse/Reading.antt =====
-- What a reader finds through the handle that was written (crates/smartfs-fuse/src/fs.rs, `read`,
-- `write` and `getattr`).
use smartfs.Base.{
  ℕ, ◌+◌, ◌%◌, ◌^◌, ◌≤◌, ◌≡◌, refl, some, ◌++◌, Bytes, length, take, drop, drop-append, take-append,
  lookup-modify, leb, ltb, lookup, nat_eq, arith, inl, inr, Bool-cases, Option-cases, length-take,
  nil_of_length, sym, ap,
}
use smartfs.Schema.Error.{SmartFsError, ok, err, Result-cases}
use smartfs.Db.Models.{Inode, Env}
use smartfs.Handles.{
  OpenHandle, FuseStateManager, get_handle, get_or_empty, write_to_handle, write_handle,
}
use smartfs.Handles.Buffer.{
  max_buffer, saturating_add, written, write_at, grown, length-grown, saturating_add_small,
  length-written,
}
use smartfs.Attributes.{pos, FileAttr}
use smartfs.Fuse.{Mount, reply, answer, Codec, find_by_ino, set_size, attr_of}
use smartfs.Fuse.Io.{read, write, slice, fill_buffer, bytes_to_read}
use smartfs.Fuse.Lookups.{getattr, buffered_attr}

module _ (offset : ℕ) (bytes b : Bytes) (fits : offset + length bytes ≤ max_buffer) where
  drop-written :
      drop offset (written offset bytes b)
      ≡ bytes ++ drop (offset + length bytes) (grown (offset + length bytes) b)
  unfolding written write_at
  drop-written = rw (saturating_add_small offset (length bytes) fits) (
      drop-append (take offset (grown (offset + length bytes) b)) _ offset (
        omega (
          arith,
          length-take offset (grown (offset + length bytes) b),
          length-grown (offset + length bytes) b,
        )))

  -- The part of a written buffer that was written.
  slice-written : slice (pos offset) (length bytes) (written offset bytes b) ≡ bytes
  unfolding slice
  slice-written =
      let size = length-written offset bytes b fits in
      elim (Bool-cases (leb (length (written offset bytes b)) offset)) [
        | inl e ↦ rw (slice, e) (sym (nil_of_length bytes (ground (arith, e, size))))
        | inr e ↦ rw (slice, e, drop-written) (take-append bytes _ _ (ground (arith, size)))
      ]

-- What a write to a handle that succeeds has found and left.
pub record Written (fh offset : ℕ) (bytes : Bytes) (s t : FuseStateManager) (n : ℕ) : Type 0 where
  pub handle : OpenHandle
  pub found : get_handle fh s ≡ some handle
  pub fits : offset + length bytes ≤ max_buffer
  pub count : n ≡ length bytes
  pub left : get_handle fh t ≡ some (write_handle offset bytes handle)

pair_eta {ℓ κ} : {A : Type ℓ} {B : Type κ} {x : A × B} {b : B} → x.1 ≡ b → x ≡ (x.0, b)
pair_eta {x = x} e = ap (λ y. (x.0, y)) e

write_to_handle-Written :
    (fh offset : ℕ) (bytes : Bytes) (s t : FuseStateManager) (n : ℕ)
    → write_to_handle fh offset bytes s ≡ (t, ok n)
    → Written fh offset bytes s t n
unfolding write_to_handle get_handle saturating_add
write_to_handle-Written fh offset bytes s t n e = elim (Option-cases (lookup fh s.handles)) [
  | inl f ↦ ground (arith, e, f)
  | inr (h, f) ↦ elim (Bool-cases (ltb max_buffer (saturating_add offset (length bytes)))) [
    | inl g ↦ ground (arith, e, f, g)
    | inr g ↦ record {
      handle = h;
      found = f;
      fits = ground (arith, g);
      count = ground (arith, e, f, g);
      left = ground (
        arith,
        e,
        f,
        g,
        lookup-modify (write_handle offset bytes) fh fh s.handles,
        nat_eq.beq_iff fh fh,
      );
    }
  ]
]

module _ (codec : Codec) (env : Env) (ino fh offset : ℕ) (bytes : Bytes) (m q : Mount) (n : ℕ)
    (done : write codec env ino fh (pos offset) bytes m ≡ (q, reply n)) where
  filled : (x : SmartFsError) → (fill_buffer codec env ino fh m).1 ≡ err x → ⊥
  unfolding write answer
  filled x e = ground (arith, done, e)

  accepted :
      (x : SmartFsError)
      → (write_to_handle fh offset bytes (fill_buffer codec env ino fh m).0.state).1 ≡ err x
      → (u : Unit {0}) → (fill_buffer codec env ino fh m).1 ≡ ok u
      → ⊥
  unfolding write answer
  accepted x f u e = ground (arith, done, e, f)

  -- The handle's buffer after the callback.
  write_left :
      (h : OpenHandle) × (offset + length bytes ≤ max_buffer)
      × (n ≡ length bytes % 2 ^ 32)
      × (get_handle fh q.state ≡ some (write_handle offset bytes h))
  unfolding write
  write_left = elim (Result-cases (fill_buffer codec env ino fh m).1) [
    | inl (x, e) ↦ elim (filled x e) [ ]
    | inr (u, e) ↦
        let s : FuseStateManager = (fill_buffer codec env ino fh m).0.state in
        elim (Result-cases (write_to_handle fh offset bytes s).1) [
          | inl (x, f) ↦ elim (accepted x f u e) [ ]
          | inr (k, f) ↦
              let w =
                write_to_handle-Written fh offset bytes s (write_to_handle fh offset bytes s).0 k
                  (pair_eta f) in
              (
                w.handle,
                w.fits,
                ground (arith, done, e, f, w.count),
                ground (arith, done, e, f, w.left),
              )
        ]
  ]

  covering :
      (later : Env) (row : ℕ × Inode)
      → find_by_ino later ino q ≡ ok row
      → (a : FileAttr) × ((getattr later ino (some fh) q).1 ≡ reply a)
        × offset + length bytes ≤ a.size
  unfolding getattr buffered_attr
  covering later row e =
      let (h, fits, count, left) = write_left in
      (
        set_size (length (written offset bytes (get_or_empty h.buffer))) (attr_of q row),
        rw (getattr, e, buffered_attr, left) refl,
        omega (arith, length-written offset bytes (get_or_empty h.buffer) fits),
      )

  -- A write at an offset that is not below zero and that is acknowledged says how much it wrote (as a
  -- `u32`), and the same bytes come back from a read of that range through the handle, which changes
  -- nothing; `getattr` through the handle, if it finds the inode, gives a size that covers the range.
  pub write_then_read :
      (later : Env)
      → (n ≡ length bytes % 2 ^ 32)
        × (read codec later ino fh (pos offset) (length bytes) q ≡ (q, reply bytes))
        × ((row : ℕ × Inode)
            → find_by_ino later ino q ≡ ok row
            → (a : FileAttr) × ((getattr later ino (some fh) q).1 ≡ reply a)
              × (offset + length bytes ≤ a.size))
  unfolding read bytes_to_read
  write_then_read later =
      let (h, fits, count, left) = write_left in
      (
        count,
        rw (read, bytes_to_read, left, slice-written offset bytes (get_or_empty h.buffer) fits)
            refl,
        covering later,
      )
