-- ===== src/Handles/Contents.antt =====
-- What writes and publications do to the buffers of open handles
-- (crates/smartfs-fuse/src/state.rs).
use smartfs.Base.{
  ℕ, ◌+◌, ◌≤◌, ◌<◌, max, ◌≡◌, ◌≢◌, refl, true, false, length, Bytes, lookup, lookup-modify, nat_eq,
  ltb, get_elem?, arith, Option, some, none, Option-cases, inl, inr,
}
use smartfs.Schema.Error.{SmartFsError, io, not_found, ok, err, efbig}
use smartfs.Handles.Buffer.{
  max_buffer, saturating_add, written, overlaid, length-written, get_elem?-written,
}
use smartfs.Handles.{
  OpenHandle, FuseStateManager, get_handle, get_or_empty, write_to_handle, set_buffer_if_absent,
}

-- The state after a successful write: the handle has a modified buffer that reads as the old one
-- overlaid by the new bytes, is as long as both need, and no other handle has changed.
pub record Wrote (fh offset : ℕ) (bytes : Bytes) (h : OpenHandle) (m q : FuseStateManager)
    : Type 0 where
  pub buffer : Bytes
  pub found : get_handle fh q ≡ some (record h { buffer = some buffer; modified = true })
  pub size : length buffer ≡ max (length (get_or_empty h.buffer)) (offset + length bytes)
  pub reads : (i : ℕ) → get_elem? buffer i ≡ overlaid offset bytes (get_or_empty h.buffer) i
  pub others : (k : ℕ) → k ≢ fh → get_handle k q ≡ get_handle k m

saturating_small : (a b : ℕ) → a + b ≤ max_buffer → ltb max_buffer (saturating_add a b) ≡ false
unfolding saturating_add
saturating_small a b h = ground arith

saturating_big : (a b : ℕ) → max_buffer < a + b → ltb max_buffer (saturating_add a b) ≡ true
unfolding saturating_add
saturating_big a b h = ground arith

module _ (fh offset : ℕ) (bytes : Bytes) (h : OpenHandle) (m : FuseStateManager) where
  -- A write that ends within 2 GiB, to an open handle, returns its length, and its bytes are read
  -- back where they were written: old bytes elsewhere, zeros in a gap behind the old end.
  pub write_to_handle_reads_back :
      lookup fh m.handles ≡ some h
      → offset + length bytes ≤ max_buffer
      → ((write_to_handle fh offset bytes m).1 ≡ ok (length bytes))
        × Wrote fh offset bytes h m (write_to_handle fh offset bytes m).0
  unfolding write_to_handle get_handle
  write_to_handle_reads_back e fits =
      rw (write_to_handle, e, saturating_small offset (length bytes) fits)
        (
          refl,
          record {
            buffer = written offset bytes (get_or_empty h.buffer);
            found = grind (arith, lookup-modify, e);
            size = length-written offset bytes (get_or_empty h.buffer) fits;
            reads = get_elem?-written offset bytes (get_or_empty h.buffer) fits;
            others = λ k ne. grind (arith, lookup-modify, ne);
          },
        )

abbrev refusal : Option OpenHandle → SmartFsError
refusal none = not_found
refusal (some h) = io (some efbig)

-- A write that would end past 2 GiB changes nothing and fails: with EFBIG if the handle is open,
-- and with NotFound otherwise.
pub write_to_handle_too_big :
    (fh offset : ℕ) (bytes : Bytes) (m : FuseStateManager)
    → max_buffer < offset + length bytes
    → write_to_handle fh offset bytes m ≡ (m, err (refusal (get_handle fh m)))
unfolding write_to_handle get_handle
write_to_handle_too_big fh offset bytes m big = elim (Option-cases (lookup fh m.handles)) [
  | inl e ↦ rw (write_to_handle, e)
  | inr (h, e) ↦ rw (write_to_handle, e, saturating_big offset (length bytes) big)
]

-- A reader that publishes the bytes it has loaded never replaces a buffer that is there: after a
-- write that succeeded, a late publication leaves the handle as the write left it.
pub publish-write :
    (fh offset : ℕ) (bytes loaded : Bytes) (m : FuseStateManager)
    → (write_to_handle fh offset bytes m).1 ≡ ok (length bytes)
    → get_handle fh (set_buffer_if_absent fh loaded (write_to_handle fh offset bytes m).0).0
      ≡ get_handle fh (write_to_handle fh offset bytes m).0
unfolding write_to_handle set_buffer_if_absent get_handle
publish-write fh offset bytes loaded m done = grind (arith, lookup-modify, done)
