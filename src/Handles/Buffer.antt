-- ===== src/Handles/Buffer.antt =====
-- The in-memory buffer of a handle: `Vec::resize`, the copy of `write_to_handle`, and the limit of
-- 2 GiB (crates/smartfs-fuse/src/state.rs, `write_to_handle` and `truncate_handle`).
use smartfs.Base.{
  ℕ, ◌+◌, ◌-◌, ◌*◌, ◌^◌, ◌≤◌, ◌<◌, min, max, Option, none, ltb, if◌then◌else◌, ◌∙◌, ap,
  get_elem?_beyond, ◌≡◌, ◌++◌, Bytes, length, take, drop, replicate, some, get_elem?, length-append,
  length-take, length-drop, length-replicate, get_elem?-append_left, get_elem?-append_right,
  get_elem?-take, get_elem?-drop, get_elem?-replicate, arith,
}

abbrev pub max_buffer : ℕ
max_buffer = 2 * 1024 * 1024 * 1024

-- On `usize`, 64 bits wide.
unfoldable pub saturating_add : ℕ → ℕ → ℕ
saturating_add a b = min (a + b) (2 ^ 64 - 1)

-- `buffer.resize(n, 0)`: cut off at the end, or padded with zeros.
unfoldable pub resize : ℕ → Bytes → Bytes
resize n b = take n b ++ replicate (n - length b) 0

-- `buffer[offset..end].copy_from_slice(data)`
unfoldable pub write_at : ℕ → ℕ → Bytes → Bytes → Bytes
write_at offset stop bytes b = take offset b ++ (bytes ++ drop stop b)

pub length-resize : (n : ℕ) (b : Bytes) → length (resize n b) ≡ n
unfolding resize
length-resize n b = omega (
  arith,
  length-append (take n b) (replicate (n - length b) 0),
  length-take n b,
  length-replicate {A = ℕ} (n - length b) 0,
)

pub length-write_at :
    (offset : ℕ) (bytes b : Bytes)
    → offset + length bytes ≤ length b
    → length (write_at offset (offset + length bytes) bytes b) ≡ length b
unfolding write_at
length-write_at offset bytes b h = omega (
  arith,
  length-append (take offset b) (bytes ++ drop (offset + length bytes) b),
  length-append bytes (drop (offset + length bytes) b),
  length-take offset b,
  length-drop (offset + length bytes) b,
)

resize_kept :
    (n : ℕ) (b : Bytes) (i : ℕ) → i < n → i < length b → get_elem? (resize n b) i ≡ get_elem? b i
unfolding resize
resize_kept n b i h k =
    get_elem?-append_left (take n b) _ i (omega (arith, length-take n b)) ∙ get_elem?-take n b i h

resize_zero : (n : ℕ) (b : Bytes) (i : ℕ) → i < n → length b ≤ i → get_elem? (resize n b) i ≡ some 0
unfolding resize
resize_zero n b i h k =
    get_elem?-append_right (take n b) _ i (omega (arith, length-take n b))
    ∙ get_elem?-replicate (n - length b) 0 _ (omega (arith, length-take n b))

-- The buffer after `Vec::resize`: the old bytes below both lengths, then zeros.
pub get_elem?-resize :
    (n : ℕ) (b : Bytes) (i : ℕ)
    → get_elem? (resize n b) i
      ≡ (if ltb i n then if ltb i (length b) then get_elem? b i else some 0 else none)
get_elem?-resize n b i = ground (
  arith,
  resize_kept n b i,
  resize_zero n b i,
  get_elem?_beyond (resize n b) i,
  length-resize n b,
)

write_before :
    (offset : ℕ) (bytes b : Bytes) (i stop : ℕ)
    → i < offset
    → offset ≤ length b
    → get_elem? (write_at offset stop bytes b) i ≡ get_elem? b i
unfolding write_at
write_before offset bytes b i stop h k =
    get_elem?-append_left (take offset b) _ i (omega (arith, length-take offset b))
    ∙ get_elem?-take offset b i h

write_past_start :
    (offset : ℕ) (bytes b : Bytes) (i stop : ℕ)
    → offset ≤ i
    → offset ≤ length b
    → get_elem? (write_at offset stop bytes b) i ≡ get_elem? (bytes ++ drop stop b) (i - offset)
unfolding write_at
write_past_start offset bytes b i stop h k =
    get_elem?-append_right (take offset b) _ i (omega (arith, length-take offset b))
    ∙ ap (λ n. get_elem? (bytes ++ drop stop b) (i - n)) (omega (arith, length-take offset b))

write_after :
    (offset : ℕ) (bytes b : Bytes) (i : ℕ)
    → offset + length bytes ≤ i
    → get_elem? (bytes ++ drop (offset + length bytes) b) (i - offset) ≡ get_elem? b i
write_after offset bytes b i h =
    get_elem?-append_right bytes _ (i - offset) (omega arith)
    ∙ get_elem?-drop (offset + length bytes) b _
    ∙ ap (get_elem? b) (omega arith)

-- The copy changes the bytes of its range and no others.
pub get_elem?-write_at :
    (offset : ℕ) (bytes b : Bytes) (i : ℕ)
    → offset + length bytes ≤ length b
    → get_elem? (write_at offset (offset + length bytes) bytes b) i ≡ (
        if ltb i offset
        then get_elem? b i
        else if ltb i (offset + length bytes)
        then get_elem? bytes (i - offset)
        else get_elem? b i)
get_elem?-write_at offset bytes b i h = ground (
  arith,
  write_before offset bytes b i (offset + length bytes),
  write_past_start offset bytes b i (offset + length bytes),
  write_after offset bytes b i,
  get_elem?-append_left bytes (drop (offset + length bytes) b) (i - offset),
)

-- What a reader finds at position `i` after a write of `bytes` at `offset` over `b`: the new bytes
-- in their range, the old ones outside of it, and zeros in a gap behind the old end.
abbrev pub overlaid : ℕ → Bytes → Bytes → ℕ → Option ℕ
overlaid offset bytes b i =
    if ltb i offset
    then (if ltb i (length b) then get_elem? b i else some 0)
    else if ltb i (offset + length bytes)
    then get_elem? bytes (i - offset)
    else get_elem? b i

-- `if end > buffer.len() { buffer.resize(end, 0); }`
unfoldable pub grown : ℕ → Bytes → Bytes
grown stop b = if ltb (length b) stop then resize stop b else b

-- The buffer of `write_to_handle` after the write.
unfoldable pub written : ℕ → Bytes → Bytes → Bytes
written offset bytes b =
    let stop = saturating_add offset (length bytes) in write_at offset stop bytes (grown stop b)

pub length-grown : (n : ℕ) (b : Bytes) → length (grown n b) ≡ max (length b) n
unfolding grown
length-grown n b = ground (arith, length-resize n b)

get_elem?-grown :
    (n : ℕ) (b : Bytes) (i : ℕ)
    → get_elem? (grown n b) i
      ≡ (if ltb i (length b) then get_elem? b i else if ltb i n then some 0 else none)
unfolding grown
get_elem?-grown n b i = ground (arith, get_elem?-resize n b i, get_elem?_beyond b i)

pub saturating_add_small : (a b : ℕ) → a + b ≤ max_buffer → saturating_add a b ≡ a + b
unfolding saturating_add
saturating_add_small a b h = omega arith

module _ (offset : ℕ) (bytes b : Bytes) (fits : offset + length bytes ≤ max_buffer) where
  pub length-written : length (written offset bytes b) ≡ max (length b) (offset + length bytes)
  unfolding written
  length-written = rw (saturating_add_small offset (length bytes) fits) (
      omega (
        arith,
        length-write_at offset bytes (grown (offset + length bytes) b),
        length-grown (offset + length bytes) b,
      ))

  pub get_elem?-written : (i : ℕ) → get_elem? (written offset bytes b) i ≡ overlaid offset bytes b i
  unfolding written
  get_elem?-written i = rw (saturating_add_small offset (length bytes) fits) (
      ground (
        arith,
        get_elem?-write_at offset bytes (grown (offset + length bytes) b) i,
        length-grown (offset + length bytes) b,
        get_elem?-grown (offset + length bytes) b i,
        get_elem?_beyond b i,
      ))
