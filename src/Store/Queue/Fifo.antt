-- ===== src/Store/Queue/Fifo.antt =====
-- The directory is listed in the order in which its markers were numbered, and lists each marker's
-- name and no other (crates/smartfs-store/src/pending.rs).
use mathlib.Core.List.{Perm}
use mathlib.Core.List.Perm
use smartfs.Base.{
  ℕ, ◌^◌, ◌≤◌, ◌<◌, ◌≡◌, true, false, Bool-cases, inl, inr, none, some, List, [], ◌∷◌, Bytes, Map,
  length, bytes_ltb, bytes_ltb_asym, arith,
}
use smartfs.Schema.Marker.{file_name_for, parse_file_name, all_hex}
use smartfs.Schema.Marker.Names.{parse_file_name-file_name_for}
use smartfs.Schema.Marker.Order.{file_name_for_order}
use smartfs.Store.Queue.{queued, insert_name, sort_names, list}

-- A name that `file_name` makes, of a `u64` and a SHA-256 in hexadecimal.
pub record IsMarkerName (name : Bytes) : Type 0 where
  pub seq : ℕ
  pub hash : Bytes
  pub range : seq < 2 ^ 64
  pub width : length hash ≡ 64
  pub hex : all_hex hash ≡ true
  pub shape : name ≡ file_name_for seq hash

-- The sequence number that a name is read as.
unfoldable pub seq_of : Bytes → ℕ
seq_of name = elim (parse_file_name name) [ none ↦ 0 | some (seq, hash) ↦ seq ]

pub IsMarkerName-seq_of : (name : Bytes) (c : IsMarkerName name) → seq_of name ≡ c.seq
unfolding seq_of
IsMarkerName-seq_of name c =
    rw (c.shape, seq_of, parse_file_name-file_name_for c.seq c.hash c.range c.width c.hex)

abbrev pub AllNames : List Bytes → Type 0
AllNames [] = Unit
AllNames (x ∷ l) = IsMarkerName x × AllNames l

-- Every sequence number is at most the ones behind it.
abbrev pub AtMost : ℕ → List Bytes → Type 0
AtMost n [] = Unit
AtMost n (x ∷ l) = (n ≤ seq_of x) × AtMost n l

abbrev pub IsFifo : List Bytes → Type 0
IsFifo [] = Unit
IsFifo (x ∷ l) = AtMost (seq_of x) l × IsFifo l

-- A name that does not sort before another has a number that is not below the other's.
names_le :
    (x y : Bytes) → IsMarkerName x → IsMarkerName y → bytes_ltb x y ≡ false → seq_of y ≤ seq_of x
names_le x y c d e = ground (
  arith,
  IsMarkerName-seq_of x c,
  IsMarkerName-seq_of y d,
  file_name_for_order c.seq d.seq c.hash d.hash c.range d.range,
  c.shape,
  d.shape,
)

AtMost-mono : {m n : ℕ} (l : List Bytes) → m ≤ n → AtMost n l → AtMost m l
AtMost-mono [] h a = tt
AtMost-mono (x ∷ l) h a = (omega arith, AtMost-mono l h a.1)

AtMost-insert_name :
    (n : ℕ) (x : Bytes) (l : List Bytes) → n ≤ seq_of x → AtMost n l → AtMost n (insert_name x l)
unfolding insert_name
AtMost-insert_name n x [] h a = (h, tt)
AtMost-insert_name n x (y ∷ l) h a = ground (arith, AtMost-insert_name n x l h a.1)

insert_name-IsFifo :
    (x : Bytes) (l : List Bytes) → IsMarkerName x → AllNames l → IsFifo l → IsFifo (insert_name x l)
unfolding insert_name
insert_name-IsFifo x [] c cs f = (tt, tt)
insert_name-IsFifo x (y ∷ l) c cs f = elim (Bool-cases (bytes_ltb y x)) [
  | inl t ↦
      let le = names_le x y c cs.0 (bytes_ltb_asym y x t) in
      rw t (AtMost-insert_name (seq_of y) x l le f.0, insert_name-IsFifo x l c cs.1 f.1)
  | inr t ↦ let le = names_le y x cs.0 c t in rw t ((le, AtMost-mono l le f.0), f)
]

insert_name-AllNames :
    (x : Bytes) (l : List Bytes) → IsMarkerName x → AllNames l → AllNames (insert_name x l)
unfolding insert_name
insert_name-AllNames x [] c cs = (c, tt)
insert_name-AllNames x (y ∷ l) c cs = elim (Bool-cases (bytes_ltb y x)) [
  | inl t ↦ rw t (cs.0, insert_name-AllNames x l c cs.1)
  | inr t ↦ rw t (c, cs)
]

pub sort_names-IsFifo :
    (l : List Bytes) → AllNames l → AllNames (sort_names l) × IsFifo (sort_names l)
unfolding sort_names
sort_names-IsFifo [] cs = (tt, tt)
sort_names-IsFifo (x ∷ l) cs =
    let (all, fifo) = sort_names-IsFifo l cs.1 in
    (insert_name-AllNames x _ cs.0 all, insert_name-IsFifo x _ cs.0 all fifo)

insert_name-perm : (x : Bytes) (l : List Bytes) → Perm (insert_name x l) (x ∷ l)
unfolding insert_name
insert_name-perm x [] = Perm.refl (x ∷ [])
insert_name-perm x (y ∷ l) = elim (Bool-cases (bytes_ltb y x)) [
  | inl t ↦ rw t (Perm.trans (Perm.cons y (insert_name-perm x l)) (Perm.swap x y l))
  | inr t ↦ rw t (Perm.refl (x ∷ y ∷ l))
]

sort_names-perm : (l : List Bytes) → Perm (sort_names l) l
unfolding sort_names
sort_names-perm [] = Perm.refl []
sort_names-perm (x ∷ l) =
    Perm.trans (insert_name-perm x (sort_names l)) (Perm.cons x (sort_names-perm l))

-- A directory whose well-formed names are those that markers make is listed first in, first out:
-- no sequence number stands before a smaller one. The list holds each such name once for each time
-- that the directory does, and nothing else.
pub list-IsFifo {ℓ} :
    {V : Type ℓ} (d : Map Bytes V)
    → AllNames (queued d)
    → IsFifo (list d) × Perm (list d) (queued d)
unfolding list
list-IsFifo d cs = ((sort_names-IsFifo (queued d) cs).1, sort_names-perm (queued d))
