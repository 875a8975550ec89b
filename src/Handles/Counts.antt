-- ===== src/Handles/Counts.antt =====
-- The descriptor counts of `FuseStateManager` are the numbers of open handles, after any history.
use smartfs.Base.{
  ℕ, ◌+◌, ◌-◌, ◌^◌, ◌<◌, ◌≡◌, refl, Option, none, some, Bytes, length, nat_eq, ◌==◌, if◌then◌else◌,
  Map, Distinct, lookup, count_where, lookup-insert, lookup-remove, lookup-modify,
  lookup-map_values, insert-Distinct, remove-Distinct, modify-Distinct, map_values-Distinct,
  length-remove_le, length-insert_le, count_where-insert, length-modify, length-map_values,
  count_where-remove, count_where-modify, count_where-map_values, count_where-le-length,
  Option-cases, inl, inr, arith,
}
use smartfs.Handles.{
  OpenHandle, InodeState, FuseStateManager, new, allocate_fh, open_fd_count, close_handle,
  mark_for_deletion, close_inode, or_default, set_handle, for_inode,
}

-- How many handles of inode `i` are open.
unfoldable pub handles_of : ℕ → FuseStateManager → ℕ
handles_of i m = count_where (λ h. h.inode_id == i) m.handles

pub record IsConsistent (m : FuseStateManager) : Type 0 where
  pub distinct : Distinct m.handles
  pub numbered :
      (k : ℕ) (h : OpenHandle) → lookup k m.handles ≡ some h → (h.fh ≡ k) × (k < m.next_fh)
  pub counted : (i : ℕ) → open_fd_count i m ≡ handles_of i m
  pub occupied : (i : ℕ) (s : InodeState) → lookup i m.inodes ≡ some s → 0 < s.open_fd_count
  pub room : length m.handles < m.next_fh
  pub small : m.next_fh < 2 ^ 64

pub new-IsConsistent : IsConsistent new
unfolding lookup open_fd_count handles_of count_where
new-IsConsistent = record {
  distinct = tt;
  numbered = λ k h e. cc;
  counted = λ i. refl;
  occupied = λ i s e. cc;
  room = omega arith;
  small = omega arith;
}

fresh : {m : FuseStateManager} → IsConsistent m → lookup m.next_fh m.handles ≡ none
fresh {m} v = elim (Option-cases (lookup m.next_fh m.handles)) [
  | inl e ↦ e
  | inr (h, e) ↦ absurd (omega (arith, (v.numbered m.next_fh h e).1))
]

module _ (ino inode_id flags : ℕ) (b : Option Bytes) (m : FuseStateManager) where
  pub allocate-IsConsistent :
      m.next_fh + 1 < 2 ^ 64 → IsConsistent m → IsConsistent (allocate_fh ino inode_id flags b m).0
  unfolding allocate_fh open_fd_count handles_of
  allocate-IsConsistent big v = record {
    distinct = insert-Distinct m.next_fh _ m.handles v.distinct;
    numbered = λ k h e. grind (arith, lookup-insert, v.numbered k h);
    counted = λ i. grind (
      arith,
      count_where-insert,
      fresh v,
      lookup-insert,
      v.counted i,
      count_where-le-length (λ h. h.inode_id == i) m.handles,
    );
    occupied = λ i s e. grind (
      arith,
      lookup-insert,
      v.occupied i s,
      v.counted inode_id,
      count_where-le-length (λ h. h.inode_id == inode_id) m.handles,
    );
    room = grind (arith, length-insert_le);
    small = omega arith;
  }

-- The descriptor count of `i` in a table of inode states.
abbrev count_in : ℕ → Map ℕ InodeState → ℕ
count_in i inodes = (or_default (lookup i inodes)).open_fd_count

abbrev Occupied : Map ℕ InodeState → Type 0
Occupied inodes = (i : ℕ) (s : InodeState) → lookup i inodes ≡ some s → 0 < s.open_fd_count

count_in-close_inode :
    (j i : ℕ) (inodes : Map ℕ InodeState)
    → count_in i (close_inode j inodes).0 ≡ count_in i inodes - (if j == i then 1 else 0)
unfolding close_inode
count_in-close_inode j i inodes = grind (arith, lookup-remove, lookup-modify)

close_inode-Occupied :
    (j : ℕ) (inodes : Map ℕ InodeState) → Occupied inodes → Occupied (close_inode j inodes).0
unfolding close_inode
close_inode-Occupied j inodes o i s e = grind (arith, lookup-remove, lookup-modify, o i, o j)

module _ (fh : ℕ) (m : FuseStateManager) where
  pub close-IsConsistent : IsConsistent m → IsConsistent (close_handle fh m).0
  unfolding close_handle open_fd_count handles_of
  close-IsConsistent v = elim (Option-cases (lookup fh m.handles)) [
    | inl e ↦ rw (e, close_handle) v
    | inr (h, e) ↦
        rw (e, close_handle)
          (record {
            distinct = remove-Distinct fh m.handles v.distinct;
            numbered = λ k g d. ground (arith, lookup-remove fh k m.handles, v.numbered k g);
            counted = λ i. ground (
              arith,
              v.counted i,
              count_in-close_inode h.inode_id i m.inodes,
              count_where-remove (λ g. g.inode_id == i) fh h m.handles v.distinct e,
            );
            occupied = close_inode-Occupied h.inode_id m.inodes v.occupied;
            room = omega (arith, v.room, length-remove_le fh m.handles);
            small = v.small;
          })
  ]

module _ (i : ℕ) (m : FuseStateManager) where
  pub mark-IsConsistent : IsConsistent m → IsConsistent (mark_for_deletion i m).0
  unfolding mark_for_deletion open_fd_count handles_of
  mark-IsConsistent v = record {
    distinct = ground (arith, v.distinct);
    numbered = λ k g d. ground (arith, v.numbered k g);
    counted = λ j. grind (arith, v.counted j, lookup-remove, lookup-insert, v.occupied i);
    occupied = λ j s d. grind (arith, v.occupied j s, v.occupied i, lookup-remove, lookup-insert);
    room = ground (arith, v.room);
    small = ground (arith, v.small);
  }

-- A change that leaves the identity of a handle alone.
abbrev pub Keeps : (OpenHandle → OpenHandle) → Type 0
Keeps f = (h : OpenHandle) → ((f h).fh ≡ h.fh) × ((f h).inode_id ≡ h.inode_id)

module _ (f : OpenHandle → OpenHandle) (keeps : Keeps f) (m : FuseStateManager) where
  pub set_handle-IsConsistent : (fh : ℕ) → IsConsistent m → IsConsistent (set_handle fh f m)
  unfolding open_fd_count handles_of
  set_handle-IsConsistent fh v = record {
    distinct = modify-Distinct f fh m.handles v.distinct;
    numbered = λ k h e. grind (arith, lookup-modify f fh k m.handles, v.numbered k, keeps);
    counted = λ i. grind (
      arith,
      v.counted i,
      count_where-modify (λ h. h.inode_id == i) f fh m.handles (λ h. grind (arith, keeps h)),
    );
    occupied = v.occupied;
    room = omega (arith, v.room, length-modify f fh m.handles);
    small = v.small;
  }

  pub for_inode-IsConsistent : (j : ℕ) → IsConsistent m → IsConsistent (for_inode j f m)
  unfolding open_fd_count handles_of
  for_inode-IsConsistent j v = record {
    distinct = map_values-Distinct g m.handles v.distinct;
    numbered = λ k h e. grind (arith, lookup-map_values g k m.handles, v.numbered k, keeps);
    counted = λ i. grind (
      arith,
      v.counted i,
      count_where-map_values (λ h. h.inode_id == i) g m.handles (λ h. grind (arith, keeps h)),
    );
    occupied = v.occupied;
    room = omega (arith, v.room, length-map_values g m.handles);
    small = v.small;
  }
    where
      g : OpenHandle → OpenHandle
      g h = if h.inode_id == j then f h else h
