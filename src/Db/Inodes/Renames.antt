-- ===== src/Db/Inodes/Renames.antt =====
-- What a rename does to the names, and to what lay below a directory that it replaces
-- (crates/smartfs-db/src/inodes.rs, `inode_rename`).
use mathlib.Core.Path.{fun_ext}
use smartfs.Base.{
  ℕ, ◌≡◌, ◌≢◌, refl, Bool, true, false, ◌&&◌, not, Option, none, some, lookup, nat_eq, bytes_eq,
  ◌==◌, if◌then◌else◌, arith, inl, inr, Bool-cases, Option-cases, lookup-modify, lookup-remove,
  Bytes,
}
use smartfs.Schema.Error.{ok}
use smartfs.Db.Models.{Db, Inode, Env}
use smartfs.Db.Inodes.{is_entry, find_entry, delete_row, without_target, place, relocate, move}
use smartfs.Db.Inodes.Cascade.{IsLeaf, remaining_leaf}
use smartfs.Db.Inodes.Tree.{IsTree, is_entry_sound}
use smartfs.Db.Inodes.Moves.{move-IsTree}
use smartfs.Db.Inodes.Names.{names_of, bind, names_some, names_none, names_sound, names_complete}

abbrev is_target : Option ℕ → ℕ → Bool
is_target none k = false
is_target (some t) k = t == k

module _ (env : Env) (source op np : ℕ) (on nn : Bytes) (i : Inode) (d e : Db) (t : IsTree d.inodes)
    (here : lookup source d.inodes ≡ some i) (entry : is_entry (some op) on i ≡ true)
    (leaf : (k : ℕ) → names_of d np nn ≡ some k → k ≢ source → IsLeaf k d.inodes)
    (done : move env source (some np) nn d ≡ ok e) where
  cleared_rows :
      (k : ℕ)
      → lookup k (without_target source (find_entry (some np) nn d) d).inodes
        ≡ (if is_target (names_of d np nn) k && not (source == k) then none else lookup k d.inodes)
  unfolding names_of delete_row
  cleared_rows k = elim (Option-cases (find_entry (some np) nn d)) [
    | inl f ↦ ground (arith, f)
    | inr ((target, x), f) ↦ elim (Bool-cases (target == source)) [
      | inl s ↦ ground (
        arith,
        f,
        s,
        nat_eq.beq_iff target source,
        nat_eq.beq_iff source k,
        nat_eq.beq_iff target k,
      )
      | inr s ↦
          let named : names_of d np nn ≡ some target = ground (arith, f) in
          let alone =
            remaining_leaf target d.inodes t.distinct t.parents
              (leaf target named (λ same. ground (arith, same, s, nat_eq.beq_iff target source))) in
          ground (
            arith,
            f,
            s,
            alone,
            lookup-remove target k d.inodes,
            nat_eq.beq_iff target source,
            nat_eq.beq_iff source k,
            nat_eq.beq_iff target k,
          )
    ]
  ]

  lookup-move :
      (k : ℕ)
      → lookup k e.inodes ≡ (
          if source == k
          then some (place env (some np) nn i)
          else if is_target (names_of d np nn) k
          then none
          else lookup k d.inodes)
  unfolding move relocate
  lookup-move k =
      let d1 : Db = without_target source (find_entry (some np) nn d) d in
      ground (
        arith,
        done,
        here,
        cleared_rows source,
        cleared_rows k,
        nat_eq.beq_iff source source,
        nat_eq.beq_iff source k,
        lookup-modify (place env (some np) nn) source k d1.inodes,
      )

  placed-is_entry :
      (q : ℕ) (n : Bytes) → is_entry (some q) n (place env (some np) nn i) ≡ (np == q && nn == n)
  unfolding is_entry
  placed-is_entry q n = ground (arith, nat_eq.beq_iff np q, nat_eq.beq_iff q np)

  -- Who is at a name other than the new one after the move was there before, and is not the source.
  moved_entry :
      (q k : ℕ) (n : Bytes) (v : Inode)
      → (np == q && nn == n) ≡ false
      → lookup k e.inodes ≡ some v
      → is_entry (some q) n v ≡ true
      → (lookup k d.inodes ≡ some v) × (k ≢ source)
  moved_entry q k n v other h x = elim (Bool-cases (source == k)) [
    | inl s ↦ ground (arith, lookup-move k, s, h, x, placed-is_entry q n, other)
    | inr s ↦ (
      ground (arith, lookup-move k, s, h),
      λ same. ground (arith, s, same, nat_eq.beq_iff source k),
    )
  ]

  old_name_free :
      (k : ℕ) (v : Inode)
      → (np == op && nn == on) ≡ false
      → lookup k e.inodes ≡ some v
      → is_entry (some op) on v ≡ false
  old_name_free k v other h = elim (Bool-cases (is_entry (some op) on v)) [
    | inl x ↦
        let was = moved_entry op k on v other h x in
        let same = t.names k source op on v i was.0 here x entry in ground (arith, same, was.1 same)
    | inr x ↦ x
  ]

  other_name_free :
      (q k : ℕ) (n : Bytes) (v : Inode)
      → (np == q && nn == n) ≡ false
      → names_of d q n ≡ none
      → lookup k e.inodes ≡ some v
      → is_entry (some q) n v ≡ false
  other_name_free q k n v other f h = elim (Bool-cases (is_entry (some q) n v)) [
    | inl x ↦
        let was = moved_entry q k n v other h x in
        ground (arith, names_complete d t q k n v f was.0, x)
    | inr x ↦ x
  ]

  -- An inode at a name that is neither the old nor the new one stays.
  stays :
      (q k : ℕ) (n : Bytes) (v : Inode)
      → (np == q && nn == n) ≡ false
      → (op == q && on == n) ≡ false
      → lookup k d.inodes ≡ some v
      → is_entry (some q) n v ≡ true
      → lookup k e.inodes ≡ some v
  stays q k n v other old h x =
      let a = is_entry_sound q n v x in
      let b = is_entry_sound op on i entry in
      elim (Bool-cases (source == k)) [
        | inl s ↦ ground (
          arith,
          s,
          h,
          here,
          a,
          b,
          old,
          nat_eq.beq_iff source k,
          nat_eq.beq_iff op q,
          bytes_eq.beq_iff on n,
        )
        | inr s ↦ elim (Option-cases (names_of d np nn)) [
          | inl f ↦ ground (arith, lookup-move k, s, f, h)
          | inr (g, f) ↦
              let y = names_sound d t np g nn f in
              let c = is_entry_sound np nn y.0 y.2 in
              ground (
                arith,
                lookup-move k,
                s,
                f,
                h,
                y.1,
                a,
                c,
                other,
                nat_eq.beq_iff g k,
                nat_eq.beq_iff np q,
                bytes_eq.beq_iff nn n,
              )
        ]
      ]

  pub names_of-move : names_of e ≡ bind np nn (some source) (bind op on none (names_of d))
  names_of-move = fun_ext λ q. fun_ext λ n.
      let u : IsTree e.inodes = move-IsTree env source (some np) nn d e t done in
      elim (Bool-cases (np == q && nn == n)) [
        | inl s ↦
            let there =
              names_some e u q source n (place env (some np) nn i)
                (ground (arith, lookup-move source, nat_eq.beq_iff source source))
                (ground (arith, placed-is_entry q n, s)) in
            rw (s, there) refl
        | inr s ↦ elim (Bool-cases (op == q && on == n)) [
          | inl o ↦
              let same : (op ≡ q) × (on ≡ n) =
                ground (arith, o, nat_eq.beq_iff op q, bytes_eq.beq_iff on n) in
              let gone =
                names_none e u q n
                  (λ k v h. ground (arith, same, old_name_free k v (ground (arith, s, same)) h)) in
              rw (s, o, gone) refl
          | inr o ↦ elim (Option-cases (names_of d q n)) [
            | inl f ↦
                let gone = names_none e u q n (λ k v h. other_name_free q k n v s f h) in
                rw (s, o, f, gone) refl
            | inr (k, f) ↦
                let x = names_sound d t q k n f in
                let there = names_some e u q k n x.0 (stays q k n x.0 s o x.1 x.2) x.2 in
                rw (s, o, f, there) refl
          ]
        ]
      ]
