-- ===== src/Pipeline/Limits.antt =====
-- The size of the queue by the size of the memory (crates/smartfs-fuse/src/pending.rs, PendingLimits).
use smartfs.Base.{ℕ, ◌*◌, ◌/◌, ◌%◌, ◌^◌, ◌≤◌, ◌<◌, min, max, arith}

abbrev pub ram_fraction_denominator : ℕ
ram_fraction_denominator = 64

abbrev pub bytes_per_entry : ℕ
bytes_per_entry = 256

abbrev pub max_entries_ceiling : ℕ
max_entries_ceiling = 100000

abbrev pub min_entries : ℕ
min_entries = 1024

-- `usize` has 64 bits.
unfoldable pub entries_for_ram : ℕ → ℕ
entries_for_ram total_ram_bytes =
    let budget = total_ram_bytes / ram_fraction_denominator / bytes_per_entry in
    min (max (budget % 2 ^ 64) min_entries) max_entries_ceiling

-- For every amount of memory that a `u64` can say, the queue has at least 1,024 and at most 100,000
-- entries; more memory never gives fewer; and above the floor the entries take at most a 64th of
-- the memory.
pub entries_for_ram_budget :
    (ram more : ℕ)
    → more < 2 ^ 64
    → ram ≤ more
    → (min_entries ≤ entries_for_ram ram)
      × (entries_for_ram ram ≤ max_entries_ceiling)
      × (entries_for_ram ram ≤ entries_for_ram more)
      × (entries_for_ram ram * bytes_per_entry * 64 ≤ max ram (min_entries * bytes_per_entry * 64))
unfolding entries_for_ram
entries_for_ram_budget ram more bound le = omega arith
