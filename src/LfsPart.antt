-- ===== src/LfsPart.antt =====
-- Lfs_Part/src/Lfs_Part.c: littlefs on flash partitions. The partition calls of ESP-IDF and the calls
-- of littlefs are parameters. A partition object is at the address of its list entry.
pub mod Blocks
pub mod Lookup
mod Tests
use esp32_components.Base.{
  ℕ, ◌+◌, ◌*◌, ◌/◌, ◌%◌, ◌^◌, Bool, true, false, List, [], ◌∷◌, Option, none, some, ◌==◌,
  if◌then◌else◌, Status, done, failed, Outcome, returns, unfinished,
}
use esp32_components.CList
use esp32_components.CList.{Heap, append, iter}

pub record Partition : Type 0 where
  pub label : List ℕ
  pub address : ℕ
  pub size : ℕ

-- The geometry that the code gives littlefs.
abbrev pub block_size : ℕ
block_size = 4096

-- Offsets are `uint32_t`s.
unfoldable pub part_off : (block off : ℕ) → ℕ
part_off block off = (block * block_size % 2 ^ 32 + off) % 2 ^ 32

-- The flash of a partition: the calls give `none` for an error.
pub record Flash : Type 1 where
  pub Contents : Type 0
  pub flash_read : Contents → (off size : ℕ) → Option (List ℕ)
  pub flash_write : Contents → (off : ℕ) → List ℕ → Option Contents
  pub flash_erase : Contents → (off size : ℕ) → Option Contents

-- LFS_ERR_IO is `none`.
module _ (F : Flash) where
  unfoldable pub part_read : F.Contents → (block off size : ℕ) → Option (List ℕ)
  unfolding part_off
  part_read c block off size = F.flash_read c (part_off block off) size

  unfoldable pub part_write : F.Contents → (block off : ℕ) → List ℕ → Option F.Contents
  unfolding part_off
  part_write c block off buffer = F.flash_write c (part_off block off) buffer

  unfoldable pub part_erase : F.Contents → (block : ℕ) → Option F.Contents
  part_erase c block = F.flash_erase c (block * block_size % 2 ^ 32) block_size

-- The static list of partitions, with the flag that says whether it is set up.
pub record Registry : Type 0 where
  pub list : ℕ
  pub links : Heap
  pub initialized : Bool

unfoldable pub register : Registry → ℕ → Registry
register r lpfs =
    let links = if r.initialized then r.links else CList.init r.links r.list in
    record r { links = append links r.list lpfs; initialized = true }

-- strcmp() == 0 on the bytes before the terminators.
unfoldable pub same_label : List ℕ → List ℕ → Bool
same_label [] [] = true
same_label [] (y ∷ ys) = false
same_label (x ∷ xs) [] = false
same_label (x ∷ xs) (y ∷ ys) = let rest = same_label xs ys in if x == y then rest else false

unfoldable pub find_label : (ℕ → Partition) → List ℕ → List ℕ → Option ℕ
unfolding same_label
find_label partition label [] = none
find_label partition label (entry ∷ entries) =
    let rest = find_label partition label entries in
    if same_label (partition entry).label label then some entry else rest

-- The loop over the registry has fuel. `none` is NULL.
unfoldable pub get_partition : ℕ → (ℕ → Partition) → Registry → List ℕ → Outcome (Option ℕ)
unfolding find_label
get_partition fuel partition r label = elim (iter fuel r.links r.list) [
  | none ↦ unfinished
  | some entries ↦ returns (find_label partition label entries)
]

pub data LfsInit : Type 0 where
  not_found no_mutex mounted : LfsInit
  format_failed mount_failed : (err : ℕ) → LfsInit

-- The state of littlefs on the partition, whose calls may fail with an error.
pub record Lfs : Type 1 where
  pub Fs : Type 0
  pub mount : Fs → Option ℕ × Fs
  pub format : Fs → Option ℕ × Fs

module _ (L : Lfs) where
  unfoldable pub remount : L.Fs → LfsInit × L.Fs
  remount fs =
      let (res, fs) = L.mount fs in
      elim res [ none ↦ (mounted, fs) | some e ↦ (mount_failed e, fs) ]

  unfoldable pub format_and_mount : L.Fs → LfsInit × L.Fs
  unfolding remount
  format_and_mount fs =
      let (res, fs) = L.format fs in elim res [ none ↦ remount fs | some e ↦ (format_failed e, fs) ]

  -- What follows the set-up of the configuration: the partition is formatted if it cannot be mounted.
  unfoldable pub mount_or_format : L.Fs → LfsInit × L.Fs
  unfolding format_and_mount
  mount_or_format fs =
      let (res, fs) = L.mount fs in elim res [ none ↦ (mounted, fs) | some e ↦ format_and_mount fs ]

  -- `part` is what esp_partition_find_first() gives, and `mutex` whether a mutex can be made. The
  -- result comes with the number of blocks that littlefs is given.
  unfoldable pub lfs_part_init :
      (part : Option Partition) → (mutex : Bool) → L.Fs → (LfsInit × ℕ) × L.Fs
  unfolding mount_or_format
  lfs_part_init none mutex fs = ((not_found, 0), fs)
  lfs_part_init (some part) mutex fs =
      let (res, fs') = mount_or_format fs in
      if mutex then ((res, part.size / block_size), fs') else ((no_mutex, 0), fs)
