-- ===== src/LfsHelpers.antt =====
-- littlefs/src/lfs_helpers.c: reads and writes in one call, and the pool of descriptors. The calls of
-- littlefs itself are parameters; its files and directories are in the memory that they act on.
use esp32_components.Base.{
  ℕ, suc, Bool, true, false, List, [], ◌∷◌, Option, none, some, if◌then◌else◌, ltb, length, set,
  replicate, u8,
}

-- An `int`: what is not negative, or the negative of an error.
pub data Ret : Type 0 where
  ok err : ℕ → Ret

-- Where a file or a directory of littlefs stands: in a descriptor of the pool, or in a local variable.
pub data Object : Type 0 where
  file_of dir_of : ℕ → Object
  local_object : Object

pub record LfsInfo : Type 0 where
  pub type : ℕ
  pub size : ℕ
  pub name : List ℕ

pub record LfsFsInfo : Type 0 where
  pub block_size : ℕ
  pub block_count : ℕ

-- littlefs on all the file systems. A call on a buffer gives what the buffer holds afterwards.
pub record Littlefs : Type 1 where
  pub World : Type 0
  pub lfs_file_open : World → (lfs : ℕ) → Object → (path : List ℕ) → (flags : ℕ) → Ret × World
  pub lfs_file_close : World → (lfs : ℕ) → Object → Ret × World
  pub lfs_file_seek : World → (lfs : ℕ) → Object → (offset whence : ℕ) → Ret × World
  pub lfs_file_read : World → (lfs : ℕ) → Object → List ℕ → (size : ℕ) → (Ret × List ℕ) × World
  pub lfs_file_write : World → (lfs : ℕ) → Object → List ℕ → Ret × World
  pub lfs_file_size : World → (lfs : ℕ) → Object → Ret × World
  pub lfs_dir_open : World → (lfs : ℕ) → Object → (path : List ℕ) → Ret × World
  pub lfs_dir_close : World → (lfs : ℕ) → Object → Ret × World
  pub lfs_dir_read : World → (lfs : ℕ) → Object → (Ret × LfsInfo) × World
  pub lfs_stat : World → (lfs : ℕ) → (path : List ℕ) → (Ret × LfsInfo) × World
  pub lfs_remove : World → (lfs : ℕ) → (path : List ℕ) → Ret × World
  pub lfs_fs_stat : World → (lfs : ℕ) → (Ret × LfsFsInfo) × World

-- LFS_O_RDONLY and LFS_O_CREAT | LFS_O_WRONLY.
abbrev lfs_o_rdonly : ℕ
lfs_o_rdonly = 1

abbrev lfs_o_creat_wronly : ℕ
lfs_o_creat_wronly = 258

module _ (F : Littlefs) where
  unfoldable pub lfs_read_from_offset :
      F.World
      → (lfs : ℕ) → Object
      → (offset whence : ℕ) → List ℕ
      → (size : ℕ) → (Ret × List ℕ) × F.World
  lfs_read_from_offset w lfs file offset whence buf size =
      let (ret, w') = F.lfs_file_seek w lfs file offset whence in
      elim ret [ err e ↦ ((err e, buf), w') | ok n ↦ F.lfs_file_read w' lfs file buf size ]

  unfoldable pub lfs_write_to_offset :
      F.World → (lfs : ℕ) → Object → (offset whence : ℕ) → List ℕ → Ret × F.World
  lfs_write_to_offset w lfs file offset whence buf =
      let (ret, w') = F.lfs_file_seek w lfs file offset whence in
      elim ret [ err e ↦ (err e, w') | ok n ↦ F.lfs_file_write w' lfs file buf ]

  unfoldable pub read_and_close :
      F.World → (lfs offset whence : ℕ) → List ℕ → (size : ℕ) → (Ret × List ℕ) × F.World
  unfolding lfs_read_from_offset
  read_and_close w lfs offset whence buf size =
      let ((ret, buf'), w') = lfs_read_from_offset w lfs local_object offset whence buf size in
      elim ret [
        | err e ↦ ((err e, buf'), w')
        | ok n ↦ let (ret', w'') = F.lfs_file_close w' lfs local_object in ((ret', buf'), w'')
      ]

  unfoldable pub lfs_read_full :
      F.World
      → (lfs : ℕ) → (path : List ℕ) → (offset whence : ℕ) → List ℕ
      → (size : ℕ) → (Ret × List ℕ) × F.World
  unfolding read_and_close
  lfs_read_full w lfs path offset whence buf size =
      let (ret, w') = F.lfs_file_open w lfs local_object path lfs_o_rdonly in
      elim ret [ err e ↦ ((err e, buf), w') | ok n ↦ read_and_close w' lfs offset whence buf size ]

  unfoldable pub write_and_close : F.World → (lfs offset whence : ℕ) → List ℕ → Ret × F.World
  unfolding lfs_write_to_offset
  write_and_close w lfs offset whence buf =
      let (ret, w') = lfs_write_to_offset w lfs local_object offset whence buf in
      elim ret [ err e ↦ (err e, w') | ok n ↦ F.lfs_file_close w' lfs local_object ]

  unfoldable pub lfs_write_full :
      F.World → (lfs : ℕ) → (path : List ℕ) → (offset whence : ℕ) → List ℕ → Ret × F.World
  unfolding write_and_close
  lfs_write_full w lfs path offset whence buf =
      let (ret, w') = F.lfs_file_open w lfs local_object path lfs_o_creat_wronly in
      elim ret [ err e ↦ (err e, w') | ok n ↦ write_and_close w' lfs offset whence buf ]

  abbrev pub lfs_exists : F.World → (lfs : ℕ) → (path : List ℕ) → (Ret × LfsInfo) × F.World
  lfs_exists w lfs path = F.lfs_stat w lfs path

pub data DescriptorState : Type 0 where
  avail in_use : DescriptorState

-- The states of the descriptors of a pool; `num` is their number.
abbrev pub Pool : Type 0
Pool = List DescriptorState

-- The loop from the descriptor `idx` on. `none` is -1.
unfoldable pub first_avail : Pool → (idx : ℕ) → Option ℕ
first_avail [] idx = none
first_avail (avail ∷ ds) idx = some idx
first_avail (in_use ∷ ds) idx = first_avail ds (suc idx)

unfoldable pub get_descriptor : Pool → Option ℕ × Pool
unfolding first_avail
get_descriptor pool = elim (first_avail pool 0) [
  | none ↦ (none, pool)
  | some idx ↦ (some idx, set pool idx in_use)
]

-- `none` is NULL. The index is a `uint8_t`.
unfoldable pub lookup_descriptor : Pool → ℕ → Option ℕ
lookup_descriptor pool idx = if ltb (u8 idx) (length pool) then some (u8 idx) else none

unfoldable pub put_descriptor : Pool → (fd : ℕ) → Pool
unfolding lookup_descriptor
put_descriptor pool fd = elim (lookup_descriptor pool fd) [
  | none ↦ pool
  | some idx ↦ set pool idx avail
]

-- Whether the two calls of malloc() succeed is given. The number of blocks that stay allocated comes
-- with the pool.
unfoldable pub pool_init : (num : ℕ) → (room_lp room_pool : Bool) → Option Pool × ℕ
pool_init num false room_pool = (none, 0)
pool_init num true false = (none, 1)
pool_init num true true = (some (replicate num avail), 2)
