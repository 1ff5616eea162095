-- ===== src/LfsApi.antt =====
-- Fs_Api/include/Fs_Api.h, the interface of a file system, and Lfs_Api/src/Lfs_Api.c, which implements
-- it by the one file of a partition of littlefs.
use Prim.Native.Nat.{bit_or}
use esp32_components.Base.{
  ℕ, zero, suc, ◌-◌, ◌/◌, ◌%◌, List, Option, none, some, ◌==◌, if◌then◌else◌,
}
use esp32_components.LfsHelpers.{Ret, ok, err, Object, Littlefs}

-- The functions of an object, which act on what its context points to. An `int` is a `Ret`. A read
-- gives what the buffer holds afterwards.
pub record FsApi : Type 1 where
  pub Ctx : Type 0
  pub open_path : Ctx → (path : List ℕ) → (flags : ℕ) → Ret × Ctx
  pub close : Ctx → (fd : ℕ) → Ret × Ctx
  pub read : Ctx → (fd : ℕ) → (buf : List ℕ) → (size : Ret) → (Ret × List ℕ) × Ctx
  pub write : Ctx → (fd : ℕ) → (buf : List ℕ) → Ret × Ctx
  pub seek : Ctx → (fd offset mode : ℕ) → Ret × Ctx
  pub fsize : Ctx → (fd : ℕ) → Ret × Ctx

-- FSAPI_O_RDONLY, the first of the flags.
abbrev pub fsapi_o_rdonly : ℕ
fsapi_o_rdonly = 2

-- `if (flags & flag) _flags |= lfs_flag` for a flag of one bit.
abbrev add_flag : (flags flag lfs_flag : ℕ) → ℕ → ℕ
add_flag flags flag lfs_flag acc = if flags / flag % 2 == 1 then bit_or acc lfs_flag else acc

-- The flags in the order of the code, those of Fs_Api beside those of littlefs.
unfoldable pub open_flags : (flags : ℕ) → ℕ
open_flags flags = add_flag flags 128 0x0800 (
    add_flag flags 64 0x0400 (
      add_flag flags 32 0x0200 (
        add_flag flags 16 0x0100
          (add_flag flags 8 3 (add_flag flags 4 2 (add_flag flags fsapi_o_rdonly 1 0))))))

module _ (L : Littlefs) (lfs : ℕ) (file : Object) where
  unfoldable pub lfs_open : L.World → (path : List ℕ) → (flags : ℕ) → Ret × L.World
  unfolding open_flags
  lfs_open w path flags = L.lfs_file_open w lfs file path (open_flags flags)

  unfoldable pub lfs_close : L.World → (fd : ℕ) → Ret × L.World
  lfs_close w fd = L.lfs_file_close w lfs file

  -- FSAPI_SEEK_SET, FSAPI_SEEK_CUR and FSAPI_SEEK_END have the values of littlefs; another mode gives 1.
  unfoldable pub lfs_seek : L.World → (fd offset mode : ℕ) → Ret × L.World
  lfs_seek w fd offset zero = L.lfs_file_seek w lfs file offset 0
  lfs_seek w fd offset (suc zero) = L.lfs_file_seek w lfs file offset 1
  lfs_seek w fd offset (suc (suc zero)) = L.lfs_file_seek w lfs file offset 2
  lfs_seek w fd offset (suc (suc (suc mode))) = (ok 1, w)

  -- littlefs takes the size as an unsigned number of 32 bits.
  unfoldable pub lfs_read : L.World → (fd : ℕ) → List ℕ → Ret → (Ret × List ℕ) × L.World
  lfs_read w fd buf (ok n) = L.lfs_file_read w lfs file buf n
  lfs_read w fd buf (err e) = L.lfs_file_read w lfs file buf (4294967296 - e)

  unfoldable pub lfs_write : L.World → (fd : ℕ) → List ℕ → Ret × L.World
  lfs_write w fd buf = L.lfs_file_write w lfs file buf

  unfoldable pub lfs_fsize : L.World → (fd : ℕ) → Ret × L.World
  lfs_fsize w fd = L.lfs_file_size w lfs file

  -- The object after Lfs_Api_init() found its partition.
  unfoldable pub lfs_api : FsApi
  unfolding lfs_open lfs_close lfs_read lfs_write lfs_seek lfs_fsize
  lfs_api = record {
    Ctx = L.World;
    open_path = lfs_open;
    close = lfs_close;
    read = lfs_read;
    write = lfs_write;
    seek = lfs_seek;
    fsize = lfs_fsize;
  }

-- `part` is what the look-up of the label gives, `none` for NULL.
unfoldable pub lfs_api_init : Littlefs → (file : ℕ → Object) → (part : Option ℕ) → Option FsApi
unfolding lfs_api
lfs_api_init L file none = none
lfs_api_init L file (some part) = some (lfs_api L part (file part))
