-- ===== src/LfsPartRpc/Access.antt =====
-- What the handlers do on a directory or a file that is open.
use esp32_components.Base.{
  ℕ, zero, suc, ◌+◌, Bool, false, ◌&&◌, ◌||◌, not, List, Option, none, some, ◌==◌, if◌then◌else◌,
  ltb, leb, min, strncpy, add32, Outcome, returns, unfinished, ◌>>=◌, fetch, put,
}
use esp32_components.LfsHelpers.{
  Ret, ok, err, Object, local_object, LfsInfo, Littlefs, lfs_read_from_offset, lfs_write_to_offset,
}
use esp32_components.LfsPartRpc.Cache.{LfsCallset, name_max, entries_max, size_max}

-- `strncpy` of the name, the other fields copied.
unfoldable pub copy_info : LfsInfo → LfsInfo → LfsInfo
copy_info dst src = record {
  type = src.type;
  size = src.size;
  name = strncpy dst.name src.name name_max;
}

-- LFS_SEEK_SET, LFS_SEEK_CUR and LFS_SEEK_END.
unfoldable pub is_seek_flag : ℕ → Bool
is_seek_flag flag = flag == 0 || flag == 1 || flag == 2

-- The number of entries met, of entries returned, and the array.
pub record Listing : Type 0 where
  pub entry_idx : ℕ
  pub num_returned : ℕ
  pub infos : List LfsInfo

unfoldable pub take_entry : (start : ℕ) → LfsInfo → Listing → Outcome Listing
unfolding copy_info
take_entry start info l =
    if leb start l.entry_idx && ltb l.num_returned entries_max
    then (do
      old ← fetch l.infos l.num_returned
      infos ← put l.infos l.num_returned (copy_info old info)
      returns (record {
        entry_idx = add32 l.entry_idx 1;
        num_returned = l.num_returned + 1;
        infos = infos;
      }))
    else returns (record l { entry_idx = add32 l.entry_idx 1 })

-- The size of what a read gives.
abbrev pub read_count : Ret → ℕ
read_count (ok n) = n
read_count (err e) = 0

-- The reply to a listing that could not begin.
abbrev pub no_listing : LfsCallset → LfsCallset
no_listing reply = record reply { valid = false; num_entries = 0; info_array_count = 0 }

module _ (F : Littlefs) where
  unfoldable pub list_loop : ℕ → F.World → (lfs start : ℕ) → Listing → Outcome (Listing × F.World)
  unfolding take_entry
  list_loop zero w lfs start l = unfinished
  list_loop (suc fuel) w lfs start l =
      let ((ret, info), w') = F.lfs_dir_read w lfs local_object in
      elim ret [
        | ok (suc n) ↦ (do l' ← take_entry start info l; list_loop fuel w' lfs start l')
        | ok zero ↦ returns (l, (F.lfs_dir_close w' lfs local_object).1)
        | err e ↦ returns (l, (F.lfs_dir_close w' lfs local_object).1)
      ]

  -- What a read or a write gives, `none` for arguments that are refused.
  unfoldable pub read_file :
      F.World → (lfs : ℕ) → Object → LfsCallset → List ℕ → Option ((Ret × List ℕ) × F.World)
  unfolding is_seek_flag lfs_read_from_offset
  read_file w lfs file call buf =
      let read_size = min call.read_size size_max in
      if call.use_offset
      then if not (is_seek_flag call.seek_flag)
        then none
        else if ltb size_max call.read_size
        then none
        else some (lfs_read_from_offset F w lfs file call.offset call.seek_flag buf read_size)
      else some (F.lfs_file_read w lfs file buf read_size)

  unfoldable pub write_file : F.World → (lfs : ℕ) → Object → LfsCallset → Option (Ret × F.World)
  unfolding is_seek_flag lfs_write_to_offset
  write_file w lfs file call =
      if call.use_offset
      then if not (is_seek_flag call.seek_flag)
        then none
        else some (lfs_write_to_offset F w lfs file call.offset call.seek_flag call.bytes)
      else some (F.lfs_file_write w lfs file call.bytes)
