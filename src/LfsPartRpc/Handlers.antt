-- ===== src/LfsPartRpc/Handlers.antt =====
-- The handlers of the callset and its resolver. Each handler is given what malloc() gives.
use esp32_components.Base.{
  ℕ, true, false, List, [], ◌∷◌, Option, none, some, ◌==◌, if◌then◌else◌, Outcome, ◌>>=◌,
}
use esp32_components.LfsPart.{Partition, Registry}
use esp32_components.LfsHelpers.{
  ok, err, file_of, dir_of, local_object, LfsInfo, Littlefs, lfs_exists,
}
use esp32_components.LfsPartRpc.Cache.{LfsCallset, Server, cache_add_fd, Call, answer, refuse}
use esp32_components.LfsPartRpc.Access.{
  read_count, no_listing, copy_info, list_loop, read_file, write_file,
}
use esp32_components.LfsPartRpc.Steps.{with_lfs, with_fd, give_back, set_info, after_close}

-- The loop of the resolver over the table. `none` is NULL.
unfoldable pub find_handler {ℓ} : {A : Type ℓ} → (which_msg : ℕ) → List (ℕ × A) → Option A
find_handler which_msg [] = none
find_handler which_msg ((tag, handler) ∷ entries) =
    let rest = find_handler which_msg entries in if tag == which_msg then some handler else rest

module _ {F : Littlefs} (fuel : ℕ) where
  unfoldable pub open_dir :
      Call F → LfsCallset → Server F → (lfs : ℕ) → LfsInfo → Option ℕ → Outcome (Call F)
  open_dir x reply s lfs info none = answer x (record reply { open_fd = none }) s
  open_dir x reply s lfs info (some p) =
      let item = s.items p in
      let (ret, fs) = F.lfs_dir_open s.fs lfs (dir_of item.descr) x.call.path in
      let s' : Server F = record (set_info s p info) { fs = fs } in
      elim ret [
        | err e ↦ give_back fuel x (record reply { open_fd = none }) s' item.fd
        | ok n ↦ answer x (record reply { open_fd = some item.fd }) s'
      ]

  unfoldable pub list_dir : Call F → LfsCallset → Server F → (lfs : ℕ) → Outcome (Call F)
  unfolding list_loop
  list_dir x reply s lfs = do
    (l, fs) ←
        list_loop F fuel s.fs lfs x.call.start_idx
          (record { entry_idx = 0; num_returned = 0; infos = reply.info_array })
    answer x
        (record reply {
          valid = true;
          num_entries = l.entry_idx;
          start_idx = x.call.start_idx;
          info_array = l.infos;
          info_array_count = l.num_returned;
        })
        (record s { fs = fs })

  unfoldable pub open_file :
      Call F → LfsCallset → Server F → (lfs : ℕ) → Option ℕ → Outcome (Call F)
  open_file x reply s lfs none = answer x (record reply { status = ok 0; open_fd = none }) s
  open_file x reply s lfs (some p) =
      let item = s.items p in
      let (ret, fs) = F.lfs_file_open s.fs lfs (file_of item.descr) x.call.path x.call.flags in
      elim ret [
        | err e ↦
            give_back fuel x (record reply { status = err e; open_fd = none })
              (record s { fs = fs }) item.fd
        | ok n ↦
            let ((_, info), fs') = F.lfs_stat fs lfs x.call.path in
            answer x (record reply { status = ok 0; open_fd = some item.fd })
              (record (set_info s p info) { fs = fs' })
      ]

-- The registry of partitions is the one that labels are looked up in.
module _ (F : Littlefs) (fuel : ℕ) (partition : ℕ → Partition) (registry : Registry) where
  unfoldable pub getfsinfo : Option ℕ → Call F → Outcome (Call F)
  getfsinfo room x =
      let reply : LfsCallset = record x.reply {
        which_msg = 2;
        address = 0;
        size = 0;
        block_size = 0;
        block_count = 0;
      } in
      with_lfs fuel partition registry x reply λ s lpfs.
        let ((ret, fsinfo), fs) = F.lfs_fs_stat s.fs lpfs in
        elim ret [
          | err e ↦ refuse x reply (record s { fs = fs })
          | ok n ↦
              answer x
                (record reply {
                  address = (partition lpfs).address;
                  size = (partition lpfs).size;
                  block_size = fsinfo.block_size;
                  block_count = fsinfo.block_count;
                })
                (record s { fs = fs })
        ]

  unfoldable pub diropen : Option ℕ → Call F → Outcome (Call F)
  diropen room x =
      let reply : LfsCallset = record x.reply { which_msg = 4 } in
      with_lfs fuel partition registry x reply λ s lfs.
        let ((ret, info), fs) = lfs_exists F s.fs lfs x.call.path in
        let s' : Server F = record s { fs = fs } in
        elim ret [
          | err e ↦ answer x (record reply { open_fd = none }) s'
          | ok n ↦ let (t, item) = cache_add_fd s' lfs room in open_dir fuel x reply t lfs info item
        ]

  unfoldable pub dirclose : Option ℕ → Call F → Outcome (Call F)
  dirclose room x =
      let reply : LfsCallset = record x.reply { which_msg = 6 } in
      with_fd fuel x reply λ s item.
        let (ret, fs) = F.lfs_dir_close s.fs item.lfs (dir_of item.descr) in
        after_close fuel x reply (record s { fs = fs }) item.fd ret

  unfoldable pub dirread : Option ℕ → Call F → Outcome (Call F)
  unfolding copy_info
  dirread room x =
      let reply : LfsCallset = record x.reply { which_msg = 8 } in
      with_fd fuel x reply λ s item.
        let ((ret, info), fs) = F.lfs_dir_read s.fs item.lfs (dir_of item.descr) in
        let s' : Server F = record s { fs = fs } in
        elim ret [
          | err e ↦ refuse x (record reply { valid = false }) s'
          | ok n ↦ answer x (record reply { valid = true; info = copy_info reply.info info }) s'
        ]

  unfoldable pub dirlist : Option ℕ → Call F → Outcome (Call F)
  dirlist room x =
      let reply : LfsCallset = record x.reply { which_msg = 10 } in
      with_lfs fuel partition registry x reply λ s lfs.
        let ((there, info), fs) = lfs_exists F s.fs lfs x.call.path in
        elim there [
          | err e ↦ answer x (no_listing reply) (record s { fs = fs })
          | ok n ↦
              let (ret, fs') = F.lfs_dir_open fs lfs local_object x.call.path in
              elim ret [
                | err e ↦ answer x (no_listing reply) (record s { fs = fs' })
                | ok m ↦ list_dir fuel x reply (record s { fs = fs' }) lfs
              ]
        ]

  unfoldable pub fileopen : Option ℕ → Call F → Outcome (Call F)
  fileopen room x =
      let reply : LfsCallset = record x.reply { which_msg = 12 } in
      with_lfs fuel partition registry x reply λ s lfs.
        if x.call.flags == 0
        then refuse x reply s
        else (let (t, item) = cache_add_fd s lfs room in open_file fuel x reply t lfs item)

  unfoldable pub fileclose : Option ℕ → Call F → Outcome (Call F)
  fileclose room x =
      let reply : LfsCallset = record x.reply { which_msg = 14 } in
      with_fd fuel x reply λ s item.
        let (ret, fs) = F.lfs_file_close s.fs item.lfs (file_of item.descr) in
        after_close fuel x reply (record s { fs = fs }) item.fd ret

  unfoldable pub fileread : Option ℕ → Call F → Outcome (Call F)
  unfolding read_file
  fileread room x =
      let reply : LfsCallset = record x.reply { which_msg = 16 } in
      with_fd fuel x reply λ s item.
        elim (read_file F s.fs item.lfs (file_of item.descr) x.call reply.bytes) [
          | none ↦ refuse x reply s
          | some ((ret, buf), fs) ↦
              answer x (record reply { status = ret; bytes = buf; bytes_size = read_count ret })
                (record s { fs = fs })
        ]

  unfoldable pub filewrite : Option ℕ → Call F → Outcome (Call F)
  unfolding write_file
  filewrite room x =
      let reply : LfsCallset = record x.reply { which_msg = 18 } in
      with_fd fuel x reply λ s item. elim (write_file F s.fs item.lfs (file_of item.descr) x.call) [
        | none ↦ refuse x reply s
        | some (ret, fs) ↦ answer x (record reply { status = ret }) (record s { fs = fs })
      ]

  unfoldable pub remove_path : Option ℕ → Call F → Outcome (Call F)
  remove_path room x =
      let reply : LfsCallset = record x.reply { which_msg = 20 } in
      with_lfs fuel partition registry x reply λ s lfs.
        let (ret, fs) = F.lfs_remove s.fs lfs x.call.path in
        answer x (record reply { status = ret }) (record s { fs = fs })

  -- Only the look-up of the partition is done; no size is put into the reply.
  unfoldable pub getfilesize : Option ℕ → Call F → Outcome (Call F)
  getfilesize room x =
      let reply : LfsCallset = record x.reply { which_msg = 22 } in
      with_lfs fuel partition registry x reply λ s lfs. answer x reply s

  -- The table of the handlers.
  unfoldable pub handlers : List (ℕ × (Option ℕ → Call F → Outcome (Call F)))
  unfolding getfsinfo diropen dirclose dirread dirlist fileopen fileclose fileread filewrite
      remove_path getfilesize
  handlers =
      (1, getfsinfo)
      ∷ (3, diropen)
      ∷ (5, dirclose)
      ∷ (7, dirread)
      ∷ (9, dirlist)
      ∷ (11, fileopen)
      ∷ (13, fileclose)
      ∷ (15, fileread)
      ∷ (17, filewrite)
      ∷ (19, remove_path)
      ∷ (21, getfilesize)
      ∷ []

  unfoldable pub resolver : LfsCallset → Option (Option ℕ → Call F → Outcome (Call F))
  unfolding handlers find_handler
  resolver call = find_handler call.which_msg handlers
