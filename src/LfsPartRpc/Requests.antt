-- ===== src/LfsPartRpc/Requests.antt =====
-- The requests of the callset on the table of descriptors.
use esp32_components.Base.{
  ℕ, true, false, List, [], ◌∷◌, Option, none, some, ◌==◌, if◌then◌else◌, Outcome,
}
use esp32_components.LfsPart.{Partition}
use esp32_components.LfsHelpers.{ok, err, file_of, dir_of, local_object, Littlefs, lfs_exists}
use esp32_components.LfsPartRpc.Cache.{LfsCallset}
use esp32_components.LfsPartRpc.Access.{read_count, copy_info, read_file, write_file}
use esp32_components.LfsPartRpc.Access.{no_listing}
use esp32_components.LfsPartRpc.Table.{
  Request, reply_ok, reply_error, on_partition, on_descriptor, allocate, shut, dir_opened,
  file_opened, list_reply,
}

-- `find` says which partition has a label.
module _ (F : Littlefs) (fuel : ℕ) (partition : ℕ → Partition) (find : List ℕ → Option ℕ) where
  unfoldable pub ask_fsinfo : Option ℕ → Request F → Outcome (Request F)
  ask_fsinfo room x =
      let reply : LfsCallset = record x.reply {
        which_msg = 2;
        address = 0;
        size = 0;
        block_size = 0;
        block_count = 0;
      } in
      on_partition find x reply λ lpfs.
        let ((ret, fsinfo), fs) = F.lfs_fs_stat x.world.fs lpfs in
        elim ret [
          | err e ↦ reply_error x reply (record x.world { fs = fs })
          | ok n ↦
              reply_ok x
                (record reply {
                  address = (partition lpfs).address;
                  size = (partition lpfs).size;
                  block_size = fsinfo.block_size;
                  block_count = fsinfo.block_count;
                })
                (record x.world { fs = fs })
        ]

  unfoldable pub ask_diropen : Option ℕ → Request F → Outcome (Request F)
  ask_diropen room x =
      let reply : LfsCallset = record x.reply { which_msg = 4 } in
      on_partition find x reply λ lfs.
        let ((ret, info), fs) = lfs_exists F x.world.fs lfs x.call.path in
        elim ret [
          | err e ↦ reply_ok x (record reply { open_fd = none }) (record x.world { fs = fs })
          | ok n ↦ dir_opened x reply fs lfs (allocate x.world.table room)
        ]

  unfoldable pub ask_dirclose : Option ℕ → Request F → Outcome (Request F)
  ask_dirclose room x =
      let reply : LfsCallset = record x.reply { which_msg = 6 } in
      on_descriptor x reply λ lfs fd.
        let (ret, fs) = F.lfs_dir_close x.world.fs lfs (dir_of fd) in
        shut x reply x.world.table fs fd ret

  unfoldable pub ask_dirread : Option ℕ → Request F → Outcome (Request F)
  unfolding copy_info
  ask_dirread room x =
      let reply : LfsCallset = record x.reply { which_msg = 8 } in
      on_descriptor x reply λ lfs fd.
        let ((ret, info), fs) = F.lfs_dir_read x.world.fs lfs (dir_of fd) in
        elim ret [
          | err e ↦ reply_error x (record reply { valid = false }) (record x.world { fs = fs })
          | ok n ↦
              reply_ok x (record reply { valid = true; info = copy_info reply.info info })
                (record x.world { fs = fs })
        ]

  unfoldable pub ask_dirlist : Option ℕ → Request F → Outcome (Request F)
  ask_dirlist room x =
      let reply : LfsCallset = record x.reply { which_msg = 10 } in
      on_partition find x reply λ lfs.
        let ((there, info), fs) = lfs_exists F x.world.fs lfs x.call.path in
        elim there [
          | err e ↦ reply_ok x (no_listing reply) (record x.world { fs = fs })
          | ok n ↦
              let (ret, fs') = F.lfs_dir_open fs lfs local_object x.call.path in
              elim ret [
                | err e ↦ reply_ok x (no_listing reply) (record x.world { fs = fs' })
                | ok m ↦ list_reply fuel x reply fs' lfs
              ]
        ]

  unfoldable pub ask_fileopen : Option ℕ → Request F → Outcome (Request F)
  ask_fileopen room x =
      let reply : LfsCallset = record x.reply { which_msg = 12 } in
      on_partition find x reply λ lfs.
        if x.call.flags == 0
        then reply_error x reply x.world
        else file_opened x reply lfs (allocate x.world.table room)

  unfoldable pub ask_fileclose : Option ℕ → Request F → Outcome (Request F)
  ask_fileclose room x =
      let reply : LfsCallset = record x.reply { which_msg = 14 } in
      on_descriptor x reply λ lfs fd.
        let (ret, fs) = F.lfs_file_close x.world.fs lfs (file_of fd) in
        shut x reply x.world.table fs fd ret

  unfoldable pub ask_fileread : Option ℕ → Request F → Outcome (Request F)
  unfolding read_file
  ask_fileread room x =
      let reply : LfsCallset = record x.reply { which_msg = 16 } in
      on_descriptor x reply λ lfs fd.
        elim (read_file F x.world.fs lfs (file_of fd) x.call reply.bytes) [
          | none ↦ reply_error x reply x.world
          | some ((ret, buf), fs) ↦
              reply_ok x (record reply { status = ret; bytes = buf; bytes_size = read_count ret })
                (record x.world { fs = fs })
        ]

  unfoldable pub ask_filewrite : Option ℕ → Request F → Outcome (Request F)
  unfolding write_file
  ask_filewrite room x =
      let reply : LfsCallset = record x.reply { which_msg = 18 } in
      on_descriptor x reply λ lfs fd. elim (write_file F x.world.fs lfs (file_of fd) x.call) [
        | none ↦ reply_error x reply x.world
        | some (ret, fs) ↦ reply_ok x (record reply { status = ret }) (record x.world { fs = fs })
      ]

  unfoldable pub ask_remove : Option ℕ → Request F → Outcome (Request F)
  ask_remove room x =
      let reply : LfsCallset = record x.reply { which_msg = 20 } in
      on_partition find x reply λ lfs.
        let (ret, fs) = F.lfs_remove x.world.fs lfs x.call.path in
        reply_ok x (record reply { status = ret }) (record x.world { fs = fs })

  unfoldable pub ask_filesize : Option ℕ → Request F → Outcome (Request F)
  ask_filesize room x =
      let reply : LfsCallset = record x.reply { which_msg = 22 } in
      on_partition find x reply λ lfs. reply_ok x reply x.world

  unfoldable pub requests : List (ℕ × (Option ℕ → Request F → Outcome (Request F)))
  unfolding ask_fsinfo ask_diropen ask_dirclose ask_dirread ask_dirlist ask_fileopen ask_fileclose
      ask_fileread ask_filewrite ask_remove ask_filesize
  requests =
      (1, ask_fsinfo)
      ∷ (3, ask_diropen)
      ∷ (5, ask_dirclose)
      ∷ (7, ask_dirread)
      ∷ (9, ask_dirlist)
      ∷ (11, ask_fileopen)
      ∷ (13, ask_fileclose)
      ∷ (15, ask_fileread)
      ∷ (17, ask_filewrite)
      ∷ (19, ask_remove)
      ∷ (21, ask_filesize)
      ∷ []
