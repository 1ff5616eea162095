-- ===== src/LfsPartRpc/Answers.antt =====
-- The handlers one by one against their requests.
use esp32_components.Base.{ℕ, ◌≡◌, List, Option, Outcome, returns}
use esp32_components.LfsPart.{Partition, Registry, get_partition}
use esp32_components.LfsHelpers.{file_of, dir_of, local_object, Littlefs, lfs_exists}
use esp32_components.LfsPartRpc.Cache.{Call}
use esp32_components.LfsPartRpc.Access.{read_file, write_file}
use esp32_components.LfsPartRpc.Handlers.{
  getfsinfo, dirclose, dirread, list_dir, dirlist, fileclose, fileread, filewrite, remove_path,
  getfilesize,
}
use esp32_components.LfsPartRpc.Table.{Table, Request, list_reply}
use esp32_components.LfsPartRpc.Requests.{
  ask_fsinfo, ask_dirclose, ask_dirread, ask_dirlist, ask_fileclose, ask_fileread, ask_filewrite,
  ask_remove, ask_filesize,
}
use esp32_components.LfsPartRpc.Mirror.{Mirrors-fs}
use esp32_components.LfsPartRpc.Alloc.{Fresh}
use esp32_components.LfsPartRpc.Refine.{
  Agree-ret, Agree-option, Agree-bind, lift, On, Does, returned, with_lfs-Does, with_fd-Does,
  after_close-Does,
}

-- A handler that does what a request does, on any table that the server mirrors.
abbrev pub Answers :
    {F : Littlefs}
    → ℕ
    → (Option ℕ → Call F → Outcome (Call F))
    → (Option ℕ → Request F → Outcome (Request F))
    → Type 0
Answers {F} fuel handler request =
    (room : Option ℕ) (x : Call F) (t : Table)
    → On fuel x t
    → Fresh fuel x.world room
    → Does fuel (handler room x) (request room (lift x t))

-- What the look-up of partitions gives.
abbrev pub Looks : ℕ → (ℕ → Partition) → Registry → (List ℕ → Option ℕ) → Type 0
Looks fuel partition registry find =
    (label : List ℕ) → get_partition fuel partition registry label ≡ returns (find label)

module _ {F : Littlefs} (fuel : ℕ) (partition : ℕ → Partition) (registry : Registry)
    (find : List ℕ → Option ℕ) (looked : Looks fuel partition registry find) where
  pub getfsinfo-Answers :
      Answers fuel (getfsinfo F fuel partition registry) (ask_fsinfo F fuel partition find)
  unfolding getfsinfo ask_fsinfo
  getfsinfo-Answers room x t m fresh =
      with_lfs-Does partition registry find x t _ _ _ looked m λ lfs.
        Agree-ret (F.lfs_fs_stat x.world.fs lfs).0.0 (λ n. returned (Mirrors-fs _ m))
          (λ n. returned (Mirrors-fs _ m))

  pub remove_path-Answers :
      Answers fuel (remove_path F fuel partition registry) (ask_remove F fuel partition find)
  unfolding remove_path ask_remove
  remove_path-Answers room x t m fresh =
      with_lfs-Does partition registry find x t _ _ _ looked m λ lfs. returned (Mirrors-fs _ m)

  pub getfilesize-Answers :
      Answers fuel (getfilesize F fuel partition registry) (ask_filesize F fuel partition find)
  unfolding getfilesize ask_filesize
  getfilesize-Answers room x t m fresh =
      with_lfs-Does partition registry find x t _ _ _ looked m λ lfs. returned m

  pub dirclose-Answers :
      Answers fuel (dirclose F fuel partition registry) (ask_dirclose F fuel partition find)
  unfolding dirclose ask_dirclose
  dirclose-Answers room x t m fresh = with_fd-Does x t _ _ _ m λ item held same.
      after_close-Does x t _ _ item.fd item.descr item.lfs
        (F.lfs_dir_close x.world.fs item.lfs (dir_of item.descr)).0 m held same

  pub fileclose-Answers :
      Answers fuel (fileclose F fuel partition registry) (ask_fileclose F fuel partition find)
  unfolding fileclose ask_fileclose
  fileclose-Answers room x t m fresh = with_fd-Does x t _ _ _ m λ item held same.
      after_close-Does x t _ _ item.fd item.descr item.lfs
        (F.lfs_file_close x.world.fs item.lfs (file_of item.descr)).0 m held same

  pub dirread-Answers :
      Answers fuel (dirread F fuel partition registry) (ask_dirread F fuel partition find)
  unfolding dirread ask_dirread
  dirread-Answers room x t m fresh = with_fd-Does x t _ _ _ m λ item held same.
      Agree-ret (F.lfs_dir_read x.world.fs item.lfs (dir_of item.descr)).0.0
        (λ n. returned (Mirrors-fs _ m)) (λ n. returned (Mirrors-fs _ m))

  pub fileread-Answers :
      Answers fuel (fileread F fuel partition registry) (ask_fileread F fuel partition find)
  unfolding fileread ask_fileread
  fileread-Answers room x t m fresh = with_fd-Does x t _ _ _ m λ item held same.
      Agree-option (read_file F x.world.fs item.lfs (file_of item.descr) x.call x.reply.bytes)
        (returned m) (λ r. returned (Mirrors-fs _ m))

  pub filewrite-Answers :
      Answers fuel (filewrite F fuel partition registry) (ask_filewrite F fuel partition find)
  unfolding filewrite ask_filewrite
  filewrite-Answers room x t m fresh = with_fd-Does x t _ _ _ m λ item held same.
      Agree-option (write_file F x.world.fs item.lfs (file_of item.descr) x.call) (returned m)
        (λ r. returned (Mirrors-fs _ m))

  pub dirlist-Answers :
      Answers fuel (dirlist F fuel partition registry) (ask_dirlist F fuel partition find)
  unfolding dirlist ask_dirlist list_dir list_reply
  dirlist-Answers room x t m fresh = with_lfs-Does partition registry find x t _ _ _ looked m λ lfs.
      Agree-ret (lfs_exists F x.world.fs lfs x.call.path).0.0
        (λ n.
          Agree-ret
            (F.lfs_dir_open (lfs_exists F x.world.fs lfs x.call.path).1 lfs local_object
              x.call.path).0
            (λ k. Agree-bind _ (λ l. returned (Mirrors-fs _ m))) (λ k. returned (Mirrors-fs _ m)))
        (λ n. returned (Mirrors-fs _ m))
