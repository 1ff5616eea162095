-- ===== src/LfsPartRpc/Opening.antt =====
-- The handlers that open a directory or a file against their requests.
use esp32_components.Base.{
  ℕ, ◌≡◌, refl, sym, ap, subst, ◌∙◌, List, Option, none, some, ◌==◌, set, if◌then◌else◌, Status,
  Outcome, ◌>>=◌, eq→==,
}
use esp32_components.LfsPart.{Partition, Registry}
use esp32_components.LfsHelpers.{Ret, ok, err, file_of, dir_of, LfsInfo, Littlefs, lfs_exists}
use esp32_components.LfsPartRpc.Cache.{LfsCallset, Server, cache_add_fd, Call, answer}
use esp32_components.LfsPartRpc.Steps.{give_back, set_info}
use esp32_components.LfsPartRpc.Handlers.{open_dir, diropen, open_file, fileopen}
use esp32_components.LfsPartRpc.Table.{Table, entry, reply_ok, allocate, dir_opened, file_opened}
use esp32_components.LfsPartRpc.Requests.{ask_diropen, ask_fileopen}
use esp32_components.LfsPartRpc.Keys.{Key}
use esp32_components.LfsPartRpc.Vacancy.{FreeAt, entry-set}
use esp32_components.LfsPartRpc.Mirror.{Mirrors, Mirrors-fs, Mirrors-set_info, cache_rm_fd-Mirrors}
use esp32_components.LfsPartRpc.Alloc.{Added, full, added, cache_add_fd-Added}
use esp32_components.LfsPartRpc.Refine.{Agree-ret, Agree-if, lift, Does, returned, with_lfs-Does}
use esp32_components.LfsPartRpc.Answers.{Answers, Looks}

module _ {F : Littlefs} {fuel : ℕ} where
  -- What was taken is given back, and the table is as before.
  give_back-Does :
      (x : Call F) (reply : LfsCallset) (s : Server F) (t : Table) (fs : F.World) (fd lfs : ℕ)
      → Mirrors fuel s (record { table = set t fd (some lfs); fs = fs })
      → FreeAt t fd
      → Does fuel
          (give_back fuel x reply s fd)
          (reply_ok (lift x t) reply (record { table = t; fs = fs }))
  unfolding give_back
  give_back-Does x reply s t fs fd lfs m free =
      let held : entry (set t fd (some lfs)) fd ≡ some lfs =
        entry-set t fd fd (some lfs) free.inside
        ∙ ap (λ b. if b then some lfs else entry t fd) (eq→== fd fd refl) in
      let (s', e, m') = cache_rm_fd-Mirrors fd lfs m held in
      subst
        (λ (o : Outcome (Server F × Status)).
          Does fuel (o >>= λ rm. answer x reply rm.0)
            (reply_ok (lift x t) reply (record { table = t; fs = fs })))
        (sym e)
        (returned
          (subst (λ u. Mirrors fuel s' (record { table = u; fs = fs })) (free.again lfs) m'))

module _ {F : Littlefs} (fuel : ℕ) (x : Call F) (reply : LfsCallset) (t : Table) where
  -- The ends of the handlers after littlefs opened, or did not open.
  dir_done : Server F → (p : ℕ) → LfsInfo → (fd : ℕ) → Ret × F.World → Outcome (Call F)
  dir_done s p info fd (ret, fs) =
      let s' : Server F = record (set_info s p info) { fs = fs } in
      elim ret [
        | err e ↦ give_back fuel x (record reply { open_fd = none }) s' fd
        | ok n ↦ answer x (record reply { open_fd = some fd }) s'
      ]

  file_done : Server F → (p lfs fd : ℕ) → Ret × F.World → Outcome (Call F)
  file_done s p lfs fd (ret, fs) = elim ret [
    | err e ↦
        give_back fuel x (record reply { status = err e; open_fd = none }) (record s { fs = fs }) fd
    | ok n ↦
        let ((_, info), fs') = F.lfs_stat fs lfs x.call.path in
        answer x (record reply { status = ok 0; open_fd = some fd })
          (record (set_info s p info) { fs = fs' })
  ]

  dir_done-Does :
      (s : Server F) (fs : F.World) (lfs : ℕ) (info : LfsInfo) (p fd : ℕ)
      → FreeAt t fd
      → Mirrors fuel s (record { table = set t fd (some lfs); fs = fs })
      → Does fuel
          (dir_done s p info fd (F.lfs_dir_open fs lfs (dir_of fd) x.call.path))
          (dir_opened (lift x t) reply fs lfs (some fd))
  unfolding dir_done dir_opened
  dir_done-Does s fs lfs info p fd free m =
      Agree-ret (F.lfs_dir_open fs lfs (dir_of fd) x.call.path).0
        (λ n. returned (Mirrors-fs _ (Mirrors-set_info p info m)))
        (λ n. give_back-Does x _ _ t _ fd lfs (Mirrors-fs _ (Mirrors-set_info p info m)) free)

  file_done-Does :
      (s : Server F) (lfs p fd : ℕ)
      → FreeAt t fd
      → Mirrors fuel s (record { table = set t fd (some lfs); fs = x.world.fs })
      → Does fuel
          (file_done s p lfs fd
            (F.lfs_file_open x.world.fs lfs (file_of fd) x.call.path x.call.flags))
          (file_opened (lift x t) reply lfs (some fd))
  unfolding file_done file_opened
  file_done-Does s lfs p fd free m =
      Agree-ret (F.lfs_file_open x.world.fs lfs (file_of fd) x.call.path x.call.flags).0
        (λ n. returned (Mirrors-fs _ (Mirrors-set_info p _ m)))
        (λ n. give_back-Does x _ _ t _ fd lfs (Mirrors-fs _ m) free)

  -- A directory is opened in the descriptor that is the lowest free one of the table.
  open_dir-Does :
      (fs : F.World) (lfs : ℕ) (info : LfsInfo) (room : Option ℕ)
      → Added fuel (record x.world { fs = fs }) (record { table = t; fs = fs }) lfs room
      → Does fuel
          (let (s, item) = cache_add_fd (record x.world { fs = fs }) lfs room in
            open_dir fuel x reply s lfs info item)
          (dir_opened (lift x t) reply fs lfs (allocate t room))
  unfolding open_dir dir_opened dir_done
  open_dir-Does fs lfs info room (full s e a m) =
      subst
        (λ (r : Server F × Option ℕ).
          Does fuel (open_dir fuel x reply r.0 lfs info r.1)
            (dir_opened (lift x t) reply fs lfs (allocate t room)))
        (sym e)
        (subst
          (λ o.
            Does fuel (open_dir fuel x reply s lfs info none)
              (dir_opened (lift x t) reply fs lfs o))
          (sym a) (returned m))
  open_dir-Does fs lfs info room (added s p fd e a free k m) =
      let run = λ (w : F.World) (d i : ℕ).
        dir_done s p info i (F.lfs_dir_open w lfs (dir_of d) x.call.path) in
      subst
        (λ (r : Server F × Option ℕ).
          Does fuel (open_dir fuel x reply r.0 lfs info r.1)
            (dir_opened (lift x t) reply fs lfs (allocate t room)))
        (sym e)
        (subst
          (λ o.
            Does fuel (open_dir fuel x reply s lfs info (some p))
              (dir_opened (lift x t) reply fs lfs o))
          (sym a)
          (subst (λ m. Does fuel m (dir_opened (lift x t) reply fs lfs (some fd)))
            (sym (
              ap (λ w. run w (s.items p).descr (s.items p).fd) m.same_fs
              ∙ ap (λ (k : Key). run fs k.descr k.fd) k))
            (dir_done-Does s fs lfs info p fd free m)))

  open_file-Does :
      (lfs : ℕ) (room : Option ℕ)
      → Added fuel x.world (record { table = t; fs = x.world.fs }) lfs room
      → Does fuel
          (let (s, item) = cache_add_fd x.world lfs room in open_file fuel x reply s lfs item)
          (file_opened (lift x t) reply lfs (allocate t room))
  unfolding open_file file_opened file_done
  open_file-Does lfs room (full s e a m) =
      subst
        (λ (r : Server F × Option ℕ).
          Does fuel (open_file fuel x reply r.0 lfs r.1)
            (file_opened (lift x t) reply lfs (allocate t room)))
        (sym e)
        (subst
          (λ o. Does fuel (open_file fuel x reply s lfs none) (file_opened (lift x t) reply lfs o))
          (sym a) (returned m))
  open_file-Does lfs room (added s p fd e a free k m) =
      let run = λ (w : F.World) (d i : ℕ).
        file_done s p lfs i (F.lfs_file_open w lfs (file_of d) x.call.path x.call.flags) in
      subst
        (λ (r : Server F × Option ℕ).
          Does fuel (open_file fuel x reply r.0 lfs r.1)
            (file_opened (lift x t) reply lfs (allocate t room)))
        (sym e)
        (subst
          (λ o.
            Does fuel (open_file fuel x reply s lfs (some p)) (file_opened (lift x t) reply lfs o))
          (sym a)
          (subst (λ m. Does fuel m (file_opened (lift x t) reply lfs (some fd)))
            (sym (
              ap (λ w. run w (s.items p).descr (s.items p).fd) m.same_fs
              ∙ ap (λ (k : Key). run x.world.fs k.descr k.fd) k))
            (file_done-Does s lfs p fd free m)))

module _ {F : Littlefs} (fuel : ℕ) (partition : ℕ → Partition) (registry : Registry)
    (find : List ℕ → Option ℕ) (looked : Looks fuel partition registry find) where
  pub diropen-Answers :
      Answers fuel (diropen F fuel partition registry) (ask_diropen F fuel partition find)
  unfolding diropen ask_diropen
  diropen-Answers room x t m fresh = with_lfs-Does partition registry find x t _ _ _ looked m λ lfs.
      Agree-ret (lfs_exists F x.world.fs lfs x.call.path).0.0
        (λ n.
          open_dir-Does fuel x _ t _ lfs _ room
            (cache_add_fd-Added (Mirrors-fs _ m) lfs room fresh))
        (λ n. returned (Mirrors-fs _ m))

  pub fileopen-Answers :
      Answers fuel (fileopen F fuel partition registry) (ask_fileopen F fuel partition find)
  unfolding fileopen ask_fileopen
  fileopen-Answers room x t m fresh =
      with_lfs-Does partition registry find x t _ _ _ looked m λ lfs.
        Agree-if (x.call.flags == 0) (returned m)
          (open_file-Does fuel x _ t lfs room (cache_add_fd-Added m lfs room fresh))
