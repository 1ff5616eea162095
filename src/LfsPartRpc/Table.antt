-- ===== src/LfsPartRpc/Table.antt =====
-- What the callset promises: a table with an entry for each descriptor, free or open on a file system.
-- An open descriptor is a number below the size of the table, and a new one is the lowest that is free.
use esp32_components.Base.{
  ℕ, zero, suc, true, List, [], ◌∷◌, Option, none, some, set, Outcome, returns, ◌>>=◌, u8,
}
use esp32_components.ProtoRpc.{Exchange, rpc_success, rpc_handler_error}
use esp32_components.LfsHelpers.{Ret, ok, err, file_of, dir_of, Littlefs}
use esp32_components.LfsPartRpc.Cache.{LfsCallset}
use esp32_components.LfsPartRpc.Access.{list_loop}

-- `none` for a free descriptor.
abbrev pub Table : Type 0
Table = List (Option ℕ)

pub record Files (F : Littlefs) : Type 0 where
  pub table : Table
  pub fs : F.World

-- The file system that a descriptor is open on.
unfoldable pub entry : Table → (fd : ℕ) → Option ℕ
entry [] fd = none
entry (e ∷ t) zero = e
entry (e ∷ t) (suc fd) = entry t fd

unfoldable pub lowest_free : Table → Option ℕ
lowest_free [] = none
lowest_free (none ∷ t) = some 0
lowest_free (some lfs ∷ t) = elim (lowest_free t) [ none ↦ none | some fd ↦ some (suc fd) ]

-- The lowest free descriptor is opened, if there is one and memory for it. Where opening fails it is
-- free again.
unfoldable pub allocate : Table → Option ℕ → Option ℕ
unfolding lowest_free
allocate t none = none
allocate t (some p) = lowest_free t

abbrev pub Request : Littlefs → Type 0
Request F = Exchange LfsCallset (Files F)

module _ {F : Littlefs} where
  abbrev pub reply_ok : Request F → LfsCallset → Files F → Outcome (Request F)
  reply_ok x reply s = returns (record x { reply = reply; status = rpc_success; world = s })

  abbrev pub reply_error : Request F → LfsCallset → Files F → Outcome (Request F)
  reply_error x reply s =
      returns (record x { reply = reply; status = rpc_handler_error; world = s })

  -- A request on a partition, and one on a descriptor.
  unfoldable pub on_partition :
      (List ℕ → Option ℕ)
      → Request F
      → LfsCallset
      → ((lfs : ℕ) → Outcome (Request F))
      → Outcome (Request F)
  on_partition find x reply go = elim (find x.call.part_label) [
    | none ↦ reply_error x reply x.world
    | some lfs ↦ go lfs
  ]

  unfoldable pub on_descriptor :
      Request F → LfsCallset → ((lfs fd : ℕ) → Outcome (Request F)) → Outcome (Request F)
  unfolding entry
  on_descriptor x reply go = elim (entry x.world.table (u8 x.call.fd)) [
    | none ↦ reply_error x reply x.world
    | some lfs ↦ go lfs (u8 x.call.fd)
  ]

  unfoldable pub shut :
      Request F → LfsCallset → Table → F.World → (fd : ℕ) → Ret → Outcome (Request F)
  shut x reply t fs fd (err e) = reply_error x reply (record { table = t; fs = fs })
  shut x reply t fs fd (ok n) = reply_ok x reply (record { table = set t fd none; fs = fs })

  unfoldable pub dir_opened :
      Request F → LfsCallset → F.World → (lfs : ℕ) → Option ℕ → Outcome (Request F)
  dir_opened x reply fs lfs none =
      reply_ok x (record reply { open_fd = none }) (record x.world { fs = fs })
  dir_opened x reply fs lfs (some fd) =
      let (ret, fs') = F.lfs_dir_open fs lfs (dir_of fd) x.call.path in
      elim ret [
        | err e ↦ reply_ok x (record reply { open_fd = none }) (record x.world { fs = fs' })
        | ok n ↦
            reply_ok x (record reply { open_fd = some fd })
              (record { table = set x.world.table fd (some lfs); fs = fs' })
      ]

  unfoldable pub file_opened : Request F → LfsCallset → (lfs : ℕ) → Option ℕ → Outcome (Request F)
  file_opened x reply lfs none = reply_ok x (record reply { status = ok 0; open_fd = none }) x.world
  file_opened x reply lfs (some fd) =
      let (ret, fs) = F.lfs_file_open x.world.fs lfs (file_of fd) x.call.path x.call.flags in
      elim ret [
        | err e ↦
            reply_ok x (record reply { status = err e; open_fd = none })
              (record x.world { fs = fs })
        | ok n ↦
            reply_ok x (record reply { status = ok 0; open_fd = some fd })
              (record {
                table = set x.world.table fd (some lfs);
                fs = (F.lfs_stat fs lfs x.call.path).1;
              })
      ]

  unfoldable pub list_reply :
      (fuel : ℕ) → Request F → LfsCallset → F.World → (lfs : ℕ) → Outcome (Request F)
  list_reply fuel x reply fs lfs = do
    (l, fs') ←
        list_loop F fuel fs lfs x.call.start_idx
          (record { entry_idx = 0; num_returned = 0; infos = reply.info_array })
    reply_ok x
        (record reply {
          valid = true;
          num_entries = l.entry_idx;
          start_idx = x.call.start_idx;
          info_array = l.infos;
          info_array_count = l.num_returned;
        })
        (record x.world { fs = fs' })
