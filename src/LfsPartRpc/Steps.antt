-- ===== src/LfsPartRpc/Steps.antt =====
-- The steps that several handlers share.
use esp32_components.Base.{
  done, failed, ℕ, List, Option, none, some, ◌==◌, if◌then◌else◌, Outcome, ◌>>=◌,
}
use esp32_components.LfsPart.{Partition, Registry, get_partition}
use esp32_components.LfsHelpers.{Ret, ok, err, LfsInfo, Littlefs}
use esp32_components.LfsPartRpc.Cache.{
  CacheItem, LfsCallset, Server, cache_find_fd, cache_rm_fd, Call, answer, refuse,
}

-- The file system of a partition is at the partition's address. `none` is an error.
unfoldable pub get_lfs :
    (fuel : ℕ) → (ℕ → Partition) → Registry → (label : List ℕ) → Outcome (Option ℕ)
unfolding get_partition
get_lfs fuel partition registry label = get_partition fuel partition registry label

module _ {F : Littlefs} where
  unfoldable pub set_info : Server F → (item : ℕ) → LfsInfo → Server F
  set_info s item info = record s {
    items = λ q. if q == item then record (s.items q) { info = info } else s.items q;
  }

module _ {F : Littlefs} (fuel : ℕ) where
  -- That of a descriptor.
  unfoldable pub with_fd :
      Call F → LfsCallset → (Server F → CacheItem → Outcome (Call F)) → Outcome (Call F)
  unfolding cache_find_fd
  with_fd x reply go = do
    item ← cache_find_fd fuel x.world x.call.fd
    elim item [ none ↦ refuse x reply x.world | some p ↦ go x.world (x.world.items p) ]

  -- `cache_rm_fd(item->fd)` on the way out of a handler that could not open.
  unfoldable pub give_back : Call F → LfsCallset → Server F → (fd : ℕ) → Outcome (Call F)
  unfolding cache_rm_fd
  give_back x reply s fd = do rm ← cache_rm_fd fuel s fd; answer x reply rm.0

  unfoldable pub after_close : Call F → LfsCallset → Server F → (fd : ℕ) → Ret → Outcome (Call F)
  unfolding cache_rm_fd
  after_close x reply s fd (err e) = refuse x reply s
  after_close x reply s fd (ok n) = do
    rm ← cache_rm_fd fuel s fd
    elim rm.1 [ done ↦ answer x reply rm.0 | failed ↦ refuse x reply rm.0 ]

module _ {F : Littlefs} (fuel : ℕ) (partition : ℕ → Partition) (registry : Registry) where
  -- The look-up of a partition with which handlers begin.
  unfoldable pub with_lfs :
      Call F → LfsCallset → (Server F → (lfs : ℕ) → Outcome (Call F)) → Outcome (Call F)
  unfolding get_lfs
  with_lfs x reply go = do
    lfs ← get_lfs fuel partition registry x.call.part_label
    elim lfs [ none ↦ refuse x reply x.world | some lfs ↦ go x.world lfs ]
