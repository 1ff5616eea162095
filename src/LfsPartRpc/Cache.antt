-- ===== src/LfsPartRpc/Cache.antt =====
-- The cache of open descriptors, and what each handler begins with.
use esp32_components.Base.{
  ℕ, Bool, List, [], ◌∷◌, Option, none, some, ◌==◌, if◌then◌else◌, Status, done, failed, Outcome,
  returns, unfinished, ◌>>=◌, u8,
}
use esp32_components.CList
use esp32_components.CList.{Heap, append, remove, iter}
use esp32_components.ProtoRpc.{Exchange, rpc_success, rpc_handler_error}
use esp32_components.LfsHelpers.{
  Ret, LfsInfo, Littlefs, Pool, get_descriptor, put_descriptor, pool_init,
}

-- MAX_OPEN_DESCRIPTORS, and the lengths of the arrays in the messages: of a name, of the entries of a
-- directory and of the bytes of a file.
abbrev pub max_open_descriptors : ℕ
max_open_descriptors = 4

abbrev pub name_max : ℕ
name_max = 64

abbrev pub entries_max : ℕ
entries_max = 8

abbrev pub size_max : ℕ
size_max = 1000

-- `descr` is the index of the descriptor in the pool.
pub record CacheItem : Type 0 where
  pub fd : ℕ
  pub lfs : ℕ
  pub descr : ℕ
  pub info : LfsInfo

-- The calls first, then the replies. `open_fd` is `none` for -1.
pub record LfsCallset : Type 0 where
  pub which_msg : ℕ
  pub part_label : List ℕ
  pub path : List ℕ
  pub fd : ℕ
  pub start_idx : ℕ
  pub flags : ℕ
  pub use_offset : Bool
  pub offset : ℕ
  pub seek_flag : ℕ
  pub read_size : ℕ
  pub bytes : List ℕ
  pub address : ℕ
  pub size : ℕ
  pub block_size : ℕ
  pub block_count : ℕ
  pub open_fd : Option ℕ
  pub status : Ret
  pub valid : Bool
  pub info : LfsInfo
  pub num_entries : ℕ
  pub info_array : List LfsInfo
  pub info_array_count : ℕ
  pub bytes_size : ℕ

-- The static variables, the memory of the items, and littlefs.
pub record Server (F : Littlefs) : Type 0 where
  pub pool : Pool
  pub cache : ℕ
  pub links : Heap
  pub items : ℕ → CacheItem
  pub fs : F.World

-- The search along the entries of the cache. `none` is NULL.
unfoldable pub find_item : (ℕ → CacheItem) → (fd : ℕ) → List ℕ → Option ℕ
find_item items fd [] = none
find_item items fd (item ∷ entries) =
    let rest = find_item items fd entries in if (items item).fd == fd then some item else rest

-- `malloc()` gave the block `p`: what it holds but for the fields that are set stays.
unfoldable pub store_item : (ℕ → CacheItem) → (p : ℕ) → CacheItem → ℕ → CacheItem
store_item items p item q = if q == p then item else items q

module _ {F : Littlefs} where
  -- The parameter is a `uint8_t`.
  unfoldable pub cache_find_fd : (fuel : ℕ) → Server F → (fd : ℕ) → Outcome (Option ℕ)
  unfolding find_item
  cache_find_fd fuel s fd = elim (iter fuel s.links s.cache) [
    | none ↦ unfinished
    | some entries ↦ returns (find_item s.items (u8 fd) entries)
  ]

  unfoldable pub release : Server F → (fd : ℕ) → Option ℕ → Server F × Status
  release s fd none = (s, failed)
  release s fd (some item) =
      (record s { pool = put_descriptor s.pool (u8 fd); links = remove s.links item }, done)

  unfoldable pub cache_rm_fd : (fuel : ℕ) → Server F → (fd : ℕ) → Outcome (Server F × Status)
  unfolding cache_find_fd release
  cache_rm_fd fuel s fd = do item ← cache_find_fd fuel s fd; returns (release s fd item)

  unfoldable pub cache_item : Server F → (lfs fd : ℕ) → (room : Option ℕ) → Server F × Option ℕ
  unfolding store_item
  cache_item s lfs fd none = (record s { pool = put_descriptor s.pool (u8 fd) }, none)
  cache_item s lfs fd (some p) =
      let item = record (s.items p) { fd = u8 fd; lfs = lfs; descr = fd } in
      (record s { links = append s.links s.cache p; items = store_item s.items p item }, some p)

  -- `room` is what malloc() gives.
  unfoldable pub cache_add_fd : Server F → (lfs : ℕ) → (room : Option ℕ) → Server F × Option ℕ
  unfolding cache_item get_descriptor
  cache_add_fd s lfs room =
      let (fd, pool) = get_descriptor s.pool in
      elim fd [ none ↦ (s, none) | some fd ↦ cache_item (record s { pool = pool }) lfs fd room ]

  -- Lfs_PartRpc_init(), with the results of the two calls of malloc().
  unfoldable pub lfs_part_rpc_init : Server F → (room_lp room_pool : Bool) → Server F × Status
  unfolding pool_init
  lfs_part_rpc_init s room_lp room_pool =
      let s' : Server F = record s { links = CList.init s.links s.cache } in
      elim (pool_init max_open_descriptors room_lp room_pool).0 [
        | none ↦ (s', failed)
        | some pool ↦ (record s' { pool = pool }, done)
      ]

abbrev pub Call : Littlefs → Type 0
Call F = Exchange LfsCallset (Server F)

module _ {F : Littlefs} where
  -- `return` with a reply and a state.
  abbrev pub answer : Call F → LfsCallset → Server F → Outcome (Call F)
  answer x reply s = returns (record x { reply = reply; status = rpc_success; world = s })

  -- `return` after an error of the handler.
  abbrev pub refuse : Call F → LfsCallset → Server F → Outcome (Call F)
  refuse x reply s = returns (record x { reply = reply; status = rpc_handler_error; world = s })
