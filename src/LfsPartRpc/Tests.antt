-- ===== src/LfsPartRpc/Tests.antt =====
-- A littlefs that has every file and directory; its world says how many entries are left of the
-- directory that is open, two at most.
use esp32_components.Base.{
  ℕ, zero, suc, ◌≡◌, refl, arith, true, false, List, [], ◌∷◌, Option, none, some, replicate, length,
  Outcome, returns, Returns, if◌then◌else◌, ◌==◌,
}
use mathlib.Core.List.{map}
use esp32_components.CList.{iter, init, set_next, set_prev, remove, insert_before}
use esp32_components.LfsPart.{find_label}
use esp32_components.LfsHelpers.{pool_init}
use esp32_components.LfsPartRpc.Cache.{cache_add_fd, cache_find_fd, cache_rm_fd}
use esp32_components.LfsPartRpc.Access.{read_file}
use esp32_components.LfsPartRpc.Steps.{with_lfs, with_fd, get_lfs, give_back, after_close, set_info}
use esp32_components.LfsPartRpc.Handlers.{fileopen, fileread, fileclose, open_file, resolver}
use esp32_components.LfsPartRpc.Answers.{Looks}
use esp32_components.LfsPartRpc.Total.{Short}
use esp32_components.LfsPartRpc.Session.{AllFresh, serve}
use esp32_components.ProtoRpc.{StatusEnum, rpc_success, rpc_handler_error}
use esp32_components.LfsPart.{Partition, Registry, get_partition}
use esp32_components.LfsHelpers.{Ret, ok, LfsInfo, Littlefs}
use esp32_components.LfsPartRpc.Cache.{
  LfsCallset, Server, Call, entries_max, name_max, lfs_part_rpc_init,
}
use esp32_components.LfsPartRpc.Refine.{Agree, Related, lift}
use esp32_components.LfsPartRpc.Session.{Event, Replies, serve_all, ask_all, all_free}
use esp32_components.LfsPartRpc.Simulate.{
  SameRun, serve_all-lfs_part_rpc_init, lfs_part_rpc_init-Mirrors,
}
use esp32_components.LfsPartRpc.Ends.{serve_all-Returns}

abbrev no_info : LfsInfo
no_info = record { type = 0; size = 0; name = replicate name_max 0 }

abbrev readme : LfsInfo
readme = record { type = 1; size = 12; name = 114 ∷ 109 ∷ [] }

abbrev read_dir : ℕ → (Ret × LfsInfo) × ℕ
read_dir zero = ((ok 0, no_info), 0)
read_dir (suc zero) = ((ok 1, readme), 0)
read_dir (suc (suc n)) = ((ok 1, readme), 1)

abbrev two_files : Littlefs
two_files = record {
  World = ℕ;
  lfs_file_open = λ w lfs file path flags. (ok 0, w);
  lfs_file_close = λ w lfs file. (ok 0, w);
  lfs_file_seek = λ w lfs file offset whence. (ok offset, w);
  lfs_file_read = λ w lfs file buf size. ((ok 0, buf), w);
  lfs_file_write = λ w lfs file buf. (ok (length buf), w);
  lfs_file_size = λ w lfs file. (ok 0, w);
  lfs_dir_open = λ w lfs dir path. (ok 0, 2);
  lfs_dir_close = λ w lfs dir. (ok 0, w);
  lfs_dir_read = λ w lfs dir. read_dir w;
  lfs_stat = λ w lfs path. ((ok 0, no_info), w);
  lfs_remove = λ w lfs path. (ok 0, w);
  lfs_fs_stat = λ w lfs. ((ok 0, record { block_size = 4096; block_count = 256 }), w);
}

abbrev partition : ℕ → Partition
partition p = record { label = 108 ∷ []; address = 65536; size = 1048576 }

-- One partition is registered, at 5.
abbrev registry : Registry
registry = record {
  list = 9;
  links = λ q. if q == 9 then record { next = 5; prev = 5 } else record { next = 9; prev = 9 };
  initialized = true;
}

abbrev find : List ℕ → Option ℕ
find label = find_label partition label (5 ∷ [])

looked : Looks 6 partition registry find
unfolding get_partition iter
looked label = refl

short : (lfs w : ℕ) → Short two_files lfs 6 w
short lfs zero = _
short lfs (suc zero) = _
short lfs (suc (suc n)) = _

abbrev no_reply : LfsCallset
no_reply = record {
  which_msg = 0;
  part_label = 108 ∷ [];
  path = 47 ∷ [];
  fd = 0;
  start_idx = 0;
  flags = 1;
  use_offset = false;
  offset = 0;
  seek_flag = 0;
  read_size = 0;
  bytes = [];
  address = 0;
  size = 0;
  block_size = 0;
  block_count = 0;
  open_fd = none;
  status = ok 0;
  valid = false;
  info = no_info;
  num_entries = 0;
  info_array = replicate entries_max no_info;
  info_array_count = 0;
  bytes_size = 0;
}

abbrev boot : Server two_files
boot = record {
  pool = [];
  cache = 20;
  links = λ q. record { next = 0; prev = 0 };
  items = λ q. record { fd = 0; lfs = 0; descr = 0; info = no_info };
  fs = 0;
}

-- The state after the initialisation.
abbrev started : Call two_files
unfolding lfs_part_rpc_init pool_init init set_next set_prev
started = record {
  call = no_reply;
  reply = no_reply;
  status = rpc_success;
  world = (lfs_part_rpc_init boot true true).0;
}

-- A file is opened, read and closed; the read after that is refused.
abbrev session : List Event
session =
    record { call = record no_reply { which_msg = 11 }; room = some 30 }
    ∷ record { call = record no_reply { which_msg = 15 }; room = none }
    ∷ record { call = record no_reply { which_msg = 13 }; room = none }
    ∷ record { call = record no_reply { which_msg = 15 }; room = none }
    ∷ []

session-AllFresh : AllFresh two_files 6 partition registry session started
unfolding lfs_part_rpc_init pool_init init set_next set_prev remove insert_before serve resolver
    fileopen fileread fileclose with_lfs with_fd get_lfs get_partition iter cache_add_fd
    cache_find_fd cache_rm_fd open_file give_back after_close set_info read_file
session-AllFresh = (((λ e. omega arith), _), (_, (_, (_, _))))

statuses : Outcome (Replies × Call two_files) → List StatusEnum
statuses (returns (rs, x)) = map (λ r. r.1) rs
statuses _ = []

session-statuses :
    statuses (serve_all two_files 6 partition registry session started)
    ≡ rpc_success ∷ rpc_success ∷ rpc_success ∷ rpc_handler_error ∷ []
unfolding statuses serve_all lfs_part_rpc_init pool_init init set_next set_prev remove insert_before
    serve resolver fileopen fileread fileclose with_lfs with_fd get_lfs get_partition iter
    cache_add_fd cache_find_fd cache_rm_fd open_file give_back after_close set_info read_file
session-statuses = refl

serve_all-lfs_part_rpc_init_example :
    Agree
      (SameRun two_files 6 partition registry find looked)
      (serve_all two_files 6 partition registry session started)
      (ask_all two_files 6 partition find session (lift started all_free))
unfolding lfs_part_rpc_init started
serve_all-lfs_part_rpc_init_example =
    serve_all-lfs_part_rpc_init two_files 6 partition registry find looked session started boot true
      true refl (omega arith) session-AllFresh

started-Related : Related 6 started (lift started all_free)
unfolding lfs_part_rpc_init started
started-Related = record {
  mirrored =
      lfs_part_rpc_init-Mirrors two_files 6 partition registry find looked boot true true
        started.world refl (omega arith);
  lifted = refl;
}

serve_all-Returns_example :
    Returns
      (λ (r : Replies × Call two_files). length r.0 ≡ 4)
      (serve_all two_files 6 partition registry session started)
unfolding started
serve_all-Returns_example =
    serve_all-Returns two_files 6 partition registry find session started (lift started all_free)
      short looked started-Related session-AllFresh refl

-- The second page of a directory that has two entries, from its second entry on.
abbrev second : Call two_files
second = record started { call = record no_reply { which_msg = 9; start_idx = 1 } }
