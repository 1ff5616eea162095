-- ===== src/LuaThread/Tests.antt =====
-- lua/src/lua_thread.c and Lfs_Api/src/Lfs_Api.c, run on a small file system.
use esp32_components.Base.{
  ℕ, ◌+◌, ◌≡◌, refl, true, List, [], ◌∷◌, Option, none, some, replicate, faults,
}
use esp32_components.LfsHelpers.{Ret, ok, err, local_object, LfsInfo, Littlefs}
use esp32_components.LfsApi.{FsApi, lfs_api, open_flags}
use esp32_components.LuaThread.{
  opened, closed, allocated, freed, ran, Lua, lua_thread_main, lua_thread_send,
}
use esp32_components.LuaThread.Files.{observe_all, nothing, lua_thread_main-Held}

abbrev no_info : LfsInfo
no_info = record { type = 0; size = 0; name = [] }

-- One file, of the text 1, 2, 3, under any name of two characters or more. The memory counts the calls.
abbrev one_script : Littlefs
one_script = record {
  World = ℕ;
  lfs_file_open =
      λ w lfs file path flags. elim path [ (a ∷ b ∷ ps) ↦ (ok 0, w + 1) | _ ↦ (err 2, w + 1) ];
  lfs_file_close = λ w lfs file. (ok 0, w + 1);
  lfs_file_seek = λ w lfs file offset whence. (ok offset, w + 1);
  lfs_file_read = λ w lfs file buf size. ((ok 3, 1 ∷ 2 ∷ 3 ∷ []), w + 1);
  lfs_file_write = λ w lfs file buf. (ok 0, w + 1);
  lfs_file_size = λ w lfs file. (ok 3, w + 1);
  lfs_dir_open = λ w lfs dir path. (err 2, w);
  lfs_dir_close = λ w lfs dir. (ok 0, w);
  lfs_dir_read = λ w lfs dir. ((ok 0, no_info), w);
  lfs_stat = λ w lfs path. ((err 2, no_info), w);
  lfs_remove = λ w lfs path. (err 2, w);
  lfs_fs_stat = λ w lfs. ((ok 0, record { block_size = 4096; block_count = 256 }), w);
}

abbrev api : FsApi
unfolding lfs_api
api = lfs_api one_script 0 local_object

abbrev idle : Lua api
unfolding lfs_api
idle = record { ctx = 0; actions = [] }

abbrev room : Ret → Option (List ℕ)
room (ok n) = some (replicate n 0)
room (err e) = none

-- A script is run, the queue fails, a file is missing, and memory is short.
abbrev rounds : List (Option (List ℕ) × (Ret → Option (List ℕ)))
rounds =
    (some (47 ∷ 97 ∷ []), room)
    ∷ (none, room)
    ∷ (some (47 ∷ []), room)
    ∷ (some (47 ∷ 97 ∷ []), λ r. none)
    ∷ []

rounds_done :
    (lua_thread_main api idle rounds).actions
    ≡ opened 0 ∷ allocated ∷ ran (1 ∷ 2 ∷ 3 ∷ []) ∷ freed ∷ closed 0 ∷ opened 0 ∷ closed 0 ∷ []
unfolding lua_thread_main lfs_api
rounds_done = refl

lua_thread_main-Held_example :
    observe_all nothing (lua_thread_main api idle rounds).actions ≡ some nothing
unfolding observe_all idle
lua_thread_main-Held_example = lua_thread_main-Held api rounds idle refl

flags_combined : open_flags 20 ≡ 0x0102
unfolding open_flags
flags_combined = refl

name_too_long : lua_thread_send (replicate 64 97) true ≡ faults
unfolding lua_thread_send
name_too_long = refl
