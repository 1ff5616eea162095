-- ===== src/LuaThread.antt =====
-- lua/src/lua_thread.c: the task that runs script files. The interpreter is a parameter, a function of a
-- script to its status; the results of the queue, of malloc() and of the creation of the task are given.
pub mod Files
mod Tests
use esp32_components.Base.{
  ℕ, zero, suc, ◌+◌, Bool, true, false, List, [], ◌∷◌, ◌++◌, Option, none, some, ◌==◌,
  if◌then◌else◌, take, length, ltb, Status, done, failed, Outcome, returns, faults,
}
use esp32_components.LfsHelpers.{Ret, ok, err}
use esp32_components.LfsApi.{FsApi, fsapi_o_rdonly}

-- What the task does, in order.
pub data Action : Type 0 where
  opened closed : (fd : ℕ) → Action
  allocated freed : Action
  ran : (script : List ℕ) → Action

module _ (fs : FsApi) where
  -- The file system, and what the task did so far.
  pub record Lua : Type 0 where
    pub ctx : fs.Ctx
    pub actions : List Action

  unfoldable pub act : Lua → fs.Ctx → Action → Lua
  act t ctx a = record { ctx = ctx; actions = t.actions ++ a ∷ [] }

  unfoldable pub close_file : Lua → (fd : ℕ) → Lua
  unfolding act
  close_file t fd = act t (fs.close t.ctx fd).1 (closed fd)

  -- What is read is run, if anything was.
  unfoldable pub run_script : Lua → (nread : Ret) → List ℕ → Lua
  unfolding act
  run_script t (ok zero) script = t
  run_script t (ok (suc n)) script = act t t.ctx (ran (take (suc n) script))
  run_script t (err e) script = t

  -- From the check of the block that malloc() gives, `none` for NULL, to the end of the round.
  unfoldable pub read_block : Lua → (fd : ℕ) → (size : Ret) → Option (List ℕ) → Lua
  unfolding close_file run_script act
  read_block t fd size none = close_file t fd
  read_block t fd size (some script) =
      let ((nread, script'), ctx) = fs.read t.ctx fd script size in
      let t' = run_script (act t ctx allocated) nread script' in close_file (act t' t'.ctx freed) fd

  -- From the check of what open() gives: `room` is what malloc() gives, the bytes of the block.
  unfoldable pub read_script : Lua → (fd : Ret) → fs.Ctx → (room : Ret → Option (List ℕ)) → Lua
  unfolding read_block act
  read_script t (err e) ctx room = record t { ctx = ctx }
  read_script t (ok fd) ctx room =
      let t' = act t ctx (opened fd) in
      let (size, ctx') = fs.fsize ctx fd in
      read_block (record t' { ctx = ctx' }) fd size (room size)

  -- A round of the task: what the queue gives, `none` for an error, and what malloc() gives.
  unfoldable pub script_round : Lua → Option (List ℕ) → (room : Ret → Option (List ℕ)) → Lua
  unfolding read_script
  script_round t none room = t
  script_round t (some script_file) room =
      let (fd, ctx) = fs.open_path t.ctx script_file fsapi_o_rdonly in read_script t fd ctx room

  -- The loop, over what its rounds meet.
  unfoldable pub lua_thread_main : Lua → List (Option (List ℕ) × (Ret → Option (List ℕ))) → Lua
  unfolding script_round
  lua_thread_main t [] = t
  lua_thread_main t ((item, room) ∷ rounds) = lua_thread_main (script_round t item room) rounds

abbrev pub lua_thread_max_filename : ℕ
lua_thread_max_filename = 64

-- `strcpy` of the name, with its terminator, into the item; `queued` is what the queue says.
unfoldable pub lua_thread_send : (filename : List ℕ) → (queued : Bool) → Outcome Status
lua_thread_send filename queued =
    if ltb (length filename) lua_thread_max_filename
    then returns (if queued then done else failed)
    else faults

-- The status is that of the compilation, or else that of the run; a script that does not compile is
-- not run.
unfoldable pub exec_script :
    {Vm : Type 0} (loadbuffer : Vm → List ℕ → ℕ × Vm) (pcall : Vm → ℕ × Vm) → Vm → List ℕ → ℕ × Vm
exec_script loadbuffer pcall vm s =
    let (status, vm') = loadbuffer vm s in if status == 0 then pcall vm' else (status, vm')
