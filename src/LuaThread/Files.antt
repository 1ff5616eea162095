-- ===== src/LuaThread/Files.antt =====
-- The files and the blocks of lua/src/lua_thread.c: an observer of what the task does, independent of it.
use esp32_components.Base.{
  ℕ, suc, zero, ◌≡◌, ◌∙◌, List, [], ◌∷◌, ◌++◌, Option, none, some, ◌==◌, if◌then◌else◌, arith, ap,
  refl, take, eq→==,
}
use esp32_components.LfsHelpers.{Ret, ok, err}
use esp32_components.LfsApi.{FsApi, fsapi_o_rdonly}
use esp32_components.LuaThread.{
  Action, opened, closed, allocated, freed, ran, Lua, act, close_file, run_script, read_block,
  read_script, script_round, lua_thread_main,
}

-- What is held: nothing, a file, or a file and a block.
pub data Held : Type 0 where
  nothing : Held
  with_file with_block : (fd : ℕ) → Held

unfoldable pub observe : Held → Action → Option Held
observe nothing (opened fd) = some (with_file fd)
observe nothing (closed fd) = none
observe nothing allocated = none
observe nothing freed = none
observe nothing (ran s) = none
observe (with_file fd) (opened fd') = none
observe (with_file fd) (closed fd') = if fd == fd' then some nothing else none
observe (with_file fd) allocated = some (with_block fd)
observe (with_file fd) freed = none
observe (with_file fd) (ran s) = none
observe (with_block fd) (opened fd') = none
observe (with_block fd) (closed fd') = none
observe (with_block fd) allocated = none
observe (with_block fd) freed = some (with_file fd)
observe (with_block fd) (ran s) = some (with_block fd)

unfoldable pub observe_all : Held → List Action → Option Held
unfolding observe
observe_all h [] = some h
observe_all h (a ∷ as') = elim (observe h a) [ none ↦ none | some h' ↦ observe_all h' as' ]

observe_all-snoc :
    (h : Held) (as' : List Action) (a : Action) {k : Held}
    → observe_all h as' ≡ some k
    → observe_all h (as' ++ a ∷ []) ≡ observe k a
unfolding observe_all
observe_all-snoc h [] a p = ground arith
observe_all-snoc h (b ∷ as') a {k} p =
    elim (observe h b)
        as (λ o.
          (elim o [ none ↦ none | some l ↦ observe_all l as' ]) ≡ some k
          → (elim o [ none ↦ none | some l ↦ observe_all l (as' ++ a ∷ []) ]) ≡ observe k a) [
            | none ↦ λ q. absurd (cc)
            | some l ↦ λ q. observe_all-snoc l as' a q
          ]
      p

module _ (fs : FsApi) where
  abbrev Holds : Held → Lua fs → Type 0
  Holds h t = observe_all nothing t.actions ≡ some h

  close_file-Holds :
      (t : Lua fs) (fd : ℕ) → Holds (with_file fd) t → Holds nothing (close_file fs t fd)
  unfolding close_file act observe
  close_file-Holds t fd p =
      observe_all-snoc nothing t.actions (closed fd) p
      ∙ ap (λ b. if b then some nothing else none) (eq→== fd fd refl)

  run_script-Holds :
      (t : Lua fs) (nread : Ret) (script : List ℕ) (fd : ℕ)
      → Holds (with_block fd) t
      → Holds (with_block fd) (run_script fs t nread script)
  unfolding run_script act observe
  run_script-Holds t (ok zero) script fd p = p
  run_script-Holds t (ok (suc n)) script fd p =
      observe_all-snoc nothing t.actions (ran (take (suc n) script)) p
  run_script-Holds t (err e) script fd p = p

  read_block-Holds :
      (t : Lua fs) (fd : ℕ) (size : Ret) (room : Option (List ℕ))
      → Holds (with_file fd) t
      → Holds nothing (read_block fs t fd size room)
  unfolding read_block act observe
  read_block-Holds t fd size none p = close_file-Holds t fd p
  read_block-Holds t fd size (some script) p =
      let ((nread, script'), ctx) = fs.read t.ctx fd script size in
      let got = act fs t ctx allocated in
      let t' = run_script fs got nread script' in
      close_file-Holds (act fs t' t'.ctx freed) fd (
        observe_all-snoc nothing t'.actions freed
          (run_script-Holds got nread script' fd (observe_all-snoc nothing t.actions allocated p)))

  read_script-Holds :
      (t : Lua fs) (fd : Ret) (ctx : fs.Ctx) (room : Ret → Option (List ℕ))
      → Holds nothing t
      → Holds nothing (read_script fs t fd ctx room)
  unfolding read_script act observe
  read_script-Holds t (err e) ctx room p = p
  read_script-Holds t (ok fd) ctx room p =
      let (size, ctx') = fs.fsize ctx fd in
      read_block-Holds (record (act fs t ctx (opened fd)) { ctx = ctx' }) fd size (room size)
        (observe_all-snoc nothing t.actions (opened fd) p)

  script_round-Holds :
      (t : Lua fs) (item : Option (List ℕ)) (room : Ret → Option (List ℕ))
      → observe_all nothing t.actions ≡ some nothing
      → observe_all nothing (script_round fs t item room).actions ≡ some nothing
  unfolding script_round
  script_round-Holds t none room p = p
  script_round-Holds t (some f) room p =
      let (fd, ctx) = fs.open_path t.ctx f fsapi_o_rdonly in read_script-Holds t fd ctx room p

  -- Whatever the queue, malloc() and the file system give in each round: if what the task did before
  -- leaves no file open and no block allocated, then so does what it has done after all the rounds, and
  -- in between each file is closed by its own descriptor before another is opened, a block is allocated
  -- only for an open file and freed before that is closed, and a script is run only from such a block.
  pub lua_thread_main-Held :
      (rounds : List (Option (List ℕ) × (Ret → Option (List ℕ)))) (t : Lua fs)
      → observe_all nothing t.actions ≡ some nothing
      → observe_all nothing (lua_thread_main fs t rounds).actions ≡ some nothing
  unfolding lua_thread_main
  lua_thread_main-Held [] t p = p
  lua_thread_main-Held ((item, room) ∷ rounds) t p =
      lua_thread_main-Held rounds (script_round fs t item room) (script_round-Holds t item room p)
