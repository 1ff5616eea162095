-- ===== src/LfsPartRpc/Ends.antt =====
-- Every session of messages ends, where directories do.
use esp32_components.Base.{
  ℕ, suc, ◌≡◌, refl, sym, ap, subst, ◌∙◌, true, false, List, [], ◌∷◌, Option, none, some, ◌==◌,
  if◌then◌else◌, length, Outcome, returns, Returns, returning, Returns-bind, Returns-if,
  Returns-mono,
}
use esp32_components.LfsPart.{Partition, Registry}
use esp32_components.LfsHelpers.{Ret, ok, err, local_object, Littlefs, lfs_exists}
use esp32_components.LfsPartRpc.Cache.{LfsCallset, Call}
use esp32_components.LfsPartRpc.Handlers.{find_handler}
use esp32_components.LfsPartRpc.Table.{
  Request, on_partition, on_descriptor, shut, dir_opened, file_opened, list_reply,
}
use esp32_components.LfsPartRpc.Requests.{
  ask_fsinfo, ask_diropen, ask_dirclose, ask_dirread, ask_dirlist, ask_fileopen, ask_fileclose,
  ask_fileread, ask_filewrite, ask_remove, ask_filesize, requests,
}
use esp32_components.LfsPartRpc.Refine.{Agree, both, both_fail, both_fault, neither_ends, Related}
use esp32_components.LfsPartRpc.Answers.{Looks}
use esp32_components.LfsPartRpc.Session.{Event, Replies, ask, serve_all, ask_all, AllFresh}
use esp32_components.LfsPartRpc.Simulate.{serve_all_refines}
use esp32_components.LfsPartRpc.Total.{Short, Sized, list_loop-Returns}

-- A request whose reply has its array.
abbrev pub SizedReply : {F : Littlefs} → Request F → Type 0
SizedReply y = Sized y.reply

module _ {A : Type 0} {P : A → Type 0} where
  Returns-ret :
      (r : Ret) {f e : ℕ → Outcome A}
      → ((n : ℕ) → Returns P (f n))
      → ((n : ℕ) → Returns P (e n))
      → Returns P (elim r [ ok n ↦ f n | err n ↦ e n ])
  Returns-ret (ok n) h k = h n
  Returns-ret (err n) h k = k n

  Returns-option :
      {X : Type 0} (o : Option X) {m : Outcome A} {f : X → Outcome A}
      → Returns P m
      → ((x : X) → Returns P (f x))
      → Returns P (elim o [ none ↦ m | some x ↦ f x ])
  Returns-option none h k = h
  Returns-option (some x) h k = k x

module _ {F : Littlefs} where
  on_partition-Returns :
      (find : List ℕ → Option ℕ) (y : Request F) (reply : LfsCallset) (go : ℕ → Outcome (Request F))
      → Sized reply
      → ((lfs : ℕ) → Returns SizedReply (go lfs))
      → Returns SizedReply (on_partition find y reply go)
  unfolding on_partition
  on_partition-Returns find y reply go s h = Returns-option (find y.call.part_label) (returning s) h

  on_descriptor-Returns :
      (y : Request F) (reply : LfsCallset) (go : (lfs fd : ℕ) → Outcome (Request F))
      → Sized reply
      → ((lfs fd : ℕ) → Returns SizedReply (go lfs fd))
      → Returns SizedReply (on_descriptor y reply go)
  unfolding on_descriptor
  on_descriptor-Returns y reply go s h = Returns-option _ (returning s) (λ lfs. h lfs _)

  shut-Returns :
      (y : Request F) (reply : LfsCallset) (t : List (Option ℕ)) (fs : F.World) (fd : ℕ) (ret : Ret)
      → Sized reply
      → Returns SizedReply (shut y reply t fs fd ret)
  unfolding shut
  shut-Returns y reply t fs fd (ok n) s = returning s
  shut-Returns y reply t fs fd (err e) s = returning s

  dir_opened-Returns :
      (y : Request F) (reply : LfsCallset) (fs : F.World) (lfs : ℕ) (o : Option ℕ)
      → Sized reply
      → Returns SizedReply (dir_opened y reply fs lfs o)
  unfolding dir_opened
  dir_opened-Returns y reply fs lfs none s = returning s
  dir_opened-Returns y reply fs lfs (some fd) s =
      Returns-ret _ (λ n. returning s) (λ n. returning s)

  file_opened-Returns :
      (y : Request F) (reply : LfsCallset) (lfs : ℕ) (o : Option ℕ)
      → Sized reply
      → Returns SizedReply (file_opened y reply lfs o)
  unfolding file_opened
  file_opened-Returns y reply lfs none s = returning s
  file_opened-Returns y reply lfs (some fd) s = Returns-ret _ (λ n. returning s) (λ n. returning s)

module _ (F : Littlefs) (fuel : ℕ) (partition : ℕ → Partition) (find : List ℕ → Option ℕ)
    (short : (lfs : ℕ) (w : F.World) → Short F lfs fuel w) where
  list_reply-Returns :
      (y : Request F) (reply : LfsCallset) (fs : F.World) (lfs : ℕ)
      → Sized reply
      → Returns SizedReply (list_reply fuel y reply fs lfs)
  unfolding list_reply
  list_reply-Returns y reply fs lfs s =
      Returns-bind _
        (list_loop-Returns F lfs y.call.start_idx fuel fs
          (record { entry_idx = 0; num_returned = 0; infos = reply.info_array }) (short lfs fs) s)
        (λ r sized. returning sized)

  -- Every request returns.
  abbrev Total : (Option ℕ → Request F → Outcome (Request F)) → Type 0
  Total request =
      (room : Option ℕ) (y : Request F) → SizedReply y → Returns SizedReply (request room y)

  ask_fsinfo-Total : Total (ask_fsinfo F fuel partition find)
  unfolding ask_fsinfo
  ask_fsinfo-Total room y s =
      on_partition-Returns find y _ _ s λ lfs. Returns-ret _ (λ n. returning s) (λ n. returning s)

  ask_diropen-Total : Total (ask_diropen F fuel partition find)
  unfolding ask_diropen
  ask_diropen-Total room y s =
      on_partition-Returns find y _ _ s
        λ lfs. Returns-ret _ (λ n. dir_opened-Returns y _ _ lfs _ s) (λ n. returning s)

  ask_dirclose-Total : Total (ask_dirclose F fuel partition find)
  unfolding ask_dirclose
  ask_dirclose-Total room y s = on_descriptor-Returns y _ _ s λ lfs fd. shut-Returns y _ _ _ fd _ s

  ask_dirread-Total : Total (ask_dirread F fuel partition find)
  unfolding ask_dirread
  ask_dirread-Total room y s =
      on_descriptor-Returns y _ _ s λ lfs fd. Returns-ret _ (λ n. returning s) (λ n. returning s)

  ask_dirlist-Total : Total (ask_dirlist F fuel partition find)
  unfolding ask_dirlist
  ask_dirlist-Total room y s = on_partition-Returns find y _ _ s λ lfs.
      Returns-ret (lfs_exists F y.world.fs lfs y.call.path).0.0
        (λ n.
          Returns-ret
            (F.lfs_dir_open (lfs_exists F y.world.fs lfs y.call.path).1 lfs local_object
              y.call.path).0
            (λ k. list_reply-Returns y _ _ lfs s) (λ k. returning s))
        (λ n. returning s)

  ask_fileopen-Total : Total (ask_fileopen F fuel partition find)
  unfolding ask_fileopen
  ask_fileopen-Total room y s = on_partition-Returns find y _ _ s λ lfs.
      Returns-if (y.call.flags == 0) (λ _. returning s) (λ _. file_opened-Returns y _ lfs _ s)

  ask_fileclose-Total : Total (ask_fileclose F fuel partition find)
  unfolding ask_fileclose
  ask_fileclose-Total room y s = on_descriptor-Returns y _ _ s λ lfs fd. shut-Returns y _ _ _ fd _ s

  ask_fileread-Total : Total (ask_fileread F fuel partition find)
  unfolding ask_fileread
  ask_fileread-Total room y s =
      on_descriptor-Returns y _ _ s λ lfs fd. Returns-option _ (returning s) (λ r. returning s)

  ask_filewrite-Total : Total (ask_filewrite F fuel partition find)
  unfolding ask_filewrite
  ask_filewrite-Total room y s =
      on_descriptor-Returns y _ _ s λ lfs fd. Returns-option _ (returning s) (λ r. returning s)

  ask_remove-Total : Total (ask_remove F fuel partition find)
  unfolding ask_remove
  ask_remove-Total room y s = on_partition-Returns find y _ _ s λ lfs. returning s

  ask_filesize-Total : Total (ask_filesize F fuel partition find)
  unfolding ask_filesize
  ask_filesize-Total room y s = on_partition-Returns find y _ _ s λ lfs. returning s

  abbrev AllTotal : List (ℕ × (Option ℕ → Request F → Outcome (Request F))) → Type 0
  AllTotal [] = Unit {0}
  AllTotal ((tag, request) ∷ rs) = Total request × AllTotal rs

  requests-AllTotal : AllTotal (requests F fuel partition find)
  unfolding requests
  requests-AllTotal = (
    ask_fsinfo-Total,
    (
      ask_diropen-Total,
      (
        ask_dirclose-Total,
        (
          ask_dirread-Total,
          (
            ask_dirlist-Total,
            (
              ask_fileopen-Total,
              (
                ask_fileclose-Total,
                (
                  ask_fileread-Total,
                  (ask_filewrite-Total, (ask_remove-Total, (ask_filesize-Total, _))),
                ),
              ),
            ),
          ),
        ),
      ),
    ),
  )

  found-Returns :
      (room : Option ℕ) (y : Request F) (tag : ℕ)
      → SizedReply y
      → (rs : List (ℕ × (Option ℕ → Request F → Outcome (Request F)))) → AllTotal rs
      → Returns SizedReply (elim (find_handler tag rs) [ none ↦ returns y | some r ↦ r room y ])
  unfolding find_handler
  found-Returns room y tag s [] a = returning s
  found-Returns room y tag s ((k, r) ∷ rs) (t, a) =
      elim (k == tag)
        as (λ b. Returns SizedReply (elim (if b then some r else find_handler tag rs) [
          | none ↦ returns y
          | some r ↦ r room y
        ])) [ true ↦ t room y s | false ↦ found-Returns room y tag s rs a ]

  ask-Returns :
      (e : Event) (y : Request F)
      → SizedReply y
      → Returns SizedReply (ask F fuel partition find e y)
  unfolding ask
  ask-Returns e y s =
      found-Returns e.room (record y { call = e.call }) e.call.which_msg s
        (requests F fuel partition find) requests-AllTotal

  ask_all-Returns :
      (es : List Event) (y : Request F)
      → SizedReply y
      → Returns
          (λ (r : Replies × Request F). length r.0 ≡ length es)
          (ask_all F fuel partition find es y)
  unfolding ask_all
  ask_all-Returns [] y s = returning refl
  ask_all-Returns (e ∷ es) y s =
      Returns-bind _ (ask-Returns e y s)
        (λ z sized. Returns-bind _ (ask_all-Returns es z sized) (λ r l. returning (ap suc l)))

-- A run that agrees with one that returns returns too.
Agree-Returns :
    {A B : Type 0} {R : A → B → Type 0} {P : B → Type 0} {m : Outcome A} {n : Outcome B}
    → Agree R m n
    → Returns P n
    → Returns (λ a. (b : B) × R a b × P b) m
Agree-Returns (both {a} {b} r) (returning p) = returning (b, r, p)
Agree-Returns both_fail p = elim p [ ]
Agree-Returns both_fault p = elim p [ ]
Agree-Returns neither_ends p = elim p [ ]

-- Where every directory has fewer entries than the fuel, and the array of the reply its eight entries,
-- a session of messages with fresh memory on a server that mirrors a table of fewer descriptors than the
-- fuel comes to its end, with a reply for each message and no access outside an array.
pub serve_all-Returns :
    (F : Littlefs) (fuel : ℕ) (partition : ℕ → Partition) (registry : Registry)
    (find : List ℕ → Option ℕ) (es : List Event) (x : Call F) (y : Request F)
    → ((lfs : ℕ) (w : F.World) → Short F lfs fuel w)
    → Looks fuel partition registry find
    → Related fuel x y
    → AllFresh F fuel partition registry es x
    → Sized x.reply
    → Returns
        (λ (r : Replies × Call F). length r.0 ≡ length es)
        (serve_all F fuel partition registry es x)
serve_all-Returns F fuel partition registry find es x y short looked r fresh s =
    Returns-mono
      (Agree-Returns (serve_all_refines F fuel partition registry find looked es x y r fresh) (
        ask_all-Returns F fuel partition find short es y
          (subst (λ (y : Request F). SizedReply y) (sym r.lifted) s)))
      (λ a (b, (same, related), l). ap length same ∙ l)
