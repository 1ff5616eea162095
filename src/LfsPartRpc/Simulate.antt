-- ===== src/LfsPartRpc/Simulate.antt =====
-- The sessions of the server do what those of the table do.
use esp32_components.Base.{
  ℕ, zero, suc, ◌<◌, ◌≡◌, refl, sym, ap, ap₂, subst, arith, Bool, true, false, List, [], ◌∷◌,
  Option, none, some, ◌==◌, if◌then◌else◌, replicate, Outcome, returns, fails, faults, Status, done,
  unfinished, ◌>>=◌,
}
use esp32_components.ProtoRpc.{StatusEnum}
use esp32_components.LfsPart.{Partition, Registry}
use esp32_components.LfsHelpers.{Littlefs, pool_init}
use esp32_components.CList.Iter.{init-Ring}
use esp32_components.LfsPartRpc.Cache.{
  LfsCallset, Server, lfs_part_rpc_init, Call, max_open_descriptors,
}
use esp32_components.LfsPartRpc.Handlers.{handlers, resolver, find_handler}
use esp32_components.LfsPartRpc.Table.{Table, Request, entry}
use esp32_components.LfsPartRpc.Requests.{requests}
use esp32_components.LfsPartRpc.Keys.{look, key_of}
use esp32_components.LfsPartRpc.Vacancy.{states, open_count}
use esp32_components.LfsPartRpc.Mirror.{Mirrors}
use esp32_components.LfsPartRpc.Alloc.{Fresh}
use esp32_components.LfsPartRpc.Refine.{
  Agree, both, both_fail, both_fault, neither_ends, Related, lift, On, Does,
}
use esp32_components.LfsPartRpc.Answers.{
  Answers, Looks, getfsinfo-Answers, remove_path-Answers, getfilesize-Answers, dirclose-Answers,
  fileclose-Answers, dirread-Answers, fileread-Answers, filewrite-Answers, dirlist-Answers,
}
use esp32_components.LfsPartRpc.Opening.{diropen-Answers, fileopen-Answers}
use esp32_components.LfsPartRpc.Session.{
  Event, Replies, serve, ask, serve_all, ask_all, AllFresh, all_free,
}

entry-replicate : (n fd : ℕ) → entry (replicate n none) fd ≡ none
unfolding entry
entry-replicate zero fd = refl
entry-replicate (suc n) zero = refl
entry-replicate (suc n) (suc fd) = entry-replicate n fd

-- Two tables of the same tags, whose handlers do what the requests do.
abbrev Tables :
    {F : Littlefs}
    → ℕ
    → List (ℕ × (Option ℕ → Call F → Outcome (Call F)))
    → List (ℕ × (Option ℕ → Request F → Outcome (Request F)))
    → Type 0
Tables fuel [] [] = Unit {0}
Tables fuel [] (r ∷ rs) = ⊥
Tables fuel (h ∷ hs) [] = ⊥
Tables fuel ((k, h) ∷ hs) ((l, r) ∷ rs) = (k ≡ l) × Answers fuel h r × Tables fuel hs rs

module _ (F : Littlefs) (fuel : ℕ) (partition : ℕ → Partition) (registry : Registry)
    (find : List ℕ → Option ℕ) (looked : Looks fuel partition registry find) where
  handlers-Tables :
      Tables fuel (handlers F fuel partition registry) (requests F fuel partition find)
  unfolding handlers requests
  handlers-Tables = (
    refl,
    getfsinfo-Answers fuel partition registry find looked,
    (
      refl,
      diropen-Answers fuel partition registry find looked,
      (
        refl,
        dirclose-Answers fuel partition registry find looked,
        (
          refl,
          dirread-Answers fuel partition registry find looked,
          (
            refl,
            dirlist-Answers fuel partition registry find looked,
            (
              refl,
              fileopen-Answers fuel partition registry find looked,
              (
                refl,
                fileclose-Answers fuel partition registry find looked,
                (
                  refl,
                  fileread-Answers fuel partition registry find looked,
                  (
                    refl,
                    filewrite-Answers fuel partition registry find looked,
                    (
                      refl,
                      remove_path-Answers fuel partition registry find looked,
                      (refl, getfilesize-Answers fuel partition registry find looked, _),
                    ),
                  ),
                ),
              ),
            ),
          ),
        ),
      ),
    ),
  )

  -- The search of the resolver gives a handler of a request, or nothing where there is no request.
  found-Does :
      (e : Event) (x : Call F) (t : Table)
      → On fuel x t
      → Fresh fuel x.world e.room
      → (tag : ℕ) (hs : List (ℕ × (Option ℕ → Call F → Outcome (Call F))))
        (rs : List (ℕ × (Option ℕ → Request F → Outcome (Request F))))
      → Tables fuel hs rs
      → Does fuel
          (elim (find_handler tag hs) [ none ↦ returns x | some h ↦ h e.room x ])
          (elim (find_handler tag rs) [ none ↦ returns (lift x t) | some r ↦ r e.room (lift x t) ])
  unfolding find_handler
  found-Does e x t m fresh tag [] [] ts = both (record { mirrored = m; lifted = refl })
  found-Does e x t m fresh tag [] (r ∷ rs) ts = elim ts [ ]
  found-Does e x t m fresh tag (h ∷ hs) [] ts = elim ts [ ]
  found-Does e x t m fresh tag ((k, h) ∷ hs) ((l, r) ∷ rs) (same, a, ts) =
      subst
        (λ l.
          Does {F = F} fuel
            (elim (find_handler tag ((k, h) ∷ hs)) [ none ↦ returns x | some h ↦ h e.room x ])
            (elim (find_handler tag ((l, r) ∷ rs)) [
              | none ↦ returns (lift x t)
              | some r ↦ r e.room (lift x t)
            ]))
        same
        (elim (k == tag)
          as (λ b.
            Does {F = F} fuel
              (elim (if b then some h else find_handler tag hs) [
                | none ↦ returns x
                | some h ↦ h e.room x
              ])
              (elim (if b then some r else find_handler tag rs) [
                | none ↦ returns (lift x t)
                | some r ↦ r e.room (lift x t)
              ])) [ true ↦ a e.room x t m fresh | false ↦ found-Does e x t m fresh tag hs rs ts ])

  serve-Does :
      (e : Event) (x : Call F) (y : Request F)
      → Related fuel x y
      → Fresh fuel x.world e.room
      → Does fuel (serve F fuel partition registry e x) (ask F fuel partition find e y)
  unfolding serve ask resolver
  serve-Does e x y r fresh =
      subst (λ y. Does fuel (serve F fuel partition registry e x) (ask F fuel partition find e y))
        (sym r.lifted)
        (found-Does e (record x { call = e.call }) y.world.table (On_of r) fresh e.call.which_msg
          (handlers F fuel partition registry) (requests F fuel partition find) handlers-Tables)
    where
      On_of : Related fuel x y → On fuel x y.world.table
      On_of r = subst (λ (y' : Request F). Mirrors fuel x.world y'.world) r.lifted r.mirrored

  -- Two runs with the same replies that end in related states.
  abbrev pub SameRun : Replies × Call F → Replies × Request F → Type 0
  SameRun a b = (a.0 ≡ b.0) × Related fuel a.1 b.1

  related_reply :
      {x : Call F} {y : Request F}
      → Related fuel x y
      → ◌≡◌ {A = LfsCallset × StatusEnum} (x.reply, x.status) (y.reply, y.status)
  related_reply r = sym (ap (λ (y : Request F). (y.reply, y.status)) r.lifted)

  cons-SameRun :
      {p : Outcome (Replies × Call F)} {q : Outcome (Replies × Request F)}
      {r s : LfsCallset × StatusEnum}
      → r ≡ s
      → Agree SameRun p q
      → Agree SameRun (p >>= λ a. returns (r ∷ a.0, a.1)) (q >>= λ b. returns (s ∷ b.0, b.1))
  cons-SameRun e (both (f, r)) = both (ap₂ (λ a as'. a ∷ as') e f, r)
  cons-SameRun e both_fail = both_fail
  cons-SameRun e both_fault = both_fault
  cons-SameRun e neither_ends = neither_ends

  step-SameRun :
      {m : Outcome (Call F)} {n : Outcome (Request F)} (es : List Event)
      → Agree (Related fuel) m n
      → ((a : Call F) (b : Request F)
          → m ≡ returns a
          → Related fuel a b
          → Agree SameRun
              (serve_all F fuel partition registry es a)
              (ask_all F fuel partition find es b))
      → Agree SameRun
          (m >>= λ y. serve_all F fuel partition registry es y >>= λ a.
            returns ((y.reply, y.status) ∷ a.0, a.1))
          (n >>= λ y.
            ask_all F fuel partition find es y >>= λ b. returns ((y.reply, y.status) ∷ b.0, b.1))
  step-SameRun es (both {a} {b} r) h = cons-SameRun (related_reply r) (h a b refl r)
  step-SameRun es both_fail h = both_fail
  step-SameRun es both_fault h = both_fault
  step-SameRun es neither_ends h = neither_ends

  -- From related states, any session of messages gives the replies and the statuses of the requests on
  -- the table, and ends in a state that mirrors its table; or both end alike without a reply.
  pub serve_all_refines :
      (es : List Event) (x : Call F) (y : Request F)
      → Related fuel x y
      → AllFresh F fuel partition registry es x
      → Agree SameRun
          (serve_all F fuel partition registry es x)
          (ask_all F fuel partition find es y)
  unfolding serve_all ask_all
  serve_all_refines [] x y r fresh = both (refl, r)
  serve_all_refines (e ∷ es) x y r fresh =
      step-SameRun es (serve-Does e x y r fresh.0) λ a b ran related.
        serve_all_refines es a b related (
          subst
            (λ (o : Outcome (Call F)). elim o as (λ _. Type 0) [
              | returns y ↦ AllFresh F fuel partition registry es y
              | fails ↦ Unit {0}
              | faults ↦ Unit {0}
              | unfinished ↦ Unit {0}
            ])
            ran fresh.1)

  pub lfs_part_rpc_init-Mirrors :
      (s : Server F) (room_lp room_pool : Bool) (s' : Server F)
      → lfs_part_rpc_init s room_lp room_pool ≡ (s', done)
      → max_open_descriptors < fuel
      → Mirrors fuel s' (record { table = all_free; fs = s'.fs })
  unfolding lfs_part_rpc_init pool_init states open_count look
  lfs_part_rpc_init-Mirrors s false b s' e l = absurd (cc)
  lfs_part_rpc_init-Mirrors s true false s' e l = absurd (cc)
  lfs_part_rpc_init-Mirrors s true true s' e l =
      subst (λ (s' : Server F). Mirrors fuel s' (record { table = all_free; fs = s'.fs }))
        (ap (λ (r : Server F × Status). r.0) e)
        (record {
          ptrs = [];
          ring = init-Ring s.links s.cache;
          same_fs = refl;
          pooled = refl;
          listed = record {
            distinct = _;
            counted = refl;
            found = λ fd. ap (key_of fd) (sym (entry-replicate max_open_descriptors fd));
          };
          small = omega arith;
          enough = l;
        })

  -- After an initialisation that succeeded, where every descriptor is free: if malloc() gives blocks that
  -- are not in the cache, and the look-up of a partition ends for every label, any session of messages
  -- gives the replies and the statuses of the requests on the table of descriptors, and ends in a state
  -- that mirrors its table; or both run into the same fault or want of fuel.
  pub serve_all-lfs_part_rpc_init :
      (es : List Event) (x : Call F) (s : Server F) (room_lp room_pool : Bool)
      → lfs_part_rpc_init s room_lp room_pool ≡ (x.world, done)
      → max_open_descriptors < fuel
      → AllFresh F fuel partition registry es x
      → Agree SameRun
          (serve_all F fuel partition registry es x)
          (ask_all F fuel partition find es (lift x all_free))
  serve_all-lfs_part_rpc_init es x s room_lp room_pool e l fresh =
      serve_all_refines es x (lift x all_free)
        (record {
          mirrored = lfs_part_rpc_init-Mirrors s room_lp room_pool x.world e l;
          lifted = refl;
        })
        fresh
