-- ===== src/LfsPartRpc/Refine.antt =====
-- Each handler does on the cache what its request does on the table.
use esp32_components.Base.{
  ℕ, ◌≡◌, sym, ap, subst, ◌∙◌, Bool, true, false, List, Option, none, some, set, if◌then◌else◌, u8,
  Status, done, failed, Outcome, returns, fails, faults, unfinished, ◌>>=◌,
}
use esp32_components.ProtoRpc.{StatusEnum}
use esp32_components.LfsPart.{Partition, Registry, get_partition}
use esp32_components.LfsHelpers.{Ret, ok, err, Littlefs}
use esp32_components.LfsPartRpc.Cache.{
  CacheItem, LfsCallset, Server, cache_find_fd, Call, answer, refuse,
}
use esp32_components.LfsPartRpc.Steps.{with_lfs, with_fd, after_close, get_lfs}
use esp32_components.LfsPartRpc.Table.{
  Table, entry, Request, reply_ok, reply_error, on_partition, on_descriptor, shut,
}
use esp32_components.LfsPartRpc.Keys.{Key}
use esp32_components.LfsPartRpc.Mirror.{
  Mirrors, Mirrors-fs, cache_find_fd-Searched, Searched, closed, opened, cache_rm_fd-Mirrors,
}

-- Two runs that both return related values, or end alike in another way.
pub data Agree {A B : Type 0} (R : A → B → Type 0) : Outcome A → Outcome B → Type 0 where
  both : {a : A} {b : B} → R a b → Agree R (returns a) (returns b)
  both_fail : Agree R fails fails
  both_fault : Agree R faults faults
  neither_ends : Agree R unfinished unfinished

module _ {A B : Type 0} {R : A → B → Type 0} where
  pub Agree-ret :
      (r : Ret) {f e : ℕ → Outcome A} {g d : ℕ → Outcome B}
      → ((n : ℕ) → Agree R (f n) (g n))
      → ((n : ℕ) → Agree R (e n) (d n))
      → Agree R (elim r [ ok n ↦ f n | err n ↦ e n ]) (elim r [ ok n ↦ g n | err n ↦ d n ])
  Agree-ret (ok n) h k = h n
  Agree-ret (err n) h k = k n

  pub Agree-option :
      {X : Type 0} (o : Option X) {m : Outcome A} {n : Outcome B} {f : X → Outcome A}
      {g : X → Outcome B}
      → Agree R m n
      → ((x : X) → Agree R (f x) (g x))
      → Agree R (elim o [ none ↦ m | some x ↦ f x ]) (elim o [ none ↦ n | some x ↦ g x ])
  Agree-option none h k = h
  Agree-option (some x) h k = k x

  pub Agree-bind :
      {X : Type 0} (m : Outcome X) {f : X → Outcome A} {g : X → Outcome B}
      → ((x : X) → Agree R (f x) (g x))
      → Agree R (m >>= f) (m >>= g)
  Agree-bind (returns x) h = h x
  Agree-bind fails h = both_fail
  Agree-bind faults h = both_fault
  Agree-bind unfinished h = neither_ends

  pub Agree-if :
      (b : Bool) {m n : Outcome A} {m' n' : Outcome B}
      → Agree R m m'
      → Agree R n n'
      → Agree R (if b then m else n) (if b then m' else n')
  Agree-if true h k = h
  Agree-if false h k = k

-- The request with the same call and reply, on a table.
abbrev pub lift : {F : Littlefs} → Call F → Table → Request F
lift x t = record {
  call = x.call;
  reply = x.reply;
  status = x.status;
  world = record { table = t; fs = x.world.fs };
}

-- The same messages and status, of a server that mirrors a table.
pub record Related {F : Littlefs} (fuel : ℕ) (x : Call F) (y : Request F) : Type 0 where
  pub mirrored : Mirrors fuel x.world y.world
  pub lifted : y ≡ lift x y.world.table

abbrev pub On : {F : Littlefs} → ℕ → Call F → Table → Type 0
On fuel x t = Mirrors fuel x.world (record { table = t; fs = x.world.fs })

abbrev pub Does : {F : Littlefs} → ℕ → Outcome (Call F) → Outcome (Request F) → Type 0
Does fuel m n = Agree (Related fuel) m n

module _ {F : Littlefs} {fuel : ℕ} where
  -- Two returns with the same reply and status.
  pub returned :
      {call reply : LfsCallset} {status : StatusEnum} {s : Server F} {t : Table} {fs : F.World}
      → Mirrors fuel s (record { table = t; fs = fs })
      → Does fuel (returns (record { call = call; reply = reply; status = status; world = s })) (
          returns (record {
            call = call;
            reply = reply;
            status = status;
            world = record { table = t; fs = fs };
          }))
  returned {call} {reply} {status} {s} {t} {fs} m = both (record {
    mirrored = m;
    lifted =
        ap
          (λ w. record {
            call = call;
            reply = reply;
            status = status;
            world = record { table = t; fs = w };
          })
          (sym m.same_fs);
  })

  pub with_lfs-Does :
      (partition : ℕ → Partition) (registry : Registry) (find : List ℕ → Option ℕ) (x : Call F)
      (t : Table) (reply : LfsCallset) (go : Server F → ℕ → Outcome (Call F))
      (go' : ℕ → Outcome (Request F))
      → ((label : List ℕ) → get_partition fuel partition registry label ≡ returns (find label))
      → On fuel x t
      → ((lfs : ℕ) → Does fuel (go x.world lfs) (go' lfs))
      → Does fuel
          (with_lfs fuel partition registry x reply go)
          (on_partition find (lift x t) reply go')
  unfolding with_lfs on_partition get_lfs
  with_lfs-Does partition registry find x t reply go go' looked m h =
      subst
        (λ (o : Outcome (Option ℕ)).
          Does fuel
            (o >>= λ lfs. elim lfs [ none ↦ refuse x reply x.world | some l ↦ go x.world l ])
            (on_partition find (lift x t) reply go'))
        (sym (looked x.call.part_label)) (Agree-option (find x.call.part_label) (returned m) h)

  -- A descriptor that is open has its item, with the same file system and descriptor.
  pub with_fd-Does :
      (x : Call F) (t : Table) (reply : LfsCallset) (go : Server F → CacheItem → Outcome (Call F))
      (go' : (lfs fd : ℕ) → Outcome (Request F))
      → On fuel x t
      → ((item : CacheItem)
          → entry t item.descr ≡ some item.lfs
          → item.fd ≡ item.descr
          → Does fuel (go x.world item) (go' item.lfs item.descr))
      → Does fuel (with_fd fuel x reply go) (on_descriptor (lift x t) reply go')
  unfolding with_fd on_descriptor
  with_fd-Does x t reply go go' m h = by_search (cache_find_fd-Searched m x.call.fd)
    where
      found : Option ℕ → Outcome (Call F)
      found o = elim o [ none ↦ refuse x reply x.world | some p ↦ go x.world (x.world.items p) ]

      asked : Option ℕ → Outcome (Request F)
      asked o = elim o [
        | none ↦ reply_error (lift x t) reply (lift x t).world
        | some lfs ↦ go' lfs (u8 x.call.fd)
      ]

      by_search :
          Searched fuel x.world (record { table = t; fs = x.world.fs }) m.ptrs x.call.fd
          → Does fuel
              (cache_find_fd fuel x.world x.call.fd >>= found)
              (asked (entry t (u8 x.call.fd)))
      by_search (closed f e) =
          subst (λ o. Does fuel (o >>= found) (asked (entry t (u8 x.call.fd)))) (sym f)
            (subst (λ o. Does fuel (found none) (asked o)) (sym e) (returned m))
      by_search (opened p lfs ys zs f e k split) =
          let item = x.world.items p in
          let same_fd : item.fd ≡ u8 x.call.fd = ap (λ (k : Key). k.fd) k in
          let same_lfs : item.lfs ≡ lfs = ap (λ (k : Key). k.lfs) k in
          let same_descr : item.descr ≡ u8 x.call.fd = ap (λ (k : Key). k.descr) k in
          subst (λ o. Does fuel (o >>= found) (asked (entry t (u8 x.call.fd)))) (sym f)
            (subst (λ o. Does fuel (found (some p)) (asked o)) (sym e)
              (subst (λ l. Does fuel (go x.world item) (go' l (u8 x.call.fd))) same_lfs
                (subst (λ d. Does fuel (go x.world item) (go' item.lfs d)) same_descr
                  (h item (ap (entry t) same_descr ∙ e ∙ ap some (sym same_lfs))
                    (same_fd ∙ sym same_descr)))))

  pub after_close-Does :
      (x : Call F) (t : Table) (reply : LfsCallset) (fs : F.World) (fd descr lfs : ℕ) (ret : Ret)
      → On fuel x t
      → entry t descr ≡ some lfs
      → fd ≡ descr
      → Does fuel
          (after_close fuel x reply (record x.world { fs = fs }) fd ret)
          (shut (lift x t) reply t fs descr ret)
  unfolding after_close shut
  after_close-Does x t reply fs fd descr lfs (err e) m held same = returned (Mirrors-fs fs m)
  after_close-Does x t reply fs fd descr lfs (ok n) m held same =
      let (s', e, m') = cache_rm_fd-Mirrors fd lfs (Mirrors-fs fs m) (ap (entry t) same ∙ held) in
      subst
        (λ (o : Outcome (Server F × Status)).
          Does fuel
            (o >>= λ rm. elim rm.1 [ done ↦ answer x reply rm.0 | failed ↦ refuse x reply rm.0 ])
            (reply_ok (lift x t) reply (record { table = set t descr none; fs = fs })))
        (sym e)
        (returned (subst (λ d. Mirrors fuel s' (record { table = set t d none; fs = fs })) same m'))
