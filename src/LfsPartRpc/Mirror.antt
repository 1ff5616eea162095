-- ===== src/LfsPartRpc/Mirror.antt =====
-- The pool, the cache and its items mirror the table of descriptors.
use esp32_components.Base.{
  ℕ, suc, ◌≤◌, ◌<◌, ◌≡◌, refl, sym, ap, subst, ◌∙◌, arith, List, [], ◌∷◌, ◌++◌, Option, none, some,
  if◌then◌else◌, length, set, u8, eq→==, ne→==, ℕ_discrete, done, Outcome, returns, unfinished,
  ◌>>=◌, length-set,
}
use esp32_components.CList.{iter, remove}
use esp32_components.CList.Links.{Ring}
use esp32_components.CList.Iter.{iter-some}
use esp32_components.CList.Remove.{remove-Ring}
use esp32_components.LfsHelpers.{Littlefs, LfsInfo, Pool, put_descriptor}
use esp32_components.LfsPartRpc.Cache.{
  CacheItem, Server, find_item, cache_find_fd, release, cache_rm_fd,
}
use esp32_components.LfsPartRpc.Steps.{set_info}
use esp32_components.LfsPartRpc.Table.{Files, entry}
use esp32_components.LfsPartRpc.Vacancy.{
  states, open_count-le, put_descriptor-states, entry-some_lt,
}
use esp32_components.LfsPartRpc.Keys.{Key, look, key_of, Lists, Lists-less}

abbrev pub key : CacheItem → Key
key item = record { fd = item.fd; lfs = item.lfs; descr = item.descr }

abbrev pub keys : (ℕ → CacheItem) → List ℕ → List Key
keys items [] = []
keys items (p ∷ ps) = key (items p) ∷ keys items ps

length-keys : (items : ℕ → CacheItem) (ps : List ℕ) → length (keys items ps) ≡ length ps
length-keys items [] = refl
length-keys items (p ∷ ps) = ap suc (length-keys items ps)

pub keys-append :
    (items : ℕ → CacheItem) (ps qs : List ℕ)
    → keys items (ps ++ qs) ≡ keys items ps ++ keys items qs
keys-append items [] qs = refl
keys-append items (p ∷ ps) qs = ap (λ ks. key (items p) ∷ ks) (keys-append items ps qs)

-- The list of the cache, in order, is `ptrs`.
pub record Mirrors {F : Littlefs} (fuel : ℕ) (s : Server F) (t : Files F) : Type 0 where
  pub ptrs : List ℕ
  pub ring : Ring s.links s.cache ptrs
  pub same_fs : s.fs ≡ t.fs
  pub pooled : s.pool ≡ states t.table
  pub listed : Lists (keys s.items ptrs) t.table
  pub small : length t.table ≤ 256
  pub enough : length t.table < fuel

-- The search of the cache and that of its keys.
pub data Hit (items : ℕ → CacheItem) (fd : ℕ) (ps : List ℕ) : Type 0 where
  miss : find_item items fd ps ≡ none → look fd (keys items ps) ≡ none → Hit items fd ps
  hit :
      (p : ℕ) (ys zs : List ℕ)
      → find_item items fd ps ≡ some p
      → look fd (keys items ps) ≡ some (key (items p))
      → ps ≡ ys ++ p ∷ zs
      → Hit items fd ps

find_item-Hit : (items : ℕ → CacheItem) (fd : ℕ) (ps : List ℕ) → Hit items fd ps
unfolding find_item look
find_item-Hit items fd [] = miss refl refl
find_item-Hit items fd (p ∷ ps) = elim (ℕ_discrete (items p).fd fd) [
  | yes e ↦
      hit p [] ps (ap (λ b. if b then some p else find_item items fd ps) (eq→== _ _ e))
        (ap (λ b. if b then some (key (items p)) else look fd (keys items ps)) (eq→== _ _ e)) refl
  | no n ↦
      let a = ap (λ b. if b then some p else find_item items fd ps) (ne→== (items p).fd fd n) in
      let b =
        ap (λ b. if b then some (key (items p)) else look fd (keys items ps))
          (ne→== (items p).fd fd n) in
      elim (find_item-Hit items fd ps) [
        | miss f l ↦ miss (a ∙ f) (b ∙ l)
        | hit q ys zs f l e ↦ hit q (p ∷ ys) zs (a ∙ f) (b ∙ l) (ap (λ r. p ∷ r) e)
      ]
]

module _ {F : Littlefs} {fuel : ℕ} {s : Server F} {t : Files F} (m : Mirrors fuel s t) where
  length-ptrs : length m.ptrs < fuel
  length-ptrs =
      omega (arith, length-keys s.items m.ptrs, m.listed.counted, open_count-le t.table, m.enough)

  pub iter-ptrs : iter fuel s.links s.cache ≡ some m.ptrs
  iter-ptrs = iter-some s.links s.cache m.ptrs fuel m.ring length-ptrs

  cache_find_fd-find :
      (fd : ℕ) → cache_find_fd fuel s fd ≡ returns (find_item s.items (u8 fd) m.ptrs)
  unfolding cache_find_fd
  cache_find_fd-find fd =
      ap
        (λ o. elim o as (λ o. Outcome (Option ℕ)) [
          | none ↦ unfinished
          | some entries ↦ returns (find_item s.items (u8 fd) entries)
        ])
        iter-ptrs

-- What a search of the cache gives: nothing for a descriptor that is free, and for one that is open its
-- item in the list.
pub data Searched {F : Littlefs} (fuel : ℕ) (s : Server F) (t : Files F) (ps : List ℕ) (fd : ℕ)
    : Type 0 where
  closed :
      cache_find_fd fuel s fd ≡ returns none
      → entry t.table (u8 fd) ≡ none
      → Searched fuel s t ps fd
  opened :
      (p lfs : ℕ) (ys zs : List ℕ)
      → cache_find_fd fuel s fd ≡ returns (some p)
      → entry t.table (u8 fd) ≡ some lfs
      → key (s.items p) ≡ record { fd = u8 fd; lfs = lfs; descr = u8 fd }
      → ps ≡ ys ++ p ∷ zs
      → Searched fuel s t ps fd

key_of-none : (fd : ℕ) (o : Option ℕ) → key_of fd o ≡ none → o ≡ none
key_of-none fd none e = refl
key_of-none fd (some lfs) e = absurd (cc)

key_of-some :
    (fd : ℕ) (o : Option ℕ) (k : Key)
    → key_of fd o ≡ some k
    → (lfs : ℕ) × (o ≡ some lfs) × (k ≡ record { fd = fd; lfs = lfs; descr = fd })
key_of-some fd none k e = absurd (cc)
key_of-some fd (some lfs) k e = (lfs, refl, cc)

pub cache_find_fd-Searched :
    {F : Littlefs} {fuel : ℕ} {s : Server F} {t : Files F} (m : Mirrors fuel s t) (fd : ℕ)
    → Searched fuel s t m.ptrs fd
cache_find_fd-Searched {s = s} {t = t} m fd = elim (find_item-Hit s.items (u8 fd) m.ptrs) [
  | miss f l ↦
      closed (cache_find_fd-find m fd ∙ ap returns f)
        (key_of-none (u8 fd) (entry t.table (u8 fd)) (sym (m.listed.found (u8 fd)) ∙ l))
  | hit p ys zs f l e ↦
      let (lfs, held, k) =
        key_of-some (u8 fd) (entry t.table (u8 fd)) (key (s.items p))
          (sym (m.listed.found (u8 fd)) ∙ l) in
      opened p lfs ys zs (cache_find_fd-find m fd ∙ ap returns f) held k e
]

-- A change of littlefs alone, and one of what an item says of its file.
pub Mirrors-fs :
    {F : Littlefs} {fuel : ℕ} {s : Server F} {t : Files F} (fs : F.World)
    → Mirrors fuel s t
    → Mirrors fuel (record s { fs = fs }) (record t { fs = fs })
Mirrors-fs fs m = record {
  ptrs = m.ptrs;
  ring = m.ring;
  same_fs = refl;
  pooled = m.pooled;
  listed = m.listed;
  small = m.small;
  enough = m.enough;
}

key-set_info :
    {F : Littlefs} (s : Server F) (item : ℕ) (info : LfsInfo) (q : ℕ)
    → key ((set_info s item info).items q) ≡ key (s.items q)
unfolding set_info
key-set_info s item info q = elim (ℕ_discrete q item) [
  | yes e ↦ rw (eq→== q item e) refl
  | no n ↦ rw (ne→== q item n) refl
]

keys_same :
    (f g : ℕ → CacheItem) (ps : List ℕ) → ((q : ℕ) → key (f q) ≡ key (g q)) → keys f ps ≡ keys g ps
keys_same f g [] h = refl
keys_same f g (p ∷ ps) h = rw (h p, keys_same f g ps h) refl

pub Mirrors-set_info :
    {F : Littlefs} {fuel : ℕ} {s : Server F} {t : Files F} (item : ℕ) (info : LfsInfo)
    → Mirrors fuel s t
    → Mirrors fuel (set_info s item info) t
unfolding set_info
Mirrors-set_info {s = s} {t = t} item info m = record {
  ptrs = m.ptrs;
  ring = m.ring;
  same_fs = m.same_fs;
  pooled = m.pooled;
  listed =
      subst (λ ks. Lists ks t.table)
        (sym (keys_same (set_info s item info).items s.items m.ptrs (key-set_info s item info)))
        m.listed;
  small = m.small;
  enough = m.enough;
}

abbrev pub close : {F : Littlefs} → Files F → ℕ → Files F
close t fd = record t { table = set t.table fd none }

-- Removing an open descriptor gives it back to the pool.
pub cache_rm_fd-Mirrors :
    {F : Littlefs} {fuel : ℕ} {s : Server F} {t : Files F} (fd lfs : ℕ)
    → Mirrors fuel s t
    → entry t.table fd ≡ some lfs
    → (s' : Server F) × (cache_rm_fd fuel s fd ≡ returns (s', done)) × Mirrors fuel s' (close t fd)
unfolding cache_rm_fd release
cache_rm_fd-Mirrors {F} {fuel} {s} {t} fd lfs m held = by_search (cache_find_fd-Searched m fd)
  where
    inside : fd < length t.table
    inside = entry-some_lt t.table fd lfs held

    u8_fd : u8 fd ≡ fd
    u8_fd = omega (arith, inside, m.small)

    by_search :
        Searched fuel s t m.ptrs fd
        → (s' : Server F) × (cache_rm_fd fuel s fd ≡ returns (s', done))
          × Mirrors fuel s' (close t fd)
    by_search (closed f free) = absurd (cc (free, held, ap (entry t.table) u8_fd))
    by_search (opened p l ys zs f e k split) =
        let same : (key (s.items p)).fd ≡ fd = ap (λ (k : Key). k.fd) k ∙ u8_fd in
        (
          record s { pool = put_descriptor s.pool (u8 fd); links = remove s.links p },
          ap (λ m. m >>= λ item. returns (release s fd item)) f,
          record {
            ptrs = ys ++ zs;
            ring = remove-Ring s.links s.cache p ys zs (subst (Ring s.links s.cache) split m.ring);
            same_fs = m.same_fs;
            pooled =
                ap (λ (q : Pool). put_descriptor q (u8 fd)) m.pooled
                ∙ put_descriptor-states t.table fd inside m.small;
            listed =
                subst (λ ks. Lists ks (set t.table fd none)) (sym (keys-append s.items ys zs))
                  (subst (λ i. Lists (keys s.items ys ++ keys s.items zs) (set t.table i none)) same
                    (Lists-less (key (s.items p)) (keys s.items ys) (keys s.items zs) t.table lfs
                      (ap (entry t.table) same ∙ held)
                      (subst (λ ks. Lists ks t.table) (keys-append s.items ys (p ∷ zs))
                        (subst (λ ps. Lists (keys s.items ps) t.table) split m.listed))));
            small = omega (arith, length-set t.table fd none, m.small);
            enough = omega (arith, length-set t.table fd none, m.enough);
          },
        )
