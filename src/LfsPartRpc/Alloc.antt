-- ===== src/LfsPartRpc/Alloc.antt =====
-- A descriptor that is taken from the pool and put into the cache.
use esp32_components.Base.{
  ℕ, ◌≡◌, refl, sym, ap, ap₂, subst, ◌∙◌, arith, List, [], ◌∷◌, ◌++◌, Option, none, some, set, u8,
  eq→==, ne→==, length-set,
}
use esp32_components.CList.{iter}
use esp32_components.CList.Links.{NotIn}
use esp32_components.CList.Insert.{append-Ring}
use esp32_components.LfsHelpers.{
  Littlefs, Pool, in_use, first_avail, get_descriptor, put_descriptor,
}
use esp32_components.LfsPartRpc.Cache.{CacheItem, Server, store_item, cache_item, cache_add_fd}
use esp32_components.LfsPartRpc.Table.{Files, lowest_free, allocate}
use esp32_components.LfsPartRpc.Vacancy.{
  states, first_avail-lowest, states-set-some, put_descriptor-states, FreeAt, lowest_free-FreeAt,
}
use esp32_components.LfsPartRpc.Keys.{Lists, Lists-more}
use esp32_components.LfsPartRpc.Mirror.{key, keys, keys-append, Mirrors, iter-ptrs}

-- What malloc() gives is no block of the cache.
abbrev pub Fresh : {F : Littlefs} → (fuel : ℕ) → Server F → Option ℕ → Type 0
Fresh fuel s none = Unit {0}
Fresh fuel s (some p) = elim (iter fuel s.links s.cache) [
  | none ↦ Unit {0}
  | some entries ↦ NotIn p (s.cache ∷ entries)
]

abbrev pub open_at : {F : Littlefs} → Files F → (fd lfs : ℕ) → Files F
open_at t fd lfs = record t { table = set t.table fd (some lfs) }

pub data Added {F : Littlefs} (fuel : ℕ) (s : Server F) (t : Files F) (lfs : ℕ) (room : Option ℕ)
    : Type 0 where
  full :
      (s' : Server F)
      → cache_add_fd s lfs room ≡ (s', none)
      → allocate t.table room ≡ none
      → Mirrors fuel s' t
      → Added fuel s t lfs room
  added :
      (s' : Server F) (p fd : ℕ)
      → cache_add_fd s lfs room ≡ (s', some p)
      → allocate t.table room ≡ some fd
      → FreeAt t.table fd
      → key (s'.items p) ≡ record { fd = fd; lfs = lfs; descr = fd }
      → Mirrors fuel s' (open_at t fd lfs)
      → Added fuel s t lfs room

keys_store :
    (items : ℕ → CacheItem) (p : ℕ) (item : CacheItem) (ps : List ℕ)
    → NotIn p ps
    → keys (store_item items p item) ps ≡ keys items ps
unfolding store_item
keys_store items p item [] n = refl
keys_store items p item (q ∷ ps) n =
    rw (ne→== q p (λ e. n.0 (sym e)), keys_store items p item ps n.1) refl

key-store_item :
    (items : ℕ → CacheItem) (p : ℕ) (item : CacheItem) → key (store_item items p item p) ≡ key item
unfolding store_item
key-store_item items p item = rw (eq→== p p refl) refl

keys_last :
    (items : ℕ → CacheItem) (p : ℕ) (item : CacheItem) (ps : List ℕ)
    → NotIn p ps
    → keys (store_item items p item) (ps ++ p ∷ []) ≡ keys items ps ++ key item ∷ []
keys_last items p item ps n =
    keys-append (store_item items p item) ps (p ∷ [])
    ∙ ap₂ (λ ks k. ks ++ k ∷ []) (keys_store items p item ps n) (key-store_item items p item)

module _ {F : Littlefs} {fuel : ℕ} {s : Server F} {t : Files F} (m : Mirrors fuel s t)
    (lfs : ℕ) where
  searched : (o : Option ℕ) → lowest_free t.table ≡ o → first_avail s.pool 0 ≡ o
  searched o e = ap (λ (q : Pool). first_avail q 0) m.pooled ∙ first_avail-lowest t.table ∙ e

  cache_add_fd-full :
      (room : Option ℕ) → lowest_free t.table ≡ none → cache_add_fd s lfs room ≡ (s, none)
  unfolding cache_add_fd get_descriptor
  cache_add_fd-full room e = ground (arith, searched none e)

  cache_add_fd-free :
      (room : Option ℕ) (fd : ℕ)
      → lowest_free t.table ≡ some fd
      → cache_add_fd s lfs room ≡ cache_item (record s { pool = set s.pool fd in_use }) lfs fd room
  unfolding cache_add_fd get_descriptor
  cache_add_fd-free room fd e = ground (arith, searched (some fd) e)

  -- The pool with the descriptor taken.
  pooled_more : (fd : ℕ) → set s.pool fd in_use ≡ states (set t.table fd (some lfs))
  pooled_more fd = ap (λ (q : Pool). set q fd in_use) m.pooled ∙ states-set-some t.table fd lfs

  put_back :
      (fd : ℕ) → FreeAt t.table fd → put_descriptor (set s.pool fd in_use) (u8 fd) ≡ states t.table
  put_back fd free =
      ap (λ (q : Pool). put_descriptor q (u8 fd)) (pooled_more fd)
      ∙ put_descriptor-states (set t.table fd (some lfs)) fd
          (omega (arith, free.inside, length-set t.table fd (some lfs)))
          (omega (arith, m.small, length-set t.table fd (some lfs)))
      ∙ ap states (free.again lfs)

  no_room :
      (fd : ℕ)
      → FreeAt t.table fd
      → Mirrors fuel (record s { pool = put_descriptor (set s.pool fd in_use) (u8 fd) }) t
  no_room fd free = record {
    ptrs = m.ptrs;
    ring = m.ring;
    same_fs = m.same_fs;
    pooled = put_back fd free;
    listed = m.listed;
    small = m.small;
    enough = m.enough;
  }

  new_item :
      (fd p : ℕ)
      → FreeAt t.table fd
      → NotIn p (s.cache ∷ m.ptrs)
      → Mirrors fuel
          (cache_item (record s { pool = set s.pool fd in_use }) lfs fd (some p)).0
          (open_at t fd lfs)
  unfolding cache_item store_item
  new_item fd p free n =
      let u8_fd : u8 fd ≡ fd = omega (arith, free.inside, m.small) in
      record {
        ptrs = m.ptrs ++ p ∷ [];
        ring = append-Ring s.links s.cache p m.ptrs m.ring n;
        same_fs = m.same_fs;
        pooled = pooled_more fd;
        listed =
            subst (λ ks. Lists ks (set t.table fd (some lfs)))
              (sym (
                keys_last s.items p (record (s.items p) { fd = u8 fd; lfs = lfs; descr = fd })
                  m.ptrs n.1))
              (subst
                (λ i.
                  Lists (keys s.items m.ptrs ++ record { fd = i; lfs = lfs; descr = fd } ∷ [])
                    (set t.table fd (some lfs)))
                (sym u8_fd) (Lists-more (keys s.items m.ptrs) t.table fd lfs free m.listed));
        small = omega (arith, m.small, length-set t.table fd (some lfs));
        enough = omega (arith, m.enough, length-set t.table fd (some lfs));
      }

  new_item_key :
      (fd p : ℕ)
      → FreeAt t.table fd
      → key ((cache_item (record s { pool = set s.pool fd in_use }) lfs fd (some p)).0.items p)
        ≡ record { fd = fd; lfs = lfs; descr = fd }
  unfolding cache_item
  new_item_key fd p free =
      let u8_fd : u8 fd ≡ fd = omega (arith, free.inside, m.small) in
      key-store_item s.items p (record (s.items p) { fd = u8 fd; lfs = lfs; descr = fd })
      ∙ ap (λ i. record { fd = i; lfs = lfs; descr = fd }) u8_fd

  take_free :
      (room : Option ℕ) (fd : ℕ)
      → Fresh fuel s room
      → lowest_free t.table ≡ some fd
      → Added fuel s t lfs room
  unfolding allocate cache_item
  take_free none fd fresh e =
      full _ (cache_add_fd-free none fd e) refl (no_room fd (lowest_free-FreeAt t.table fd e))
  take_free (some p) fd fresh e =
      let free = lowest_free-FreeAt t.table fd e in
      let n : NotIn p (s.cache ∷ m.ptrs) =
        subst (λ o. elim o [ none ↦ Unit {0} | some entries ↦ NotIn p (s.cache ∷ entries) ])
          (iter-ptrs m) fresh in
      added _ p fd (cache_add_fd-free (some p) fd e) e free (new_item_key fd p free)
        (new_item fd p free n)

  take_none : (room : Option ℕ) → lowest_free t.table ≡ none → allocate t.table room ≡ none
  unfolding allocate
  take_none none e = refl
  take_none (some p) e = e

-- A descriptor that is asked for is the lowest that is free and has its item last in the cache; without
-- one, or without memory, nothing changes.
pub cache_add_fd-Added :
    {F : Littlefs} {fuel : ℕ} {s : Server F} {t : Files F} (m : Mirrors fuel s t) (lfs : ℕ)
    → (room : Option ℕ) → Fresh fuel s room
    → Added fuel s t lfs room
cache_add_fd-Added {F} {fuel} {s} {t} m lfs room fresh = by_free (lowest_free t.table) refl
  where
    by_free : (o : Option ℕ) → lowest_free t.table ≡ o → Added fuel s t lfs room
    by_free none e = full s (cache_add_fd-full m lfs room e) (take_none m lfs room e) m
    by_free (some fd) e = take_free m lfs room fd fresh e
