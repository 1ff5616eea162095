-- ===== src/LfsPartRpc/Total.antt =====
-- The listing of a directory that ends.
use esp32_components.Base.{
  ℕ, zero, suc, ◌<◌, ◌≡◌, sym, subst, ◌∙◌, arith, Bool, true, false, ◌&&◌, List, [], ◌∷◌,
  if◌then◌else◌, ltb, leb, length, set, length-set, Outcome, returns, faults, ◌>>=◌, fetch, put,
  Returns, returning, Returns-bind, Returns-if, lt→ltb, ltb→lt,
}
use esp32_components.LfsHelpers.{Ret, ok, err, local_object, LfsInfo, Littlefs}
use esp32_components.LfsPartRpc.Cache.{LfsCallset, entries_max}
use esp32_components.LfsPartRpc.Access.{copy_info, Listing, take_entry, list_loop}

-- The directory that is open has fewer than `n` entries left.
abbrev pub Short : (F : Littlefs) → (lfs n : ℕ) → F.World → Type 0
Short F lfs zero w = ⊥
Short F lfs (suc n) w = elim (F.lfs_dir_read w lfs local_object).0.0 [
  | ok (suc k) ↦ Short F lfs n (F.lfs_dir_read w lfs local_object).1
  | ok zero ↦ Unit {0}
  | err e ↦ Unit {0}
]

-- The array of the reply has its eight entries.
abbrev pub Sized : LfsCallset → Type 0
Sized reply = length reply.info_array ≡ entries_max

abbrev pub SizedListing : Listing → Type 0
SizedListing l = length l.infos ≡ entries_max

fetch_inside : (xs : List LfsInfo) (i : ℕ) → i < length xs → Returns (λ _. Unit {0}) (fetch xs i)
fetch_inside [] i h = absurd (omega arith)
fetch_inside (x ∷ xs) zero h = returning tt
fetch_inside (x ∷ xs) (suc i) h = fetch_inside xs i (omega arith)

put_inside :
    (xs : List LfsInfo) (i : ℕ) (v : LfsInfo)
    → i < length xs
    → Returns (λ ys. length ys ≡ length xs) (put xs i v)
put_inside xs i v h =
    subst (λ b. Returns (λ ys. length ys ≡ length xs) (if b then returns (set xs i v) else faults))
      (sym (lt→ltb i (length xs) h)) (returning (length-set xs i v))

&&-right : (a b : Bool) → (a && b) ≡ true → b ≡ true
&&-right true b h = h
&&-right false b h = cc

take_entry-Returns :
    (start : ℕ) (i : LfsInfo) (l : Listing)
    → SizedListing l
    → Returns SizedListing (take_entry start i l)
unfolding take_entry
take_entry-Returns start i l s =
    Returns-if (leb start l.entry_idx && ltb l.num_returned entries_max)
      (λ test.
        let room : l.num_returned < entries_max =
          ltb→lt _ _ (&&-right (leb start l.entry_idx) _ test) in
        Returns-bind _ (fetch_inside l.infos l.num_returned (omega arith)) (λ old _.
          Returns-bind _ (put_inside l.infos l.num_returned (copy_info old i) (omega arith))
            (λ ys e. returning (e ∙ s))))
      (λ _. returning s)

pub list_loop-Returns :
    (F : Littlefs) (lfs start n : ℕ) (w : F.World) (l : Listing)
    → Short F lfs n w
    → SizedListing l
    → Returns (λ r. SizedListing r.0) (list_loop F n w lfs start l)
unfolding list_loop
list_loop-Returns F lfs start zero w l h s = elim h [ ]
list_loop-Returns F lfs start (suc n) w l h s =
    by_read (F.lfs_dir_read w lfs local_object).0.0 h
      λ l h s. list_loop-Returns F lfs start n (F.lfs_dir_read w lfs local_object).1 l h s
  where
    i : LfsInfo
    i = (F.lfs_dir_read w lfs local_object).0.1

    w₁ : F.World
    w₁ = (F.lfs_dir_read w lfs local_object).1

    by_read :
        (r : Ret)
        → elim r as (λ _. Type 0) [
          | ok (suc k) ↦ Short F lfs n w₁
          | ok zero ↦ Unit {0}
          | err e ↦ Unit {0}
        ]
        → ((l : Listing)
            → Short F lfs n w₁
            → SizedListing l
            → Returns (λ r. SizedListing r.0) (list_loop F n w₁ lfs start l))
        → Returns
            (λ r. SizedListing r.0)
            (elim r as (λ _. Outcome (Listing × F.World)) [
              | ok (suc k) ↦ (take_entry start i l >>= λ l'. list_loop F n w₁ lfs start l')
              | ok zero ↦ returns (l, (F.lfs_dir_close w₁ lfs local_object).1)
              | err e ↦ returns (l, (F.lfs_dir_close w₁ lfs local_object).1)
            ])
    by_read (ok (suc k)) h rec =
        Returns-bind _ (take_entry-Returns start i l s) (λ l' s'. rec l' h s')
    by_read (ok zero) h rec = returning s
    by_read (err e) h rec = returning s
