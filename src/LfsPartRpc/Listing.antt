-- ===== src/LfsPartRpc/Listing.antt =====
-- The pages of a directory.
use esp32_components.Base.{
  ℕ, zero, suc, ◌+◌, ◌-◌, ◌^◌, ◌≤◌, ◌<◌, ◌≡◌, refl, sym, ap, ap₂, subst, ◌∙◌, arith, true, false,
  List, [], ◌∷◌, ◌++◌, ◌&&◌, append-nil, append_assoc, ltb, leb, length, take, drop, replicate,
  splice, Outcome, returns, fetch, put_behind, fetch_behind, length-append, length-take,
  splice_start, drop-all, drop-cons, add32, All, dec_lt,
}
use esp32_components.LfsHelpers.{ok, local_object, LfsInfo, Littlefs}
use esp32_components.LfsPartRpc.Cache.{name_max, entries_max}
use esp32_components.LfsPartRpc.Access.{copy_info, Listing, take_entry, list_loop}

-- What is put into a reply for an entry: 64 bytes of the name, filled up with zero bytes.
unfoldable pub stored : LfsInfo → LfsInfo
stored i = record {
  type = i.type;
  size = i.size;
  name = take name_max (i.name ++ replicate name_max 0);
}

unfoldable pub stored_all : List LfsInfo → List LfsInfo
stored_all [] = []
stored_all (i ∷ is) = stored i ∷ stored_all is

-- The directory that is open gives these entries and then its end, and closing it leaves `w'`.
abbrev pub Reads : (F : Littlefs) → (lfs : ℕ) → F.World → List LfsInfo → F.World → Type 0
Reads F lfs w [] w' =
    ((F.lfs_dir_read w lfs local_object).0.0 ≡ ok 0)
    × ((F.lfs_dir_close (F.lfs_dir_read w lfs local_object).1 lfs local_object).1 ≡ w')
Reads F lfs w (i ∷ is) w' =
    ((n : ℕ) × ((F.lfs_dir_read w lfs local_object).0.0 ≡ ok (suc n)))
    × ((F.lfs_dir_read w lfs local_object).0.1 ≡ i)
    × Reads F lfs (F.lfs_dir_read w lfs local_object).1 is w'

-- An array of names of 64 bytes.
abbrev pub Names : List LfsInfo → Type 0
Names is = All (λ (i : LfsInfo). length i.name ≡ name_max) is

strncpy_whole :
    (dst src : List ℕ)
    → length dst ≡ name_max
    → splice dst 0 (take name_max (src ++ replicate name_max 0))
      ≡ take name_max (src ++ replicate name_max 0)
strncpy_whole dst src e =
    let s = take name_max (src ++ replicate name_max 0) in
    let l : length s ≡ name_max =
      length-take name_max (src ++ replicate name_max 0)
      ∙ ground (arith, length-append src (replicate name_max 0)) in
    splice_start dst s (omega (arith, l, e))
    ∙ ap (λ r. s ++ r) (drop-all (length s) dst (omega (arith, l, e)))
    ∙ append-nil s

copy_info-stored : (old i : LfsInfo) → length old.name ≡ name_max → copy_info old i ≡ stored i
unfolding copy_info stored
copy_info-stored old i e =
    ap (λ n. record { type = i.type; size = i.size; name = n }) (strncpy_whole old.name i.name e)

abbrev at : (k n : ℕ) → List LfsInfo → Listing
at k n infos = record { entry_idx = k; num_returned = n; infos = infos }

add32_next : (k : ℕ) → k + 1 < 2 ^ 32 → add32 k 1 ≡ k + 1
add32_next k l = omega arith

-- An entry before the page, and one behind a page that is full.
take_entry_before :
    (start k n : ℕ) (i : LfsInfo) (arr : List LfsInfo)
    → k < start
    → k + 1 < 2 ^ 32
    → take_entry start i (at k n arr) ≡ returns (at (k + 1) n arr)
unfolding take_entry
take_entry_before start k n i arr h l =
    let test : (leb start k && ltb n entries_max) ≡ false = ground arith in
    rw test (ap (λ e. returns (at e n arr)) (add32_next k l))

take_entry_full :
    (start k : ℕ) (i : LfsInfo) (arr : List LfsInfo)
    → k + 1 < 2 ^ 32
    → take_entry start i (at k entries_max arr) ≡ returns (at (k + 1) entries_max arr)
unfolding take_entry
take_entry_full start k i arr l =
    let test : (leb start k && false) ≡ false = ground arith in
    rw test (ap (λ e. returns (at e entries_max arr)) (add32_next k l))

take_entry_kept :
    (start k : ℕ) (i r : LfsInfo) (kept rest : List LfsInfo)
    → start ≤ k
    → length kept < entries_max
    → length r.name ≡ name_max
    → k + 1 < 2 ^ 32
    → take_entry start i (at k (length kept) (kept ++ r ∷ rest))
      ≡ returns (at (k + 1) (length (kept ++ stored i ∷ [])) ((kept ++ stored i ∷ []) ++ rest))
unfolding take_entry
take_entry_kept start k i r kept rest s f n l =
    let test : (leb start k && ltb (length kept) entries_max) ≡ true = ground arith in
    let old : fetch (kept ++ r ∷ rest) (length kept) ≡ returns r = fetch_behind kept r rest in
    rw (test, old, put_behind kept r (copy_info r i) rest (length kept) refl, add32_next k l)
      (ap₂ (λ m (v : LfsInfo). returns (at (k + 1) m ((kept ++ v ∷ []) ++ rest)))
        (sym (length-append kept (stored i ∷ []))) (copy_info-stored r i n))

module _ (F : Littlefs) (lfs : ℕ) where
  -- A round of the loop, and the last.
  list_loop_next :
      (fuel : ℕ) (w : F.World) (start : ℕ) (l l' : Listing) (n : ℕ)
      → (F.lfs_dir_read w lfs local_object).0.0 ≡ ok (suc n)
      → take_entry start (F.lfs_dir_read w lfs local_object).0.1 l ≡ returns l'
      → list_loop F (suc fuel) w lfs start l
        ≡ list_loop F fuel (F.lfs_dir_read w lfs local_object).1 lfs start l'
  unfolding list_loop
  list_loop_next fuel w start l l' n e t = rw (e, list_loop, t) refl

  list_loop_end :
      (fuel : ℕ) (w w' : F.World) (start : ℕ) (l : Listing)
      → Reads F lfs w [] w'
      → list_loop F (suc fuel) w lfs start l ≡ returns (l, w')
  unfolding list_loop
  list_loop_end fuel w w' start l (e, c) = rw (e, list_loop) (ap (λ w. returns (l, w)) c)

  -- What the loop returns: a count of entries, and the entries that are kept, first in the array.
  abbrev pub Page : List LfsInfo → (count : ℕ) → F.World → Outcome (Listing × F.World) → Type 0
  Page page count w' run =
      (rest : List LfsInfo) × (run ≡ returns (at count (length page) (page ++ rest), w'))

  nothing : (a b : ℕ) → stored_all (take a (drop b [])) ≡ []
  unfolding stored_all
  nothing zero zero = refl
  nothing zero (suc b) = refl
  nothing (suc a) zero = refl
  nothing (suc a) (suc b) = refl

  Page-cong :
      {page page' : List LfsInfo} {c c' : ℕ} {w' : F.World} {run run' : Outcome (Listing × F.World)}
      → page ≡ page'
      → c ≡ c'
      → run' ≡ run
      → Page page c w' run
      → Page page' c' w' run'
  Page-cong {w' = w'} p q r (rest, e) =
      (rest, r ∙ e ∙ ap₂ (λ c (l : List LfsInfo). returns (at c (length l) (l ++ rest), w')) q p)

  -- What the rounds from an entry on leave, by what those behind it leave.
  abbrev Rounds : (start k : ℕ) → List LfsInfo → F.World → ℕ → F.World → Type 0
  Rounds start k is w' fuel w =
      (kept rest : List LfsInfo)
      → Names rest
      → length kept + length rest ≡ entries_max
      → Page (kept ++ stored_all (take (length rest) (drop (start - k) is))) (k + length is) w'
          (list_loop F fuel w lfs start (at k (length kept) (kept ++ rest)))

  module _ (start k : ℕ) (i : LfsInfo) (is : List LfsInfo) (fuel : ℕ) (w w' : F.World) (n : ℕ)
      (more : (F.lfs_dir_read w lfs local_object).0.0 ≡ ok (suc n))
      (same : (F.lfs_dir_read w lfs local_object).0.1 ≡ i) (l : k + length (i ∷ is) < 2 ^ 32)
      (ih : Rounds start (k + 1) is w' fuel (F.lfs_dir_read w lfs local_object).1) where
    next :
        (l l' : Listing)
        → take_entry start i l ≡ returns l'
        → list_loop F (suc fuel) w lfs start l
          ≡ list_loop F fuel (F.lfs_dir_read w lfs local_object).1 lfs start l'
    next l l' t = list_loop_next fuel w start l l' n more (ap (λ j. take_entry start j l) same ∙ t)

    before : k < start → Rounds start k (i ∷ is) w' (suc fuel) w
    before b kept rest names e =
        Page-cong
          (ap (λ d. kept ++ stored_all (take (length rest) d))
            (sym (drop-cons (start - k) (start - (k + 1)) i is (omega arith))))
          (omega arith)
          (next (at k (length kept) (kept ++ rest)) (at (k + 1) (length kept) (kept ++ rest))
            (take_entry_before start k (length kept) i (kept ++ rest) b (omega arith)))
          (ih kept rest names e)

    behind : start ≤ k → Rounds start k (i ∷ is) w' (suc fuel) w
    unfolding stored_all
    behind s kept [] names e =
        let full : length kept ≡ entries_max = omega arith in
        let arr = kept ++ [] in
        Page-cong refl (omega arith)
          (next (at k (length kept) arr) (at (k + 1) (length kept) arr) (
            subst (λ n. take_entry start i (at k n arr) ≡ returns (at (k + 1) n arr)) (sym full)
              (take_entry_full start k i arr (omega arith))))
          (ih kept [] names e)
    behind s kept (x ∷ rest) names e =
        let page = kept ++ stored i ∷ [] in
        let from = λ (a b : ℕ).
          (page ++ stored_all (take (length rest) (drop a is)))
          ≡ kept ++ stored_all (take (suc (length rest)) (drop b (i ∷ is))) in
        let same : from (start - (k + 1)) (start - k) =
          let first : 0 ≡ start - (k + 1) = omega arith in
          let second : 0 ≡ start - k = omega arith in
          subst (λ a. from a (start - k)) first
            (subst (λ b. from 0 b) second
              (append_assoc kept (stored i ∷ []) (stored_all (take (length rest) is)))) in
        Page-cong same (omega arith)
          (next (at k (length kept) (kept ++ x ∷ rest)) (at (k + 1) (length page) (page ++ rest))
            (take_entry_kept start k i x kept rest s (omega arith) names.0 (omega arith)))
          (ih page rest names.1 (omega (arith, length-append kept (stored i ∷ []))))

    either : Rounds start k (i ∷ is) w' (suc fuel) w
    either = elim (dec_lt k start) [ yes b ↦ before b | no s ↦ behind (omega arith) ]

  -- All entries are counted, and behind what was kept come the first of the entries from the start on
  -- for which there is room.
  pub list_loop-Page :
      (is : List LfsInfo) (fuel : ℕ) (w w' : F.World) (start k : ℕ)
      → length is < fuel
      → Reads F lfs w is w'
      → k + length is < 2 ^ 32
      → Rounds start k is w' fuel w
  list_loop-Page is zero w w' start k f r l kept rest names e = absurd (omega arith)
  list_loop-Page [] (suc fuel) w w' start k f r l kept rest names e =
      let same : kept ≡ kept ++ stored_all (take (length rest) (drop (start - k) [])) =
        sym (append-nil kept) ∙ ap (λ p. kept ++ p) (sym (nothing (length rest) (start - k))) in
      (
        rest,
        list_loop_end fuel w w' start (at k (length kept) (kept ++ rest)) r
            ∙ ap₂ (λ c (p : List LfsInfo). returns (at c (length p) (p ++ rest), w')) (omega arith)
                same,
      )
  list_loop-Page (i ∷ is) (suc fuel) w w' start k f ((n, more), same, r) l kept rest names e =
      either start k i is fuel w w' n more same l
        (list_loop-Page is fuel (F.lfs_dir_read w lfs local_object).1 w' start (k + 1) (omega arith)
          r (omega arith))
        kept rest names e
