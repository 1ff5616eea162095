-- ===== src/LfsPartRpc/Keys.antt =====
-- The keys of the cached items against the table that they stand for.
use esp32_components.Base.{
  ℕ, ◌≡◌, ◌≢◌, refl, sym, ap, subst, ◌∙◌, arith, List, [], ◌∷◌, ◌++◌, Option, none, some, ◌==◌,
  if◌then◌else◌, length, set, eq→==, ne→==, ℕ_discrete, length-append, append-nil,
}
use esp32_components.LfsPartRpc.Table.{Table, entry}
use esp32_components.LfsPartRpc.Vacancy.{
  open_count, FreeAt, open_count-set-some, open_count-set-none, entry-some_lt, entry-set,
}

-- What an item says of its descriptor.
pub record Key : Type 0 where
  pub fd : ℕ
  pub lfs : ℕ
  pub descr : ℕ

unfoldable pub look : ℕ → List Key → Option Key
look fd [] = none
look fd (k ∷ ks) = let rest = look fd ks in if k.fd == fd then some k else rest

-- No two keys have the same descriptor.
abbrev pub Distinct : List Key → Type 0
Distinct [] = Unit {0}
Distinct (k ∷ ks) = (look k.fd ks ≡ none) × Distinct ks

abbrev pub key_of : ℕ → Option ℕ → Option Key
key_of fd none = none
key_of fd (some lfs) = some (record { fd = fd; lfs = lfs; descr = fd })

-- The keys are those of the entries of the table.
pub record Lists (ks : List Key) (t : Table) : Type 0 where
  pub distinct : Distinct ks
  pub counted : length ks ≡ open_count t
  pub found : (fd : ℕ) → look fd ks ≡ key_of fd (entry t fd)

-- The search among keys.
look_skip :
    (j : ℕ) (k : Key) (ks ls : List Key) → k.fd ≢ j → look j (ks ++ k ∷ ls) ≡ look j (ks ++ ls)
unfolding look
look_skip j k [] ls n = rw (ne→== k.fd j n) refl
look_skip j k (x ∷ ks) ls n = ground (arith, look_skip j k ks ls n)

look_last :
    (j : ℕ) (k : Key) (ks : List Key) → k.fd ≡ j → look j ks ≡ none → look j (ks ++ k ∷ []) ≡ some k
unfolding look
look_last j k [] e h = rw (eq→== k.fd j e) refl
look_last j k (x ∷ ks) e h = ground (arith, look_last j k ks e)

-- A search that fails fails with a key less, and the key is another.
look-none-less :
    (j : ℕ) (k : Key) (ks ls : List Key)
    → look j (ks ++ k ∷ ls) ≡ none
    → (k.fd ≢ j) × (look j (ks ++ ls) ≡ none)
unfolding look
look-none-less j k [] ls h = elim (ℕ_discrete k.fd j) [
  | yes e ↦ absurd (ground arith)
  | no n ↦ (n, ground arith)
]
look-none-less j k (x ∷ ks) ls h = elim (ℕ_discrete x.fd j) [
  | yes e ↦ absurd (ground arith)
  | no n ↦ let (m, r) = look-none-less j k ks ls (ground arith) in (m, rw (ne→== x.fd j n) r)
]

Distinct-less :
    (k : Key) (ks ls : List Key)
    → Distinct (ks ++ k ∷ ls)
    → Distinct (ks ++ ls) × (look k.fd (ks ++ ls) ≡ none)
unfolding look
Distinct-less k [] ls d = (d.1, d.0)
Distinct-less k (x ∷ ks) ls d =
    let (n, e) = look-none-less x.fd k ks ls d.0 in
    let (d', r) = Distinct-less k ks ls d.1 in ((e, d'), rw (ne→== x.fd k.fd (λ q. n (sym q))) r)

Distinct-more :
    (k : Key) (ks : List Key) → look k.fd ks ≡ none → Distinct ks → Distinct (ks ++ k ∷ [])
unfolding look
Distinct-more k [] h d = (refl, _)
Distinct-more k (x ∷ ks) h d = elim (ℕ_discrete x.fd k.fd) [
  | yes e ↦ absurd (ground arith)
  | no n ↦ (
    look_skip x.fd k ks [] (λ q. n (sym q)) ∙ ap (look x.fd) (append-nil ks) ∙ d.0,
    Distinct-more k ks (ground arith) d.1,
  )
]

-- An item for a descriptor that is free, put last.
pub Lists-more :
    (ks : List Key) (t : Table) (fd lfs : ℕ)
    → FreeAt t fd
    → Lists ks t
    → Lists (ks ++ record { fd = fd; lfs = lfs; descr = fd } ∷ []) (set t fd (some lfs))
Lists-more ks t fd lfs free l =
    let k : Key = record { fd = fd; lfs = lfs; descr = fd } in
    let absent : look fd ks ≡ none = l.found fd ∙ ap (key_of fd) free.vacant in
    record {
      distinct = Distinct-more k ks absent l.distinct;
      counted = omega (
        arith,
        length-append ks (k ∷ []),
        l.counted,
        open_count-set-some t fd lfs free.inside free.vacant,
      );
      found = λ j. elim (ℕ_discrete fd j) [
        | yes e ↦
            rw (entry-set t fd j (some lfs) free.inside, eq→== fd j e)
              (subst (λ i. look i (ks ++ k ∷ []) ≡ key_of i (some lfs)) e
                (look_last fd k ks refl absent))
        | no n ↦
            rw (entry-set t fd j (some lfs) free.inside, ne→== fd j n)
              (look_skip j k ks [] n ∙ ap (look j) (append-nil ks) ∙ l.found j)
      ];
    }

-- The item of a descriptor taken out.
pub Lists-less :
    (k : Key) (ks ls : List Key) (t : Table) (lfs : ℕ)
    → entry t k.fd ≡ some lfs
    → Lists (ks ++ k ∷ ls) t
    → Lists (ks ++ ls) (set t k.fd none)
Lists-less k ks ls t lfs held l =
    let (d, gone) = Distinct-less k ks ls l.distinct in
    let inside = entry-some_lt t k.fd lfs held in
    record {
      distinct = d;
      counted = omega (
        arith,
        length-append ks (k ∷ ls),
        length-append ks ls,
        l.counted,
        open_count-set-none t k.fd lfs held,
      );
      found = λ j. elim (ℕ_discrete k.fd j) [
        | yes e ↦
            rw (entry-set t k.fd j none inside, eq→== k.fd j e)
              (subst (λ i. look i (ks ++ ls) ≡ none) e gone)
        | no n ↦
            rw (entry-set t k.fd j none inside, ne→== k.fd j n)
              (sym (look_skip j k ks ls n) ∙ l.found j)
      ];
    }
