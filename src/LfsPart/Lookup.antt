-- ===== src/LfsPart/Lookup.antt =====
-- Partitions that are registered and looked up.
use esp32_components.Base.{
  ℕ, ◌<◌, ◌≡◌, ◌≢◌, refl, sym, ap, ◌∙◌, subst, true, false, List, [], ◌∷◌, ◌++◌, append_assoc,
  append-nil, Option, none, some, ◌⊎◌, inl, inr, if◌then◌else◌, eq→==, ne→==, ℕ_discrete, length,
  Outcome, returns, unfinished, All,
}
use esp32_components.CList
use esp32_components.CList.{append}
use esp32_components.CList.Links.{Ring, NotIn}
use esp32_components.CList.Iter.{iter-some, init-Ring}
use esp32_components.CList.Insert.{append-Ring}
use esp32_components.LfsPart.{Partition, Registry, register, same_label, find_label, get_partition}

-- Partitions that are registered one after the other.
unfoldable pub register_all : Registry → List ℕ → Registry
register_all r [] = r
register_all r (p ∷ ps) = register_all (register r p) ps

-- Each of them is new when it is registered.
abbrev pub AllNew : ℕ → List ℕ → List ℕ → Type 0
AllNew list old [] = Unit
AllNew list old (p ∷ ps) = NotIn p (list ∷ old) × AllNew list (old ++ p ∷ []) ps

register_all-Ring :
    (r : Registry) (old ps : List ℕ)
    → r.initialized ≡ true
    → Ring r.links r.list old
    → AllNew r.list old ps
    → Ring (register_all r ps).links r.list (old ++ ps) × ((register_all r ps).list ≡ r.list)
unfolding register_all register
register_all-Ring r old [] i g n = (subst (Ring r.links r.list) (sym (append-nil old)) g, refl)
register_all-Ring r old (p ∷ ps) i g n =
    let links : (if r.initialized then r.links else CList.init r.links r.list) ≡ r.links =
      rw i refl in
    let g' : Ring (register r p).links r.list (old ++ p ∷ []) =
      subst (λ h. Ring (append h r.list p) r.list (old ++ p ∷ [])) (sym links)
        (append-Ring r.links r.list p old g n.0) in
    let (h, e) = register_all-Ring (register r p) (old ++ p ∷ []) ps refl g' n.1 in
    (subst (Ring (register_all (register r p) ps).links r.list) (append_assoc old (p ∷ []) ps) h, e)

-- The answer is the first of the partitions that has the label.
abbrev pub Found : (ℕ → Partition) → List ℕ → List ℕ → Option ℕ → Type 0
Found partition label ps none = All (λ p. (partition p).label ≢ label) ps
Found partition label ps (some q) =
    (pre : List ℕ) × (post : List ℕ) × (ps ≡ pre ++ q ∷ post)
    × ((partition q).label ≡ label)
    × All (λ p. (partition p).label ≢ label) pre

-- The comparison of labels decides whether they are equal.
same_label_lem :
    (a b : List ℕ) → ((same_label a b ≡ true) × (a ≡ b)) ⊎ ((same_label a b ≡ false) × (a ≢ b))
unfolding same_label
same_label_lem [] [] = inl (refl, refl)
same_label_lem [] (y ∷ ys) = inr (refl, λ e. cc)
same_label_lem (x ∷ xs) [] = inr (refl, λ e. cc)
same_label_lem (x ∷ xs) (y ∷ ys) = elim (ℕ_discrete x y) [
  | no n ↦ inr (ap (λ b. if b then same_label xs ys else false) (ne→== x y n), λ e. n (cc))
  | yes e ↦
      let same = ap (λ b. if b then same_label xs ys else false) (eq→== x y e) in
      elim (same_label_lem xs ys) [
        | inl (s, q) ↦ inl (same ∙ s, cc)
        | inr (s, q) ↦ inr (same ∙ s, λ z. q (cc))
      ]
]

find_label-Found :
    (partition : ℕ → Partition) (label : List ℕ) (ps : List ℕ)
    → Found partition label ps (find_label partition label ps)
unfolding find_label
find_label-Found partition label [] = _
find_label-Found partition label (p ∷ ps) =
    let rest = find_label partition label ps in
    elim (same_label_lem (partition p).label label) [
      | inl (s, e) ↦
          subst (λ b. Found partition label (p ∷ ps) (if b then some p else rest)) (sym s)
            ([], ps, refl, e, _)
      | inr (s, n) ↦
          subst (λ b. Found partition label (p ∷ ps) (if b then some p else rest)) (sym s)
            (later p ps n rest (find_label-Found partition label ps))
    ]
  where
    later :
        (p : ℕ) (ps : List ℕ)
        → (partition p).label ≢ label
        → (o : Option ℕ) → Found partition label ps o
        → Found partition label (p ∷ ps) o
    later p ps n none a = (n, a)
    later p ps n (some q) (pre, post, e, l, a) = (p ∷ pre, post, ap (λ r. p ∷ r) e, l, (n, a))

-- After partitions are registered in a registry that is not set up, each of them new and one at least,
-- a look-up with more fuel than there are partitions ends and gives the first that was registered with
-- the label, or NULL if there is none.
pub get_partition-Found :
    (fuel : ℕ) (partition : ℕ → Partition) (r : Registry) (p : ℕ) (ps : List ℕ) (label : List ℕ)
    → r.initialized ≡ false
    → AllNew r.list [] (p ∷ ps)
    → length (p ∷ ps) < fuel
    → (o : Option ℕ) × (get_partition fuel partition (register_all r (p ∷ ps)) label ≡ returns o)
      × Found partition label (p ∷ ps) o
unfolding get_partition register_all register
get_partition-Found fuel partition r p ps label i n l =
    let set_up : CList.init r.links r.list
        ≡ (if r.initialized then r.links else CList.init r.links r.list) =
      rw i refl in
    let g : Ring (register r p).links r.list (p ∷ []) =
      subst (λ h. Ring (append h r.list p) r.list (p ∷ [])) set_up
        (append-Ring (CList.init r.links r.list) r.list p [] (init-Ring r.links r.list) n.0) in
    let (g', e) = register_all-Ring (register r p) (p ∷ []) ps refl g n.1 in
    let all = register_all (register r p) ps in
    (
      find_label partition label (p ∷ ps),
      ap
          (λ o. elim o as (λ o. Outcome (Option ℕ)) [
            | none ↦ unfinished
            | some entries ↦ returns (find_label partition label entries)
          ])
          (iter-some all.links all.list (p ∷ ps) fuel
            (subst (λ q. Ring all.links q (p ∷ ps)) (sym e) g') l),
      find_label-Found partition label (p ∷ ps),
    )
