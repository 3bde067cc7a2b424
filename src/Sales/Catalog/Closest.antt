-- ===== src/Sales/Catalog/Closest.antt =====
-- The resolved catalog: one row for each identity, and none of its rows is closer.
use new_builders_stream.Prelude.{
  ℕ, ◌≤◌, ◌≡◌, refl, ap, ◌∙◌, sym, Bool, true, false, Bool-cases, inl, inr, if◌then◌else◌, not,
  ◌==◌, ◌&&◌, ltb, Option, none, some, List, [], ◌∷◌, ◌++◌, any, map, All, All-map, arith, ==_iff,
}
use new_builders_stream.Prelude.Table.{count_where}
use new_builders_stream.Models.{CostCatalogItem}
use new_builders_stream.Sales.Catalog.{
  Group, append_to, group_from, root_identity_id, closer, same_distance, compute_hop_distance,
  comes_before, closest_from, closest, resolve_visible_catalog_items,
}

closer_trans : (a b c : Option ℕ) → closer a b ≡ true → closer b c ≡ true → closer a c ≡ true
closer_trans none b c h k = absurd (cc)
closer_trans (some a) none c h k = absurd (cc)
closer_trans (some a) (some b) none h k = refl
closer_trans (some a) (some b) (some c) h k = ground arith

closer_irrefl : (a : Option ℕ) → closer a a ≡ false
closer_irrefl none = refl
closer_irrefl (some a) = ground arith

same_distance-eq : (a b : Option ℕ) → same_distance a b ≡ true → a ≡ b
same_distance-eq none none h = refl
same_distance-eq none (some b) h = absurd (cc)
same_distance-eq (some a) none h = absurd (cc)
same_distance-eq (some a) (some b) h = ground arith

same_distance_self : (a : Option ℕ) → same_distance a a ≡ true
same_distance_self none = refl
same_distance_self (some a) = ground arith

roots : ℕ → List Group → ℕ
unfolding count_where
roots k gs = count_where (λ g. g.root == k) gs

roots-append :
    (j k : ℕ) (x : CostCatalogItem) (gs : List Group)
    → roots j (append_to k x gs) ≡ (if k == j && ltb (roots j gs) 1 then 1 else roots j gs)
unfolding roots append_to count_where
roots-append j k x [] = ground arith
roots-append j k x (g ∷ gs) = ground (arith, roots-append j k x gs)

module _ (chain_length : ℕ → ℕ) (active : ℕ) where
  abbrev before : CostCatalogItem → CostCatalogItem → Bool
  before = comes_before chain_length active

  before_irrefl : (a : CostCatalogItem) → before a a ≡ false
  unfolding comes_before
  before_irrefl a =
      let d = compute_hop_distance (chain_length a.company_id) (chain_length active) in
      ground (arith, closer_irrefl d)

  before_trans :
      (a b c : CostCatalogItem) → before a b ≡ true → before b c ≡ true → before a c ≡ true
  unfolding comes_before
  before_trans a b c h k =
      let da = compute_hop_distance (chain_length a.company_id) (chain_length active) in
      let db = compute_hop_distance (chain_length b.company_id) (chain_length active) in
      let dc = compute_hop_distance (chain_length c.company_id) (chain_length active) in
      ground (
        arith,
        closer_trans da db dc,
        same_distance-eq da db,
        same_distance-eq db dc,
        same_distance_self da,
      )

  closest_from-append :
      (best x : CostCatalogItem) (xs : List CostCatalogItem)
      → closest_from chain_length active best (xs ++ x ∷ []) ≡ (
          if before x (closest_from chain_length active best xs)
          then x
          else closest_from chain_length active best xs)
  unfolding closest_from
  closest_from-append best x [] = refl
  closest_from-append best x (y ∷ ys) = closest_from-append (if before y best then y else best) x ys

  -- The row that a group shows after one more row was appended.
  closest-append :
      (g : Group) (x : CostCatalogItem)
      → closest chain_length active (record g { rest = g.rest ++ x ∷ [] })
        ≡ (if before x (closest chain_length active g) then x else closest chain_length active g)
  unfolding closest
  closest-append g x = closest_from-append g.first x g.rest

  closest-single :
      (k : ℕ) (x : CostCatalogItem)
      → closest chain_length active (record { root = k; first = x; rest = [] }) ≡ x
  unfolding closest closest_from
  closest-single k x = refl

  module _ (root : CostCatalogItem → ℕ) where
    -- A group of the row's identity shows a row that the row does not come before.
    covers : CostCatalogItem → List Group → Bool
    covers i gs = any (λ g. g.root == root i && not (before i (closest chain_length active g))) gs

    covers-append_self :
        (x : CostCatalogItem) (gs : List Group) → covers x (append_to (root x) x gs) ≡ true
    unfolding covers append_to
    covers-append_self x [] = ground (arith, closest-single (root x) x, before_irrefl x)
    covers-append_self x (g ∷ gs) =
        ground (arith, closest-append g x, before_irrefl x, covers-append_self x gs)

    covers-append :
        (i x : CostCatalogItem) (k : ℕ) (gs : List Group)
        → covers i gs ≡ true
        → covers i (append_to k x gs) ≡ true
    unfolding covers append_to
    covers-append i x k [] h = absurd (cc)
    covers-append i x k (g ∷ gs) h = ground (
      arith,
      closest-append g x,
      before_trans i x (closest chain_length active g),
      covers-append i x k gs,
    )

    -- The row that a group shows leads to the group's root.
    abbrev IsConsistent : List Group → Type 0
    IsConsistent gs = All (λ g. root (closest chain_length active g) ≡ g.root) gs

    root-if :
        (b : Bool) (x m : CostCatalogItem) (k : ℕ)
        → root x ≡ k
        → root m ≡ k
        → root (if b then x else m) ≡ k
    root-if true x m k h h' = h
    root-if false x m k h h' = h'

    append-IsConsistent :
        (x : CostCatalogItem) (k : ℕ) (gs : List Group)
        → root x ≡ k
        → IsConsistent gs
        → IsConsistent (append_to k x gs)
    unfolding append_to
    append-IsConsistent x k [] e h = (ap root (closest-single k x) ∙ e, tt)
    append-IsConsistent x k (g ∷ gs) e h = elim (Bool-cases (g.root == k)) [
      | inl same ↦ rw same (
        ap root (closest-append g x)
            ∙ root-if (before x (closest chain_length active g)) x (closest chain_length active g)
                g.root (e ∙ sym ((==_iff g.root k).0 same)) h.0,
        h.1,
      )
      | inr other ↦ rw other (h.0, append-IsConsistent x k gs e h.1)
    ]

    -- A row of the list is covered by what the groups show.
    any-map :
        (i : CostCatalogItem) (gs : List Group)
        → IsConsistent gs
        → any (λ r. root r == root i && not (before i r)) (map (closest chain_length active) gs)
          ≡ covers i gs
    unfolding covers
    any-map i [] h = refl
    any-map i (g ∷ gs) h = rw (h.0, any-map i gs h.1)

    count-map :
        (k : ℕ) (gs : List Group)
        → IsConsistent gs
        → count_where (λ r. root r == k) (map (closest chain_length active) gs) ≡ roots k gs
    unfolding roots count_where
    count-map k [] h = refl
    count-map k (g ∷ gs) h = rw (h.0, count-map k gs h.1)

  module _ (all : List CostCatalogItem) where
    abbrev root : CostCatalogItem → ℕ
    root = root_identity_id all

    grouped :
        (items : List CostCatalogItem) (gs : List Group)
        → IsConsistent root gs
        → IsConsistent root (group_from all items gs)
    unfolding group_from
    grouped [] gs h = h
    grouped (x ∷ items) gs h =
        grouped items (append_to (root x) x gs) (append-IsConsistent root x (root x) gs refl h)

    group_from-covers :
        (i : CostCatalogItem) (items : List CostCatalogItem) (gs : List Group)
        → covers root i gs ≡ true
        → covers root i (group_from all items gs) ≡ true
    unfolding group_from
    group_from-covers i [] gs h = h
    group_from-covers i (x ∷ items) gs h =
        group_from-covers i items (append_to (root x) x gs) (covers-append root i x (root x) gs h)

    All-covered :
        (items : List CostCatalogItem) (gs : List Group)
        → All (λ i. covers root i (group_from all items gs) ≡ true) items
    unfolding group_from
    All-covered [] gs = tt
    All-covered (x ∷ items) gs = (
      group_from-covers x items (append_to (root x) x gs) (covers-append_self root x gs),
      All-covered items (append_to (root x) x gs),
    )

    roots-group_from :
        (k : ℕ) (items : List CostCatalogItem) (gs : List Group)
        → roots k gs ≤ 1
        → roots k (group_from all items gs) ≤ 1
    unfolding group_from
    roots-group_from k [] gs h = h
    roots-group_from k (x ∷ items) gs h =
        roots-group_from k items (append_to (root x) x gs)
          (ground (arith, roots-append k (root x) x gs))

  -- The resolved catalog has at most one row of each identity, and for every visible row one of its
  -- identity that it does not come before: no visible row of that identity is closer to the company,
  -- or as close and updated later.
  pub resolve_visible_catalog_items_lem :
      (visible : List CostCatalogItem) (k : ℕ)
      → let resolved = resolve_visible_catalog_items chain_length active visible in
        (count_where (λ r. root_identity_id visible r == k) resolved ≤ 1)
        × All
            (λ i.
              any
                (λ r.
                  root_identity_id visible r == root_identity_id visible i
                  && not (comes_before chain_length active i r))
                resolved
              ≡ true)
            visible
  unfolding resolve_visible_catalog_items roots count_where
  resolve_visible_catalog_items_lem visible k =
      let gs = group_from visible visible [] in
      let consistent = grouped visible visible [] tt in
      (
        omega (
          arith,
          count-map (root_identity_id visible) k gs consistent,
          roots-group_from visible k visible [] none_yet,
        ),
        All-map visible (λ i covered. any-map (root_identity_id visible) i gs consistent ∙ covered)
            (All-covered visible visible []),
      )
    where
      none_yet : roots k [] ≤ 1
      none_yet = omega arith
