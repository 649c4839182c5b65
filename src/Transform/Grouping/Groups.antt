-- ===== src/Transform/Grouping/Groups.antt =====
-- What grouping does with the items.
use Prim.Native.String.{String}
use dmp.Base.{
  ℕ, ◌+◌, ◌≡◌, ◌≢◌, refl, sym, subst, ap, ◌∙◌, Bool, true, false, Option, none, some, List, [], ◌∷◌,
  ◌++◌, ◌==◌, if◌then◌else◌, map, length, filter, lookup, get_or, is_none, is_some, some-injective,
  Keyed, All, Any, ◌⊎◌, inl, inr, arith, eq_iff, eq_refl, Bool-cases, Option-cases,
}
use dmp.Model.Collection.Pairwise.{All-map, All-map₃}
use dmp.Model.Value.Listing.{sum, sum-listing, All-listing, Any-listing, All-append, Any-append}
use dmp.Model.Value.{Js, listing}
use dmp.Formulas.{◌>>=◌ as and_then, Outcome, ok, failed}
use dmp.Transform.Grouping.Members.{
  found, size, members, IsGroups, same_as, with_key, extra, Clashes, After, group_items-After,
}
use dmp.Transform.Data.{Ref, Table, flat, nested, Store}
use dmp.Transform.Grouping.{Groups, group_items, group, group_key, as_flat, peek}

module _ (key : Ref → Option String) (skip : Bool) where
  -- The group is that of a key, with all items of the key, or a single item without one of the keys.
  abbrev pub IsGroup : List Ref → List Ref → Type 0
  IsGroup is g =
      ((k : String) × (g ≡ with_key key skip k is) × (g ≢ []))
      ⊎ ((skip ≡ false) × Any (λ i. (key i ≡ none) × (g ≡ i ∷ [])) is)

  -- The item's group is there, unless it has none and is skipped.
  abbrev pub Placed : List Ref → List (List Ref) → Ref → Option String → Type 0
  Placed is gs i none = (skip ≡ true) ⊎ Any (λ g. g ≡ i ∷ []) gs
  Placed is gs i (some k) = Any (λ g. g ≡ with_key key skip k is) gs

  -- The number of items that the groups hold.
  abbrev pub expected : List Ref → ℕ
  expected is = if skip then length (filter (λ i. is_some (key i)) is) else length is

  lookup-Any : (k : String) (v : List Ref) (m : Groups) → lookup k m ≡ some v → Any (λ p. p.1 ≡ v) m
  lookup-Any k v [] e = cc
  lookup-Any k v ((j, w) ∷ m) e = elim (Bool-cases (j == k)) [
    | inl h ↦ inl (some-injective (rw h at e))
    | inr h ↦ inr (lookup-Any k v m (rw h at e))
  ]

  found-Any :
      (k : String) (v : List Ref) (m : Groups) → found k m ≡ v → v ≢ [] → Any (λ p. p.1 ≡ v) m
  found-Any k v m e h = elim (Option-cases (lookup k m)) [
    | inl absent ↦ absurd (h (sym (rw absent at e)))
    | inr (x, there) ↦ lookup-Any k v m (there ∙ ap some (rw there at e))
  ]

  Keyed-lookup : (m : Groups) → Keyed m → All (λ p. lookup p.0 m ≡ some p.1) m
  Keyed-lookup [] h = tt
  Keyed-lookup ((k, v) ∷ m) h = (
    rw (eq_refl k) refl,
    All-map (λ p. lookup p.0 m ≡ some p.1) (λ p. lookup p.0 ((k, v) ∷ m) ≡ some p.1)
        (λ p e. elim (Bool-cases (k == p.0)) [
          | inl same ↦ let gone = rw ((eq_iff k p.0).0 same) at h.0 in cc
          | inr other ↦ rw other e
        ])
        m (Keyed-lookup m h.1),
  )

  with_key-ne :
      (is : List Ref) → All (λ i. (k : String) → key i ≡ some k → with_key key skip k is ≢ []) is
  with_key-ne [] = tt
  with_key-ne (i ∷ is) = (
    λ k e h. let there = rw (e, eq_refl k) at h in cc,
    All-map (λ x. (k : String) → key x ≡ some k → with_key key skip k is ≢ [])
        (λ x. (k : String) → key x ≡ some k → with_key key skip k (i ∷ is) ≢ [])
        (λ x later k e h. elim (Bool-cases (same_as k (key i))) [
          | inl b ↦ let there = rw b at h in cc
          | inr b ↦ later k e (rw b at h)
        ])
        is (with_key-ne is),
  )

  members-append : (xs ys : List (List Ref)) → members (xs ++ ys) ≡ members xs + members ys
  members-append [] ys = omega arith
  members-append (x ∷ xs) ys = omega (arith, members-append xs ys)

  members-map : (m : Groups) → members (map (λ p. p.1) m) ≡ sum size m
  members-map [] = refl
  members-map (p ∷ m) = omega (arith, members-map m)

  members-single : (is : List Ref) → members (map (λ i. i ∷ []) is) ≡ length is
  members-single [] = refl
  members-single (i ∷ is) = omega (arith, members-single is)

  halves :
      (is : List Ref)
      → length (filter (λ i. is_some (key i)) is) + length (filter (λ i. is_none (key i)) is)
        ≡ length is
  halves [] = refl
  halves (i ∷ is) = ground (arith, halves is)

  -- What grouping answers for items, in no order of the groups.
  abbrev pub IsGrouped : List Ref → List (List Ref) → Type 0
  IsGrouped is gs =
      All (IsGroup is) gs × All (λ i. Placed is gs i (key i)) is × (members gs ≡ expected is)

  single-IsGroup :
      (is : List Ref)
      → skip ≡ false
      → All (IsGroup is) (map (λ i. i ∷ []) (filter (λ i. is_none (key i)) is))
  single-IsGroup is s = go is (λ x h. h)
    where
      go :
          (xs : List Ref)
          → ((g : List Ref)
              → Any (λ i. (key i ≡ none) × (g ≡ i ∷ [])) xs
              → Any (λ i. (key i ≡ none) × (g ≡ i ∷ [])) is)
          → All (IsGroup is) (map (λ i. i ∷ []) (filter (λ i. is_none (key i)) xs))
      go [] inside = tt
      go (x ∷ xs) inside = elim (Option-cases (key x)) [
        | inl e ↦ rw e (inr (s, inside (x ∷ []) (inl (e, refl))), go xs (λ g h. inside g (inr h)))
        | inr (k, e) ↦ rw e (go xs (λ g h. inside g (inr h)))
      ]

  extra-IsGroup : (is : List Ref) → All (IsGroup is) (extra key skip is)
  extra-IsGroup is = elim (Bool-cases skip) [
    | inl s ↦ rw s tt
    | inr s ↦
        subst
          (λ b.
            All (IsGroup is)
              (if b then [] else map (λ i. i ∷ []) (filter (λ i. is_none (key i)) is)))
          (sym s) (single-IsGroup is s)
  ]

  groups-IsGroup :
      (is : List Ref) (m : Groups)
      → ((j : String) → found j m ≡ with_key key skip j is)
      → IsGroups m
      → All (λ p. IsGroup is p.1) m
  groups-IsGroup is m h w =
      All-map₃ (λ p. lookup p.0 m ≡ some p.1) (λ p. p.1 ≢ []) (λ p. p.1 ≢ []) (λ p. IsGroup is p.1)
        (λ p e ne _. inl (p.0, ap (λ o. get_or o []) (sym e) ∙ h p.0, ne)) m (Keyed-lookup m w.0)
        w.1 w.1

  values-All : (P : List Ref → Type 0) (m : Groups) → All (λ p. P p.1) m → All P (map (λ p. p.1) m)
  values-All P [] h = tt
  values-All P (p ∷ m) h = (h.0, values-All P m h.1)

  values-Any : (P : List Ref → Type 0) (m : Groups) → Any (λ p. P p.1) m → Any P (map (λ p. p.1) m)
  values-Any P [] h = h
  values-Any P (p ∷ m) (inl h) = inl h
  values-Any P (p ∷ m) (inr h) = inr (values-Any P m h)

  single-Any :
      (is : List Ref)
      → All
          (λ i.
            key i ≡ none
            → Any (λ g. g ≡ i ∷ []) (map (λ i. i ∷ []) (filter (λ i. is_none (key i)) is)))
          is
  single-Any [] = tt
  single-Any (x ∷ xs) = (
    λ e. rw e (inl refl),
    All-map _ _
        (λ i h e. elim (Bool-cases (is_none (key x))) [
          | inl b ↦ rw b (inr (h e))
          | inr b ↦ rw b (h e)
        ])
        xs (single-Any xs),
  )

  members-extra :
      (is : List Ref)
      → length (filter (λ i. is_some (key i)) is) + members (extra key skip is) ≡ expected is
  members-extra is = elim (Bool-cases skip) [
    | inl s ↦ rw s (omega arith)
    | inr s ↦ rw s (omega (arith, members-single (filter (λ i. is_none (key i)) is), halves is))
  ]

  module _ (is : List Ref) (m : Groups)
      (held : (j : String) → found j m ≡ with_key key skip j is) where
    abbrev all_groups : List (List Ref)
    all_groups = map (λ p. p.1) (listing m) ++ extra key skip is

    place_one :
        (i : Ref) (o : Option String)
        → ((k : String) → o ≡ some k → with_key key skip k is ≢ [])
        → (o ≡ none → Any (λ g. g ≡ i ∷ []) (map (λ i. i ∷ []) (filter (λ i. is_none (key i)) is)))
        → Placed is all_groups i o
    place_one i (some k) ne single =
        let P : List Ref → Type 0 = λ g. g ≡ with_key key skip k is in
        Any-append P (map (λ p. p.1) (listing m)) (extra key skip is) (
          inl (
            values-Any P (listing m) (
              Any-listing (λ p. P p.1) m
                (found-Any k (with_key key skip k is) m (held k) (ne k refl)))))
    place_one i none ne single = elim (Bool-cases skip) [
      | inl s ↦ inl s
      | inr s ↦ inr (
          Any-append (λ g. g ≡ i ∷ []) (map (λ p. p.1) (listing m)) (extra key skip is)
            (inr (
              subst
                (λ b.
                  Any (λ g. g ≡ i ∷ [])
                    (if b then [] else map (λ i. i ∷ []) (filter (λ i. is_none (key i)) is)))
                (sym s) (single refl))))
    ]

    groups-IsGrouped :
        sum size m ≡ length (filter (λ i. is_some (key i)) is)
        → IsGroups m
        → IsGrouped is all_groups
    groups-IsGrouped total w = (
      All-append (IsGroup is) (map (λ p. p.1) (listing m)) (extra key skip is)
          (values-All (IsGroup is) (listing m)
            (All-listing (λ p. IsGroup is p.1) m (groups-IsGroup is m held w)))
          (extra-IsGroup is),
      All-map₃ (λ i. (k : String) → key i ≡ some k → with_key key skip k is ≢ []) _ _
          (λ i. Placed is all_groups i (key i)) (λ i ne single _. place_one i (key i) ne single) is
          (with_key-ne is) (single-Any is) (single-Any is),
      omega (
        arith,
        members-append (map (λ p. p.1) (listing m)) (extra key skip is),
        members-map (listing m),
        sum-listing size m,
        members-extra is,
      ),
    )

-- What grouping did: it threw, since it was given groups, or since every object has something under the
-- key of an item; or it answered groups of the items. The store is as it was.
abbrev pub Grouped :
    (Ref → Option String) → Bool → Option (List Ref) → Store → Outcome Table × Store → Type 0
Grouped key skip given s (failed e, s') =
    (s' ≡ s) × ((given ≡ none) ⊎ ((is : List Ref) × (given ≡ some is) × Any (Clashes key skip) is))
Grouped key skip given s (ok t', s') =
    (s' ≡ s)
    × ((is : List Ref) × (gs : List (List Ref)) × (given ≡ some is)
        × (t' ≡ nested gs)
        × IsGrouped key skip is gs)

After-items :
    (key : Ref → Option String) (skip : Bool) (is : List Ref) (s : Store)
    (o : Outcome (Groups × List (List Ref)))
    → After key skip is [] [] o
    → Grouped key skip
        (some is)
        s
        (and_then o (λ r. ok (nested (map (λ p. p.1) (listing r.0) ++ r.1))), s)
After-items key skip is s (failed f) h = (refl, inr (is, refl, h))
After-items key skip is s (ok r) h = (
  refl,
  (
    is,
    _,
    refl,
    refl,
    rw h.1 (groups-IsGrouped key skip is r.0 h.0 (omega (arith, h.2)) (h.3 (tt, tt))),
  ),
)

-- Grouping clips never changes a clip. It throws only where it is given groups, or where the key of an item
-- is one that every object inherits. Else it answers groups: each consists, in order, of all items of one
-- key, or, where unmatched items are not skipped, of one item that lacks a key; each item's group is there,
-- unless the item lacks a key and such items are skipped; and together the groups hold as many items as
-- were given, those that are skipped apart.
pub group-Grouped :
    (js : Js) (keys : List String) (skip : Bool) (t : Table) (s : Store)
    → Grouped (λ i. group_key js keys (peek s i)) skip (as_flat t) s (group js keys skip t s)
unfolding group
group-Grouped js keys skip (flat is) s =
    let key : Ref → Option String = λ i. group_key js keys (peek s i) in
    After-items key skip is s _ (group_items-After key skip is [] [])
group-Grouped js keys skip (nested []) s =
    let key : Ref → Option String = λ i. group_key js keys (peek s i) in
    After-items key skip [] s (group_items skip key [] [] []) (group_items-After key skip [] [] [])
group-Grouped js keys skip (nested (g ∷ gs)) s = (refl, inl refl)
