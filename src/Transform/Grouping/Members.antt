-- ===== src/Transform/Grouping/Members.antt =====
-- The loop of `tGrouping` over the items.
use mathlib.Core.List.{append_assoc, append-nil}
use Prim.Native.String.{String}
use dmp.Base.{
  ℕ, suc, ◌+◌, ◌≡◌, ◌≢◌, refl, sym, ◌∙◌, Bool, true, false, Option, none, some, List, [], ◌∷◌, ◌++◌,
  ◌==◌, if◌then◌else◌, map, length, filter, lookup, insert, lookup-insert, get_or, is_none, is_some,
  Keyed, insert-Keyed, length-append, All, Any, ◌⊎◌, inl, inr, arith, eq_iff, Bool-cases,
  Option-cases,
}
use dmp.Model.Value.Listing.{sum}
use dmp.Model.Value.{inherits}
use dmp.Formulas.{Outcome, Failure, ok, failed, type_error}
use dmp.Transform.Data.{Ref}
use dmp.Transform.Grouping.{Groups, push_group, group_items}

-- The items of a group.
abbrev pub found : String → Groups → List Ref
found k groups = get_or (lookup k groups) []

abbrev pub pushed : String → Ref → Groups → Groups
pushed k i groups = insert k (found k groups ++ i ∷ []) groups

push_group-cases :
    (k : String) (i : Ref) (g : Groups)
    → (push_group k i g ≡ ok (pushed k i g))
      ⊎ ((f : Failure) × (inherits k ≡ true) × (push_group k i g ≡ failed f))
unfolding push_group
push_group-cases k i g = elim (Option-cases (lookup k g)) [
  | inr (x, e) ↦ inl (rw (e, push_group) refl)
  | inl e ↦ elim (Bool-cases (inherits k)) [
    | inl h ↦ inr (type_error, h, rw (e, push_group, h) refl)
    | inr h ↦ inl (rw (e, push_group, h) refl)
  ]
]

found-pushed :
    (k j : String) (i : Ref) (g : Groups)
    → found j (pushed k i g) ≡ found j g ++ (if k == j then i ∷ [] else [])
found-pushed k j i g = rw (lookup-insert k j (found k g ++ i ∷ []) g) (elim (Bool-cases (k == j)) [
  | inl e ↦ let same = (eq_iff k j).0 e in rw (e, same) refl
  | inr e ↦ rw (e, append-nil) refl
])

-- All members of the groups.
abbrev pub members : List (List Ref) → ℕ
members [] = 0
members (g ∷ gs) = length g + members gs

abbrev pub size : String × List Ref → ℕ
size p = length p.1

sum-insert :
    (k : String) (v : List Ref) (m : Groups)
    → sum size (insert k v m) + length (found k m) ≡ sum size m + length v
sum-insert k v [] = omega arith
sum-insert k v ((j, w) ∷ m) = elim (Bool-cases (j == k)) [
  | inl e ↦ rw e (omega arith)
  | inr e ↦ rw e (omega (arith, sum-insert k v m))
]

sum-pushed : (k : String) (i : Ref) (g : Groups) → sum size (pushed k i g) ≡ suc (sum size g)
sum-pushed k i g =
    omega (arith, sum-insert k (found k g ++ i ∷ []) g, length-append (found k g) (i ∷ []))

pushed_members :
    (k j : String) (i : Ref) (g : Groups) (rest : List Ref)
    → found j (pushed k i g) ++ rest ≡ found j g ++ (if k == j then i ∷ rest else rest)
pushed_members k j i g rest = rw (found-pushed k j i g) (elim (Bool-cases (k == j)) [
  | inl e ↦ rw e (append_assoc (found j g) (i ∷ []) rest)
  | inr e ↦ rw (e, append-nil) refl
])

-- Each key once, and no group empty.
abbrev pub IsGroups : Groups → Type 0
IsGroups g = Keyed g × All (λ p. p.1 ≢ []) g

ne-append : (xs : List Ref) (i : Ref) → xs ++ i ∷ [] ≢ []
ne-append [] i e = cc
ne-append (x ∷ xs) i e = cc

All-insert :
    (k : String) (v : List Ref) (m : Groups)
    → v ≢ []
    → All (λ p. p.1 ≢ []) m
    → All (λ p. p.1 ≢ []) (insert k v m)
All-insert k v [] h a = (h, tt)
All-insert k v ((j, w) ∷ m) h a = elim (Bool-cases (j == k)) [
  | inl e ↦ rw e (h, a.1)
  | inr e ↦ rw e (a.0, All-insert k v m h a.1)
]

pushed-IsGroups : (k : String) (i : Ref) (g : Groups) → IsGroups g → IsGroups (pushed k i g)
pushed-IsGroups k i g h = (
  insert-Keyed k (found k g ++ i ∷ []) g h.0,
  All-insert k (found k g ++ i ∷ []) g (ne-append (found k g) i) h.1,
)

abbrev pub same_as : String → Option String → Bool
same_as k none = false
same_as k (some j) = j == k

module _ (key : Ref → Option String) (skip : Bool) where
  -- The items of one key, in their order.
  abbrev pub with_key : String → List Ref → List Ref
  with_key k = filter (λ i. same_as k (key i))

  abbrev pub extra : List Ref → List (List Ref)
  extra is = if skip then [] else map (λ i. i ∷ []) (filter (λ i. is_none (key i)) is)

  abbrev pub Clashes : Ref → Type 0
  Clashes i = (k : String) × (key i ≡ some k) × (inherits k ≡ true)

  abbrev pub After :
      List Ref → Groups → List (List Ref) → Outcome (Groups × List (List Ref)) → Type 0
  After is g u (failed e) = Any Clashes is
  After is g u (ok r) =
      ((j : String) → found j r.0 ≡ found j g ++ with_key j is)
      × (r.1 ≡ u ++ extra is)
      × (sum size r.0 ≡ sum size g + length (filter (λ i. is_some (key i)) is))
      × (IsGroups g → IsGroups r.0)

  After-unmatched :
      (i : Ref) (is : List Ref) (g : Groups) (u : List (List Ref))
      (o : Outcome (Groups × List (List Ref)))
      → key i ≡ none
      → After is g (if skip then u else u ++ (i ∷ []) ∷ []) o
      → After (i ∷ is) g u o
  After-unmatched i is g u (failed f) e h = inr h
  After-unmatched i is g u (ok r) e h = (
    λ j. rw e (h.0 j),
    elim (Bool-cases skip) [
      | inl s ↦ rw s (rw s at h.1)
      | inr s ↦ rw (s, e) (let same = rw s at h.1 in same ∙ append_assoc u ((i ∷ []) ∷ []) _)
    ],
    rw e h.2,
    h.3,
  )

  After-matched :
      (k : String) (i : Ref) (is : List Ref) (g : Groups) (u : List (List Ref))
      (o : Outcome (Groups × List (List Ref)))
      → key i ≡ some k
      → After is (pushed k i g) u o
      → After (i ∷ is) g u o
  After-matched k i is g u (failed f) e h = inr h
  After-matched k i is g u (ok r) e h = (
    λ j. rw e (h.0 j ∙ pushed_members k j i g (with_key j is)),
    rw e h.1,
    rw e (omega (arith, h.2, sum-pushed k i g)),
    λ w. h.3 (pushed-IsGroups k i g w),
  )

  pub group_items-After :
      (is : List Ref) (g : Groups) (u : List (List Ref))
      → After is g u (group_items skip key is g u)
  unfolding group_items
  group_items-After [] g u = (
    λ j. sym (append-nil (found j g)),
    elim (Bool-cases skip) [
      | inl s ↦ rw s (sym (append-nil u))
      | inr s ↦ rw s (sym (append-nil u))
    ],
    omega arith,
    λ w. w,
  )
  group_items-After (i ∷ is) g u = elim (Option-cases (key i)) [
    | inl e ↦
        rw (e, group_items)
          (After-unmatched i is g u _ e
            (group_items-After is g (if skip then u else u ++ (i ∷ []) ∷ [])))
    | inr (k, e) ↦ elim (push_group-cases k i g) [
      | inl p ↦
          rw (e, group_items, p)
            (After-matched k i is g u _ e (group_items-After is (pushed k i g) u))
      | inr (f, h, p) ↦ rw (e, group_items, p) (inl (k, e, h))
    ]
  ]
