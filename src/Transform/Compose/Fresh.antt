-- ===== src/Transform/Compose/Fresh.antt =====
-- Which transformations leave the clips alone that they are given.
use mathlib.Core.List.{append_assoc, append-nil}
use Prim.Native.String.{String}
use dmp.Base.{
  map, remove, insert, get_or, ◌≡◌, refl, sym, ap, ◌∙◌, Bool, Option, none, some, List, [], ◌∷◌,
  ◌++◌, All, Option-cases, inl, inr, get_elem?, ◌==◌, includes, Bool-cases, if◌then◌else◌,
}
use dmp.Model.Value.{Value, Clip, Js, read, inherits}
use dmp.Model.World.{Env}
use dmp.Formulas.{Outcome, ok, failed, Ast, ValueVerifier}
use dmp.Transform.Data.{
  Store, Ref, Table, flat, nested, Run, pure, lift, resume, ◌>>=◌, alloc, load, for_each,
}
use dmp.Transform.Grouping.{
  KeyRules, group, leave_one, filter_table, filter_group, count, require_flat, require_nested,
}
use dmp.Transform.Shaping.{
  join_items, spread, spreadable, join, concat_items, concat, pick_keys, degroup, flatten_item,
  flatten, flattenable, flatten_entries,
}
use dmp.Transform.Combinations.{
  MatchMode, combinations, sequential, deconcat_item, deconcat, create_deconcat_object, values_of,
}
use dmp.Transform.Compose.{
  Params, grouping, affine_of, leave_one_of, concat_of, deconcat_of, join_of, degroup_of, filter_of,
  flatten_of, count_of, name_of, registered, transform, Operation, perform, transformation_compose,
}

-- New clips behind the old ones, which are as they were.
abbrev pub Extends : Store → Store → Type 0
Extends s s' = (new : List Clip) × (s' ≡ s ++ new)

abbrev pub Keeps : {A : Type 0} → Run A → Type 0
Keeps m = (s : Store) → Extends s (m s).1

Extends-same : {s s' : Store} → s' ≡ s → Extends s s'
Extends-same {s} e = ([], e ∙ sym (append-nil s))

pub Extends-trans : (s : Store) {s₁ s₂ : Store} → Extends s s₁ → Extends s₁ s₂ → Extends s s₂
Extends-trans s a b = (a.0 ++ b.0, b.1 ∙ ap (λ t. t ++ b.0) a.1 ∙ append_assoc s a.0 b.0)

module _ {A B : Type 0} where
  pub Keeps-bind : (m : Run A) (k : A → Run B) → Keeps m → ((a : A) → Keeps (k a)) → Keeps (m >>= k)
  unfolding ◌>>=◌
  Keeps-bind m k first next s = go (m s) (first s)
    where
      go : (r : Outcome A × Store) → Extends s r.1 → Extends s (resume k r).1
      go (ok a, s') e = Extends-trans s e (next a s')
      go (failed f, s') e = e

module _ {A : Type 0} where
  pub Keeps-pure : (a : A) → Keeps (pure a)
  unfolding ◌>>=◌
  Keeps-pure a s = Extends-same refl

  pub Keeps-lift : (o : Store → Outcome A) → Keeps (λ s. lift (o s) s)
  unfolding ◌>>=◌
  Keeps-lift o s = Extends-same refl

pub Keeps-alloc : (c : Clip) → Keeps (alloc c)
unfolding alloc
Keeps-alloc c s = (c ∷ [], refl)

pub Keeps-load : (r : Ref) → Keeps (load r)
unfolding load
Keeps-load none s = Extends-same refl
Keeps-load (some r) s = elim (Option-cases (get_elem? s r)) [
  | inl e ↦ rw (e, load) (Extends-same refl)
  | inr (c, e) ↦ rw (e, load) (Extends-same refl)
]

module _ {A B : Type 0} where
  pub Keeps-for_each :
      (f : A → Run B) (xs : List A) → ((x : A) → Keeps (f x)) → Keeps (for_each f xs)
  unfolding for_each
  Keeps-for_each f [] keep = Keeps-pure []
  Keeps-for_each f (x ∷ xs) keep =
      Keeps-bind (f x) _ (keep x)
        λ y. Keeps-bind (for_each f xs) _ (Keeps-for_each f xs keep) λ ys. Keeps-pure (y ∷ ys)

Keeps-require_flat : (t : Table) → Keeps (require_flat t)
unfolding require_flat ◌>>=◌
Keeps-require_flat (flat xs) s = Extends-same refl
Keeps-require_flat (nested []) s = Extends-same refl
Keeps-require_flat (nested (g ∷ gs)) s = Extends-same refl

Keeps-require_nested : (t : Table) → Keeps (require_nested t)
unfolding require_nested ◌>>=◌
Keeps-require_nested (nested gs) s = Extends-same refl
Keeps-require_nested (flat []) s = Extends-same refl
Keeps-require_nested (flat (x ∷ xs)) s = Extends-same refl

-- A loop over groups that are required.
Keeps-each_group :
    (f : List Ref → Run Ref) (t : Table)
    → ((is : List Ref) → Keeps (f is))
    → Keeps (require_nested t >>= λ gs. for_each f gs >>= λ rs. pure (flat rs))
Keeps-each_group f t keep =
    Keeps-bind (require_nested t) _ (Keeps-require_nested t)
      λ gs. Keeps-bind (for_each f gs) _ (Keeps-for_each f gs keep) λ rs. Keeps-pure (flat rs)

pub same : (s : Store) → Extends s s
same s = ([], sym (append-nil s))

spreadable-Keeps : (i : Ref) → Keeps (spreadable i)
unfolding spreadable
spreadable-Keeps none = same
spreadable-Keeps (some r) = Keeps-load (some r)

join_items-Keeps : (obj : Clip) (is : List Ref) → Keeps (join_items obj is)
unfolding join_items
join_items-Keeps obj [] = same
join_items-Keeps obj (i ∷ is) =
    Keeps-bind (spreadable i) _ (spreadable-Keeps i) λ item. join_items-Keeps (spread obj item) is

join-Keeps : (t : Table) → Keeps (join t)
unfolding join
join-Keeps t =
    Keeps-each_group _ t
      λ is. Keeps-bind (join_items [] is) _ (join_items-Keeps [] is) λ obj. Keeps-alloc obj

leave_one-Keeps : (js : Js) (f : Ast) (d : Bool) (t : Table) → Keeps (leave_one js f d t)
unfolding leave_one
leave_one-Keeps js f d t =
    Keeps-each_group _ t
      λ is. Keeps-bind (for_each _ is) _ (Keeps-for_each _ is (λ i. same)) λ scores. same

count-Keeps : (js : Js) (rules : KeyRules) (t : Table) → Keeps (count js rules t)
unfolding count
count-Keeps js rules t =
    Keeps-each_group _ t λ is. Keeps-bind (λ s. lift _ s) _ same λ item. Keeps-alloc item

concat_items-Keeps :
    (js : Js) (keys : List String) (is : List Ref) (c : Clip) → Keeps (concat_items js keys is c)
unfolding concat_items
concat_items-Keeps js keys [] c = same
concat_items-Keeps js keys (i ∷ is) c =
    Keeps-bind (load i) _ (Keeps-load i)
      λ item. Keeps-bind (lift _) _ same λ r. concat_items-Keeps js keys is r

concat-Keeps : (js : Js) (keys : List String) (t : Table) → Keeps (concat js keys t)
unfolding concat
concat-Keeps js keys t = Keeps-each_group _ t λ is.
    Keeps-bind (concat_items js keys is []) _ (concat_items-Keeps js keys is []) λ r. Keeps-alloc r

pick_keys-Keeps : (i : Ref) (ks : List String) (obj : Clip) → Keeps (pick_keys i ks obj)
unfolding pick_keys
pick_keys-Keeps i [] obj = same
pick_keys-Keeps i (k ∷ ks) obj =
    Keeps-bind (load i) _ (Keeps-load i) λ c. pick_keys-Keeps i ks (insert k (read k c) obj)

degroup-Keeps :
    (shared : List String) (groups : List (List String)) (t : Table)
    → Keeps (degroup shared groups t)
unfolding degroup
degroup-Keeps shared groups t = Keeps-bind (require_flat t) _ (Keeps-require_flat t) λ is.
    Keeps-bind (for_each _ is) _
      (Keeps-for_each _ is λ i. Keeps-for_each _ groups λ targets.
        Keeps-bind (pick_keys i shared []) _ (pick_keys-Keeps i shared []) λ obj.
          Keeps-bind (pick_keys i targets obj) _ (pick_keys-Keeps i targets obj) λ c. Keeps-alloc c)
      λ gs. same

each_made-Keeps :
    (f : List Value → Clip) (o : Outcome (List (List Value)))
    → Keeps (lift o >>= λ vss. for_each (λ vs. alloc (f vs)) vss)
unfolding ◌>>=◌
each_made-Keeps f o =
    Keeps-bind (lift o) (λ vss. for_each (λ vs. alloc (f vs)) vss) same
      λ vss. Keeps-for_each (λ vs. alloc (f vs)) vss λ vs. Keeps-alloc (f vs)

deconcat_item-Keeps :
    (js : Js) (keys : List String) (mode : MatchMode) (i : Ref)
    → Keeps (deconcat_item js keys mode i)
unfolding deconcat_item
deconcat_item-Keeps js [] sequential i = same
deconcat_item-Keeps js [] combinations i =
    Keeps-bind (load i) _ (Keeps-load i)
      λ item. each_made-Keeps (create_deconcat_object [] item) (values_of js combinations [])
deconcat_item-Keeps js (k ∷ ks) mode i = Keeps-bind (load i) _ (Keeps-load i) λ item.
    each_made-Keeps (create_deconcat_object (k ∷ ks) item)
      (values_of js mode (map (λ j. read j item) (k ∷ ks)))

deconcat-Keeps :
    (js : Js) (keys : List String) (mode : Option MatchMode) (t : Table)
    → Keeps (deconcat js keys mode t)
unfolding deconcat
deconcat-Keeps js keys mode (flat is) =
    Keeps-bind (for_each _ is) _
      (Keeps-for_each _ is (deconcat_item-Keeps js keys (get_or mode combinations))) λ gs. same
deconcat-Keeps js keys mode (nested []) = same
deconcat-Keeps js keys mode (nested (g ∷ gs)) = same

chosen-Keeps :
    (i : Ref) (f : Clip → Clip) (o : Option Clip)
    → Keeps (elim o [ none ↦ pure i | some es ↦ alloc (f es) ])
unfolding ◌>>=◌
chosen-Keeps i f none = same
chosen-Keeps i f (some es) = Keeps-alloc (f es)

flatten_item-Keeps : (a : Bool) (k : String) (b : Bool) (i : Ref) → Keeps (flatten_item a k b i)
unfolding flatten_item
flatten_item-Keeps a k b i = Keeps-bind (load i) _ (Keeps-load i) λ item.
    chosen-Keeps i (λ es. let f = flatten_entries a item es item in if b then f else remove k f)
      (flattenable (read k item))

flatten-Keeps : (a : Bool) (k : String) (b : Bool) (t : Table) → Keeps (flatten a k b t)
unfolding flatten
flatten-Keeps a k b (flat is) =
    Keeps-bind (for_each (flatten_item a k b) is) (λ rs. pure (flat rs))
      (Keeps-for_each (flatten_item a k b) is (flatten_item-Keeps a k b)) λ rs. same
flatten-Keeps a k b (nested []) = same
flatten-Keeps a k b (nested (g ∷ gs)) =
    Keeps-bind (for_each (λ is. for_each (flatten_item a k b) is) (g ∷ gs)) (λ rs. pure (nested rs))
      (Keeps-for_each (λ is. for_each (flatten_item a k b) is) (g ∷ gs)
        λ is. Keeps-for_each (flatten_item a k b) is (flatten_item-Keeps a k b))
      λ rs. same

group-Keeps :
    (js : Js) (keys : List String) (skip : Bool) (t : Table) → Keeps (group js keys skip t)
unfolding group
group-Keeps js keys skip (flat is) = same
group-Keeps js keys skip (nested []) = same
group-Keeps js keys skip (nested (g ∷ gs)) = same

filter-Keeps :
    (env : Env) (fs : List (String × List ValueVerifier)) (t : Table)
    → Keeps (filter_table env fs t)
unfolding filter_table
filter-Keeps env fs (flat is) =
    Keeps-bind (filter_group env fs is) (λ rs. pure (flat rs)) same λ rs. same
filter-Keeps env fs (nested []) = same
filter-Keeps env fs (nested (g ∷ gs)) =
    Keeps-bind (for_each (filter_group env fs) (g ∷ gs)) (λ rs. pure (nested rs))
      (Keeps-for_each (filter_group env fs) (g ∷ gs) λ is. same) λ rs. same

-- `AFFINE` is the one class that writes to the clips that it is given.
abbrev pub Copies : Params → Type 0
Copies (affine_of ks rs ns) = ⊥
Copies _ = Unit

transform-Keeps : (env : Env) (p : Params) (t : Table) → Copies p → Keeps (transform env p t)
unfolding transform
transform-Keeps env (grouping ks s) t c = group-Keeps env.js ks s t
transform-Keeps env (affine_of ks rs ns) t c = absurd c
transform-Keeps env (leave_one_of f d) t c = leave_one-Keeps env.js f d t
transform-Keeps env (concat_of ks) t c = concat-Keeps env.js ks t
transform-Keeps env (deconcat_of ks m) t c = deconcat-Keeps env.js ks m t
transform-Keeps env (join_of ks) t c = join-Keeps t
transform-Keeps env (degroup_of ks gs) t c = degroup-Keeps ks gs t
transform-Keeps env (filter_of fs) t c = filter-Keeps env fs t
transform-Keeps env (flatten_of a k b) t c = flatten-Keeps a k b t
transform-Keeps env (count_of ns) t c = count-Keeps env.js ns t

perform-Keeps : (env : Env) (o : Operation) (t : Table) → Copies o.params → Keeps (perform env o t)
unfolding perform ◌>>=◌
perform-Keeps env o t c s = elim (Bool-cases (includes registered o.operation_name)) [
  | inl e ↦ elim (Bool-cases (o.operation_name == name_of o.params)) [
    | inl h ↦ rw (e, h) (transform-Keeps env o.params t c s)
    | inr h ↦ rw (e, h) (same s)
  ]
  | inr e ↦ elim (Bool-cases (inherits o.operation_name)) [
    | inl h ↦ rw (e, h) (same s)
    | inr h ↦ rw (e, h) (same s)
  ]
]

pub compose-Keeps :
    (env : Env) (os : List Operation) (t : Table)
    → All (λ o. Copies o.params) os
    → Keeps (transformation_compose env os t)
unfolding transformation_compose ◌>>=◌
compose-Keeps env [] t c = same
compose-Keeps env (o ∷ os) t c =
    Keeps-bind (perform env o t) _ (perform-Keeps env o t c.0) λ next. compose-Keeps env os next c.1
