-- ===== src/Transform/Combinations/Product.antt =====
-- The combinations that `cartesianProduct` computes.
use mathlib.Core.List.{append_assoc, append-nil, map-append}
use Prim.Native.String.{String}
use dmp.Transform.Data.{Ref, Store, for_each, alloc, load, ◌>>=◌}
use dmp.Base.{
  suc, get_elem?, some, ◌≡◌, refl, ◌∙◌, sym, ap, List, [], ◌∷◌, ◌++◌, map, ℕ, ◌*◌, ◌+◌, length,
  length-append, arith, All, Keyed,
}
use dmp.Model.Value.{Clip, read, Value, array, Js, items, of_items}
use dmp.Formulas.{ok}
use dmp.Model.Collection.Pairwise.{All-of}
use dmp.Transform.Combinations.Made.{Made, create_deconcat_object-Made}
use dmp.Transform.Combinations.{
  cartesian_product, extend, deconcat_item, create_deconcat_object, combinations,
}

module _ {A : Type 0} where
  -- Each element in front of each list.
  abbrev pub in_front : List A → List (List A) → List (List A)
  in_front [] ts = []
  in_front (x ∷ xs) ts = map (λ t. x ∷ t) ts ++ in_front xs ts

  -- The choices of one element of each list, the first element moving slowest.
  abbrev pub choices : List (List A) → List (List A)
  choices [] = [] ∷ []
  choices (xs ∷ xss) = in_front xs (choices xss)

  -- Each choice continued by each list.
  abbrev continued : List (List A) → List (List A) → List (List A)
  continued [] ts = []
  continued (x ∷ xs) ts = map (λ t. x ++ t) ts ++ continued xs ts

  continued-append :
      (xs ys ts : List (List A)) → continued (xs ++ ys) ts ≡ continued xs ts ++ continued ys ts
  continued-append [] ys ts = refl
  continued-append (x ∷ xs) ys ts = simp (continued-append xs ys ts, append_assoc)

  map-append_cons :
      (x : List A) (y : A) (ts : List (List A))
      → map (λ t. (x ++ y ∷ []) ++ t) ts ≡ map (λ t. x ++ t) (map (λ t. y ∷ t) ts)
  map-append_cons x y [] = refl
  map-append_cons x y (t ∷ ts) = rw (append_assoc x (y ∷ []) t, map-append_cons x y ts) refl

  continued-map :
      (x : List A) (b : List A) (ts : List (List A))
      → continued (map (λ y. x ++ y ∷ []) b) ts ≡ map (λ t. x ++ t) (in_front b ts)
  continued-map x [] ts = refl
  continued-map x (y ∷ b) ts = rw (continued-map x b ts, map-append_cons x y ts, map-append) refl

  continued-extend :
      (a : List (List A)) (b : List A) (ts : List (List A))
      → continued (extend a b) ts ≡ continued a (in_front b ts)
  unfolding extend
  continued-extend [] b ts = refl
  continued-extend (x ∷ xs) b ts =
      rw
        (
          continued-append (map (λ y. x ++ y ∷ []) b) (extend xs b) ts,
          continued-map x b ts,
          continued-extend xs b ts,
        )
        refl

  continued-nil : (a : List (List A)) → continued a ([] ∷ []) ≡ a
  continued-nil [] = refl
  continued-nil (x ∷ xs) = rw (append-nil x, continued-nil xs) refl

  nil-continued : (ts : List (List A)) → map (λ t. t) ts ++ [] ≡ ts
  nil-continued [] = refl
  nil-continued (t ∷ ts) = ap (λ r. t ∷ r) (nil-continued ts)

  length-map : {B : Type 0} (f : A → B) (xs : List A) → length (map f xs) ≡ length xs
  length-map f [] = refl
  length-map f (x ∷ xs) = omega (arith, length-map f xs)

-- The product of the lengths.
abbrev pub lengths_product : {A : Type 0} → List (List A) → ℕ
lengths_product [] = 1
lengths_product (xs ∷ xss) = length xs * lengths_product xss

length-in_front :
    {A : Type 0} (xs : List A) (ts : List (List A))
    → length (in_front xs ts) ≡ length xs * length ts
length-in_front [] ts = omega arith
length-in_front (x ∷ xs) ts = grind (
  arith,
  length-append (map (λ t. x ∷ t) ts) (in_front xs ts),
  length-map (λ t. x ∷ t) ts,
  length-in_front xs ts,
)

pub length-choices : {A : Type 0} (xss : List (List A)) → length (choices xss) ≡ lengths_product xss
length-choices [] = refl
length-choices (xs ∷ xss) = rw (length-in_front xs (choices xss), length-choices xss) refl

items-of_items : (vs : List Value) → items (of_items vs) ≡ vs
items-of_items [] = refl
items-of_items (v ∷ vs) = ap (λ r. v ∷ r) (items-of_items vs)

abbrev pub arrays : List (List Value) → List Value
arrays = map (λ vs. array (of_items vs))

cartesian_product-continued :
    (js : Js) (a : List (List Value)) (vss : List (List Value))
    → cartesian_product js a (arrays vss) ≡ ok (continued a (choices vss))
unfolding cartesian_product
cartesian_product-continued js a [] = ap ok (sym (continued-nil a))
cartesian_product-continued js a (vs ∷ vss) =
    rw
      (
        items-of_items vs,
        cartesian_product-continued js (extend a vs) vss,
        continued-extend a vs (choices vss),
      )
      refl

pub cartesian_product-choices :
    (js : Js) (vss : List (List Value))
    → cartesian_product js ([] ∷ []) (arrays vss) ≡ ok (choices vss)
cartesian_product-choices js vss =
    cartesian_product-continued js ([] ∷ []) vss ∙ ap ok (nil-continued (choices vss))

-- References to the objects that are made one after the other from a store's length on.
abbrev pub fresh : {A : Type 0} → ℕ → List A → List Ref
fresh n [] = []
fresh n (x ∷ xs) = some n ∷ fresh (suc n) xs

alloc_each :
    (f : List Value → Clip) (vss : List (List Value)) (s : Store)
    → for_each (λ vs. alloc (f vs)) vss s ≡ (ok (fresh (length s) vss), s ++ map f vss)
unfolding for_each alloc ◌>>=◌
alloc_each f [] s = rw (append-nil s) refl
alloc_each f (vs ∷ vss) s =
    rw
      (
        alloc_each f vss (s ++ f vs ∷ []),
        append_assoc s (f vs ∷ []) (map f vss),
        length-append s (f vs ∷ []),
      )
      (let next : length s + 1 ≡ suc (length s) = omega arith in rw next refl)

-- In the mode of combinations, an item with each key once, whose values under the chosen keys are arrays,
-- becomes one new clip for each way to choose one element of each array, the first key's choice moving
-- slowest; nothing else is made and no clip is changed. A clip that is made has each key once: under a
-- chosen key the value chosen for it (for its last occurrence, were a key named twice), and under any other
-- key what the item has, where the item has it. The number of the clips is the product of the lengths.
pub deconcat_item-choices :
    (js : Js) (k : String) (ks : List String) (r : ℕ) (item : Clip) (vss : List (List Value))
    (s : Store)
    → get_elem? s r ≡ some item
    → Keyed item
    → map (λ j. read j item) (k ∷ ks) ≡ arrays vss
    → (deconcat_item js (k ∷ ks) combinations (some r) s ≡ (
      ok (fresh (length s) (choices vss)),
      s ++ map (create_deconcat_object (k ∷ ks) item) (choices vss),
    ))
      × All
          (λ values. Made (k ∷ ks) item values (create_deconcat_object (k ∷ ks) item values))
          (choices vss)
      × (length (choices vss) ≡ lengths_product vss)
unfolding deconcat_item
deconcat_item-choices js k ks r item vss s found keyed shaped = (
  rw (found, load, ap (cartesian_product js ([] ∷ [])) shaped ∙ cartesian_product-choices js vss)
      (alloc_each (create_deconcat_object (k ∷ ks) item) (choices vss) s),
  All-of (choices vss) (λ values. create_deconcat_object-Made (k ∷ ks) item values keyed),
  length-choices vss,
)
