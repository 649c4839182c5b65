-- ===== src/Transform/Combinations/Made.antt =====
-- The clip that `createDeconcatObject` of transformationCore.ts makes.
use dmp.Base.{
  ◌≡◌, refl, sym, ◌∙◌, ◌||◌, Option-cases, ap, String, Bool, true, false, Option, none, some, List,
  [], ◌∷◌, arith, if◌then◌else◌, ◌==◌, eq_iff, includes, lookup, insert, lookup-insert, Keyed,
  insert-Keyed, or_else, is_some, inl, inr, Bool-cases,
}
use dmp.Model.Value.{Clip, Value, undefined}
use dmp.Transform.Combinations.{put_values, put_others, create_deconcat_object}

-- The value chosen for a key: the one beside its last occurrence, undefined where the values are too few;
-- none where it is no key.
abbrev pub chosen : List String → List Value → String → Option Value
chosen [] values j = none
chosen (k ∷ ks) [] j = or_else (chosen ks [] j) (if k == j then some undefined else none)
chosen (k ∷ ks) (v ∷ vs) j = or_else (chosen ks vs j) (if k == j then some v else none)

-- A clip that has each key once, and under each key the value chosen for it or else the item's.
abbrev pub Made : List String → Clip → List Value → Clip → Type 0
Made keys item values clip =
    Keyed clip × ((j : String) → lookup j clip ≡ or_else (chosen keys values j) (lookup j item))

or_else_assoc : {A : Type 0} (a b c : Option A) → or_else a (or_else b c) ≡ or_else (or_else a b) c
or_else_assoc none b c = refl
or_else_assoc (some x) b c = refl

if-or_else :
    {A : Type 0} (b : Bool) (v : A) (o : Option A)
    → (if b then some v else o) ≡ or_else (if b then some v else none) o
if-or_else true v o = refl
if-or_else false v o = refl

lookup-put_values :
    (ks : List String) (vs : List Value) (obj : Clip) (j : String)
    → lookup j (put_values ks vs obj) ≡ or_else (chosen ks vs j) (lookup j obj)
unfolding put_values
lookup-put_values [] vs obj j = refl
lookup-put_values (k ∷ ks) [] obj j =
    lookup-put_values ks [] (insert k undefined obj) j
    ∙ ap (λ o. or_else (chosen ks [] j) o)
        (lookup-insert k j undefined obj ∙ if-or_else (k == j) undefined (lookup j obj))
    ∙ or_else_assoc (chosen ks [] j) _ _
lookup-put_values (k ∷ ks) (v ∷ vs) obj j =
    lookup-put_values ks vs (insert k v obj) j
    ∙ ap (λ o. or_else (chosen ks vs j) o)
        (lookup-insert k j v obj ∙ if-or_else (k == j) v (lookup j obj))
    ∙ or_else_assoc (chosen ks vs j) _ _

put_values-Keyed :
    (ks : List String) (vs : List Value) (obj : Clip) → Keyed obj → Keyed (put_values ks vs obj)
unfolding put_values
put_values-Keyed [] vs obj h = h
put_values-Keyed (k ∷ ks) [] obj h =
    put_values-Keyed ks [] (insert k undefined obj) (insert-Keyed k undefined obj h)
put_values-Keyed (k ∷ ks) (v ∷ vs) obj h =
    put_values-Keyed ks vs (insert k v obj) (insert-Keyed k v obj h)

put_others-Keyed : (keys : List String) (es obj : Clip) → Keyed obj → Keyed (put_others keys es obj)
unfolding put_others
put_others-Keyed keys [] obj h = h
put_others-Keyed keys ((k, v) ∷ es) obj h = elim (Bool-cases (includes keys k)) [
  | inl e ↦ rw e (put_others-Keyed keys es obj h)
  | inr e ↦ rw e (put_others-Keyed keys es (insert k v obj) (insert-Keyed k v obj h))
]

-- A key that is in the list of keys is left to the values.
put_others-chosen :
    (keys : List String) (es obj : Clip) (j : String)
    → includes keys j ≡ true
    → lookup j (put_others keys es obj) ≡ lookup j obj
unfolding put_others
put_others-chosen keys [] obj j h = refl
put_others-chosen keys ((k, v) ∷ es) obj j h = elim (Bool-cases (includes keys k)) [
  | inl e ↦ rw e (put_others-chosen keys es obj j h)
  | inr e ↦
      rw e (put_others-chosen keys es (insert k v obj) j h ∙ lookup-insert k j v obj ∙ apart k e)
]
  where
    apart :
        (k : String)
        → includes keys k ≡ false
        → (if k == j then some v else lookup j obj) ≡ lookup j obj
    apart k e = elim (Bool-cases (k == j)) [
      | inl same ↦
          let named : k ≡ j = ground (arith, eq_iff k j) in
          absurd (ground (arith, ap (includes keys) named))
      | inr other ↦ rw other refl
    ]

put_others-other :
    (keys : List String) (es obj : Clip) (j : String)
    → Keyed es
    → includes keys j ≡ false
    → lookup j (put_others keys es obj) ≡ or_else (lookup j es) (lookup j obj)
unfolding put_others
put_others-other keys [] obj j keyed h = refl
put_others-other keys ((k, v) ∷ es) obj j keyed h = elim (Bool-cases (k == j)) [
  | inl same ↦
      let named : k ≡ j = ground (arith, eq_iff k j) in
      let skipped : includes keys k ≡ false = ap (includes keys) named ∙ h in
      let gone : lookup j es ≡ none = rw (← named) keyed.0 in
      rw (skipped, same)
        (put_others-other keys es (insert k v obj) j keyed.1 h
          ∙ rw (gone, lookup-insert k j v obj, same) refl)
  | inr other ↦ elim (Bool-cases (includes keys k)) [
    | inl e ↦ rw (e, other) (put_others-other keys es obj j keyed.1 h)
    | inr e ↦
        rw (e, other)
          (put_others-other keys es (insert k v obj) j keyed.1 h
            ∙ rw (lookup-insert k j v obj, other) refl)
  ]
]

is_some-or_else :
    {A : Type 0} (o : Option A) (b : Bool) (v : A)
    → is_some (or_else o (if b then some v else none)) ≡ (b || is_some o)
is_some-or_else none true v = refl
is_some-or_else none false v = refl
is_some-or_else (some a) true v = refl
is_some-or_else (some a) false v = refl

is_some-chosen :
    (ks : List String) (vs : List Value) (j : String) → is_some (chosen ks vs j) ≡ includes ks j
is_some-chosen [] vs j = refl
is_some-chosen (k ∷ ks) [] j =
    is_some-or_else (chosen ks [] j) (k == j) undefined
    ∙ ap (λ b. k == j || b) (is_some-chosen ks [] j)
is_some-chosen (k ∷ ks) (v ∷ vs) j =
    is_some-or_else (chosen ks vs j) (k == j) v ∙ ap (λ b. k == j || b) (is_some-chosen ks vs j)

or_else-none : {A : Type 0} (o : Option A) → or_else o none ≡ o
or_else-none none = refl
or_else-none (some a) = refl

-- The values' part of the new clip.
lookup-values :
    (keys : List String) (values : List Value) (j : String)
    → lookup j (put_values keys values []) ≡ chosen keys values j
lookup-values keys values j =
    lookup-put_values keys values [] j ∙ or_else-none (chosen keys values j)

pub create_deconcat_object-Made :
    (keys : List String) (item : Clip) (values : List Value)
    → Keyed item
    → Made keys item values (create_deconcat_object keys item values)
unfolding create_deconcat_object
create_deconcat_object-Made keys item values keyed = (
  put_others-Keyed keys item (put_values keys values []) (put_values-Keyed keys values [] tt),
  λ j. elim (Option-cases (chosen keys values j)) [
    | inl e ↦
        let outside : includes keys j ≡ false = sym (is_some-chosen keys values j) ∙ ap is_some e in
        put_others-other keys item (put_values keys values []) j keyed outside
        ∙ rw (lookup-values keys values j, e) (or_else-none (lookup j item))
    | inr (v, e) ↦
        let inside : includes keys j ≡ true = sym (is_some-chosen keys values j) ∙ ap is_some e in
        put_others-chosen keys item (put_values keys values []) j inside
        ∙ rw (lookup-values keys values j, e) refl
  ],
)
