-- ===== src/Transform/Data.antt =====
-- What the transformations work on: clips, which several lists may share, in a store.
use dmp.Base.{ℕ, zero, suc, Option, none, some, List, [], ◌∷◌, ◌++◌, length, get_elem?}
use dmp.Model.Value.{Clip}
use dmp.Formulas.{Failure, type_error, Outcome, ok, failed}

-- The objects that exist, by their references 0, 1, ….
abbrev pub Store : Type 0
Store = List Clip

-- An element of an array of clips: a reference, or undefined.
abbrev pub Ref : Type 0
Ref = Option ℕ

-- `A[]` and `A[][]`; an empty array is both.
pub data Table : Type 0 where
  flat : List Ref → Table
  nested : List (List Ref) → Table

-- A computation over the store.
abbrev pub Run : Type 0 → Type 0
Run A = Store → Outcome A × Store

module _ {A : Type 0} where
  pub pure : A → Run A
  pure a s = (ok a, s)

  pub fail : Failure → Run A
  fail e s = (failed e, s)

  -- A computation that does not touch the store.
  pub lift : Outcome A → Run A
  lift o s = (o, s)

abbrev pub resume : {A B : Type 0} → (A → Run B) → Outcome A × Store → Outcome B × Store
resume k (ok a, s) = k a s
resume k (failed e, s) = (failed e, s)

infixl 5 ◌>>=◌ ◌>>◌
unfoldable pub ◌>>=◌ : {A B : Type 0} → Run A → (A → Run B) → Run B
unfolding pure fail lift
◌>>=◌ m k s = resume k (m s)

abbrev pub ◌>>◌ : {A B : Type 0} → Run A → Run B → Run B
m >> n = m >>= λ _. n

-- A new object.
unfoldable pub alloc : Clip → Run Ref
alloc c s = (ok (some (length s)), s ++ c ∷ [])

abbrev set : List Clip → ℕ → Clip → List Clip
set [] i v = []
set (x ∷ xs) zero v = v ∷ xs
set (x ∷ xs) (suc i) v = x ∷ set xs i v

-- The object behind a reference; the use of undefined as an object throws.
unfoldable pub load : Ref → Run Clip
load none s = (failed type_error, s)
load (some r) s = elim (get_elem? s r) [ none ↦ (failed type_error, s) | some c ↦ (ok c, s) ]

-- A write to the object itself, which every list that holds it sees.
unfoldable pub store : Ref → Clip → Run (Unit {0})
store none c s = (failed type_error, s)
store (some r) c s = (ok tt, set s r c)

module _ {A B : Type 0} where
  -- A loop that collects one result for each element.
  unfoldable pub for_each : (A → Run B) → List A → Run (List B)
  for_each f [] = pure []
  for_each f (x ∷ xs) = do let rest = for_each f xs; y ← f x; ys ← rest; pure (y ∷ ys)
