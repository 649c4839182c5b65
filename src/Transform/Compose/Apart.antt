-- ===== src/Transform/Compose/Apart.antt =====
-- Several pipelines over the same clips.
use Prim.Native.String.{String}
use dmp.Base.{◌≡◌, refl, List, [], ◌∷◌, All}
use dmp.Model.Value.{listing}
use dmp.Model.Value.Listing.{All-listing}
use dmp.Model.World.{Env}
use dmp.Formulas.{Outcome, ok, failed}
use dmp.Transform.Data.{Store, Ref, Table, flat, pure, resume, ◌>>=◌}
use dmp.Transform.Compose.{
  Operation, transformation_compose, Pipelines, aggregate, transformation_aggregate,
}
use dmp.Transform.Compose.Fresh.{Extends, Extends-trans, Copies, compose-Keeps, same}

-- The pipeline answers the table for the clips in a store where they are as they were given.
abbrev pub Answers : Env → List Ref → Store → List Operation → Table → Type 0
Answers env input s os t =
    (s' : Store) × Extends s s' × ((transformation_compose env os (flat input) s').0 ≡ ok t)

-- The entries are those of the pipelines, in their order.
abbrev pub AllAnswer : Env → List Ref → Store → Pipelines → List (String × Table) → Type 0
AllAnswer env input s [] [] = Unit
AllAnswer env input s [] (e ∷ es) = ⊥
AllAnswer env input s (p ∷ ps) [] = ⊥
AllAnswer env input s (p ∷ ps) (e ∷ es) =
    (e.0 ≡ p.0) × Answers env input s p.1 e.1 × AllAnswer env input s ps es

abbrev pub Aggregated :
    Env → List Ref → Store → Pipelines → Outcome (List (String × Table)) × Store → Type 0
Aggregated env input s ps (failed e, s') = Extends s s'
Aggregated env input s ps (ok es, s') = Extends s s' × AllAnswer env input s ps es

-- No pipeline has an operation that writes to the clips that it is given.
abbrev pub AllCopy : Pipelines → Type 0
AllCopy = All (λ p. All (λ o. Copies o.params) p.1)

module _ (env : Env) (input : List Ref) where
  AllAnswer-later :
      (s s₁ : Store) (ps : Pipelines) (es : List (String × Table))
      → Extends s s₁
      → AllAnswer env input s₁ ps es
      → AllAnswer env input s ps es
  AllAnswer-later s s₁ [] [] x h = tt
  AllAnswer-later s s₁ [] (e ∷ es) x h = h
  AllAnswer-later s s₁ (p ∷ ps) [] x h = h
  AllAnswer-later s s₁ (p ∷ ps) (e ∷ es) x h =
      (h.0, (h.1.0, Extends-trans s x h.1.1, h.1.2), AllAnswer-later s s₁ ps es x h.2)

  aggregate_rest :
      (k : String) (os : List Operation) (ps : Pipelines) (s : Store) (t : Table) (s₁ : Store)
      → (transformation_compose env os (flat input) s).0 ≡ ok t
      → Extends s s₁
      → (r : Outcome (List (String × Table)) × Store) → Aggregated env input s₁ ps r
      → Aggregated env input s ((k, os) ∷ ps) (resume (λ rest. pure ((k, t) ∷ rest)) r)
  unfolding ◌>>=◌
  aggregate_rest k os ps s t s₁ answered x (failed e, s') h = Extends-trans s x h
  aggregate_rest k os ps s t s₁ answered x (ok es, s') h =
      (Extends-trans s x h.0, (refl, (s, same s, answered), AllAnswer-later s s₁ ps es x h.1))

  aggregate-Aggregated :
      (ps : Pipelines) (s : Store)
      → AllCopy ps
      → Aggregated env input s ps (aggregate env input ps s)
  unfolding aggregate
  aggregate-Aggregated [] s c = (same s, tt)
  aggregate-Aggregated ((k, os) ∷ ps) s c =
      go (λ s'. aggregate-Aggregated ps s' c.1) (transformation_compose env os (flat input) s) refl
        (compose-Keeps env os (flat input) c.0 s)
    where
      go :
          ((s' : Store) → Aggregated env input s' ps (aggregate env input ps s'))
          → (r : Outcome Table × Store) → transformation_compose env os (flat input) s ≡ r
          → Extends s r.1
          → Aggregated env input s
              ((k, os) ∷ ps)
              (resume (λ t. aggregate env input ps >>= λ rest. pure ((k, t) ∷ rest)) r)
      go rest (failed e, s') same_as x = x
      go rest (ok t, s') same_as x =
          aggregate_rest k os ps s t s' (rw same_as refl) x (aggregate env input ps s') (rest s')

  -- Without a pipeline the clips themselves are answered, under `raw`.
  abbrev pub AllAggregated : Store → Pipelines → Outcome (List (String × Table)) × Store → Type 0
  AllAggregated s [] r = r ≡ (ok (("raw", flat input) ∷ []), s)
  AllAggregated s (p ∷ ps) r = Aggregated env input s (listing (p ∷ ps)) r

  -- Where no pipeline has an `AFFINE` operation, aggregating changes no clip, also where it throws. Where
  -- it does not throw, it answers one table for each pipeline, in the order of their keys, and each is what
  -- the pipeline answers for the given clips, by itself, in a store where all clips are as they were given.
  -- Without any pipeline it answers the clips themselves.
  pub transformation_aggregate-AllAggregated :
      (ps : Pipelines) (s : Store)
      → AllCopy ps
      → AllAggregated s ps (transformation_aggregate env input ps s)
  unfolding transformation_aggregate ◌>>=◌
  transformation_aggregate-AllAggregated [] s c = refl
  transformation_aggregate-AllAggregated (p ∷ ps) s c =
      aggregate-Aggregated (listing (p ∷ ps)) s
        (All-listing (λ q. All (λ o. Copies o.params) q.1) (p ∷ ps) c)
