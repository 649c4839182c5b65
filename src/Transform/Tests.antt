-- ===== src/Transform/Tests.antt =====
-- Tests of transformationCore.ts, and its theorems at concrete inputs.
use Prim.Native.String.{String}
use dmp.Base.{ℕ, ◌≡◌, refl, All, false, true, some, [], ◌∷◌, map, length}
use dmp.Model.Value.{Clip, number, text, array, of_items, read, has, inherits, listing}
use dmp.Samples.{sample_env, sample_js}
use dmp.Formulas.{ok, type_error, failed}
use dmp.Transform.Data.{Store, Table, flat, nested}
use dmp.Transform.Grouping.{group, group_key, get_value_from_nested_key, as_flat, peek}
use dmp.Transform.Grouping.Groups.{Grouped, group-Grouped}
use dmp.Transform.Shaping.{join, affine}
use dmp.Transform.Combinations.{combinations, deconcat_item, create_deconcat_object}
use dmp.Transform.Combinations.Made.{Made}
use dmp.Transform.Combinations.Product.{fresh, choices, lengths_product, deconcat_item-choices}
use dmp.Transform.Compose.{Pipelines, grouping, join_of, affine_of, transformation_aggregate}
use dmp.Transform.Compose.Apart.{AllAggregated, transformation_aggregate-AllAggregated}

abbrev visit : String → ℕ → Clip
visit who n = ("who", text who) ∷ ("score", number n) ∷ []

abbrev visits : Store
visits = visit "a" 1 ∷ visit "b" 2 ∷ visit "a" 3 ∷ (("score", number 4) ∷ []) ∷ []

abbrev all_visits : Table
all_visits = flat (some 0 ∷ some 1 ∷ some 2 ∷ some 3 ∷ [])

by_person :
    (group sample_js ("who" ∷ []) false all_visits visits).0
    ≡ ok (nested ((some 0 ∷ some 2 ∷ []) ∷ (some 1 ∷ []) ∷ (some 3 ∷ []) ∷ []))
unfolding group read has get_value_from_nested_key listing
by_person = refl

group-Grouped_example :
    Grouped
      (λ i. group_key sample_js ("who" ∷ []) (peek visits i))
      false
      (as_flat all_visits)
      visits
      (group sample_js ("who" ∷ []) false all_visits visits)
group-Grouped_example = group-Grouped sample_js ("who" ∷ []) false all_visits visits

-- A clip whose value is the name of an inherited property cannot be grouped.
constructor_clashes :
    (group sample_js ("who" ∷ []) false (flat (some 0 ∷ [])) (visit "constructor" 1 ∷ [])).0
    ≡ failed type_error
unfolding group read has get_value_from_nested_key
constructor_clashes = refl

last_wins : (join (nested ((some 0 ∷ some 2 ∷ []) ∷ [])) visits) ≡ (
  ok (flat (some 4 ∷ [])),
  visit "a" 1 ∷ visit "b" 2 ∷ visit "a" 3 ∷ (("score", number 4) ∷ []) ∷ visit "a" 3 ∷ [],
)
unfolding join
last_wins = refl

abbrev two_doses : Clip
two_doses =
    ("dose", array (of_items (number 1 ∷ number 2 ∷ [])))
    ∷ ("time", array (of_items (text "am" ∷ text "pm" ∷ [])))
    ∷ ("who", text "a")
    ∷ []

deconcat_item-choices_example :
    (deconcat_item sample_js ("dose" ∷ "time" ∷ []) combinations (some 0) (two_doses ∷ []) ≡ (
      ok (fresh 1 (choices ((number 1 ∷ number 2 ∷ []) ∷ (text "am" ∷ text "pm" ∷ []) ∷ []))),
      two_doses
          ∷ map
              (create_deconcat_object ("dose" ∷ "time" ∷ []) two_doses)
              (choices ((number 1 ∷ number 2 ∷ []) ∷ (text "am" ∷ text "pm" ∷ []) ∷ [])),
    ))
    × All
        (λ values.
          Made
            ("dose" ∷ "time" ∷ [])
            two_doses
            values
            (create_deconcat_object ("dose" ∷ "time" ∷ []) two_doses values))
        (choices ((number 1 ∷ number 2 ∷ []) ∷ (text "am" ∷ text "pm" ∷ []) ∷ []))
    × (length (choices ((number 1 ∷ number 2 ∷ []) ∷ (text "am" ∷ text "pm" ∷ []) ∷ []))
        ≡ lengths_product ((number 1 ∷ number 2 ∷ []) ∷ (text "am" ∷ text "pm" ∷ []) ∷ []))
unfolding read
deconcat_item-choices_example =
    deconcat_item-choices sample_js "dose" ("time" ∷ []) 0 two_doses
      ((number 1 ∷ number 2 ∷ []) ∷ (text "am" ∷ text "pm" ∷ []) ∷ []) (two_doses ∷ []) refl
      (refl, (refl, (refl, tt))) refl

abbrev grouped_and_joined : Pipelines
grouped_and_joined =
    (
      "people",
      (record { operation_name = "GROUP"; params = grouping ("who" ∷ []) true })
          ∷ (record { operation_name = "JOIN"; params = join_of [] })
          ∷ [],
    )
    ∷ ("all", [])
    ∷ []

transformation_aggregate-AllAggregated_example :
    AllAggregated sample_env (some 0 ∷ some 1 ∷ some 2 ∷ []) visits grouped_and_joined (
      transformation_aggregate sample_env (some 0 ∷ some 1 ∷ some 2 ∷ []) grouped_and_joined visits)
transformation_aggregate-AllAggregated_example =
    transformation_aggregate-AllAggregated sample_env (some 0 ∷ some 1 ∷ some 2 ∷ [])
      grouped_and_joined visits ((tt, (tt, tt)), (tt, tt))

-- `AFFINE` removes the key from the clips themselves, also for the pipeline that comes after it.
shared_clips :
    (transformation_aggregate sample_env
      (some 0 ∷ [])
      ((
        "scores",
        (record { operation_name = "AFFINE"; params = affine_of ("who" ∷ []) [] [] }) ∷ [],
      )
        ∷ ("all", [])
        ∷ [])
      visits).1
    ≡ (("score", number 1) ∷ []) ∷ visit "b" 2 ∷ visit "a" 3 ∷ (("score", number 4) ∷ []) ∷ []
unfolding transformation_aggregate affine listing inherits
shared_clips = refl
