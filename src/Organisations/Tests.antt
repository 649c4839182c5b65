-- ===== src/Organisations/Tests.antt =====
-- Tests of organisationCore.ts, and the theorem on its invariant at a concrete history.
use dmp.Base.{◌≡◌, refl, none, some, List, [], ◌∷◌, map}
use dmp.Model.Action.{◌>>=◌}
use dmp.Samples.{root, alice, empty_world, sample_uuids_differ}
use dmp.Organisations.{create_organisation, edit_organisation, check_name}
use dmp.Files.{upload_picture}
use dmp.Organisations.Unique.{IsUnique, Call, create, edit, serve_all, serve_all-IsUnique}

-- The second and the fourth call throw; the last renames what the first made.
abbrev history : List Call
history =
    create (some root) "Imperial" none none
    ∷ create (some alice) "Other" none none
    ∷ create (some root) "Oxford" none none
    ∷ create (some root) "Oxford" none none
    ∷ edit (some root) "u" (some "Imperial College") none none
    ∷ []

history_names :
    map (λ o. o.name) (serve_all history empty_world).organisations
    ≡ "Imperial College" ∷ "Oxford" ∷ []
unfolding create_organisation edit_organisation upload_picture ◌>>=◌ check_name
history_names = refl

serve_all-IsUnique_example : IsUnique (serve_all history empty_world)
serve_all-IsUnique_example =
    serve_all-IsUnique history empty_world
      (record { differ = sample_uuids_differ; ids = tt; names = tt; fresh = λ k h. tt })
