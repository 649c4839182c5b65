-- ===== src/Files/Limits.antt =====
-- The size of what an upload stores.
use dmp.Base.{
  ℕ, ◌+◌, ◌≤◌, ◌≡◌, refl, subst, String, Option, none, some, List, [], ◌∷◌, ◌++◌, arith, ltb,
  truthy, Bool-cases, inl, inr,
}
use dmp.Model.Types.{User, File, FileUpload, FileCategory}
use dmp.Model.World.{World}
use dmp.Model.Action.{Result, ok, err, ◌>>=◌}
use dmp.Model.Action.Post.{
  or_throw-post, throw_if-post, gets-post, uuid-post, date_now-post, modify-post, pure-post,
  >>=-post,
}
use dmp.Files.{upload_file, upload_target, read_stream, handle_file_upload, check_study}

-- The length of the file in its chunks.
abbrev pub total : List ℕ → ℕ
total [] = 0
total (chunk ∷ chunks) = chunk + total chunks

read_stream-total :
    (limit size : ℕ) (chunks : List ℕ) (broken : Option String) {n : ℕ}
    → read_stream limit size chunks broken ≡ some n
    → (n ≡ size + total chunks) × (broken ≡ none)
unfolding read_stream
read_stream-total limit size [] none h = (ground arith, refl)
read_stream-total limit size [] (some message) h = absurd (ground arith)
read_stream-total limit size (chunk ∷ chunks) broken {n} h =
    elim (Bool-cases (ltb limit (size + chunk))) [
      | inl e ↦ absurd (ground arith)
      | inr e ↦
          let rest = read_stream-total limit (size + chunk) chunks broken {n = n} (rw (e) at h) in
          (omega (arith, rest.0), rest.1)
    ]

-- Of an upload: it threw and stored nothing, or the target gave a limit and a bucket, and the upload's
-- stream did not break off, and one file was added, with the whole length of the upload, which is within the
-- limit.
abbrev pub Stored :
    User → Option String → FileUpload → FileCategory → World → Result File × World → Type 0
Stored requester study_id upload category w (err e t, w') = w'.files ≡ w.files
Stored requester study_id upload category w (ok f, w') =
    (limit : ℕ) × (bucket : String) × (upload_target requester study_id category w
      ≡ some (limit, bucket))
    × (upload.stream_error ≡ none)
    × (f.file_size ≡ total upload.chunks)
    × (f.file_size ≤ limit)
    × (w'.files ≡ w.files ++ f ∷ [])

module _ (requester : User) (study_id of_user : Option String) (upload : FileUpload) (type : String)
    (category : FileCategory) (description : Option String) where
  handle-Stored :
      (w w₁ : World) (size limit : ℕ) (bucket uri : String)
      → upload_target requester study_id category w ≡ some (limit, bucket)
      → (size ≡ total upload.chunks) × (upload.stream_error ≡ none)
      → w₁.files ≡ w.files
      → Stored requester study_id upload category w (
          handle_file_upload size limit upload bucket uri requester study_id of_user type category
            description w₁)
  unfolding handle_file_upload
  handle-Stored w w₁ size limit bucket uri target whole same =
      let after : Result File × World → Type 0 = Stored requester study_id upload category w in
      throw_if-post after _ _ _ _ w₁ (λ _. same)
        λ fits. gets-post after _ _ w₁ (
          throw_if-post after _ _ _ _ w₁ (λ _. same)
            λ _. uuid-post after _ w₁ (
              date_now-post after _ _ (
                modify-post after _ _ _ (
                  pure-post after _ _
                    (limit, bucket, target, whole.1, whole.0, ground arith, rw same refl)))))

check_study_same : (o : Option String) (w : World) → (check_study o w).1 ≡ w
unfolding ◌>>=◌
check_study_same none w = refl
check_study_same (some s) w = refl

-- An upload, by anyone and of any category, throws and stores no file; or a limit and a bucket are set
-- for the category, the upload's stream does not break off, and it adds one entry to the files, whose size is that of all chunks together and is
-- within the limit.
pub upload_file-Stored :
    (requester : User) (study_id of_user : Option String) (upload : FileUpload) (type : String)
    (category : FileCategory) (description : Option String) (w : World)
    → Stored requester study_id upload category w
        (upload_file requester study_id of_user upload type category description w)
unfolding upload_file
upload_file-Stored requester study_id of_user upload type category description w =
    let after : Result File × World → Type 0 = Stored requester study_id upload category w in
    let checked = check_study_same (truthy study_id) w in
    >>=-post after (check_study (truthy study_id)) _ w (λ e t _. rw checked refl)
      λ _ _. gets-post after _ _ _ (
        or_throw-post after _ _ _ _ _ (λ _. rw checked refl)
          λ target found. uuid-post after _ _ (
            or_throw-post after _ _ _ _ _ (λ _. rw checked refl)
              λ size read.
                let (whole, unbroken) =
                  read_stream-total target.0 0 upload.chunks upload.stream_error read in
                handle-Stored requester study_id of_user upload type category description w _ size
                  target.0 target.1 _
                  (subst (λ v. upload_target requester study_id category v ≡ some target) checked
                    found)
                  (omega (arith, whole), unbroken) (rw checked refl)))
