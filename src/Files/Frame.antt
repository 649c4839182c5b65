-- ===== src/Files/Frame.antt =====
-- What an upload leaves alone: every collection but the files, on success and on every error.
use dmp.Base.{ℕ, ◌≤◌, ◌≡◌, String, Option, none, some, arith}
use dmp.Model.Types.{User, FileUpload, FileCategory}
use dmp.Model.World.{World}
use dmp.Model.Action.Post.{>>=-post}
use dmp.Files.{
  upload_file, handle_file_upload, upload_picture, picture_type, check_study, truthy, upload_target,
  read_stream,
}
use dmp.Model.Action.{
  Action, ◌>>=◌, pure, uuid, gets, or_throw, CoreErrors, client_malformed_input, file_stream_error,
}

-- `w'` differs from `w` in the files, the clock and the uuids that were given out only.
pub record Uploads (w w' : World) : Type 0 where
  pub env : w'.env ≡ w.env
  pub issued : w.issued ≤ w'.issued
  pub users : w'.users ≡ w.users
  pub roles : w'.roles ≡ w.roles
  pub studies : w'.studies ≡ w.studies
  pub drives : w'.drives ≡ w.drives
  pub organisations : w'.organisations ≡ w.organisations
  pub domains : w'.domains ≡ w.domains
  pub configs : w'.configs ≡ w.configs

Uploads-refl : (w : World) → Uploads w w
Uploads-refl w = ground arith

Uploads-issued : (w : World) → Uploads w (uuid w).1
unfolding ◌>>=◌
Uploads-issued w = ground arith

Uploads-trans : {u v w : World} → Uploads u v → Uploads v w → Uploads u w
Uploads-trans a b = ground arith

Uploads-bind :
    {A B : Type 0} (m : Action A) (k : A → Action B)
    → ((w : World) → Uploads w (m w).1)
    → ((a : A) (w : World) → Uploads w (k a w).1)
    → (w : World) → Uploads w ((m >>= k) w).1
Uploads-bind m k first later w =
    >>=-post (λ r. Uploads w r.1) m k w (λ _ _ _. first w)
      (λ a _. Uploads-trans (first w) (later a (m w).1))

Uploads-gets : {A : Type 0} (f : World → A) (w : World) → Uploads w (gets f w).1
unfolding ◌>>=◌
Uploads-gets f w = Uploads-refl w

Uploads-or_throw :
    {A : Type 0} (o : Option A) (e : CoreErrors) (m : String) (w : World)
    → Uploads w (or_throw o e m w).1
unfolding ◌>>=◌
Uploads-or_throw none e m w = Uploads-refl w
Uploads-or_throw (some a) e m w = Uploads-refl w

check_study-Uploads : (s : Option String) (w : World) → Uploads w (check_study s w).1
unfolding ◌>>=◌
check_study-Uploads none w = Uploads-refl w
check_study-Uploads (some s) w = ground arith

module _ (requester : User) (study_id of_user : Option String) (upload : FileUpload) (type : String)
    (category : FileCategory) (description : Option String) where
  handle-Uploads :
      (size limit : ℕ) (bucket uri : String) (w : World)
      → Uploads w
          (handle_file_upload size limit upload bucket uri requester study_id of_user type category
            description w).1
  unfolding handle_file_upload ◌>>=◌
  handle-Uploads size limit bucket uri w = ground arith

  pub upload_file-Uploads :
      (w : World)
      → Uploads w (upload_file requester study_id of_user upload type category description w).1
  unfolding upload_file
  upload_file-Uploads =
      Uploads-bind (check_study (truthy study_id)) _ (check_study-Uploads (truthy study_id)) λ _.
        Uploads-bind (gets (upload_target requester study_id category)) _ (Uploads-gets _) λ found.
          Uploads-bind (or_throw found client_malformed_input _) _ (Uploads-or_throw found _ _)
            λ target. Uploads-bind uuid _ Uploads-issued λ uri.
              Uploads-bind
                (or_throw (read_stream target.0 0 upload.chunks upload.stream_error)
                  file_stream_error _)
                _ (Uploads-or_throw _ _ _) λ size. handle-Uploads size target.0 target.1 uri

picture_type-Uploads : (upload : FileUpload) (w : World) → Uploads w (picture_type upload w).1
unfolding picture_type ◌>>=◌
picture_type-Uploads upload w = ground arith

Uploads-pure : {A : Type 0} (a : A) (w : World) → Uploads w (pure a w).1
unfolding ◌>>=◌
Uploads-pure a w = ground arith

pub upload_picture-Uploads :
    (requester : User) (study_id : Option String) (category : FileCategory)
    (upload : Option FileUpload) (w : World)
    → Uploads w (upload_picture requester study_id category upload w).1
unfolding upload_picture
upload_picture-Uploads requester study_id category none = Uploads-pure none
upload_picture-Uploads requester study_id category (some upload) =
    Uploads-bind (picture_type upload) _ (picture_type-Uploads upload) λ type.
      Uploads-bind (upload_file requester study_id none upload type category none) _
        (upload_file-Uploads requester study_id none upload type category none)
        λ entry. Uploads-pure (some entry.id)
