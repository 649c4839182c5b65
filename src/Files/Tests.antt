-- ===== src/Files/Tests.antt =====
-- Tests of fileCore.ts, and its theorem on sizes at a concrete input.
use dmp.Base.{◌≡◌, refl, none, some, [], ◌∷◌, map}
use dmp.Model.Types.{FileUpload, user_drive_file, Config, user_config}
use dmp.Model.Action.{err, file_stream_error, ◌>>=◌}
use dmp.Model.Collection.{born}
use dmp.Samples.{bob, empty_world}
use dmp.Files.{
  upload_file, upload_target, config_of, read_stream, stream_message, handle_file_upload,
}
use dmp.Files.Limits.{Stored, upload_file-Stored}

abbrev picture : FileUpload
picture = record {
  filename = "bob.png";
  chunks = 10 ∷ 20 ∷ [];
  stream_error = none;
  digest = "hash";
}

-- Bob may store files of 25 bytes.
abbrev strict : Config
strict = record {
  id = "c";
  config_type = user_config;
  key = some "bob";
  properties = record {
    default_maximum_file_size = 25;
    default_maximum_file_repo_size = 100;
    default_file_bucket_id = "user";
    default_profile_bucket_id = "";
    default_representation_for_missing_value = "99999";
  };
  life = born 1 "system";
}

stored_whole :
    map
      (λ f. f.file_size)
      (upload_file bob none (some "bob") picture "PNG" user_drive_file none empty_world).1.files
    ≡ 30 ∷ []
unfolding upload_file upload_target config_of read_stream handle_file_upload ◌>>=◌
stored_whole = refl

too_large :
    map
      (λ f. f.file_size)
      (upload_file bob none
        (some "bob")
        picture
        "PNG"
        user_drive_file
        none
        (record empty_world { configs = strict ∷ [] })).1.files
    ≡ []
unfolding upload_file upload_target config_of read_stream handle_file_upload ◌>>=◌
too_large = refl

broken_off :
    (upload_file bob none
      (some "bob")
      (record picture { stream_error = some "aborted" })
      "PNG"
      user_drive_file
      none
      empty_world).0
    ≡ err file_stream_error "Error reading file stream: aborted"
unfolding upload_file upload_target config_of read_stream stream_message ◌>>=◌
broken_off = refl

upload_file-Stored_example :
    Stored bob none picture user_drive_file empty_world
      (upload_file bob none (some "bob") picture "PNG" user_drive_file none empty_world)
upload_file-Stored_example =
    upload_file-Stored bob none (some "bob") picture "PNG" user_drive_file none empty_world
