-- ===== src/Dropzone/Examples.antt =====
-- A field for several images, with one on the server.
use moneygun.Base.{
  ◌≡◌, refl, true, false, not, List, [], ◌∷◌, none, some, codes, keep_if, length, ltb, arith,
}
use moneygun.Dropzone.{
  dropzone_options, set_disabled, File, FileData, Zone, added, same, blob, error, upload, finish,
  enqueued, finished, step, run, is_single_file, assign_input, max_files_option,
}
use moneygun.Dropzone.Uploads.{IsCounted, run_button, callbacks}

-- A `removeFile` that does what the library documents.
abbrev remove_file : File → List File → List File
remove_file f fs = keep_if (λ g. not (same f g)) fs

abbrev cat : File
cat = record {
  id = 8;
  name = codes "cat.png";
  size = 100;
  status = added;
  inputs = [];
  progress = 0;
  total = 0;
  bytes_sent = 0;
}

abbrev cat_again : File
cat_again = record cat { id = 9 }

abbrev field : Zone
field = record {
  max_files = some 5;
  initializing = false;
  active_uploads = 0;
  files = cat ∷ [];
  submit_disabled = some false;
  signals = [];
  in_flight = [];
}

abbrev avatar : Zone
avatar = record field { max_files = some 1 }

abbrev stored : List FileData
stored = record { name = codes "dog.png"; size = 7; url = none; signed_id = codes "s1" } ∷ []

single_hides_multiple : assign_input (is_single_file avatar) (some true) ≡ some false
unfolding assign_input is_single_file
single_hides_multiple = refl

no_limit_passed : max_files_option avatar ≡ none
unfolding max_files_option
no_limit_passed = refl

field-IsCounted : IsCounted field
unfolding set_disabled
field-IsCounted = ground arith

busy :
    (run (enqueued 8 ∷ enqueued 9 ∷ finished 8 (error []) ∷ []) field).submit_disabled ≡ some true
unfolding run step upload finish
busy = refl

run_button_example :
    ◌≡◌ true
      (ltb 0 (length (run (enqueued 8 ∷ enqueued 9 ∷ finished 8 (error []) ∷ []) field).in_flight))
run_button_example =
    (run_button (enqueued 8 ∷ enqueued 9 ∷ finished 8 (error []) ∷ []) field true field-IsCounted
      busy).1

abbrev uploading : Zone
unfolding upload
uploading = upload 9 (upload 8 field)

uploading-IsCounted : IsCounted uploading
unfolding uploading
uploading-IsCounted = ground arith

quiet :
    (run (callbacks (λ k. blob (codes "s2")) uploading.in_flight) uploading).submit_disabled
    ≡ some false
unfolding uploading run step finish
quiet = refl

passes_on :
    (dropzone_options
      (record {
        url = codes "/up";
        param_name = codes "files";
        max_filesize = 256;
        accepted_files = none;
        add_remove_links = true;
        message = codes "Drop";
        hint = [];
      })
      avatar).max_files
    ≡ none
unfolding dropzone_options max_files_option is_single_file
passes_on = refl
