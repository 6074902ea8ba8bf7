-- ===== src/Dropzone.antt =====
-- app/javascript/controllers/dropzone_controller.js: the upload field and its `Uploader`. A file is
-- an object with an identity; `inputs` are the values of the hidden inputs in its preview. Uploads in
-- flight are the files whose `DirectUpload` has not called back; the library is a source of events.
pub mod Files
pub mod Uploads
mod Examples
use moneygun.Base.{
  ℕ, suc, ◌+◌, ◌-◌, ◌*◌, ◌/◌, Bool, true, false, not, ◌&&◌, ◌==◌, List, [], ◌∷◌, ◌++◌, Option, none,
  some, Text, codes, text_eq, ltb, keep_if, if◌then◌else◌,
}

-- `added` stands for the library's statuses before ours.
pub data Status : Type 0 where
  added processing success failed : Status

pub record File : Type 0 where
  pub id : ℕ
  pub name : Text
  pub size : ℕ
  pub status : Status
  pub inputs : List Text
  pub progress : ℕ
  pub total : ℕ
  pub bytes_sent : ℕ

-- An entry of the value `existingFiles`.
pub record FileData : Type 0 where
  pub name : Text
  pub size : ℕ
  pub url : Option Text
  pub signed_id : Text

-- What the library is told through `emit`.
pub data Signal : Type 0 where
  added_file processing_file success_file complete_file : ℕ → Signal
  thumbnail : ℕ → Text → Signal
  error_file : ℕ → Text → Signal
  upload_progress : ℕ → ℕ → ℕ → Signal

pub record Zone : Type 0 where
  pub max_files : Option ℕ
  pub initializing : Bool
  pub active_uploads : ℕ
  pub files : List File
  -- `disabled` of the submit button, if the field stands in a form that has one
  pub submit_disabled : Option Bool
  pub signals : List Signal
  pub in_flight : List ℕ

is_one : Option ℕ → Bool
is_one none = false
is_one (some n) = n == 1

pub is_single_file : Zone → Bool
unfolding is_one
is_single_file z = is_one z.max_files

-- The option `maxFiles` that the library gets.
pub max_files_option : Zone → Option ℕ
unfolding is_single_file
max_files_option z = if is_single_file z then none else z.max_files

-- The values that `#createDropZone` passes on, and the options that the library gets. The default
-- message is HTML with the two texts in it; `max_filesize` is in megabytes.
pub record Values : Type 0 where
  pub url : Text
  pub param_name : Text
  pub max_filesize : ℕ
  pub accepted_files : Option Text
  pub add_remove_links : Bool
  pub message : Text
  pub hint : Text

pub record Options : Type 0 where
  pub url : Text
  pub param_name : Text
  pub max_files : Option ℕ
  pub max_filesize : ℕ
  pub accepted_files : Option Text
  pub add_remove_links : Bool
  pub default_message : Text

pub dropzone_options : Values → Zone → Options
dropzone_options v z = record {
  url = v.url;
  param_name = v.param_name;
  max_files = max_files_option z;
  max_filesize = v.max_filesize;
  accepted_files = v.accepted_files;
  add_remove_links = v.add_remove_links;
  default_message =
      codes "<span class=\"dz-message-text\">"
      ++ (v.message
          ++ (codes "</span><span class=\"dz-message-hint\">" ++ (v.hint ++ codes "</span>")));
}

-- `multiple` of the hidden file input, after the library assigned one; `none` is no input.
pub assign_input : Bool → Option Bool → Option Bool
assign_input single none = none
assign_input single (some multiple) = some (if single then false else multiple)

abbrev pub same : File → File → Bool
same f g = f.id == g.id

-- Another file with the same name and size.
pub is_duplicate : File → File → Bool
is_duplicate file f = not (same f file) && (text_eq f.name file.name && f.size == file.size)

-- `Array.prototype.find`, as far as its result is tested.
pub has_duplicate : File → List File → Bool
unfolding is_duplicate
has_duplicate file [] = false
has_duplicate file (f ∷ fs) = if is_duplicate file f then true else has_duplicate file fs

-- The library's `removeFile`, on the list `files`.
module _ (remove_file : File → List File → List File) where
  -- `forEach(f => dz.removeFile(f))`.
  remove_each : List File → List File → List File
  remove_each [] fs = fs
  remove_each (g ∷ gs) fs = remove_each gs (remove_file g fs)

  -- The handler of `addedfile`; the library has pushed the file already.
  pub on_added_file : File → Zone → Zone
  unfolding remove_each is_single_file
  on_added_file file z =
      if z.initializing
      then z
      else if is_single_file z
      then record z { files = remove_each (keep_if (λ f. not (same f file)) z.files) z.files }
      else if has_duplicate file z.files
      then record z { files = remove_file file z.files }
      else z

  -- The user adds a file: the library pushes it and emits `addedfile`.
  pub add_file : File → Zone → Zone
  unfolding on_added_file
  add_file file z =
      on_added_file file
        (record z { files = z.files ++ file ∷ []; signals = z.signals ++ added_file file.id ∷ [] })

-- The object of an existing file, with its hidden input.
mock_file : ℕ → FileData → File
mock_file id d = record {
  id = id;
  name = d.name;
  size = d.size;
  status = success;
  inputs = d.signed_id ∷ [];
  progress = 0;
  total = 0;
  bytes_sent = 0;
}

thumbnail_of : ℕ → Option Text → List Signal
thumbnail_of id none = []
thumbnail_of id (some []) = []
thumbnail_of id (some (c ∷ cs)) = thumbnail id (c ∷ cs) ∷ []

-- One round of `#loadExistingFiles`.
load_file : ℕ → FileData → Zone → Zone
unfolding mock_file thumbnail_of
load_file id d z = record z {
  files = z.files ++ mock_file id d ∷ [];
  signals = z.signals ++ added_file id ∷ (thumbnail_of id d.url ++ complete_file id ∷ []);
}

-- `#loadExistingFiles()`; `id` is the identity of the next new object.
load_existing : ℕ → List FileData → Zone → Zone
unfolding load_file
load_existing id [] z = z
load_existing id (d ∷ ds) z = load_existing (suc id) ds (load_file id d z)

-- `connect()`, on an instance that has neither files nor uploads yet.
pub connect : ℕ → List FileData → Zone → Zone
unfolding load_existing
connect id existing z =
    let loaded = load_existing id existing (record z { initializing = true; files = [] }) in
    record loaded { initializing = false }

pub set_disabled : Bool → Option Bool → Option Bool
set_disabled b none = none
set_disabled b (some _) = some b

-- `#toggleSubmit()`.
pub toggle_submit : Zone → Zone
unfolding set_disabled
toggle_submit z = record z {
  submit_disabled = set_disabled (ltb 0 z.active_uploads) z.submit_disabled;
}

-- Change the file with an identity. A file that has been removed is in nobody's sight.
update_file : ℕ → (File → File) → List File → List File
update_file k g [] = []
update_file k g (f ∷ fs) =
    let rest = update_file k g fs in if f.id == k then g f ∷ rest else f ∷ rest

-- `#upload(file)`, with `start()`.
pub upload : ℕ → Zone → Zone
unfolding toggle_submit
upload k z =
    toggle_submit (record z { active_uploads = z.active_uploads + 1; in_flight = k ∷ z.in_flight })

-- The `onComplete` of an uploader.
on_complete : Zone → Zone
unfolding toggle_submit
on_complete z = toggle_submit (record z { active_uploads = z.active_uploads - 1 })

-- `directUploadWillStoreFileWithXHR`, with `#emitDropzoneProcessing`.
pub will_store : ℕ → Zone → Zone
unfolding update_file
will_store k z = record z {
  files = update_file k (λ f. record f { status = processing }) z.files;
  signals = z.signals ++ processing_file k ∷ [];
}

-- `#directUploadDidProgress`; a percentage is rounded down here.
pub did_progress : ℕ → ℕ → ℕ → Zone → Zone
unfolding update_file
did_progress k loaded total z = record z {
  files =
      update_file k
        (λ f. record f { progress = 100 * loaded / total; total = total; bytes_sent = loaded })
        z.files;
  signals = z.signals ++ upload_progress k (100 * loaded / total) loaded ∷ [];
}

-- The callback of `DirectUpload`: an error message, or the signed id of the blob.
pub data Result : Type 0 where
  error blob : Text → Result

settle : ℕ → Result → Zone → Zone
unfolding update_file
settle k (error message) z = record z {
  files = update_file k (λ f. record f { status = failed }) z.files;
  signals = z.signals ++ error_file k message ∷ complete_file k ∷ [];
}
settle k (blob signed_id) z = record z {
  files =
      update_file k (λ f. record f { status = success; inputs = f.inputs ++ signed_id ∷ [] })
        z.files;
  signals = z.signals ++ success_file k ∷ complete_file k ∷ [];
}

-- One upload of the file is over.
remove_one : ℕ → List ℕ → List ℕ
remove_one k [] = []
remove_one k (j ∷ js) = let rest = remove_one k js in if j == k then js else j ∷ rest

pub finish : ℕ → Result → Zone → Zone
unfolding settle on_complete remove_one
finish k r z = on_complete (settle k r (record z { in_flight = remove_one k z.in_flight }))

mem : ℕ → List ℕ → Bool
mem k [] = false
mem k (j ∷ js) = if j == k then true else mem k js

pub data Event : Type 0 where
  enqueued stores : ℕ → Event
  progressed : ℕ → ℕ → ℕ → Event
  finished : ℕ → Result → Event

-- The library calls back only for an upload that is in flight.
pub step : Event → Zone → Zone
unfolding mem
step (enqueued k) z = upload k z
step (stores k) z = will_store k z
step (progressed k loaded total) z = did_progress k loaded total z
step (finished k r) z = if mem k z.in_flight then finish k r z else z

pub run : List Event → Zone → Zone
run [] z = z
run (e ∷ es) z = run es (step e z)

-- The signed ids that the form submits.
pub form_values : List File → List Text
form_values [] = []
form_values (f ∷ fs) = f.inputs ++ form_values fs
