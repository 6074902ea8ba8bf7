-- ===== src/Dropzone/Uploads.antt =====
-- The count of uploads, the submit button, and what an upload leaves in the form.
use moneygun.Base.{
  ℕ, suc, ◌≡◌, refl, Bool, true, false, ◌==◌, List, [], ◌∷◌, ◌++◌, Option, none, some, Text, ltb,
  length, if◌then◌else◌, arith, ==_iff,
}
use moneygun.Dropzone.{
  will_store, did_progress, File, Status, success, failed, Zone, set_disabled, update_file, upload,
  finish, mem, remove_one, Result, error, blob, Event, enqueued, stores, progressed, finished, step,
  run, form_values,
}

-- The counter is the number of uploads in flight, and the submit button, if there is one, is
-- disabled exactly while it is positive.
pub record IsCounted (z : Zone) : Type 0 where
  pub counted : z.active_uploads ≡ length z.in_flight
  pub button : z.submit_disabled ≡ set_disabled (ltb 0 z.active_uploads) z.submit_disabled

length-remove_one :
    (k : ℕ) (js : List ℕ) → mem k js ≡ true → suc (length (remove_one k js)) ≡ length js
unfolding mem remove_one
length-remove_one k [] h = cc
length-remove_one k (j ∷ js) h = ground (arith, length-remove_one k js)

upload-IsCounted : (k : ℕ) (z : Zone) → IsCounted z → IsCounted (upload k z)
unfolding upload
upload-IsCounted k z v = ground arith

finish-IsCounted :
    (k : ℕ) (r : Result) (z : Zone)
    → mem k z.in_flight ≡ true
    → IsCounted z
    → IsCounted (finish k r z)
unfolding finish
finish-IsCounted k (error m) z h v = ground (arith, length-remove_one k z.in_flight h)
finish-IsCounted k (blob s) z h v = ground (arith, length-remove_one k z.in_flight h)

step-IsCounted : (e : Event) (z : Zone) → IsCounted z → IsCounted (step e z)
unfolding step
step-IsCounted (enqueued k) z v = upload-IsCounted k z v
step-IsCounted (stores k) z v = unfold will_store in ground arith
step-IsCounted (progressed k l t) z v = unfold did_progress in ground arith
step-IsCounted (finished k r) z v = ground (arith, finish-IsCounted k r z)

run-IsCounted : (es : List Event) (z : Zone) → IsCounted z → IsCounted (run es z)
unfolding run
run-IsCounted [] z v = v
run-IsCounted (e ∷ es) z v = run-IsCounted es (step e z) (step-IsCounted e z v)

-- After any events of the library, the counter is the number of uploads in flight, and the submit
-- button is disabled exactly while there is one.
pub run_button :
    (es : List Event) (z : Zone) (disabled : Bool)
    → IsCounted z
    → (run es z).submit_disabled ≡ some disabled
    → ((run es z).active_uploads ≡ length (run es z).in_flight)
      × (disabled ≡ ltb 0 (length (run es z).in_flight))
unfolding set_disabled
run_button es z disabled v h = ground (arith, run-IsCounted es z v)

-- The callbacks of the uploads in a list.
abbrev pub callbacks : (ℕ → Result) → List ℕ → List Event
callbacks r [] = []
callbacks r (k ∷ ks) = finished k (r k) ∷ callbacks r ks

finish_in_flight :
    (k : ℕ) (r : Result) (z : Zone) → (finish k r z).in_flight ≡ remove_one k z.in_flight
unfolding finish
finish_in_flight k (error m) z = ground arith
finish_in_flight k (blob s) z = ground arith

head_finishes :
    (k : ℕ) (ks : List ℕ) (r : Result) (z : Zone)
    → z.in_flight ≡ k ∷ ks
    → (step (finished k r) z).in_flight ≡ ks
unfolding step remove_one
head_finishes k ks r z h = ground (arith, finish_in_flight k r z, ==_iff k k)

drain :
    (r : ℕ → Result) (ks : List ℕ) (z : Zone)
    → z.in_flight ≡ ks
    → (run (callbacks r ks) z).in_flight ≡ []
unfolding run
drain r [] z h = h
drain r (k ∷ ks) z h = drain r ks (step (finished k (r k)) z) (head_finishes k ks (r k) z h)

-- Once every upload in flight has called back, with success or with an error, the counter is zero
-- and the submit button is enabled again.
pub drain_enables :
    (r : ℕ → Result) (z : Zone) (disabled : Bool)
    → IsCounted z
    → (run (callbacks r z.in_flight) z).submit_disabled ≡ some disabled
    → ((run (callbacks r z.in_flight) z).active_uploads ≡ 0) × (disabled ≡ false)
drain_enables r z disabled v h =
    ground (arith, run_button (callbacks r z.in_flight) z disabled v h, drain r z.in_flight z refl)

-- The file with an identity.
unfoldable pub find_file : ℕ → List File → Option File
find_file k [] = none
find_file k (f ∷ fs) = if f.id == k then some f else find_file k fs

find-update_settled :
    (k : ℕ) (s : Status) (v : List Text) (f : File) (fs : List File)
    → find_file k fs ≡ some f
    → find_file k (update_file k (λ g. record g { status = s; inputs = g.inputs ++ v }) fs)
      ≡ some (record f { status = s; inputs = f.inputs ++ v })
unfolding find_file update_file
find-update_settled k s v f [] h = cc
find-update_settled k s v f (g ∷ fs) h = ground (arith, find-update_settled k s v f fs)

find-update_failed :
    (k : ℕ) (f : File) (fs : List File)
    → find_file k fs ≡ some f
    → find_file k (update_file k (λ g. record g { status = failed }) fs)
      ≡ some (record f { status = failed })
unfolding find_file update_file
find-update_failed k f [] h = cc
find-update_failed k f (g ∷ fs) h = ground (arith, find-update_failed k f fs)

-- An upload that succeeds adds its signed id to the hidden inputs of its file and marks it as a
-- success; one that fails adds no input and marks it as an error.
pub finish_find :
    (k : ℕ) (z : Zone) (f : File) (signed_id message : Text)
    → find_file k z.files ≡ some f
    → (find_file k (finish k (blob signed_id) z).files
        ≡ some (record f { status = success; inputs = f.inputs ++ signed_id ∷ [] }))
      × (find_file k (finish k (error message) z).files ≡ some (record f { status = failed }))
unfolding finish
finish_find k z f signed_id message h =
    (find-update_settled k success (signed_id ∷ []) f z.files h, find-update_failed k f z.files h)

update_values :
    (k : ℕ) (fs : List File)
    → form_values (update_file k (λ g. record g { status = failed }) fs) ≡ form_values fs
unfolding form_values update_file
update_values k [] = refl
update_values k (f ∷ fs) = ground (arith, update_values k fs)

-- A failed upload leaves what the form submits as it was.
pub failed_submits_nothing :
    (k : ℕ) (message : Text) (z : Zone)
    → form_values (finish k (error message) z).files ≡ form_values z.files
unfolding finish
failed_submits_nothing k message z = update_values k z.files
