-- ===== src/Dropzone/Files.antt =====
-- Which files the field holds, after the user adds one and after it connects.
use mathlib.Core.List.{append_assoc, append-nil}
use moneygun.Base.{
  inl, inr, Bool-cases, text_eq_iff, ℕ, suc, ◌≡◌, refl, sym, ◌∙◌, ap, Bool, true, false, not, ◌&&◌,
  ◌||◌, ◌==◌, List, [], ◌∷◌, ◌++◌, text_eq, map, All, keep_if, if◌then◌else◌, arith, ==_iff,
}
use moneygun.Dropzone.{
  File, FileData, Zone, same, has_duplicate, remove_each, add_file, is_single_file, load_existing,
  load_file, connect, form_values,
}

-- Some file of the list has the identity of `f`.
abbrev among : List File → File → Bool
among [] f = false
among (g ∷ gs) f = same g f || among gs f

keep_if-true : (fs : List File) → keep_if (λ f. true) fs ≡ fs
keep_if-true [] = refl
keep_if-true (f ∷ fs) = ap (λ z. f ∷ z) (keep_if-true fs)

keep_if-keep_if :
    (p q : File → Bool) (fs : List File) → keep_if p (keep_if q fs) ≡ keep_if (λ f. q f && p f) fs
keep_if-keep_if p q [] = refl
keep_if-keep_if p q (f ∷ fs) = ground (arith, keep_if-keep_if p q fs)

keep_if_ext :
    (p q : File → Bool) (fs : List File) → ((f : File) → p f ≡ q f) → keep_if p fs ≡ keep_if q fs
keep_if_ext p q [] h = refl
keep_if_ext p q (f ∷ fs) h = ground (arith, h f, keep_if_ext p q fs h)

keep_if-All :
    (p : File → Bool) (fs gs : List File)
    → All (λ f. p f ≡ true) fs
    → keep_if p (fs ++ gs) ≡ fs ++ keep_if p gs
keep_if-All p [] gs h = refl
keep_if-All p (f ∷ fs) gs h = ground (arith, keep_if-All p fs gs h.1)

keep_if-All_not :
    (p : File → Bool) (fs gs : List File)
    → All (λ f. p f ≡ false) fs
    → keep_if p (fs ++ gs) ≡ keep_if p gs
keep_if-All_not p [] gs h = refl
keep_if-All_not p (f ∷ fs) gs h = ground (arith, keep_if-All_not p fs gs h.1)

-- The object `file` is none of the files.
abbrev pub IsNew : File → List File → Type 0
IsNew file = All (λ g. same g file ≡ false)

same_refl : (f : File) → same f f ≡ true
same_refl f = (==_iff f.id f.id).1 refl

same_sym : (f g : File) → same f g ≡ same g f
same_sym f g = ground arith

All-map : (P Q : File → Type 0) (fs : List File) → ((f : File) → P f → Q f) → All P fs → All Q fs
All-map P Q [] k h = tt
All-map P Q (f ∷ fs) k h = (k f h.0, All-map P Q fs k h.1)

among-IsNew : (file : File) (fs : List File) → IsNew file fs → among fs file ≡ false
among-IsNew file [] h = refl
among-IsNew file (g ∷ fs) h = ground (arith, among-IsNew file fs h.1)

among-All : (fs : List File) → All (λ f. among fs f ≡ true) fs
among-All [] = tt
among-All (f ∷ fs) =
    (ground (arith, same_refl f), All-map _ _ fs (λ g h. ground arith) (among-All fs))

-- Two files with the same name and size.
abbrev pub alike : File → File → Bool
alike f g = text_eq f.name g.name && f.size == g.size

abbrev pub has_alike : File → List File → Bool
has_alike file [] = false
has_alike file (f ∷ fs) = alike f file || has_alike file fs

-- No two files of the list have the same name and size.
abbrev pub Unique : List File → Type 0
Unique [] = Unit
Unique (f ∷ fs) = (has_alike f fs ≡ false) × Unique fs

has_duplicate_push :
    (file : File) (fs : List File)
    → IsNew file fs
    → has_duplicate file (fs ++ file ∷ []) ≡ has_alike file fs
unfolding has_duplicate
has_duplicate_push file [] h = ground (arith, same_refl file)
has_duplicate_push file (f ∷ fs) h = ground (arith, same_sym f file, has_duplicate_push file fs h.1)

alike_sym : (f g : File) → alike f g ≡ alike g f
alike_sym f g = ground (
  arith,
  text_eq_iff f.name g.name,
  text_eq_iff g.name f.name,
  ==_iff f.size g.size,
  ==_iff g.size f.size,
)

has_alike_push :
    (f file : File) (fs : List File)
    → has_alike f (fs ++ file ∷ []) ≡ (has_alike f fs || alike file f)
has_alike_push f file [] = ground arith
has_alike_push f file (g ∷ fs) = ground (arith, has_alike_push f file fs)

Unique-push_new :
    (file : File) (fs : List File)
    → has_alike file fs ≡ false
    → Unique fs
    → Unique (fs ++ file ∷ [])
Unique-push_new file [] h u = (refl, tt)
Unique-push_new file (f ∷ fs) h u = (
  ground (arith, has_alike_push f file fs, alike_sym f file),
  Unique-push_new file fs (ground arith) u.1,
)

Unique-push :
    (file : File) (fs : List File)
    → Unique fs
    → Unique (if has_alike file fs then fs else fs ++ file ∷ [])
Unique-push file fs u = elim (Bool-cases (has_alike file fs)) [
  | inl e ↦ rw e u
  | inr e ↦ rw e (Unique-push_new file fs e u)
]

form_values-append : (fs gs : List File) → form_values (fs ++ gs) ≡ form_values fs ++ form_values gs
unfolding form_values
form_values-append [] gs = refl
form_values-append (f ∷ fs) gs = simp (form_values-append fs gs, append_assoc)

load_file_values :
    (id : ℕ) (d : FileData) (z : Zone)
    → form_values (load_file id d z).files ≡ form_values z.files ++ d.signed_id ∷ []
unfolding load_file form_values
load_file_values id d z = form_values-append z.files _

load_existing_values :
    (id : ℕ) (ds : List FileData) (z : Zone)
    → form_values (load_existing id ds z).files ≡ form_values z.files ++ map (λ d. d.signed_id) ds
unfolding load_existing
load_existing_values id [] z = sym (append-nil (form_values z.files))
load_existing_values id (d ∷ ds) z =
    load_existing_values (suc id) ds (load_file id d z)
    ∙ ap (λ vs. vs ++ map (λ e. e.signed_id) ds) (load_file_values id d z)
    ∙ append_assoc (form_values z.files) (d.signed_id ∷ []) (map (λ e. e.signed_id) ds)

-- Once the field is connected, the form submits the signed ids of all existing files, in their
-- order and nothing else, and files that the user adds are looked at.
pub connect_values :
    (id : ℕ) (existing : List FileData) (z : Zone)
    → (form_values (connect id existing z).files ≡ map (λ d. d.signed_id) existing)
      × ((connect id existing z).initializing ≡ false)
unfolding connect form_values
connect_values id existing z = (load_existing_values id existing _, refl)

module _ (remove_file : File → List File → List File)
    (remove_file_lem : (f : File) (fs : List File)
      → remove_file f fs ≡ keep_if (λ g. not (same f g)) fs) where
  remove_each-among :
      (gs fs : List File) → remove_each remove_file gs fs ≡ keep_if (λ f. not (among gs f)) fs
  unfolding remove_each
  remove_each-among [] fs = sym (keep_if-true fs)
  remove_each-among (g ∷ gs) fs =
      remove_each-among gs (remove_file g fs)
      ∙ ap (keep_if (λ f. not (among gs f))) (remove_file_lem g fs)
      ∙ keep_if-keep_if (λ f. not (among gs f)) (λ f. not (same g f)) fs
      ∙ keep_if_ext _ _ fs (λ f. ground arith)

  replaced :
      (file : File) (fs : List File)
      → IsNew file fs
      → remove_each remove_file
          (keep_if (λ f. not (same f file)) (fs ++ file ∷ []))
          (fs ++ file ∷ [])
        ≡ file ∷ []
  replaced file fs h =
      ap (λ gs. remove_each remove_file gs (fs ++ file ∷ [])) others
      ∙ remove_each-among fs (fs ++ file ∷ [])
      ∙ keep_if-All_not _ fs (file ∷ []) (All-map _ _ fs (λ f k. ground arith) (among-All fs))
      ∙ ground (arith, among-IsNew file fs h)
    where
      others : keep_if (λ f. not (same f file)) (fs ++ file ∷ []) ≡ fs
      others =
          keep_if-All _ fs (file ∷ []) (All-map _ _ fs (λ f k. ground arith) h)
          ∙ ground (arith, same_refl file, append-nil fs)

  dropped : (file : File) (fs : List File) → IsNew file fs → remove_file file (fs ++ file ∷ []) ≡ fs
  dropped file fs h =
      remove_file_lem file (fs ++ file ∷ [])
      ∙ keep_if-All _ fs (file ∷ []) (All-map _ _ fs (λ f k. ground (arith, same_sym f file)) h)
      ∙ ground (arith, same_refl file, append-nil fs)

  -- A field for a single file holds exactly the file that was added last.
  pub add_file_single :
      (file : File) (z : Zone)
      → z.initializing ≡ false
      → is_single_file z ≡ true
      → IsNew file z.files
      → (add_file remove_file file z).files ≡ file ∷ []
  unfolding add_file is_single_file
  add_file_single file z i s h = ground (arith, replaced file z.files h)

  -- A field for several files takes the added file at the end, unless a file with its name and size is
  -- there: then the files stay as they were.
  pub add_file_multiple :
      (file : File) (z : Zone)
      → z.initializing ≡ false
      → is_single_file z ≡ false
      → IsNew file z.files
      → (add_file remove_file file z).files
        ≡ (if has_alike file z.files then z.files else z.files ++ file ∷ [])
  unfolding add_file is_single_file
  add_file_multiple file z i s h =
      ground (arith, has_duplicate_push file z.files h, dropped file z.files h)

  -- The files of such a field stay pairwise different in name or size, whatever is added.
  pub add_file-Unique :
      (file : File) (z : Zone)
      → z.initializing ≡ false
      → is_single_file z ≡ false
      → IsNew file z.files
      → Unique z.files
      → Unique (add_file remove_file file z).files
  add_file-Unique file z i s h u = rw (add_file_multiple file z i s h) (Unique-push file z.files u)
