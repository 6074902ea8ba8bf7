-- ===== src/LocalSave/Examples.antt =====
-- Drafts of a rich text editor.
use moneygun.Base.{◌≡◌, ◌≢◌, refl, true, false, [], ◌∷◌, some, codes}
use moneygun.LocalSave.{Page, edit, save_timer, next_frame, load, run}
use moneygun.LocalSave.Drafts.{restore-save}

abbrev editor : Page
editor = record {
  stored = some (codes "old");
  input = codes "text";
  is_lexxy = true;
  disabled = false;
  save_due = false;
  restore_due = false;
  changes = [];
}

hello_ne : codes "hello" ≢ []
hello_ne h = cc

told_of_restore :
    (run (next_frame ∷ []) (load false (some (codes "old")) [] true)).changes ≡ codes "old" ∷ []
unfolding load run
told_of_restore = refl

restore-save_example :
    (run
      (next_frame ∷ [])
      (load false (run (edit (codes "hello") ∷ save_timer ∷ []) editor).stored [] true)).input
    ≡ codes "hello"
restore-save_example = restore-save editor (codes "hello") [] false true refl hello_ne
