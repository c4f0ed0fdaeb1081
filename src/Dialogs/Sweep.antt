-- ===== src/Dialogs/Sweep.antt =====
-- What the dialog of a sweep logs (frontend-next/src/components/CheckDialog.tsx).
use tiny_crm.Prelude.{
  ◌≡◌, refl, Bool, true, false, ◌&&◌, ◌||◌, not, none, some, Text, truthy, trim, trim_idem, is_some,
  arith, if◌then◌else◌,
}
use tiny_crm.Forms.Fields.{or_null-IsClean, IsClean}
use tiny_crm.Dialogs.{is_found, is_deal, CheckForm, CheckCreate, check_body}

-- A sweep that may be logged: a deal or a task is made only of a find, never both, and by a title that is
-- not blank.
pub record IsCheck (b : CheckCreate) : Type 0 where
  pub note : IsClean b.note
  pub deal : IsClean b.create_deal
  pub task : IsClean b.create_task
  pub not_both : (is_some b.create_deal && is_some b.create_task) ≡ false
  pub of_find :
      ((is_some b.create_deal || is_some b.create_task) && not (is_found b.outcome)) ≡ false

title_sent :
    (test : Bool) (t : Text)
    → (test ≡ true → truthy t ≡ true)
    → trim t ≡ t
    → IsClean (if test then some t else none)
title_sent true t h g = (h refl, g)
title_sent false t h g = tt

-- Whatever is chosen and typed: what is logged has no blank text and no space around one, at most one
-- of a deal and a task, and that only of a find.
pub check_body-IsCheck : (f : CheckForm) → IsCheck (check_body f)
unfolding check_body
check_body-IsCheck f = record {
  note = or_null-IsClean (trim f.note) (trim_idem f.note);
  deal = title_sent _ (trim f.title) (λ e. ground (arith, e)) (trim_idem f.title);
  task = title_sent _ (trim f.title) (λ e. ground (arith, e)) (trim_idem f.title);
  not_both = ground (arith, is_deal f.made_as);
  of_find = ground (arith, is_found f.outcome);
}
