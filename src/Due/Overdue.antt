-- ===== src/Due/Overdue.antt =====
-- What is planned or overdue, and what is said of it (frontend-next/src/interactions.ts,
-- frontend-next/src/tasks.ts, frontend-next/src/watches.ts).
use tiny_crm.Prelude.{
  ℕ, ◌-◌, ◌/◌, ◌≤◌, ◌≡◌, Bool, true, not, ◌&&◌, Option, some, Text, truthy, leb, ltb, arith,
}
use tiny_crm.Due.{is_due, due_label, is_planned, is_overdue_interaction, late_label}

module _ (moment : Text → Option ℕ) (day : Text → Text) where
  -- An interaction whose moment is read is overdue exactly if it is neither marked as happened nor
  -- planned.
  pub is_overdue_interaction-is_planned :
      (done : Bool) (occurred_at : Text) (now t : ℕ)
      → moment occurred_at ≡ some t
      → is_overdue_interaction moment day done occurred_at now
        ≡ (not done && not (is_planned moment day occurred_at now))
  unfolding is_overdue_interaction is_planned
  is_overdue_interaction-is_planned done occurred_at now t e = rw e (by_order done)
    where
      by_order : (done : Bool) → (not done && leb t now) ≡ (not done && not (ltb now t))
      by_order done = ground arith

  -- A watch that was checked and is due is an active one whose moment has come, and its label counts
  -- the whole days since.
  pub due_label-late :
      (is_active : Bool) (last_checked_at next_due_at : Text) (now t : ℕ)
      → truthy last_checked_at ≡ true
      → moment next_due_at ≡ some t
      → is_due moment day is_active next_due_at now ≡ true
      → (is_active ≡ true)
        × (t ≤ now)
        × (due_label moment day is_active last_checked_at next_due_at now
            ≡ late_label ((now - t) / 86400000))
  unfolding due_label
  due_label-late is_active last_checked_at next_due_at now t c m d =
      let (a, b) = due_parts is_active (rw m at d) in (a, b, rw c (rw d (rw m)))
    where
      due_parts :
          (is_active : Bool) → (is_active && leb t now) ≡ true → (is_active ≡ true) × (t ≤ now)
      due_parts is_active h = ground (arith, h)
