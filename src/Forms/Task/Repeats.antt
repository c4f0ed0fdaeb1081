-- ===== src/Forms/Task/Repeats.antt =====
-- What the form of a task sends about its repetition (frontend-next/src/components/TaskForm.tsx).
use tiny_crm.Prelude.{
  ap, ℕ, ◌≡◌, ◌≤◌, refl, subst, ◌⊎◌, inl, inr, Bool, true, false, ◌&&◌, ◌||◌, not, Option, none,
  some, [], ◌∷◌, Text, truthy, value_from, is_some, arith, leb, leb→le, if◌then◌else◌,
  false-ne-true,
}
use tiny_crm.Due.{text_ltb}
use tiny_crm.Forms.{if_given}
use tiny_crm.Forms.Fields.{AllPass, when_valid-some}
use tiny_crm.Forms.Task.{
  Values, TaskFields, Rule, Priority, low, medium, high, priority_value, trimmed, checks, to_body,
  submit,
}

module _ (local_day end_of_local_day : Text → Text) where
  -- The last day of a series, if it has one, is not before the day of the task.
  abbrev pub EndsInOrder : TaskFields → Type 0
  EndsInOrder b =
      (b.recurrence_until ≡ none)
      ⊎ ((due : Text) × (until : Text) × (b.due_date ≡ some (end_of_local_day due))
          × (b.recurrence_until ≡ some (end_of_local_day until))
          × (text_ltb until due ≡ false))

  pub record IsSeries (b : TaskFields) : Type 0 where
    pub titled : truthy b.title ≡ true
    pub starts : (is_some b.recurrence_rule && not (is_some b.due_date)) ≡ false
    pub ends : (is_some b.recurrence_until && not (is_some b.recurrence_rule)) ≡ false
    pub in_order : EndsInOrder b
    pub interval : (1 ≤ b.recurrence_interval) × (b.recurrence_interval ≤ 366)
    pub once : (not (is_some b.recurrence_rule) && not (leb b.recurrence_interval 1)) ≡ false
    pub priority : b.priority ≤ 2

  priority_value-le : (p : Priority) → priority_value p ≤ 2
  priority_value-le low = omega arith
  priority_value-le medium = omega arith
  priority_value-le high = omega arith

  is_false_of_not : (t : Bool) → not t ≡ true → t ≡ false
  is_false_of_not false h = refl
  is_false_of_not true h = absurd (false-ne-true h)

  starts-due :
      (rule : Option Rule) (due : Text)
      → (not (is_some rule) || truthy due) ≡ true
      → (is_some rule && not (is_some (if_given end_of_local_day due))) ≡ false
  starts-due none due h = refl
  starts-due (some r) [] h = absurd (false-ne-true h)
  starts-due (some r) (c ∷ s) h = refl

  ends-rule :
      (rule : Option Rule) (until : Text)
      → (is_some (if is_some rule && truthy until then some (end_of_local_day until) else none)
          && not (is_some rule))
        ≡ false
  ends-rule none until = refl
  ends-rule (some r) [] = refl
  ends-rule (some r) (c ∷ s) = refl

  in_order-until :
      (v : Values) (rule : Option Rule) (due until : Text)
      → v.rule ≡ rule
      → v.due ≡ due
      → v.until ≡ until
      → (not (is_some rule) || truthy due) ≡ true
      → (not (is_some rule) || not (truthy until) || not (truthy due) || not (text_ltb until due))
        ≡ true
      → EndsInOrder (to_body local_day end_of_local_day v)
  unfolding to_body
  in_order-until v none due until r d u h g = inl (rw r)
  in_order-until v (some r') due [] r d u h g = inl (rw (r, u))
  in_order-until v (some r') [] (c ∷ s) r d u h g = absurd (false-ne-true h)
  in_order-until v (some r') (c' ∷ s') (c ∷ s) r d u h g = inr (
    c' ∷ s',
    c ∷ s,
    ap (if_given end_of_local_day) d,
    rw (r, u),
    is_false_of_not (text_ltb (c ∷ s) (c' ∷ s')) g,
  )

  interval-bounds :
      (rule : Option Rule) (n : ℕ)
      → 1 ≤ n
      → n ≤ 366
      → (1 ≤ (if is_some rule then n else 1)) × ((if is_some rule then n else 1) ≤ 366)
  interval-bounds none n h g = (omega arith, omega arith)
  interval-bounds (some r) n h g = (h, g)

  once-rule :
      (rule : Option Rule) (n : ℕ)
      → (not (is_some rule) && not (leb (if is_some rule then n else 1) 1)) ≡ false
  once-rule none n = refl
  once-rule (some r) n = refl

  to_body-IsSeries :
      (v : Values) → AllPass (checks v) → IsSeries (to_body local_day end_of_local_day v)
  unfolding checks to_body
  to_body-IsSeries v (title, (interval, (due, (until, _)))) =
      let at_least = leb→le 1 (value_from 0 v.interval) (ground (arith, interval)) in
      let at_most = leb→le (value_from 0 v.interval) 366 (ground (arith, interval)) in
      record {
        titled = title;
        starts = starts-due v.rule v.due due;
        ends = ends-rule v.rule v.until;
        in_order = in_order-until v v.rule v.due v.until refl refl refl due until;
        interval = interval-bounds v.rule (value_from 0 v.interval) at_least at_most;
        once = once-rule v.rule (value_from 0 v.interval);
        priority = priority_value-le v.priority;
      }

  -- Whatever is typed and chosen: a task that is handed on has a title; one that repeats has a due date,
  -- repeats every 1 to 366 units, and does not end before it is due; one that does not repeat has no
  -- last day and the interval 1; and the priority is 0, 1 or 2.
  pub submit-IsSeries :
      (v : Values) (b : TaskFields) → submit local_day end_of_local_day v ≡ some b → IsSeries b
  unfolding submit
  submit-IsSeries v b h =
      let (valid, same) =
        when_valid-some (checks (trimmed v)) (to_body local_day end_of_local_day (trimmed v)) b h in
      subst IsSeries same (to_body-IsSeries (trimmed v) valid)
