-- ===== src/Triage/Queue.antt =====
-- Where a worked capture leads (frontend-next/src/routes/_authed/inbox/$captureId.tsx).
use tiny_crm.Prelude.{
  ℕ, suc, ◌≡◌, refl, subst, Bool, true, false, ◌||◌, Option, none, some, List, [], ◌∷◌, Text,
  text_eq, any, all, Bool-cases, inl, inr, text_eq_iff, text_eq_refl,
}
use tiny_crm.Triage.{Capture, after_head, find_index, next_index, at, find_other, or_other, next_of}

abbrev pub waits : List Capture → Text → Bool
waits queue id = any (λ d. text_eq d.id id) queue

-- No two captures that wait have the same id.
abbrev pub Distinct : List Capture → Type 0
Distinct [] = Unit
Distinct (c ∷ cs) = (waits cs c.id ≡ false) × Distinct cs

abbrev pub IsNext : List Capture → Text → Option Capture → Type 0
IsNext queue id none = all (λ d. text_eq d.id id) queue ≡ true
IsNext queue id (some c) = (waits queue c.id ≡ true) × (text_eq c.id id ≡ false)

waits-later :
    (c : Capture) (cs : List Capture) (id : Text) → waits cs id ≡ true → waits (c ∷ cs) id ≡ true
waits-later c cs id h = rw h (or_true (text_eq c.id id))
  where
    or_true : (b : Bool) → (b || true) ≡ true
    or_true true = refl
    or_true false = refl

waits-head : (c : Capture) (cs : List Capture) → waits (c ∷ cs) c.id ≡ true
waits-head c cs = rw (text_eq_refl c.id)

find_other-IsNext : (queue : List Capture) (id : Text) → IsNext queue id (find_other id queue)
unfolding find_other
find_other-IsNext [] id = refl
find_other-IsNext (c ∷ cs) id = elim (Bool-cases (text_eq c.id id)) [
  | inl e ↦ rw e (later (find_other id cs) (find_other-IsNext cs id) e)
  | inr e ↦ rw e (waits-head c cs, e)
]
  where
    later : (o : Option Capture) → IsNext cs id o → text_eq c.id id ≡ true → IsNext (c ∷ cs) id o
    later none h e = rw (e, h)
    later (some d) h e = (waits-later c cs d.id h.0, h.1)

-- A capture that is found, if one is.
abbrev IsFound : List Capture → Text → Option Capture → Type 0
IsFound queue id none = Unit
IsFound queue id (some c) = (waits queue c.id ≡ true) × (text_eq c.id id ≡ false)

IsFound-later :
    (x : Capture) (cs : List Capture) (id : Text) (o : Option Capture)
    → IsFound cs id o
    → IsFound (x ∷ cs) id o
IsFound-later x cs id none h = tt
IsFound-later x cs id (some c) h = (waits-later x cs c.id h.0, h.1)

-- The one behind the first.
second-IsFound :
    (x : Capture) (cs : List Capture) (id : Text)
    → text_eq x.id id ≡ true
    → waits cs x.id ≡ false
    → IsFound (x ∷ cs) id (at 0 cs)
second-IsFound x [] id e d = tt
second-IsFound x (y ∷ ys) id e d = (
  waits-later x (y ∷ ys) y.id (waits-head y ys),
  subst (λ t. text_eq y.id t ≡ false) ((text_eq_iff x.id id).0 e)
      (or_false_left (text_eq y.id x.id) (waits ys x.id) d),
)
  where
    or_false_left : (a b : Bool) → (a || b) ≡ false → a ≡ false
    or_false_left true b h = h
    or_false_left false b h = refl

further-IsFound :
    (x : Capture) (cs : List Capture) (id : Text) (o : Option ℕ)
    → text_eq x.id id ≡ false
    → IsFound cs id (at (next_index o) cs)
    → IsFound (x ∷ cs) id (at (next_index (after_head o)) (x ∷ cs))
further-IsFound x cs id none e h = (waits-head x cs, e)
further-IsFound x cs id (some i) e h = IsFound-later x cs id (at (suc i) cs) h

at-next_index :
    (queue : List Capture) (id : Text)
    → Distinct queue
    → IsFound queue id (at (next_index (find_index id queue)) queue)
unfolding find_index
at-next_index [] id d = tt
at-next_index (x ∷ cs) id d = elim (Bool-cases (text_eq x.id id)) [
  | inl e ↦ rw e (second-IsFound x cs id e d.0)
  | inr e ↦ rw e (further-IsFound x cs id (find_index id cs) e (at-next_index cs id d.1))
]

or_other-IsNext :
    (queue : List Capture) (id : Text) (o p : Option Capture)
    → IsFound queue id o
    → IsNext queue id p
    → IsNext queue id (or_other o p)
or_other-IsNext queue id none p h g = g
or_other-IsNext queue id (some c) p h g = h

-- Where no two captures that wait have the same id: the capture that the page of another leads to is
-- one that waits, and never the one that is being worked; only when no other waits there is none.
pub next_of-IsNext :
    (queue : List Capture) (id : Text) → Distinct queue → IsNext queue id (next_of queue id)
unfolding next_of
next_of-IsNext queue id d =
    or_other-IsNext queue id (at (next_index (find_index id queue)) queue) (find_other id queue)
      (at-next_index queue id d) (find_other-IsNext queue id)
