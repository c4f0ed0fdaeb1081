-- ===== src/MoveDeal/Requests.antt =====
-- What the server is asked: frontend-next/src/useMoveDeal.ts and `moveDeal` of
-- frontend-next/src/deals.ts.
use tiny_crm.Prelude.{
  trim_idem, trim, ◌≡◌, refl, inl, inr, Bool, true, false, Option, none, some, List, [], ◌∷◌, Text,
  truthy, All, All-append, Bool-cases,
}
use tiny_crm.Deals.{Stage, lost, DealRead, stage_eq}
use tiny_crm.MoveDeal.{
  StageChange, MoveDeal, or_null, move_deal, mutate, move, confirmed, Event, moved, confirmed_lost,
  cancelled_lost, arrived, settled, step, run,
}

-- A reason goes with a lost deal alone, and is trimmed and not empty.
abbrev pub ReasonFor : Bool → Option Text → Type 0
ReasonFor is_lost none = Unit
ReasonFor is_lost (some reason) = (is_lost ≡ true) × (truthy reason ≡ true) × (trim reason ≡ reason)

abbrev pub IsReasoned : StageChange → Type 0
IsReasoned r = ReasonFor (stage_eq r.stage lost) r.lost_reason

abbrev pub IsTrimmed : Option Text → Type 0
IsTrimmed none = Unit
IsTrimmed (some reason) = trim reason ≡ reason

or_null-ReasonFor : (reason : Option Text) → IsTrimmed reason → ReasonFor true (or_null reason)
or_null-ReasonFor none h = tt
or_null-ReasonFor (some []) h = tt
or_null-ReasonFor (some (c ∷ s)) h = (refl, refl, h)

move_deal-IsReasoned :
    (id : Text) (stage : Stage) (reason : Option Text)
    → IsTrimmed reason
    → IsReasoned (move_deal id stage reason)
unfolding move_deal
move_deal-IsReasoned id stage reason t = elim (Bool-cases (stage_eq stage lost)) [
  | inl e ↦ rw e (or_null-ReasonFor reason t)
  | inr e ↦ rw e tt
]

module _ (P : StageChange → Type 0) where
  mutate-sent :
      (deal : DealRead) (stage : Stage) (reason : Option Text) (s : MoveDeal)
      → P (move_deal deal.id stage reason)
      → All P s.sent
      → All P (mutate deal stage reason s).sent
  unfolding mutate
  mutate-sent deal stage reason s p h =
      All-append P s.sent (move_deal deal.id stage reason ∷ []) h (p, tt)

  move-sent :
      (deal : DealRead) (stage : Stage) (s : MoveDeal)
      → (stage_eq stage lost ≡ false → P (move_deal deal.id stage none))
      → All P s.sent
      → All P (move deal stage s).sent
  unfolding move
  move-sent deal stage s p h = elim (Bool-cases (stage_eq deal.stage stage)) [
    | inl e ↦ rw (e, move) h
    | inr e ↦
        rw (e, move)
          (elim (Bool-cases (stage_eq stage lost)) [
            | inl k ↦ rw k h
            | inr k ↦ rw k (mutate-sent deal stage none s (p k) h)
          ])
  ]

confirmed-IsReasoned :
    (reason : Text) (o : Option DealRead) (s : MoveDeal)
    → trim reason ≡ reason
    → All IsReasoned s.sent
    → All IsReasoned (confirmed reason o s).sent
unfolding confirmed
confirmed-IsReasoned reason none s t h = h
confirmed-IsReasoned reason (some deal) s t h =
    mutate-sent IsReasoned deal lost (some reason) s
      (move_deal-IsReasoned deal.id lost (some reason) t) h

step-IsReasoned :
    (e : Event) (s : MoveDeal) → All IsReasoned s.sent → All IsReasoned (step e s).sent
unfolding step
step-IsReasoned (moved deal stage) s h =
    move-sent IsReasoned deal stage s (λ k. move_deal-IsReasoned deal.id stage none tt) h
step-IsReasoned (confirmed_lost reason) s h =
    confirmed-IsReasoned (trim reason) s.asking_why s (trim_idem reason) h
step-IsReasoned cancelled_lost s h = h
step-IsReasoned (arrived n p) s h = h
step-IsReasoned settled s h = h

-- Whatever happens, and whatever is typed as a reason: if it holds of the requests sent before, then
-- every request that is sent gives a reason only for a lost deal, and only one that is trimmed and
-- not empty.
pub run-IsReasoned :
    (es : List Event) (s : MoveDeal) → All IsReasoned s.sent → All IsReasoned (run es s).sent
unfolding run
run-IsReasoned [] s h = h
run-IsReasoned (e ∷ es) s h = run-IsReasoned es (step e s) (step-IsReasoned e s h)

abbrev pub is_confirm : Event → Bool
is_confirm (confirmed_lost reason) = true
is_confirm _ = false

-- A request that does not lose the deal.
abbrev pub KeepsDeal : StageChange → Type 0
KeepsDeal r = stage_eq r.stage lost ≡ false

step-KeepsDeal :
    (e : Event) (s : MoveDeal)
    → is_confirm e ≡ false
    → All KeepsDeal s.sent
    → All KeepsDeal (step e s).sent
unfolding step
step-KeepsDeal (moved deal stage) s c h =
    move-sent KeepsDeal deal stage s (λ k. unfold move_deal in k) h
step-KeepsDeal (confirmed_lost reason) s c h = cc
step-KeepsDeal cancelled_lost s c h = h
step-KeepsDeal (arrived n p) s c h = h
step-KeepsDeal settled s c h = h

-- No deal is lost before the question is answered: without a confirmation, whatever else happens,
-- no request moves a deal to Lost.
pub run-KeepsDeal :
    (es : List Event) (s : MoveDeal)
    → All (λ e. is_confirm e ≡ false) es
    → All KeepsDeal s.sent
    → All KeepsDeal (run es s).sent
unfolding run
run-KeepsDeal [] s c h = h
run-KeepsDeal (e ∷ es) s c h = run-KeepsDeal es (step e s) c.1 (step-KeepsDeal e s c.0 h)
