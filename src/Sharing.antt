-- ===== src/Sharing.antt =====
-- What is shared with the application: frontend-next/src/routes/_authed/capture.tsx.
pub mod Parts
pub mod Once
mod Tests
use tiny_crm.Prelude.{
  ℕ, ◌+◌, Bool, true, false, ◌&&◌, ◌||◌, not, Option, none, some, List, [], ◌∷◌, ◌++◌, Text, codes,
  text_eq, truthy, trim, any, join, is_some, if◌then◌else◌,
}

abbrev pub includes : List Text → Text → Bool
includes seen t = any (λ s. text_eq s t) seen

abbrev pub trimmed : Option Text → Text
trimmed none = trim []
trimmed (some part) = trim part

-- The loop of `composeRaw`; a parameter that is missing is `none`.
unfoldable pub parts_seen : List (Option Text) → List Text → List Text
parts_seen [] seen = seen
parts_seen (part ∷ parts) seen =
    let pushed = parts_seen parts (seen ++ trimmed part ∷ []) in
    let passed = parts_seen parts seen in
    if truthy (trimmed part) && not (includes seen (trimmed part)) then pushed else passed

-- `composeRaw`.
unfoldable pub compose_raw : List (Option Text) → Text
unfolding parts_seen join
compose_raw parts = join (codes " ") (parts_seen parts [])

-- What becomes of the request: `stored` once it is answered, before the address is replaced.
pub data Save : Type 0 where
  idle pending failed : Save
  stored : Text → Save

-- The page of a share: what was shared, `saved` of the address, `started`, and the request. Beside it how
-- many captures the server has of it, how often the page was loaded again before it was saved, and how
-- many answers were lost though the server had stored the capture.
pub record SharedCapture : Type 0 where
  pub raw : Text
  pub saved : Option Text
  pub started : Bool
  pub save : Save
  pub captures : ℕ
  pub reloads : ℕ
  pub losses : ℕ

-- The effect after a rendering, the answers, one lost after the server has stored the capture, a refusal
-- or a request that never arrived, the address replaced, "Try again", and the page loaded
-- again, before a request on its way reaches the server or after.
pub data Event : Type 0 where
  rendered : Event
  answered : Text → Event
  answer_lost : Event
  refused : Event
  navigated : Event
  try_again : Event
  reloaded : Event
  cut_off : Event

abbrev pub store : Text → Save → SharedCapture → SharedCapture
store id pending w = record w { save = stored id; captures = w.captures + 1 }
store id idle w = w
store id failed w = w
store id (stored other) w = w

-- `onError` without an answer: the capture is stored, and the page does not know.
abbrev pub lose : Save → SharedCapture → SharedCapture
lose pending w = record w { save = failed; captures = w.captures + 1; losses = w.losses + 1 }
lose idle w = w
lose failed w = w
lose (stored other) w = w

abbrev pub refuse : Save → SharedCapture → SharedCapture
refuse pending w = record w { save = failed }
refuse idle w = w
refuse failed w = w
refuse (stored other) w = w

abbrev pub replace_address : Save → SharedCapture → SharedCapture
replace_address (stored id) w = record w { saved = some id }
replace_address idle w = w
replace_address pending w = w
replace_address failed w = w

abbrev pub retry : Save → SharedCapture → SharedCapture
retry failed w = record w { save = pending }
retry idle w = w
retry pending w = w
retry (stored other) w = w

abbrev pub reload : SharedCapture → SharedCapture
reload w = record w {
  started = false;
  save = idle;
  reloads = if is_some w.saved then w.reloads else w.reloads + 1;
}

-- A request that the page does not wait for any more is stored all the same.
abbrev pub store_late : Save → SharedCapture → SharedCapture
store_late pending w = record w { captures = w.captures + 1 }
store_late idle w = w
store_late failed w = w
store_late (stored other) w = w

unfoldable pub step : Event → SharedCapture → SharedCapture
step rendered w =
    if w.started || (is_some w.saved || not (truthy w.raw))
    then w
    else record w { started = true; save = pending }
step (answered id) w = store id w.save w
step answer_lost w = lose w.save w
step refused w = refuse w.save w
step navigated w = replace_address w.save w
step try_again w = retry w.save w
step reloaded w = reload w
step cut_off w = reload (store_late w.save w)

unfoldable pub run : List Event → SharedCapture → SharedCapture
unfolding step
run [] w = w
run (e ∷ es) w = run es (step e w)

-- The page as the share sheet opens it.
abbrev pub arrived : List (Option Text) → SharedCapture
unfolding compose_raw
arrived parts = record {
  raw = compose_raw parts;
  saved = none;
  started = false;
  save = idle;
  captures = 0;
  reloads = 0;
  losses = 0;
}
