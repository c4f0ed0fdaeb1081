-- ===== src/Forms/Watch/Opens.antt =====
-- What the form of a source sends (frontend-next/src/components/WatchForm.tsx) opens as it is stored
-- (safeUrl of frontend-next/src/watches.ts).
use tiny_crm.Prelude.{
  ◌≡◌, ◌≤◌, refl, subst, Bool, true, false, some, ◌++◌, Text, codes, truthy, value_from, leb→le,
  arith, if◌then◌else◌, starts_with,
}
use tiny_crm.Safe.{is_http, safe_url}
use tiny_crm.Forms.Fields.{AllPass, when_valid-some}
use tiny_crm.Forms.Watch.{Values, WatchCreate, trimmed, checks, to_body, submit}

pub record IsSource (w : WatchCreate) : Type 0 where
  pub named : truthy w.name ≡ true
  pub web : is_http w.url ≡ true
  pub opens : safe_url w.url ≡ w.url
  pub interval : (1 ≤ w.recurrence_interval) × (w.recurrence_interval ≤ 366)

is_http-https : (v : Text) → is_http (codes "https://" ++ v) ≡ true
unfolding is_http starts_with
is_http-https v = refl

is_http-if : (v : Text) → is_http (if is_http v then v else codes "https://" ++ v) ≡ true
is_http-if v = by_test (is_http v) refl
  where
    by_test : (b : Bool) → is_http v ≡ b → is_http (if b then v else codes "https://" ++ v) ≡ true
    by_test true e = e
    by_test false e = is_http-https v

safe_url-kept : (u : Text) → is_http u ≡ true → safe_url u ≡ u
unfolding safe_url
safe_url-kept u h = rw h

to_body-IsSource : (v : Values) → AllPass (checks v) → IsSource (to_body v)
unfolding checks to_body
to_body-IsSource v (name, (filled, (web, (interval, _)))) =
    let is_web = is_http-if v.url in
    record {
      named = name;
      web = is_web;
      opens = safe_url-kept _ is_web;
      interval = (
        leb→le 1 (value_from 0 v.recurrence_interval) (ground (arith, interval)),
        leb→le (value_from 0 v.recurrence_interval) 366 (ground (arith, interval)),
      );
    }

-- Whatever is typed and chosen: a source that is handed on has a name, is swept every 1 to 366 units,
-- and has an address that begins with http:// or https://, which is opened just as it is stored.
pub submit-IsSource : (v : Values) (w : WatchCreate) → submit v ≡ some w → IsSource w
unfolding submit
submit-IsSource v w h =
    let (valid, same) = when_valid-some (checks (trimmed v)) (to_body (trimmed v)) w h in
    subst IsSource same (to_body-IsSource (trimmed v) valid)
