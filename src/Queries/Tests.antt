-- ===== src/Queries/Tests.antt =====
-- Runs of the query layer of frontend-next/src, and its theorems at an input.
use mathlib.Core.Option
use tiny_crm.Prelude.{
  ◌≡◌, refl, Bool, true, false, ◌&&◌, Option, none, some, [], ◌∷◌, codes, text_eq, ℕ, trim,
  is_space,
}
use tiny_crm.Queries.{Key, Part, plain, object, word, missing, flag, number, words}
use tiny_crm.Queries.Search.{searched}
use tiny_crm.Queries.Asked.{Asked, request_of, contact_list}
use tiny_crm.Queries.Cached.{same_key-same_request}

-- A partial match: a filter's key, all of it texts, begins the key of the query.
abbrev same_part : Part → Part → Bool
same_part (plain (word s)) (plain (word t)) = text_eq s t
same_part (plain missing) q = true
same_part (plain (word s)) (plain missing) = false
same_part (plain (word s)) (plain (flag b)) = false
same_part (plain (word s)) (plain (number n)) = false
same_part (plain (word s)) (plain (words ts)) = false
same_part (plain (word s)) (object fs) = false
same_part (plain (flag b)) q = true
same_part (plain (number n)) q = true
same_part (plain (words ts)) q = true
same_part (object fs) q = true

unfoldable begins : Key → Key → Bool
begins [] l = true
begins (p ∷ k) [] = false
begins (p ∷ k) (q ∷ l) = same_part p q && begins k l

abbrev leads : Option ℕ → Asked
leads page = contact_list record {
  q = some (codes "ada");
  status = some (codes "lead");
  relation = none;
  archived = none;
  page = page;
}

same_key-same_request_example : request_of [] (leads none) ≡ request_of [] (leads (some 1))
same_key-same_request_example = same_key-same_request [] (leads none) (leads (some 1)) refl

find_ada : Option.map (λ r. r.query) (searched (codes " a ") none none none) ≡ none
unfolding searched trim is_space
find_ada = refl
