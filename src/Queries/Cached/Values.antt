-- ===== src/Queries/Cached/Values.antt =====
-- Reading the values of a key back (the keys of frontend-next/src).
use tiny_crm.Prelude.{
  ℕ, zero, suc, ◌≡◌, refl, Bool, Option, none, some, List, [], ◌∷◌, ◌++◌, Text, codes, text_eq,
  if◌then◌else◌,
}
use tiny_crm.Queries.{
  Plain, missing, word, flag, number, words, Fields, plain, object, Key, maybe_word, maybe_flag,
  maybe_words,
}
use tiny_crm.Queries.Contacts.{or_false}
use tiny_crm.Queries.Watches.{WatchScope, scope_value, due, active, all}
use tiny_crm.Queries.Captures.{InboxTab, tab_value, new, converted, dismissed, archived}
use tiny_crm.Queries.Search.{
  SearchType, type_or_all, contacts, organizations, deals, tasks, interactions, projects, documents,
  watches, captures,
}

-- The values in a key, in order.
abbrev pub field_values : Fields → List Plain
field_values [] = []
field_values ((n, v) ∷ fs) = v ∷ field_values fs

abbrev pub values : Key → List Plain
values [] = []
values (plain v ∷ ps) = v ∷ values ps
values (object fs ∷ ps) = field_values fs ++ values ps

abbrev pub nth : ℕ → List Plain → Plain
nth n [] = missing
nth zero (v ∷ vs) = v
nth (suc n) (v ∷ vs) = nth n vs

abbrev pub text_of : Plain → Option Text
text_of (word t) = some t
text_of missing = none
text_of (flag b) = none
text_of (number n) = none
text_of (words ts) = none

abbrev pub word_of : Plain → Text
word_of (word t) = t
word_of missing = []
word_of (flag b) = []
word_of (number n) = []
word_of (words ts) = []

abbrev pub bool_of : Plain → Option Bool
bool_of (flag b) = some b
bool_of missing = none
bool_of (word t) = none
bool_of (number n) = none
bool_of (words ts) = none

abbrev pub flag_of : Plain → Bool
flag_of v = or_false (bool_of v)

abbrev pub number_of : Plain → ℕ
number_of (number n) = n
number_of missing = 0
number_of (word t) = 0
number_of (flag b) = 0
number_of (words ts) = 0

abbrev pub words_of : Plain → Option (List Text)
words_of (words ts) = some ts
words_of missing = none
words_of (word t) = none
words_of (flag b) = none
words_of (number n) = none

pub text_of-maybe_word : (t : Option Text) → text_of (maybe_word t) ≡ t
text_of-maybe_word none = refl
text_of-maybe_word (some t) = refl

pub bool_of-maybe_flag : (b : Option Bool) → bool_of (maybe_flag b) ≡ b
bool_of-maybe_flag none = refl
bool_of-maybe_flag (some b) = refl

pub words_of-maybe_words : (ts : Option (List Text)) → words_of (maybe_words ts) ≡ ts
words_of-maybe_words none = refl
words_of-maybe_words (some ts) = refl

abbrev pub scope_of : Text → WatchScope
scope_of t =
    if text_eq t (codes "due") then due else if text_eq t (codes "active") then active else all

pub scope_of-scope_value : (s : WatchScope) → scope_of (scope_value s) ≡ s
scope_of-scope_value due = refl
scope_of-scope_value active = refl
scope_of-scope_value all = refl

abbrev pub tab_of : Text → InboxTab
tab_of t =
    if text_eq t (codes "new")
    then new
    else if text_eq t (codes "converted")
    then converted
    else if text_eq t (codes "dismissed")
    then dismissed
    else archived

pub tab_of-tab_value : (s : InboxTab) → tab_of (tab_value s) ≡ s
tab_of-tab_value new = refl
tab_of-tab_value converted = refl
tab_of-tab_value dismissed = refl
tab_of-tab_value archived = refl

abbrev pub type_of : Text → Option SearchType
type_of t =
    if text_eq t (codes "all")
    then none
    else if text_eq t (codes "contacts")
    then some contacts
    else if text_eq t (codes "organizations")
    then some organizations
    else if text_eq t (codes "deals")
    then some deals
    else if text_eq t (codes "tasks")
    then some tasks
    else if text_eq t (codes "interactions")
    then some interactions
    else if text_eq t (codes "projects")
    then some projects
    else if text_eq t (codes "documents")
    then some documents
    else if text_eq t (codes "watches")
    then some watches
    else some captures

pub type_of-type_or_all : (t : Option SearchType) → type_of (type_or_all t) ≡ t
type_of-type_or_all none = refl
type_of-type_or_all (some contacts) = refl
type_of-type_or_all (some organizations) = refl
type_of-type_or_all (some deals) = refl
type_of-type_or_all (some tasks) = refl
type_of-type_or_all (some interactions) = refl
type_of-type_or_all (some projects) = refl
type_of-type_or_all (some documents) = refl
type_of-type_or_all (some watches) = refl
type_of-type_or_all (some captures) = refl
