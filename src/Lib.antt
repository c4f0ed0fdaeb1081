-- ===== src/Lib.antt =====
-- The web client of tinyCRM (frontend-next/src): what it decides by itself, apart from its markup.
--
-- The client is a React application over one JSON API. Its parts, and the files that model them:
--   * Token: the stored pair of tokens and when one is about to expire (token.ts).
--   * Client: the middleware that puts a token on each request, renews it once for all requests that
--     wait, and sends a refused request again (api/client.ts). A tab is a state; what happens to it,
--     an answer of the API or of the refresh endpoint, a network error, another tab's write, is an
--     event; `run` is what a list of events does. Client is a client of Token.
--   * SignIn: the login page, the guard of the pages behind it and the sign-out (auth.ts,
--     routes/login.tsx, routes/_authed.tsx), over Token. What the API answers is an event.
--   * Format: tags as typed, sizes of files, and moments as the fields of the forms show and read them
--     (format.ts). What a `Date` makes of them is a parameter; years before 0 are left out.
--   * Money: an amount as text, grouped and padded without a float (formatMoney of deals.ts).
--   * Deals: stages, scopes of the list, the value of a deal (deals.ts) and the columns of the board
--     (components/DealBoard.tsx); it uses Money.
--   * MoveDeal: a deal dragged to another stage, shown before the server answers (useMoveDeal.ts), with
--     the question why it was lost (components/LostReasonDialog.tsx); it uses Deals. The boards are the cached answers of the API; pages on their way are numbered.
--   * TagPicker: the field of tags (components/TagPicker.tsx), in a form that holds the tags as one
--     text, over Format. `toLowerCase` is a parameter.
--   * Metrics: money summed per currency, and the longest bar of a block (metrics.ts). `localeCompare`
--     is a parameter; a Map is its entries in the order of insertion, an amount that BigInt refuses is
--     `none`.
--   * Paging: the window of a page and its buttons (components/ui/Pagination.tsx), and the calendar's
--     fetch loop (interactions.ts). The server is a parameter: what it answers to skip and limit. The
--     loop runs on fuel; one round more than the server has items is enough, as each brings one.
--   * Safe: links that are opened and names of downloaded files (watches.ts, documents.ts).
--   * Editing: an edit page, the version that its form was opened from and the save that is refused
--     when the record has moved on (useEditVersion.ts, an edit page of routes/_authed, and
--     check_version of backend/app/audit.py). The page's events and the server's steps interleave.
--   * Due: what is due, planned, overdue or finished (watches.ts, tasks.ts, interactions.ts,
--     projects.ts). `Date.parse` is a parameter.
--   * Shell: the retries of a query and the way to the login page (main.tsx). The tries run on fuel:
--     no more than four follow each other.
--   * Forms: what a form starts from, what its schema refuses and what it sends
--     (components/DealForm.tsx, ContactForm.tsx, TaskForm.tsx, WatchForm.tsx, OrganizationForm.tsx,
--     ProjectForm.tsx, DocumentForm.tsx, InteractionForm.tsx). A form with an issue sends nothing. The
--     check of an address of e-mail and the days of the browser's zone are parameters.
--   * Queries: each query's key and request, each write's request and body, and what a write makes
--     stale (contacts.ts, organizations.ts, deals.ts, tasks.ts, interactions.ts, projects.ts,
--     documents.ts, watches.ts, captures.ts, search.ts, tags.ts), with the queries of the user, the
--     dashboard and the system (auth.ts, metrics.ts, routes/_authed/index.tsx, system.tsx). `Asked`
--     names every query of the API, so that a theorem speaks of all of them; how TanStack matches a
--     key is a parameter.
--   * Triage: the inbox worked capture by capture, over Queries and Forms
--     (routes/_authed/inbox/$captureId.tsx).
--   * Pickers: the fields that choose one record or many (components/RecordPickers.tsx,
--     LinksPicker.tsx); what the combobox reports is an event.
--   * Scan: the photos of a business card with the object URLs that they hold, and the form that checks
--     what was read of it (routes/_authed/contacts/scan.tsx), over Forms. `URL` is a parameter.
--   * Calendar: the month of interactions, by day (components/InteractionCalendar.tsx).
--   * ProjectPage: the page of a project, which sends whole lists of links, and the server beside it,
--     to which others write too (routes/_authed/projects/$projectId/index.tsx). What is meant is a
--     change of one link.
--   * Dialogs: the import of a file, the quick note and the log of a sweep
--     (components/ImportDealsDialog.tsx, ImportVCardDialog.tsx, QuickCapture.tsx, CheckDialog.tsx).
--   * Account: new passwords and the words for what is refused (routes/reset-password.tsx,
--     routes/_authed/account/password.tsx, routes/_authed/account/mfa.tsx).
--   * Sharing: what is shared from another application, and that it is filed once
--     (routes/_authed/capture.tsx).
--   * Prelude: texts as lists of UTF-16 code units with the string methods that the client uses, lists,
--     options and Boolean tests over native numbers.
--
-- Paths without a folder are under frontend-next/src. Numbers are natural numbers without a bound: the
-- client's are counts, sizes, and times in milliseconds, far below 2 ^ 53. A date of the API is a text
-- or a moment that a parameter reads.
--
-- Not modelled: the markup of components and routes, the router, the browser (Intl formats, Storage
-- events as such, the service worker), the libraries openapi-fetch, TanStack Query and React Aria,
-- which the models meet as events or parameters, and the backend beyond `check_version`.
pub mod Pickers
pub mod Prelude
pub mod Token
pub mod Client
pub mod Format
pub mod Money
pub mod Deals
pub mod Metrics
pub mod MoveDeal
pub mod Paging
pub mod Safe
pub mod Scan
pub mod Calendar
pub mod ProjectPage
pub mod Dialogs
pub mod Account
pub mod Sharing
pub mod Editing
pub mod Due
pub mod Shell
pub mod Forms
pub mod Queries
pub mod SignIn
pub mod TagPicker
pub mod Triage
