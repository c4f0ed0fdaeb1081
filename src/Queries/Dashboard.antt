-- ===== src/Queries/Dashboard.antt =====
-- The signed-in user, the dashboard and the state of the system: frontend-next/src/auth.ts (`meQuery`),
-- frontend-next/src/metrics.ts (`metricsQuery`), frontend-next/src/routes/_authed/index.tsx and
-- frontend-next/src/routes/_authed/system.tsx.
use tiny_crm.Prelude.{false, [], ◌∷◌, Text, codes}
use tiny_crm.Queries.{word, number, plain, Query, name, field, asks}

abbrev pub me_query : Query
me_query = record { key = name "me" ∷ []; request = asks "/users/me" [] []; keeps_previous = false }

abbrev pub metrics_query : Text → Query
metrics_query period = record {
  key = name "metrics" ∷ name "dashboard" ∷ plain (word period) ∷ [];
  request = asks "/metrics/dashboard" [] (field "period" (word period) ∷ []);
  keeps_previous = false;
}

abbrev pub briefing_query : Query
briefing_query = record {
  key = name "briefing" ∷ [];
  request = asks "/briefing/" [] [];
  keeps_previous = false;
}

-- `openDealsQuery`: only the total of the answer is kept.
abbrev pub open_deals_query : Query
open_deals_query = record {
  key = name "count" ∷ name "deals" ∷ name "open" ∷ [];
  request =
      asks "/deals/" [] (field "limit" (number 1) ∷ field "status" (word (codes "open")) ∷ []);
  keeps_previous = false;
}

abbrev pub version_query : Query
version_query = record {
  key = name "system" ∷ name "version" ∷ [];
  request = asks "/version" [] [];
  keeps_previous = false;
}

abbrev pub health_query : Query
health_query = record {
  key = name "system" ∷ name "health" ∷ [];
  request = asks "/health" [] [];
  keeps_previous = false;
}
