-- ===== src/Forms/Organization/Tests.antt =====
-- A pasted address (frontend-next/src/components/OrganizationForm.tsx).
use tiny_crm.Prelude.{◌≡◌, refl, codes, starts_with}
use tiny_crm.Forms.Organization.{bare_domain}

example_com : bare_domain (codes "HTTPS://example.com/about") ≡ codes "example.com"
unfolding bare_domain starts_with
example_com = refl
