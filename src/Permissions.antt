-- ===== src/Permissions.antt =====
-- app/security/permissions.py: the roles, what each may do, and the check that answers 403.
pub mod Ladder
mod Tests
use ai_wa_chat_agent_be.Prelude.{
  ℕ, Bool, true, false, Option, none, some, List, [], ◌∷◌, if◌then◌else◌,
}
use ai_wa_chat_agent_be.Prelude.Text.{Text, codes, text_eq, or_text, is_one_of, strip, lower}

abbrev pub admin_perms : List Text
admin_perms =
    codes "manage_users"
    ∷ codes "manage_campaigns"
    ∷ codes "manage_templates"
    ∷ codes "export_leads"
    ∷ codes "view_audit"
    ∷ codes "change_account_settings"
    ∷ codes "manage_agents"
    ∷ codes "campaigns.create"
    ∷ codes "campaigns.manage"
    ∷ codes "campaigns.start"
    ∷ codes "campaigns.approve_ai"
    ∷ codes "campaigns.use_no_review"
    ∷ codes "agents.use_in_campaigns"
    ∷ codes "ai.view_costs"
    ∷ []

abbrev pub moderator_perms : List Text
moderator_perms =
    codes "manage_campaigns"
    ∷ codes "manage_templates"
    ∷ codes "export_leads"
    ∷ codes "view_audit"
    ∷ codes "change_account_settings"
    ∷ codes "manage_agents"
    ∷ codes "campaigns.create"
    ∷ codes "campaigns.manage"
    ∷ codes "campaigns.start"
    ∷ codes "campaigns.approve_ai"
    ∷ codes "campaigns.use_no_review"
    ∷ codes "agents.use_in_campaigns"
    ∷ codes "ai.view_costs"
    ∷ []

abbrev pub agent_perms : List Text
agent_perms =
    codes "manage_campaigns"
    ∷ codes "manage_templates"
    ∷ codes "export_leads"
    ∷ codes "change_account_settings"
    ∷ codes "campaigns.create"
    ∷ codes "campaigns.manage"
    ∷ codes "campaigns.start"
    ∷ codes "campaigns.approve_ai"
    ∷ codes "agents.use_in_campaigns"
    ∷ []

abbrev pub user_perms : List Text
user_perms =
    codes "manage_campaigns"
    ∷ codes "manage_templates"
    ∷ codes "export_leads"
    ∷ codes "change_account_settings"
    ∷ codes "campaigns.create"
    ∷ codes "campaigns.manage"
    ∷ codes "campaigns.start"
    ∷ codes "campaigns.approve_ai"
    ∷ codes "agents.use_in_campaigns"
    ∷ []

-- the keys of ROLE_PERMS
abbrev pub roles : List Text
roles = codes "admin" ∷ codes "moderator" ∷ codes "agent" ∷ codes "user" ∷ []

-- ROLE_PERMS.get(role, ROLE_PERMS["user"])
unfoldable pub role_perms : Text → List Text
role_perms role =
    if text_eq role (codes "admin")
    then admin_perms
    else if text_eq role (codes "moderator")
    then moderator_perms
    else if text_eq role (codes "agent")
    then agent_perms
    else user_perms

unfoldable pub normalize_role : Option Text → Text
normalize_role role =
    let r = lower (strip (or_text role (codes "user"))) in
    if text_eq r (codes "agent")
    then codes "agent"
    else if is_one_of r roles
    then r
    else codes "user"

unfoldable pub has_permission : Option Text → Text → Bool
has_permission role perm = is_one_of perm (role_perms (normalize_role role))

pub data Answer : Type 0 where
  allowed : Answer
  http_exception : ℕ → Answer

unfoldable pub require_permission : Option Text → Text → Answer
require_permission role perm =
    if has_permission role perm then Answer.allowed else Answer.http_exception 403
