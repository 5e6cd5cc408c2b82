-- ===== src/Permissions/Tests.antt =====
-- A role as an administrator may have typed it, and one that does not exist.
use ai_wa_chat_agent_be.Prelude.{◌≡◌, refl, some, leb, if◌then◌else◌}
use ai_wa_chat_agent_be.Prelude.Text.{codes, text_eq, is_one_of, strip, lower}
use ai_wa_chat_agent_be.Permissions.{
  Answer, normalize_role, role_perms, has_permission, require_permission,
}
use ai_wa_chat_agent_be.Permissions.Ladder.{rung, rung_needed, written, require_permission-ladder}

typed_moderator :
    require_permission (some (codes " Moderator ")) (codes "view_audit") ≡ Answer.allowed
unfolding require_permission has_permission normalize_role role_perms is_one_of text_eq strip lower
typed_moderator = refl

unknown_role :
    require_permission (some (codes "owner")) (codes "manage_agents") ≡ Answer.http_exception 403
unfolding require_permission has_permission normalize_role role_perms is_one_of text_eq strip lower
unknown_role = refl

require_permission-ladder_example :
    require_permission (some (codes " Moderator ")) (codes "ai.view_costs") ≡ (
      if leb (rung_needed (codes "ai.view_costs")) (rung (written (some (codes " Moderator "))))
      then Answer.allowed
      else Answer.http_exception 403)
require_permission-ladder_example =
    require_permission-ladder (some (codes " Moderator ")) (codes "ai.view_costs")
