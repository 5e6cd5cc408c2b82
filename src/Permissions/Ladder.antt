-- ===== src/Permissions/Ladder.antt =====
-- The roles as a ladder.
use ai_wa_chat_agent_be.Prelude.{
  ℕ, ◌≡◌, refl, ap, sym, ◌∙◌, false, Bool-cases, inl, inr, Option, List, [], ◌∷◌, arith, All,
  if◌then◌else◌, leb,
}
use ai_wa_chat_agent_be.Prelude.Text.{
  Text, codes, text_eq, eq_of_text_eq, is_one_of, is_one_of-transfer, or_text, strip, lower,
}
use ai_wa_chat_agent_be.Permissions.{
  roles, admin_perms, moderator_perms, agent_perms, user_perms, role_perms, normalize_role,
  has_permission, require_permission, Answer,
}

-- The rung of a role, and the rung that a permission asks for: the users are the business of the
-- admins; audits, agents, costs and sending without review are for moderators too; the rest is for
-- everyone; and what is no permission is for nobody.
unfoldable pub rung : Text → ℕ
rung role =
    if text_eq role (codes "admin") then 3 else if text_eq role (codes "moderator") then 2 else 1

abbrev pub for_moderators : List Text
for_moderators =
    codes "view_audit"
    ∷ codes "manage_agents"
    ∷ codes "ai.view_costs"
    ∷ codes "campaigns.use_no_review"
    ∷ []

abbrev pub for_everyone : List Text
for_everyone =
    codes "manage_campaigns"
    ∷ codes "manage_templates"
    ∷ codes "export_leads"
    ∷ codes "change_account_settings"
    ∷ codes "agents.use_in_campaigns"
    ∷ codes "campaigns.create"
    ∷ codes "campaigns.manage"
    ∷ codes "campaigns.start"
    ∷ codes "campaigns.approve_ai"
    ∷ []

unfoldable pub rung_needed : Text → ℕ
rung_needed perm =
    if text_eq perm (codes "manage_users")
    then 3
    else if is_one_of perm for_moderators
    then 2
    else if is_one_of perm for_everyone
    then 1
    else 4

-- A role is taken as it is written, less the space around it and in lower case; any that is not one
-- of admin and moderator is a user.
abbrev pub written : Option Text → Text
written role = lower (strip (or_text role (codes "user")))

-- normalize_role, of a role as it is written
abbrev known : Text → Text
known r =
    if text_eq r (codes "agent")
    then codes "agent"
    else if is_one_of r roles
    then r
    else codes "user"

known_agent : rung (known (codes "agent")) ≡ rung (codes "agent")
unfolding rung is_one_of text_eq
known_agent = refl

user_rung : rung (codes "user") ≡ 1
unfolding rung text_eq
user_rung = refl

unknown_rung : (r : Text) → is_one_of r roles ≡ false → rung r ≡ 1
unfolding rung is_one_of
unknown_rung r h =
    let no_admin : text_eq r (codes "admin") ≡ false = ground (arith, h) in
    let no_moderator : text_eq r (codes "moderator") ≡ false = ground (arith, h) in
    rw (no_admin, no_moderator) refl

known-rung : (r : Text) → rung (known r) ≡ rung r
known-rung r = elim (Bool-cases (text_eq r (codes "agent"))) [
  | inl y ↦ rw (eq_of_text_eq r (codes "agent") y) known_agent
  | inr n ↦ elim (Bool-cases (is_one_of r roles)) [
    | inl k ↦ rw (n, k) refl
    | inr u ↦ rw (n, u) (user_rung ∙ sym (unknown_rung r u))
  ]
]

normalize_role-rung : (role : Option Text) → rung (normalize_role role) ≡ rung (written role)
unfolding normalize_role
normalize_role-rung role = known-rung (written role)

-- A list of permissions holds those of the rungs up to `n`, if that is so of each that is known, and
-- none is on it that is not.
abbrev Reaches : List Text → ℕ → Text → Type 0
Reaches perms n perm = is_one_of perm perms ≡ leb (rung_needed perm) n

IsUnknown : Text → Type 0
IsUnknown perm =
    (text_eq perm (codes "manage_users") ≡ false)
    × (is_one_of perm for_moderators ≡ false)
    × (is_one_of perm for_everyone ≡ false)

perms-rung :
    (perms : List Text) (n : ℕ) (perm : Text)
    → Reaches perms n (codes "manage_users")
    → All (Reaches perms n) for_moderators
    → All (Reaches perms n) for_everyone
    → (IsUnknown perm → is_one_of perm perms ≡ false)
    → leb 4 n ≡ false
    → Reaches perms n perm
unfolding rung_needed IsUnknown
perms-rung perms n perm top ms es none_else low =
    elim (Bool-cases (text_eq perm (codes "manage_users"))) [
      | inl y ↦ rw (eq_of_text_eq perm (codes "manage_users") y) top
      | inr nt ↦ elim (Bool-cases (is_one_of perm for_moderators)) [
        | inl m ↦ is_one_of-transfer (Reaches perms n) perm for_moderators m ms
        | inr nm ↦ elim (Bool-cases (is_one_of perm for_everyone)) [
          | inl e ↦ is_one_of-transfer (Reaches perms n) perm for_everyone e es
          | inr ne ↦ rw (none_else (nt, nm, ne), nt, nm, ne) (rw low refl)
        ]
      ]
    ]

admin_unknown : (perm : Text) → IsUnknown perm → is_one_of perm admin_perms ≡ false
unfolding IsUnknown is_one_of
admin_unknown perm u = ground (arith, u.0, u.1, u.2)

admin-rung : (perm : Text) → Reaches admin_perms 3 perm
unfolding IsUnknown is_one_of rung_needed text_eq
admin-rung perm =
    perms-rung admin_perms 3 perm refl (refl, (refl, (refl, (refl, tt))))
      (refl, (refl, (refl, (refl, (refl, (refl, (refl, (refl, (refl, tt)))))))))
      (λ u. admin_unknown perm u) refl

moderator_unknown : (perm : Text) → IsUnknown perm → is_one_of perm moderator_perms ≡ false
unfolding IsUnknown is_one_of
moderator_unknown perm u = ground (arith, u.0, u.1, u.2)

moderator-rung : (perm : Text) → Reaches moderator_perms 2 perm
unfolding IsUnknown is_one_of rung_needed text_eq
moderator-rung perm =
    perms-rung moderator_perms 2 perm refl (refl, (refl, (refl, (refl, tt))))
      (refl, (refl, (refl, (refl, (refl, (refl, (refl, (refl, (refl, tt)))))))))
      (λ u. moderator_unknown perm u) refl

agent_unknown : (perm : Text) → IsUnknown perm → is_one_of perm agent_perms ≡ false
unfolding IsUnknown is_one_of
agent_unknown perm u = ground (arith, u.0, u.1, u.2)

agent-rung : (perm : Text) → Reaches agent_perms 1 perm
unfolding IsUnknown is_one_of rung_needed text_eq
agent-rung perm =
    perms-rung agent_perms 1 perm refl (refl, (refl, (refl, (refl, tt))))
      (refl, (refl, (refl, (refl, (refl, (refl, (refl, (refl, (refl, tt)))))))))
      (λ u. agent_unknown perm u) refl

user_unknown : (perm : Text) → IsUnknown perm → is_one_of perm user_perms ≡ false
unfolding IsUnknown is_one_of
user_unknown perm u = ground (arith, u.0, u.1, u.2)

user-rung : (perm : Text) → Reaches user_perms 1 perm
unfolding IsUnknown is_one_of rung_needed text_eq
user-rung perm =
    perms-rung user_perms 1 perm refl (refl, (refl, (refl, (refl, tt))))
      (refl, (refl, (refl, (refl, (refl, (refl, (refl, (refl, (refl, tt)))))))))
      (λ u. user_unknown perm u) refl

role_perms-rung :
    (role perm : Text) → is_one_of perm (role_perms role) ≡ leb (rung_needed perm) (rung role)
unfolding role_perms rung
role_perms-rung role perm = elim (Bool-cases (text_eq role (codes "admin"))) [
  | inl a ↦ rw a (admin-rung perm)
  | inr na ↦ elim (Bool-cases (text_eq role (codes "moderator"))) [
    | inl m ↦ rw (na, m) (moderator-rung perm)
    | inr nm ↦ elim (Bool-cases (text_eq role (codes "agent"))) [
      | inl g ↦ rw (na, nm, g) (agent-rung perm)
      | inr ng ↦ rw (na, nm, ng) (user-rung perm)
    ]
  ]
]

-- A request is allowed if the user's role stands on the rung that the permission asks for or above,
-- and answered with 403 otherwise, whatever is stored as the role and whatever is asked for.
pub require_permission-ladder :
    (role : Option Text) (perm : Text)
    → require_permission role perm ≡ (
        if leb (rung_needed perm) (rung (written role))
        then Answer.allowed
        else Answer.http_exception 403)
unfolding require_permission has_permission
require_permission-ladder role perm =
    ap (λ b. if b then Answer.allowed else Answer.http_exception 403)
      (role_perms-rung (normalize_role role) perm
        ∙ ap (leb (rung_needed perm)) (normalize_role-rung role))
