-- ===== src/Security/Rbac/Nesting.antt =====
-- How the permissions of the roles compare: src/aidss/security/rbac.py.
use stock_recommendation_be.Base.{
  ◌≡◌, ◌≢◌, String, false, ◌&&◌, ◌||◌, str_eq, str_eq_iff, arith, Bool-cases, inl, inr,
}
use stock_recommendation_be.Security.Rbac.{
  viewer, investor, admin, manage_providers, read_audit_log, role_permissions, role, text,
  parse_role, permissions_for, has_permission,
}

-- What a viewer may do, an investor may; what an investor may do, an administrator may; and beyond an
-- investor, an administrator may manage providers and read the audit log, and nothing else.
pub roles_nest :
    (p : String)
    → ((has_permission (role viewer) p && has_permission (role investor) p)
        ≡ has_permission (role viewer) p)
      × ((has_permission (role investor) p && has_permission (role admin) p)
          ≡ has_permission (role investor) p)
      × (has_permission (role admin) p ≡ (
          has_permission (role investor) p
          || (str_eq p manage_providers || str_eq p read_audit_log)))
unfolding has_permission permissions_for role_permissions
roles_nest p = (ground arith, ground arith, ground arith)

str_ne_false : (s t : String) → s ≢ t → str_eq s t ≡ false
str_ne_false s t n = elim (Bool-cases (str_eq s t)) [
  | inl e ↦ absurd (n ((str_eq_iff s t).0 e))
  | inr e ↦ e
]

-- The text of no role has no permission.
pub unknown_role_may_nothing :
    (s p : String) → s ≢ "viewer" → s ≢ "investor" → s ≢ "admin" → has_permission (text s) p ≡ false
unfolding has_permission permissions_for parse_role
unknown_role_may_nothing s p v i a =
    ground (arith, str_ne_false s "viewer" v, str_ne_false s "investor" i, str_ne_false s "admin" a)
