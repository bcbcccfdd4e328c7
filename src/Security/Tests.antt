-- ===== src/Security/Tests.antt =====
-- Permissions of src/aidss/security/rbac.py at some roles.
use stock_recommendation_be.Base.{◌≡◌, ◌&&◌, ◌||◌, str_eq}
use stock_recommendation_be.Security.Rbac.{
  viewer, investor, admin, role, has_permission, manage_own_data, manage_providers, read_audit_log,
}
use stock_recommendation_be.Security.Rbac.Nesting.{roles_nest}

roles_nest_example :
    let p = manage_own_data in
    ((has_permission (role viewer) p && has_permission (role investor) p)
      ≡ has_permission (role viewer) p)
    × ((has_permission (role investor) p && has_permission (role admin) p)
        ≡ has_permission (role investor) p)
    × (has_permission (role admin) p ≡ (
        has_permission (role investor) p || (str_eq p manage_providers || str_eq p read_audit_log)))
roles_nest_example = roles_nest manage_own_data
