-- ===== src/Security/Rbac.antt =====
-- Roles and permissions: src/aidss/security/rbac.py. A permission is the text that it is in the source.
pub mod Nesting
use stock_recommendation_be.Base.{
  String, Bool, Option, none, some, List, [], ◌∷◌, any, str_eq, if◌then◌else◌,
}

pub data UserRole : Type 0 where
  viewer : UserRole
  investor : UserRole
  admin : UserRole

abbrev pub read_market_data : String
read_market_data = "read:market_data"

abbrev pub read_analysis : String
read_analysis = "read:analysis"

abbrev pub manage_own_data : String
manage_own_data = "manage:own_data"

abbrev pub trigger_ingestion : String
trigger_ingestion = "trigger:ingestion"

abbrev pub manage_providers : String
manage_providers = "manage:providers"

abbrev pub read_audit_log : String
read_audit_log = "read:audit_log"

-- `_ROLE_PERMISSIONS`.
unfoldable pub role_permissions : UserRole → List String
role_permissions viewer = read_market_data ∷ read_analysis ∷ []
role_permissions investor =
    read_market_data ∷ read_analysis ∷ manage_own_data ∷ trigger_ingestion ∷ []
role_permissions admin =
    read_market_data ∷ read_analysis ∷ manage_own_data ∷ trigger_ingestion ∷ manage_providers
    ∷ read_audit_log ∷ []

-- A role, or the text of one.
pub data RoleName : Type 0 where
  role : UserRole → RoleName
  text : String → RoleName

-- `UserRole(...)` of a text; `none` is the ValueError.
unfoldable pub parse_role : String → Option UserRole
parse_role s =
    if str_eq s "viewer"
    then some viewer
    else if str_eq s "investor"
    then some investor
    else if str_eq s "admin"
    then some admin
    else none

unfoldable pub permissions_for : RoleName → List String
unfolding role_permissions parse_role
permissions_for (role r) = role_permissions r
permissions_for (text s) = elim (parse_role s) [ none ↦ [] | some r ↦ role_permissions r ]

unfoldable pub has_permission : RoleName → String → Bool
unfolding permissions_for
has_permission r permission = any (str_eq permission) (permissions_for r)
