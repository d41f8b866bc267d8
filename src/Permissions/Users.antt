-- ===== src/Permissions/Users.antt =====
-- user_permissions and what reads and writes it: _check_can_access, require_perm,
-- _upsert_user_permissions, update_piq_user and delete_piq_user (backend/main.py). The column
-- updated_at is left out.
use paperless_iq.Prelude.{
  String, Bool, true, false, ◌&&◌, ◌||◌, not, Option, none, some, List, [], ◌∷◌, if◌then◌else◌,
  is_some, any, nat_eq, string_eq, ◌==◌,
}
use paperless_iq.Prelude.Dict.{Dict, get, put, remove}

pub data Flag : Type 0 where
  can_access can_view_queue can_approve can_analyze can_discover can_settings can_groom : Flag

pub record UserPermissions : Type 0 where
  pub ng_admin : Bool
  pub access : Bool
  pub view_queue : Bool
  pub approve : Bool
  pub analyze : Bool
  pub discover : Bool
  pub settings : Bool
  pub groom : Bool

-- The two settings that matter here.
pub record AccessConfig : Type 0 where
  pub sync_ng_admins : Bool
  pub grooming_enabled : Bool

-- `getattr(perms_row, p)`
unfoldable pub has_flag : UserPermissions → Flag → Bool
has_flag r can_access = r.access
has_flag r can_view_queue = r.view_queue
has_flag r can_approve = r.approve
has_flag r can_analyze = r.analyze
has_flag r can_discover = r.discover
has_flag r can_settings = r.settings
has_flag r can_groom = r.groom

abbrev pub is_groom : Flag → Bool
is_groom can_groom = true
is_groom can_access = false
is_groom can_view_queue = false
is_groom can_approve = false
is_groom can_analyze = false
is_groom can_discover = false
is_groom can_settings = false

-- `perms == ("can_groom",)`
abbrev pub only_groom : List Flag → Bool
only_groom [] = false
only_groom (p ∷ []) = is_groom p
only_groom (p ∷ q ∷ ps) = false

abbrev pub row_can_access : AccessConfig → Option UserPermissions → Bool
row_can_access config none = false
row_can_access config (some r) = (r.ng_admin && config.sync_ng_admins) || r.access

unfoldable pub check_can_access : AccessConfig → Dict String UserPermissions → String → Bool
unfolding get
check_can_access config users username = row_can_access config (get users username)

-- Whether the dependency returns; otherwise the answer is 403.
abbrev pub row_allows : AccessConfig → List Flag → Option UserPermissions → Bool
row_allows config perms none = false
row_allows config perms (some r) =
    if r.ng_admin && config.sync_ng_admins
    then not (only_groom perms && not config.grooming_enabled)
    else any (has_flag r) perms && not (any is_groom perms && not config.grooming_enabled)

abbrev pub user_allows :
    AccessConfig → List Flag → Dict String UserPermissions → Option String → Bool
user_allows config perms users none = false
user_allows config perms users (some username) =
    not (username == "") && row_allows config perms (get users username)

unfoldable pub require_perm :
    AccessConfig → Bool → List Flag → Dict String UserPermissions → Option String → Bool
unfolding has_flag get
require_perm config is_auth_required perms users user =
    if is_auth_required then user_allows config perms users user else true

-- All flags but can_groom.
abbrev pub grant_all : UserPermissions → UserPermissions
grant_all r = record r {
  access = true;
  view_queue = true;
  approve = true;
  analyze = true;
  discover = true;
  settings = true;
}

abbrev pub no_flags : Bool → UserPermissions
no_flags ng_admin = record {
  ng_admin = ng_admin;
  access = false;
  view_queue = false;
  approve = false;
  analyze = false;
  discover = false;
  settings = false;
  groom = false;
}

-- The row after a login.
unfoldable pub upserted : Bool → Bool → Option UserPermissions → UserPermissions
upserted is_ng_admin sync none =
    if is_ng_admin && sync then grant_all (no_flags true) else no_flags is_ng_admin
upserted is_ng_admin sync (some r) =
    if is_ng_admin && (sync && not r.access)
    then grant_all (record r { ng_admin = is_ng_admin })
    else record r { ng_admin = is_ng_admin }

unfoldable pub upsert_user_permissions :
    AccessConfig → String → Bool → Dict String UserPermissions → Dict String UserPermissions
unfolding upserted get put
upsert_user_permissions config username is_ng_admin users =
    put users username (upserted is_ng_admin config.sync_ng_admins (get users username))

-- The body sets the seven flags; ng_admin stays, or is false in a new row.
abbrev pub keep_admin : Option UserPermissions → Bool
keep_admin none = false
keep_admin (some r) = r.ng_admin

unfoldable pub update_piq_user :
    String → UserPermissions → Dict String UserPermissions → Dict String UserPermissions
unfolding get put
update_piq_user username body users =
    put users username (record body { ng_admin = keep_admin (get users username) })

-- None is the answer 404.
unfoldable pub delete_piq_user :
    String → Dict String UserPermissions → Option (Dict String UserPermissions)
unfolding get remove
delete_piq_user username users =
    if is_some (get users username) then some (remove users username) else none
