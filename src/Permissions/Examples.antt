-- ===== src/Permissions/Examples.antt =====
-- The theorems about permissions at small concrete inputs.
use paperless_iq.Prelude.{
  String, ◌≡◌, refl, Bool, true, false, some, List, [], ◌∷◌, nat_eq, string_eq,
}
use paperless_iq.Prelude.Dict.{Dict, get, remove}
use paperless_iq.Permissions.Users.{
  Flag, can_approve, can_groom, UserPermissions, AccessConfig, check_can_access, require_perm,
  grant_all, no_flags, delete_piq_user,
}
use paperless_iq.Permissions.Grants.{granted, logins, logins_grants, deleted_denied}

abbrev config : AccessConfig
config = record { sync_ng_admins = true; grooming_enabled = true }

abbrev users : Dict String UserPermissions
users = ("ann", grant_all (no_flags false)) ∷ ("bob", no_flags false) ∷ []

abbrev later : List (String × Bool)
later = ("bob", true) ∷ ("ann", false) ∷ []

logins_grants_example :
    ((f : Flag)
      → granted (get users "bob") f ≡ true
      → granted (get (logins config later users) "bob") f ≡ true)
    × (granted (get (logins config later users) "bob") can_groom
        ≡ granted (get users "bob") can_groom)
logins_grants_example = logins_grants config later users "bob"

deleted_denied_example :
    (check_can_access config (logins config later (("bob", no_flags false) ∷ [])) "ann" ≡ false)
    × (require_perm config true
          (can_approve ∷ [])
          (logins config later (("bob", no_flags false) ∷ []))
          (some "ann")
        ≡ false)
unfolding delete_piq_user get remove
deleted_denied_example =
    deleted_denied config (can_approve ∷ []) later users (("bob", no_flags false) ∷ []) "ann" refl
      ((λ e. cc), ((λ e. refl), tt))
