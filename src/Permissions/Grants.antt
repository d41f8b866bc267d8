-- ===== src/Permissions/Grants.antt =====
-- What logins and deletions do to the permissions.
use paperless_iq.Prelude.{
  String, ◌≡◌, refl, sym, ap, ◌∙◌, inl, inr, Bool, true, false, ◌&&◌, not, Option, none, some, List,
  [], ◌∷◌, arith, if◌then◌else◌, Bool-cases, is_some, or_else, any, All, nat_eq, string_eq, ◌==◌,
  ==_refl, eq_of_==,
}
use paperless_iq.Prelude.Dict.{Dict, get, get-put, get-remove}
use paperless_iq.Permissions.Users.{
  Flag, can_access, can_view_queue, can_approve, can_analyze, can_discover, can_settings, can_groom,
  UserPermissions, AccessConfig, has_flag, is_groom, row_can_access, check_can_access, row_allows,
  require_perm, grant_all, no_flags, upserted, upsert_user_permissions, delete_piq_user,
}

abbrev pub granted : Option UserPermissions → Flag → Bool
granted none f = false
granted (some r) f = has_flag r f

-- Logins: a user each, and whether Paperless counts the user as an administrator.
unfoldable pub logins :
    AccessConfig → List (String × Bool) → Dict String UserPermissions → Dict String UserPermissions
logins config [] users = users
logins config ((name, is_ng_admin) ∷ ls) users =
    logins config ls (upsert_user_permissions config name is_ng_admin users)

upserted_keeps :
    (a s : Bool) (o : Option UserPermissions) (f : Flag)
    → granted o f ≡ true
    → has_flag (upserted a s o) f ≡ true
unfolding upserted has_flag
upserted_keeps a s none f h = cc
upserted_keeps a s (some r) f h = elim (Bool-cases (a && (s && not r.access))) [
  | inl e ↦ rw e (all_granted f h)
  | inr e ↦ rw e (still f h)
]
  where
    all_granted :
        (f : Flag) → has_flag r f ≡ true → has_flag (grant_all (record r { ng_admin = a })) f ≡ true
    all_granted can_groom h = h
    all_granted can_access h = refl
    all_granted can_view_queue h = refl
    all_granted can_approve h = refl
    all_granted can_analyze h = refl
    all_granted can_discover h = refl
    all_granted can_settings h = refl

    still : (f : Flag) → has_flag r f ≡ true → has_flag (record r { ng_admin = a }) f ≡ true
    still can_groom h = h
    still can_access h = h
    still can_view_queue h = h
    still can_approve h = h
    still can_analyze h = h
    still can_discover h = h
    still can_settings h = h

upserted_groom :
    (a s : Bool) (o : Option UserPermissions)
    → has_flag (upserted a s o) can_groom ≡ granted o can_groom
unfolding upserted has_flag
upserted_groom a s none = ground arith
upserted_groom a s (some r) = ground arith

get-upsert :
    (config : AccessConfig) (name : String) (a : Bool) (users : Dict String UserPermissions)
    (u : String)
    → get (upsert_user_permissions config name a users) u ≡ (
        if name == u then some (upserted a config.sync_ng_admins (get users name)) else get users u)
unfolding upsert_user_permissions
get-upsert config name a users u =
    get-put users name u (upserted a config.sync_ng_admins (get users name))

one_login_keeps :
    (config : AccessConfig) (name : String) (a : Bool) (users : Dict String UserPermissions)
    (u : String) (f : Flag)
    → granted (get users u) f ≡ true
    → granted (get (upsert_user_permissions config name a users) u) f ≡ true
one_login_keeps config name a users u f h =
    rw (get-upsert config name a users u) (elim (Bool-cases (name == u)) [
      | inl e ↦ rw e (
          upserted_keeps a config.sync_ng_admins (get users name) f
            (ap (λ n. granted (get users n) f) (eq_of_== name u e) ∙ h))
      | inr e ↦ rw e h
    ])

one_login_groom :
    (config : AccessConfig) (name : String) (a : Bool) (users : Dict String UserPermissions)
    (u : String)
    → granted (get (upsert_user_permissions config name a users) u) can_groom
      ≡ granted (get users u) can_groom
one_login_groom config name a users u =
    rw (get-upsert config name a users u) (elim (Bool-cases (name == u)) [
      | inl e ↦ rw e (
          upserted_groom a config.sync_ng_admins (get users name)
          ∙ ap (λ n. granted (get users n) can_groom) (eq_of_== name u e))
      | inr e ↦ rw e refl
    ])

logins_keep :
    (config : AccessConfig) (ls : List (String × Bool)) (users : Dict String UserPermissions)
    (u : String) (f : Flag)
    → granted (get users u) f ≡ true
    → granted (get (logins config ls users) u) f ≡ true
unfolding logins
logins_keep config [] users u f h = h
logins_keep config ((name, a) ∷ ls) users u f h =
    logins_keep config ls (upsert_user_permissions config name a users) u f
      (one_login_keeps config name a users u f h)

logins_groom :
    (config : AccessConfig) (ls : List (String × Bool)) (users : Dict String UserPermissions)
    (u : String)
    → granted (get (logins config ls users) u) can_groom ≡ granted (get users u) can_groom
unfolding logins
logins_groom config [] users u = refl
logins_groom config ((name, a) ∷ ls) users u =
    logins_groom config ls (upsert_user_permissions config name a users) u
    ∙ one_login_groom config name a users u

-- Logins, of administrators or not, take no flag from any user; and they grant can_groom to nobody,
-- an administrator with all the other flags included.
pub logins_grants :
    (config : AccessConfig) (ls : List (String × Bool)) (users : Dict String UserPermissions)
    (u : String)
    → ((f : Flag)
        → granted (get users u) f ≡ true
        → granted (get (logins config ls users) u) f ≡ true)
      × (granted (get (logins config ls users) u) can_groom ≡ granted (get users u) can_groom)
logins_grants config ls users u =
    ((λ f h. logins_keep config ls users u f h), logins_groom config ls users u)

-- A row without rights: no administrator and no flag.
abbrev Powerless : Option UserPermissions → Type 0
Powerless none = Unit
Powerless (some r) = r ≡ no_flags false

abbrev pub NoAdmin : String → List (String × Bool) → Type 0
NoAdmin u ls = All (λ l. (l.0 == u) ≡ true → l.1 ≡ false) ls

login-Powerless :
    (s : Bool) (a : Bool) (o : Option UserPermissions)
    → a ≡ false
    → Powerless o
    → upserted a s o ≡ no_flags false
unfolding upserted
login-Powerless s a none h p = rw h refl
login-Powerless s a (some r) h p = rw (h, p) refl

logins-Powerless :
    (config : AccessConfig) (ls : List (String × Bool)) (users : Dict String UserPermissions)
    (u : String)
    → NoAdmin u ls
    → Powerless (get users u)
    → Powerless (get (logins config ls users) u)
unfolding logins
logins-Powerless config [] users u n p = p
logins-Powerless config ((name, a) ∷ ls) users u n p =
    logins-Powerless config ls (upsert_user_permissions config name a users) u n.1 (
      rw (get-upsert config name a users u) (elim (Bool-cases (name == u)) [
        | inl e ↦ rw e (
            login-Powerless config.sync_ng_admins a (get users name) (n.0 e)
              (rw (eq_of_== name u e) p))
        | inr e ↦ rw e p
      ]))

no_flag_set : (f : Flag) → has_flag (no_flags false) f ≡ false
unfolding has_flag
no_flag_set can_groom = refl
no_flag_set can_access = refl
no_flag_set can_view_queue = refl
no_flag_set can_approve = refl
no_flag_set can_analyze = refl
no_flag_set can_discover = refl
no_flag_set can_settings = refl

any_set : (perms : List Flag) → any (has_flag (no_flags false)) perms ≡ false
any_set [] = refl
any_set (f ∷ perms) = ground (arith, no_flag_set f, any_set perms)

Powerless-denied :
    (config : AccessConfig) (perms : List Flag) (o : Option UserPermissions)
    → Powerless o
    → (row_can_access config o ≡ false) × (row_allows config perms o ≡ false)
Powerless-denied config perms none p = (refl, refl)
Powerless-denied config perms (some r) p = (
  rw p refl,
  rw p (ap (λ b. b && not (any is_groom perms && not config.grooming_enabled)) (any_set perms)),
)

deleted_gone :
    (u : String) (users users' : Dict String UserPermissions)
    → delete_piq_user u users ≡ some users'
    → get users' u ≡ none
unfolding delete_piq_user
deleted_gone u users users' h = elim (Bool-cases (is_some (get users u))) [
  | inl e ↦
      ap (λ d. get d u) (sym (ap (λ o. or_else o []) (rw e at h)))
      ∙ (get-remove users u u ∙ rw (==_refl u) refl)
  | inr e ↦ absurd (cc (rw e at h))
]

user_denied :
    (config : AccessConfig) (perms : List Flag) (users : Dict String UserPermissions) (u : String)
    → Powerless (get users u)
    → require_perm config true perms users (some u) ≡ false
unfolding require_perm
user_denied config perms users u p =
    ap (λ b. not (u == "") && b) (Powerless-denied config perms (get users u) p).1 ∙ ground arith

-- A deleted user who logs in again, and not as an administrator, has no access and passes no
-- permission check, whoever else logs in.
pub deleted_denied :
    (config : AccessConfig) (perms : List Flag) (ls : List (String × Bool))
    (users users' : Dict String UserPermissions) (u : String)
    → delete_piq_user u users ≡ some users'
    → NoAdmin u ls
    → (check_can_access config (logins config ls users') u ≡ false)
      × (require_perm config true perms (logins config ls users') (some u) ≡ false)
unfolding check_can_access
deleted_denied config perms ls users users' u h n =
    let p =
      logins-Powerless config ls users' u n (gone (get users' u) (deleted_gone u users users' h)) in
    (
      (Powerless-denied config perms (get (logins config ls users') u) p).0,
      user_denied config perms (logins config ls users') u p,
    )
  where
    gone : (o : Option UserPermissions) → o ≡ none → Powerless o
    gone none e = tt
    gone (some r) e = cc
