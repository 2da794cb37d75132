-- ===== src/Tests/Access.antt =====
-- The properties of authentication and authorization at concrete inputs.
use inventory_api.Base.{
  ℕ, ◌≡◌, refl, ◌↔◌, none, some, [], ◌∷◌, ◌++◌, codes, if◌then◌else◌, ◌&&◌, nonempty,
}
use inventory_api.Access.Authentication.{
  Claims, oidc, x_rh_identity, allow, deny, ignore, Authenticator, authenticate,
}
use inventory_api.Access.FirstMatch.{all_ignore, authenticate-allowed, authenticate-declined}
use inventory_api.Access.Authorization.{
  AuthzContext, grpc, other_protocol, tuple_system, check_self, simple_check, whitelist_check,
  enforce_meta_authz_object,
}
use inventory_api.Access.Callers.{
  IsListed, IsAllowed, enforce-whitelist_check, enforce-simple_check,
}

abbrev service : Claims
service = record {
  subject_id = [];
  organization_id = [];
  issuer = codes "sso";
  client_id = codes "rbac";
  auth_type = oidc;
}

-- Authenticators of requests that are numbers.
abbrev denies : Authenticator ℕ
denies request = (none, deny)

abbrev ignores : Authenticator ℕ
ignores request = (none, ignore)

abbrev allows : Authenticator ℕ
allows request = (some service, allow)

authenticate-allowed_example :
    authenticate ((denies ∷ ignores ∷ []) ++ allows ∷ denies ∷ []) 5 ≡ allows 5
authenticate-allowed_example =
    authenticate-allowed 5 (denies ∷ ignores ∷ []) (denies ∷ []) allows ((λ h. cc), ((λ h. cc), tt))
      refl

authenticate-declined_example : authenticate (denies ∷ ignores ∷ []) 5 ≡ (
  none,
  (if nonempty (denies ∷ ignores ∷ []) && all_ignore 5 (denies ∷ ignores ∷ [])
      then ignore
      else deny),
)
authenticate-declined_example =
    authenticate-declined 5 (denies ∷ ignores ∷ []) ((λ h. cc), ((λ h. cc), tt))

abbrev service_context : AuthzContext
service_context = record { protocol = grpc; subject = some service }

enforce-whitelist_check_example :
    (enforce_meta_authz_object
        (some service_context)
        (some (whitelist_check (codes "rbac" ∷ [])))
        (codes "create_tuples")
        tuple_system
      ≡ none)
    ↔ IsListed (codes "rbac" ∷ []) service_context
enforce-whitelist_check_example =
    enforce-whitelist_check (codes "rbac" ∷ []) (codes "create_tuples") tuple_system service_context

-- A caller with the identity header, by a protocol that the code does not know.
abbrev somebody : AuthzContext
somebody = record {
  protocol = other_protocol [];
  subject = some (record service { auth_type = x_rh_identity });
}

enforce-simple_check_example :
    (enforce_meta_authz_object (some somebody) (some simple_check) check_self tuple_system ≡ none)
    ↔ IsAllowed check_self somebody
enforce-simple_check_example = enforce-simple_check check_self tuple_system somebody
