-- ===== src/Access/Authorization.antt =====
-- internal/biz/usecase/metaauthorizer: which operation a caller may use at all.
use inventory_api.Base.{
  Bool, true, false, not, ◌&&◌, ◌||◌, Option, none, some, List, [], ◌∷◌, nonempty, Text, codes,
  list_eq, nat_eq, ◌==◌, if◌then◌else◌, Result, ok, err,
}
use inventory_api.Model.ReporterResource.{ReporterResourceKey}
use inventory_api.Access.Authentication.{Claims, AuthType, oidc, x_rh_identity, is_authenticated}

-- The constants of Protocol, which is a string, and what else it can be, as the empty string.
pub data Protocol : Type 0 where
  http grpc unknown_protocol : Protocol
  other_protocol : Text → Protocol

pub record AuthzContext : Type 0 where
  pub protocol : Protocol
  pub subject : Option Claims

-- The object of a request, a sealed interface of the source.
pub data MetaObject : Type 0 where
  inventory_resource : Text → Text → Text → MetaObject
  resource_type_ref : Text → Text → MetaObject
  tuple_system : MetaObject

unfoldable pub new_inventory_resource_from_key : ReporterResourceKey → MetaObject
new_inventory_resource_from_key key =
    inventory_resource key.reporter.reporter_type key.resource_type key.local_resource_id

abbrev pub check_self : Text
check_self = codes "check_self"

pub data EnforcementError : Type 0 where
  unavailable denied context_missing : EnforcementError
  check_failed : Text → EnforcementError

-- A meta authorizer: an interface of the source.
abbrev pub MetaAuthorizer : Type 0
MetaAuthorizer = MetaObject → Text → AuthzContext → Result EnforcementError Bool

abbrev pub is_rh_identity : AuthType → Bool
is_rh_identity x_rh_identity = true
is_rh_identity _ = false

abbrev pub is_oidc : AuthType → Bool
is_oidc oidc = true
is_oidc _ = false

abbrev pub has_auth_type : (AuthType → Bool) → Option Claims → Bool
has_auth_type p none = false
has_auth_type p (some c) = p c.auth_type

-- The last test of SimpleMetaAuthorizer.Check, and the refusal below it.
abbrev pub decide_otherwise : Option Claims → Text → Bool
decide_otherwise subject relation =
    is_authenticated subject && has_auth_type is_rh_identity subject && relation == check_self

-- Every protocol but the unknown one and gRPC reaches the last test.
abbrev pub decide_simply : Protocol → Option Claims → Text → Bool
decide_simply unknown_protocol subject relation = false
decide_simply grpc subject relation = not (relation == check_self)
decide_simply http subject relation = decide_otherwise subject relation
decide_simply (other_protocol p) subject relation = decide_otherwise subject relation

-- SimpleMetaAuthorizer.Check
unfoldable pub simple_check : MetaAuthorizer
unfolding is_authenticated
simple_check object relation context = ok (decide_simply context.protocol context.subject relation)

-- The loop of isInAllowlist.
unfoldable pub matches_any : Text → List Text → Bool
matches_any id [] = false
matches_any id (allowed ∷ rest) = allowed == codes "*" || allowed == id || matches_any id rest

unfoldable pub is_in_allowlist : Claims → List Text → Bool
unfolding matches_any
is_in_allowlist claims allowlist =
    nonempty claims.client_id && matches_any claims.client_id allowlist

abbrev pub is_grpc : Protocol → Bool
is_grpc grpc = true
is_grpc _ = false

abbrev pub in_allowlist : Option Claims → List Text → Bool
in_allowlist none allowlist = false
in_allowlist (some c) allowlist = is_oidc c.auth_type && is_in_allowlist c allowlist

-- WhitelistMetaAuthorizer.Check
unfoldable pub whitelist_check : List Text → MetaAuthorizer
unfolding is_authenticated is_in_allowlist
whitelist_check allowlist object relation context = ok (
    is_authenticated context.subject
    && is_grpc context.protocol
    && in_allowlist context.subject allowlist)

-- EnforceMetaAuthzObject: no error is permission. What it logs is not modelled.
unfoldable pub enforce_meta_authz_object :
    Option AuthzContext → Option MetaAuthorizer → Text → MetaObject → Option EnforcementError
enforce_meta_authz_object none authorizer relation object = some context_missing
enforce_meta_authz_object (some context) none relation object = some unavailable
enforce_meta_authz_object (some context) (some check) relation object =
    elim (check object relation context) [
      | err e ↦ some e
      | ok allowed ↦ if allowed then none else some denied
    ]
