-- ===== src/UseCases/SelfSubject.antt =====
-- internal/biz/usecase/resources/selfsubject_redhat_rbac.go and selfsubject_options.go: who a caller is
-- in the relations. The errors of the strategy are told apart by nobody, so they are one.
pub mod Identities
use inventory_api.Base.{
  Bool, true, false, not, Option, none, some, List, [], ◌∷◌, ◌++◌, nonempty, Text, codes, list_eq,
  nat_eq, trim_space, CaseTables, if◌then◌else◌, look, put, Result, ok, err, ◌>>=◌, ◌>>◌, guard,
}
use inventory_api.Model.Values.{Error, Fallible, new_trimmed, new_resource_type, new_reporter_type}
use inventory_api.Model.References.{SubjectReference}
use inventory_api.Access.Authentication.{
  Claims, AuthType, oidc, x_rh_identity, allow_unauthenticated, other_type, is_authenticated,
}
use inventory_api.Access.Authorization.{AuthzContext}

pub data SelfSubjectError : Type 0 where
  disabled not_found not_derived : SelfSubjectError
  not_built : Error → SelfSubjectError

abbrev pub Strategy : Type 0
Strategy = AuthzContext → Result SelfSubjectError SubjectReference

pub record RedHatRbacSelfSubjectStrategy : Type 0 where
  pub enabled : Bool
  pub x_rh_identity_domain : Text
  pub oidc_issuer_domains : List (Text × Text)

abbrev pub or_empty : Option Text → Text
or_empty none = []
or_empty (some d) = d

unfoldable pub resolve_oidc_issuer_domain : RedHatRbacSelfSubjectStrategy → Text → Text
resolve_oidc_issuer_domain s issuer =
    if nonempty issuer then or_empty (look issuer s.oidc_issuer_domains) else []

-- `fmt.Sprintf("%s/%s", domain, subject)`
abbrev pub qualified : Text → Text → Text
qualified domain subject = domain ++ (codes "/" ++ subject)

-- The domain that qualifies the subject of claims.
unfoldable pub domain_of : RedHatRbacSelfSubjectStrategy → Claims → Text
unfolding resolve_oidc_issuer_domain
domain_of s c = elim c.auth_type [
  | x_rh_identity ↦ s.x_rh_identity_domain
  | oidc ↦ resolve_oidc_issuer_domain s c.issuer
  | allow_unauthenticated ↦ []
  | other_type _ ↦ []
]

-- The tests of deriveSubjectID are independent of one another: each gives an error.
unfoldable pub derive_from_claims :
    RedHatRbacSelfSubjectStrategy → Claims → Result SelfSubjectError Text
unfolding domain_of trim_space
derive_from_claims s c =
    let subject = trim_space c.subject_id in
    let domain = domain_of s c in
    (do
      guard (nonempty domain) not_derived
      guard (nonempty subject) not_derived
      ok (qualified domain subject))

-- deriveSubjectID: no subject, and no error, for a caller who is not authenticated.
unfoldable pub derive_subject_id :
    RedHatRbacSelfSubjectStrategy → AuthzContext → Result SelfSubjectError Text
unfolding derive_from_claims is_authenticated
derive_subject_id s context = elim context.subject [
  | none ↦ if s.enabled then ok [] else err disabled
  | some c ↦
      if s.enabled
      then (if is_authenticated (some c) then derive_from_claims s c else ok [])
      else err disabled
]

abbrev pub built {ℓ} : {A : Type ℓ} → Fallible A → Result SelfSubjectError A
built (ok a) = ok a
built (err e) = err (not_built e)

module _ ⦃t : CaseTables⦄ where
  unfoldable pub build_subject_reference : Text → Result SelfSubjectError SubjectReference
  unfolding new_trimmed new_resource_type new_reporter_type
  build_subject_reference subject_id = do
    local_resource_id ← built (new_trimmed subject_id)
    resource_type ← built (new_resource_type (codes "principal"))
    reporter_type ← built (new_reporter_type (codes "rbac"))
    ok (record {
      resource = record {
        resource_type = resource_type;
        resource_id = local_resource_id;
        reporter = some (record { reporter_type = reporter_type; instance_id = none });
      };
      relation = none;
    })

  -- SubjectFromAuthorizationContext
  unfoldable pub subject_from_authorization_context : RedHatRbacSelfSubjectStrategy → Strategy
  unfolding derive_subject_id build_subject_reference
  subject_from_authorization_context s context = do
    subject_id ← derive_subject_id s context
    guard (nonempty subject_id) not_found
    build_subject_reference subject_id

pub record OidcIssuerDomainEntry : Type 0 where
  pub issuer : Text
  pub domain : Text

-- buildOIDCIssuerDomainMap; `none` stands for its two errors.
unfoldable pub build_oidc_issuer_domain_map :
    List OidcIssuerDomainEntry → List (Text × Text) → Option (List (Text × Text))
build_oidc_issuer_domain_map [] out = some out
build_oidc_issuer_domain_map (e ∷ rest) out =
    let next = build_oidc_issuer_domain_map rest (put e.issuer e.domain out) in
    if nonempty e.issuer then (if nonempty e.domain then next else none) else none
