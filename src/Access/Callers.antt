-- ===== src/Access/Callers.antt =====
-- Who passes the two meta authorizers of internal/biz/usecase/metaauthorizer.
use inventory_api.Base.{
  ap, ◌∙◌, ◌≡◌, ◌≢◌, refl, ◌↔◌, ◌⊎◌, inl, inr, Bool, true, false, not, ◌&&◌, ◌||◌, Option, none,
  some, List, [], ◌∷◌, arith, nonempty, Text, codes, list_eq, nat_eq, ◌==◌, contains, if◌then◌else◌,
}
use inventory_api.Access.Authentication.{
  Claims, AuthType, oidc, x_rh_identity, allow_unauthenticated, other_type, is_authenticated,
  is_unauthenticated,
}
use inventory_api.Access.Authorization.{
  AuthzContext, MetaObject, Protocol, http, grpc, unknown_protocol, other_protocol,
  decide_otherwise, check_self, simple_check, whitelist_check, is_in_allowlist, matches_any,
  is_oidc, enforce_meta_authz_object, denied, is_rh_identity, is_grpc, in_allowlist, decide_simply,
}

matches_any-contains :
    (id : Text) (allowlist : List Text)
    → matches_any id allowlist ≡ (contains (codes "*") allowlist || contains id allowlist)
unfolding matches_any contains
matches_any-contains id [] = refl
matches_any-contains id (a ∷ rest) = ground (arith, matches_any-contains id rest)

passes : (b : Bool) → ((if b then none else some denied) ≡ none) ↔ (b ≡ true)
passes true = (λ h. refl, λ h. refl)
passes false = (λ h. cc, λ h. cc)

is_rh_identity_iff :
    (a : AuthType) → ((not (is_unauthenticated a) && is_rh_identity a) ≡ true) ↔ (a ≡ x_rh_identity)
is_rh_identity_iff oidc = (λ h. cc, λ h. cc)
is_rh_identity_iff x_rh_identity = (λ h. refl, λ h. refl)
is_rh_identity_iff allow_unauthenticated = (λ h. cc, λ h. cc)
is_rh_identity_iff (other_type t) = (λ h. cc, λ h. cc)

is_oidc_iff : (a : AuthType) → ((not (is_unauthenticated a) && is_oidc a) ≡ true) ↔ (a ≡ oidc)
is_oidc_iff oidc = (λ h. refl, λ h. refl)
is_oidc_iff x_rh_identity = (λ h. cc, λ h. cc)
is_oidc_iff allow_unauthenticated = (λ h. cc, λ h. cc)
is_oidc_iff (other_type t) = (λ h. cc, λ h. cc)

is_grpc_iff : (p : Protocol) → (is_grpc p ≡ true) ↔ (p ≡ grpc)
is_grpc_iff http = (λ h. cc, λ h. cc)
is_grpc_iff grpc = (λ h. refl, λ h. refl)
is_grpc_iff unknown_protocol = (λ h. cc, λ h. cc)
is_grpc_iff (other_protocol p) = (λ h. cc, λ h. cc)

-- The callers that the whitelist names.
abbrev pub IsListed : List Text → AuthzContext → Type 0
IsListed allowlist context =
    (c : Claims) × (context.subject ≡ some c)
    × (context.protocol ≡ grpc)
    × (c.auth_type ≡ oidc)
    × (nonempty c.client_id ≡ true)
    × ((contains (codes "*") allowlist || contains c.client_id allowlist) ≡ true)

listed :
    (allowlist : List Text) (p : Protocol) (subject : Option Claims)
    → ((is_authenticated subject && is_grpc p && in_allowlist subject allowlist) ≡ true)
      ↔ IsListed allowlist (record { protocol = p; subject = subject })
unfolding is_authenticated is_in_allowlist
listed allowlist p none = (λ h. cc, λ h. cc (h.1))
listed allowlist p (some c) = (
  λ h. (
    c,
    refl,
    (is_grpc_iff p).0 (ground arith),
    (is_oidc_iff c.auth_type).0 (ground arith),
    ground arith,
    ground (arith, matches_any-contains c.client_id allowlist),
  ),
  λ h.
      let same : c ≡ h.0 = cc (h.1) in
      ground (
        arith,
        (is_grpc_iff p).1 h.2,
        (is_oidc_iff c.auth_type).1 (ap (λ (d : Claims). d.auth_type) same ∙ h.3),
        ap (λ (d : Claims). nonempty d.client_id) same ∙ h.4,
        matches_any-contains c.client_id allowlist,
        ap (λ (d : Claims). contains (codes "*") allowlist || contains d.client_id allowlist) same
            ∙ h.5,
      ),
)

-- The whitelist lets a request pass exactly if it comes by gRPC with claims of OIDC that name a client,
-- and the list has that client or the wildcard.
pub enforce-whitelist_check :
    (allowlist : List Text) (relation : Text) (object : MetaObject) (context : AuthzContext)
    → (enforce_meta_authz_object (some context) (some (whitelist_check allowlist)) relation object
        ≡ none)
      ↔ IsListed allowlist context
unfolding enforce_meta_authz_object whitelist_check is_authenticated is_in_allowlist
enforce-whitelist_check allowlist relation object context =
    let pass = passes (
      is_authenticated context.subject
      && is_grpc context.protocol
      && in_allowlist context.subject allowlist) in
    let who = listed allowlist context.protocol context.subject in
    (λ h. who.0 (pass.0 h), λ h. pass.1 (who.1 h))

-- The protocols that the simple rules do not name.
abbrev pub IsNeither : Protocol → Type 0
IsNeither p = (p ≢ grpc) × (p ≢ unknown_protocol)

-- The callers that the simple rules let pass for a relation.
abbrev pub IsAllowed : Text → AuthzContext → Type 0
IsAllowed relation context =
    ((context.protocol ≡ grpc) × ((relation == check_self) ≡ false))
    ⊎ ((c : Claims) × (context.subject ≡ some c)
        × IsNeither context.protocol
        × (c.auth_type ≡ x_rh_identity)
        × ((relation == check_self) ≡ true))

otherwise :
    (relation : Text) (p : Protocol) (subject : Option Claims)
    → IsNeither p
    → (decide_otherwise subject relation ≡ true)
      ↔ IsAllowed relation (record { protocol = p; subject = subject })
unfolding is_authenticated
otherwise relation p none neither =
    (λ h. cc, λ h. elim h [ inl x ↦ absurd (neither.0 x.0) | inr x ↦ cc (x.1) ])
otherwise relation p (some c) neither = (
  λ h. inr (c, refl, neither, (is_rh_identity_iff c.auth_type).0 (ground arith), ground arith),
  λ h. elim h [
    | inl x ↦ absurd (neither.0 x.0)
    | inr x ↦
        let same : c ≡ x.0 = cc (x.1) in
        ground (
          arith,
          (is_rh_identity_iff c.auth_type).1 (ap (λ (d : Claims). d.auth_type) same ∙ x.3),
          x.4,
        )
  ],
)

decided :
    (relation : Text) (p : Protocol) (subject : Option Claims)
    → (decide_simply p subject relation ≡ true)
      ↔ IsAllowed relation (record { protocol = p; subject = subject })
decided relation unknown_protocol subject =
    (λ h. cc, λ h. elim h [ inl x ↦ cc (x.0) | inr x ↦ absurd (x.2.1 refl) ])
decided relation grpc subject = (
  λ h. inl (refl, ground arith),
  λ h. elim h [ inl x ↦ ground (arith, x.1) | inr x ↦ absurd (x.2.0 refl) ],
)
decided relation http subject = otherwise relation http subject ((λ h. cc), (λ h. cc))
decided relation (other_protocol p) subject =
    otherwise relation (other_protocol p) subject ((λ h. cc), (λ h. cc))

-- The simple rules let a request pass exactly if it comes by gRPC and asks for something else than a
-- check of oneself, or if it comes by a protocol that is neither gRPC nor the unknown one, HTTP or any
-- other, with claims of the identity header, and asks for a check of oneself.
pub enforce-simple_check :
    (relation : Text) (object : MetaObject) (context : AuthzContext)
    → (enforce_meta_authz_object (some context) (some simple_check) relation object ≡ none)
      ↔ IsAllowed relation context
unfolding enforce_meta_authz_object simple_check is_authenticated
enforce-simple_check relation object context =
    let pass = passes (decide_simply context.protocol context.subject relation) in
    let who = decided relation context.protocol context.subject in
    (λ h. who.0 (pass.0 h), λ h. pass.1 (who.1 h))
