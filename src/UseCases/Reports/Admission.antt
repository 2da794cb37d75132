-- ===== src/UseCases/Reports/Admission.antt =====
-- Who can write through ReportResource and Delete of
-- internal/biz/usecase/resources/resource_service.go, over any repository.
use inventory_api.Base.{
  ◌≡◌, ◌≢◌, refl, ap, inl, inr, false, Option, none, some, arith, CaseTables, Result, ok, err, Text,
  Result-cases, ok->>=, sym, ◌>>◌, ◌∙◌, ◌==◌, list_eq, nat_eq, list_beq,
}
use inventory_api.Model.SchemaService.{validate_report_against_schema}
use inventory_api.Access.Authentication.{Claims}
use inventory_api.Access.Authorization.{
  AuthzContext, MetaAuthorizer, grpc, simple_check, enforce_meta_authz_object,
  new_inventory_resource_from_key, check_self,
}
use inventory_api.Access.Callers.{enforce-simple_check}
use inventory_api.Store.Repository.{
  ResourceRepository, Fault, unauthenticated, not_enforced, invalid_argument,
}
use inventory_api.UseCases.Reports.{
  Environment, admit, report_resource, key_of, subject_of, or_fail, unless, map_error,
  report_resource_relation,
}
use inventory_api.UseCases.Commands.{ReportResourceCommand}

unless-ok :
    {E : Type 0} {A : Type 0} (f : E → Fault) (o : Option E) (next : Result Fault A) {a : A}
    → ok a ≡ (unless f o >> next)
    → (o ≡ none) × (ok a ≡ next)
unless-ok f none next h = (refl, h)
unless-ok f (some e) next h = cc

map_error-ok :
    {E : Type 0} {A : Type 0} (f : E → Fault) (m : Result E (Unit {0})) (next : Result Fault A)
    {a : A}
    → ok a ≡ (map_error f m >> next)
    → m ≡ ok tt
map_error-ok f (ok tt) next h = refl
map_error-ok f (err e) next h = cc

module _ (env : Environment) (cmd : ReportResourceCommand) where
  -- What the code asks of a caller and a report before it reads the repository.
  pub record IsAdmitted : Type 0 where
    pub context : AuthzContext
    pub claims : Claims
    pub called : env.context ≡ some context
    pub has_subject : context.subject ≡ some claims
    pub enforced :
        enforce_meta_authz_object
          (some context)
          env.authorizer
          report_resource_relation
          (new_inventory_resource_from_key (key_of cmd))
        ≡ none
    pub valid :
        validate_report_against_schema env.schemas cmd.resource_type cmd.reporter_type
          cmd.common_representation cmd.reporter_representation
        ≡ ok tt

  subject_inversion :
      (o : Option AuthzContext) (claims : Claims)
      → subject_of o ≡ some claims
      → (context : AuthzContext) × (o ≡ some context) × (context.subject ≡ some claims)
  subject_inversion none claims h = cc
  subject_inversion (some context) claims h = (context, refl, h)

  pub admit-IsAdmitted : (x : Text × Text) → admit env cmd ≡ ok x → IsAdmitted
  unfolding admit
  admit-IsAdmitted x h =
      let (claims, h1, e1) = ok->>= (or_fail unauthenticated (subject_of env.context)) _ (sym h) in
      let (context, called, has_subject) = subject_inversion env.context claims (ground arith) in
      let (clear, h2) = unless-ok not_enforced _ _ h1 in
      let (txid, h3, e3) = ok->>= env.next_transaction_id _ h2 in
      record {
        context = context;
        claims = claims;
        called = called;
        has_subject = has_subject;
        enforced =
            ap
              (λ (o : Option AuthzContext).
                enforce_meta_authz_object o env.authorizer report_resource_relation
                  (new_inventory_resource_from_key (key_of cmd)))
              (sym called)
            ∙ clear;
        valid = map_error-ok invalid_argument _ _ h3;
      }

-- A report that writes was admitted.
pub report_resource-IsAdmitted :
    ⦃t : CaseTables⦄ (R : ResourceRepository) (env : Environment) (cmd : ReportResourceCommand)
    (s : R.State)
    → (report_resource R env cmd s).1 ≢ s
    → IsAdmitted env cmd
unfolding report_resource
report_resource-IsAdmitted R env cmd s h = elim (Result-cases (admit env cmd)) [
  | inl (x, e) ↦ admit-IsAdmitted env cmd x e
  | inr (x, e) ↦ absurd (h (rw (e, report_resource) refl))
]

not_self : (report_resource_relation == check_self) ≡ false
unfolding list_beq
not_self = refl

-- Under the simple rules, the default, a call of ReportResource changes no repository unless it comes by
-- gRPC from a caller with a subject, and the report fits the schemas of its reporter and its type.
pub report_resource-simple_check :
    ⦃t : CaseTables⦄ (R : ResourceRepository) (env : Environment) (cmd : ReportResourceCommand)
    (s : R.State)
    → env.authorizer ≡ some simple_check
    → (report_resource R env cmd s).1 ≢ s
    → (context : AuthzContext) × (claims : Claims) × (env.context ≡ some context)
      × (context.subject ≡ some claims)
      × (context.protocol ≡ grpc)
      × (validate_report_against_schema env.schemas cmd.resource_type cmd.reporter_type
            cmd.common_representation cmd.reporter_representation
          ≡ ok tt)
report_resource-simple_check R env cmd s rules h =
    let a = report_resource-IsAdmitted R env cmd s h in
    let allowed =
      (enforce-simple_check report_resource_relation (new_inventory_resource_from_key (key_of cmd))
          a.context).0
        (ap
            (λ (o : Option MetaAuthorizer).
              enforce_meta_authz_object (some a.context) o report_resource_relation
                (new_inventory_resource_from_key (key_of cmd)))
            (sym rules)
          ∙ a.enforced) in
    (
      a.context,
      a.claims,
      a.called,
      a.has_subject,
      elim allowed [ inl x ↦ x.0 | inr x ↦ cc (not_self, x.4) ],
      a.valid,
    )
