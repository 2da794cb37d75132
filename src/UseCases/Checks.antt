-- ===== src/UseCases/Checks.antt =====
-- internal/biz/usecase/resources/resource_service.go and commands.go: the checks and the lookups, over
-- any repository of resources and any relations backend, each at one state. Logs are left out.
pub mod ReadYourWrites
pub mod Bulk
use inventory_api.Base.{
  ℕ, Bool, true, false, not, ◌&&◌, Option, none, some, List, [], ◌∷◌, map, length, nonempty, Text,
  codes, nat_eq, ◌==◌, if◌then◌else◌, CaseTables, Result, ok, err, ◌>>=◌, ◌>>◌, guard,
}
use inventory_api.Model.ReporterResource.{ReporterResourceKey, new_reporter_resource_key}
use inventory_api.Model.Consistency.{
  Consistency, unspecified, minimize_latency, at_least_as_acknowledged, at_least_as_fresh,
  normalize_consistency,
}
use inventory_api.Model.References.{ResourceReference, SubjectReference, Relationship}
use inventory_api.Relations.Codes.{
  Code, CheckResult, CheckBulkResult, RepresentationType, RelationsQueries,
}
use inventory_api.Access.Authorization.{
  AuthzContext, MetaObject, inventory_resource, resource_type_ref, enforce_meta_authz_object,
  context_missing, check_self,
}
use inventory_api.Store.Repository.{
  Fault, not_enforced, relations, panicked, tokens_unavailable, self_subject_missing,
  mismatched_results, ResourceRepository,
}
use inventory_api.UseCases.Reports.{Environment, is_record_not_found, map_error, unless, or_fail}
use inventory_api.UseCases.SelfSubject.{Strategy}
use inventory_api.UseCases.Commands.{
  CheckBulkItem, CheckBulkCommand, CheckSelfBulkItem, CheckSelfBulkCommand, CheckBulkResultItem,
  CheckBulkResultPair, BulkResult, LookupObjectsCommand, LookupSubjectsCommand,
}

abbrev pub relationship : ResourceReference → Text → SubjectReference → Relationship
relationship object relation subject = record {
  object = object;
  relation = relation;
  subject = subject;
}

abbrev instance_or_empty : Option Text → Text
instance_or_empty none = []
instance_or_empty (some i) = i

-- reporterKeyFromResourceRef
unfoldable pub reporter_key_from_resource_ref : ResourceReference → ReporterResourceKey
unfolding new_reporter_resource_key
reporter_key_from_resource_ref ref = elim ref.reporter [
  | none ↦ new_reporter_resource_key ref.resource_id ref.resource_type [] []
  | some r ↦
      new_reporter_resource_key ref.resource_id ref.resource_type r.reporter_type
        (instance_or_empty r.instance_id)
]

-- checkBulkItemsToRelationships
unfoldable pub check_bulk_items_to_relationships : List CheckBulkItem → List Relationship
check_bulk_items_to_relationships = map (λ i. relationship i.resource i.relation i.subject)

-- validateBulkResultLength
unfoldable pub validate_bulk_result_length : ℕ → ℕ → Result Fault (Unit {0})
validate_bulk_result_length expected actual = guard (actual == expected) mismatched_results

-- checkBulkResultFromModel
unfoldable pub check_bulk_result_from_model : CheckBulkResult → BulkResult
check_bulk_result_from_model b = record {
  pairs =
      map
        (λ p. record {
          request = record {
            resource = p.request.object;
            relation = p.request.relation;
            subject = p.request.subject;
          };
          result = record {
            allowed = p.result.allowed;
            error = p.result.error;
            error_code = p.result.error_code;
          };
        })
        b.pairs;
  consistency_token = b.consistency_token;
}

abbrev is_acknowledged : Consistency → Bool
is_acknowledged at_least_as_acknowledged = true
is_acknowledged _ = false

-- The first test of the bulk checks and the lookups.
abbrev pub no_managed_token : Option Consistency → Result Fault (Unit {0})
no_managed_token c = guard (not (is_acknowledged (normalize_consistency c))) tokens_unavailable

module _ (env : Environment) where
  -- enforceMetaAuthzObject
  abbrev pub enforce : Text → MetaObject → Result Fault (Unit {0})
  enforce relation object =
      unless not_enforced (enforce_meta_authz_object env.context env.authorizer relation object)

  -- The calls of enforceMetaAuthzObject for a resource; a reference without a reporter is dereferenced.
  unfoldable pub enforce_on : Text → ResourceReference → Result Fault (Unit {0})
  enforce_on relation ref = do
    reporter ← or_fail panicked ref.reporter
    enforce relation (inventory_resource reporter.reporter_type ref.resource_type ref.resource_id)

  -- The loops over the items of a bulk check.
  unfoldable pub enforce_all : Text → List ResourceReference → Result Fault (Unit {0})
  unfolding enforce_on
  enforce_all relation [] = ok tt
  enforce_all relation (ref ∷ rest) =
      let next = enforce_all relation rest in (do enforce_on relation ref; next)

  -- selfSubjectFromContext
  unfoldable pub self_subject_from_context : Option Strategy → Result Fault SubjectReference
  self_subject_from_context strategy = do
    context ← or_fail (not_enforced context_missing) env.context
    derive ← or_fail self_subject_missing strategy
    elim (derive context) [ ok s ↦ ok s | err _ ↦ err self_subject_missing ]

module _ (R : ResourceRepository) (env : Environment) (s : R.State) where
  -- lookupConsistencyTokenFromDB
  unfoldable pub lookup_consistency_token_from_db : ResourceReference → Result Fault Text
  unfolding reporter_key_from_resource_ref is_record_not_found
  lookup_consistency_token_from_db ref =
      elim (R.find_resource_by_keys (reporter_key_from_resource_ref ref) s) [
        | ok r ↦ ok r.consistency_token
        | err e ↦ if is_record_not_found e then ok [] else err e
      ]

  unfoldable pub resolve_from_db : ResourceReference → Result Fault Consistency
  unfolding lookup_consistency_token_from_db
  resolve_from_db ref = do
    token ← lookup_consistency_token_from_db ref
    ok (if nonempty token then at_least_as_fresh token else minimize_latency)

  -- resolveConsistency; the last argument is overrideFeatureFlag.
  unfoldable pub resolve_consistency :
      Option Consistency → ResourceReference → Bool → Result Fault Consistency
  unfolding resolve_from_db normalize_consistency
  resolve_consistency c ref override = elim (normalize_consistency c) [
    | minimize_latency ↦ ok minimize_latency
    | at_least_as_fresh token ↦ ok (at_least_as_fresh token)
    | at_least_as_acknowledged ↦ resolve_from_db ref
    | unspecified ↦
        if env.config.default_to_at_least_as_acknowledged && not override
        then resolve_from_db ref
        else ok minimize_latency
  ]

module _ {T : Type 0} (R : ResourceRepository) (Q : RelationsQueries T) (env : Environment)
    (s : R.State) (q : T) where
  -- checkPermission
  unfoldable pub check_permission :
      Text → SubjectReference → ResourceReference → Consistency → Result Fault CheckResult
  check_permission relation sub ref c =
      map_error relations (Q.check (relationship ref relation sub) c q)

  -- Check
  unfoldable pub check :
      Text → SubjectReference → ResourceReference → Option Consistency → Result Fault CheckResult
  unfolding enforce_on resolve_consistency check_permission
  check relation sub ref c = do
    enforce_on env (codes "check") ref
    resolved ← resolve_consistency R env s c ref false
    check_permission relation sub ref resolved

  -- CheckSelf
  unfoldable pub check_for_self :
      Option Strategy → Text → ResourceReference → Option Consistency → Result Fault CheckResult
  unfolding enforce_on self_subject_from_context resolve_consistency check_permission
  check_for_self strategy relation ref c = do
    enforce_on env check_self ref
    sub ← self_subject_from_context env strategy
    resolved ← resolve_consistency R env s c ref true
    check_permission relation sub ref resolved

  -- CheckForUpdate
  unfoldable pub check_for_update :
      Text → SubjectReference → ResourceReference → Result Fault CheckResult
  unfolding enforce_on
  check_for_update relation sub ref = do
    enforce_on env (codes "check_for_update") ref
    map_error relations (Q.check_for_update (relationship ref relation sub) q)

  -- What the bulk checks do with the answer of the backend.
  unfoldable pub bulk_result : ℕ → Result Code CheckBulkResult → Result Fault BulkResult
  unfolding validate_bulk_result_length check_bulk_result_from_model
  bulk_result expected answer = do
    b ← map_error relations answer
    validate_bulk_result_length expected (length b.pairs)
    ok (check_bulk_result_from_model b)

  -- CheckForUpdateBulk
  unfoldable pub check_for_update_bulk : List CheckBulkItem → Result Fault BulkResult
  unfolding enforce_all check_bulk_items_to_relationships bulk_result
  check_for_update_bulk items = do
    enforce_all env (codes "check_for_update_bulk") (map (λ (i : CheckBulkItem). i.resource) items)
    let rels = check_bulk_items_to_relationships items
    bulk_result (length rels) (Q.check_for_update_bulk rels q)

  -- CheckBulk
  unfoldable pub check_bulk : CheckBulkCommand → Result Fault BulkResult
  unfolding enforce_all check_bulk_items_to_relationships bulk_result normalize_consistency
  check_bulk cmd = do
    no_managed_token cmd.consistency
    enforce_all env (codes "check_bulk") (map (λ (i : CheckBulkItem). i.resource) cmd.items)
    let rels = check_bulk_items_to_relationships cmd.items
    bulk_result (length rels) (Q.check_bulk rels (normalize_consistency cmd.consistency) q)

  -- CheckSelfBulk
  unfoldable pub check_self_bulk : Option Strategy → CheckSelfBulkCommand → Result Fault BulkResult
  unfolding enforce_all self_subject_from_context bulk_result normalize_consistency
  check_self_bulk strategy cmd = do
    no_managed_token cmd.consistency
    enforce_all env check_self (map (λ (i : CheckSelfBulkItem). i.resource) cmd.items)
    sub ← self_subject_from_context env strategy
    let rels = map (λ (i : CheckSelfBulkItem). relationship i.resource i.relation sub) cmd.items
    bulk_result (length rels) (Q.check_bulk rels (normalize_consistency cmd.consistency) q)

  -- LookupObjects
  unfoldable pub lookup_objects : LookupObjectsCommand → Result Fault (List ResourceReference)
  unfolding normalize_consistency
  lookup_objects cmd = do
    no_managed_token cmd.consistency
    enforce env (codes "lookup_resources") (
        resource_type_ref (instance_or_empty cmd.object_type.reporter_type)
          cmd.object_type.resource_type)
    map_error relations (
        Q.lookup_objects cmd.object_type cmd.relation cmd.subject
          (normalize_consistency cmd.consistency) q)

  -- LookupSubjects
  unfoldable pub lookup_subjects : LookupSubjectsCommand → Result Fault (List SubjectReference)
  unfolding enforce_on normalize_consistency
  lookup_subjects cmd = do
    no_managed_token cmd.consistency
    enforce_on env (codes "lookup_subjects") cmd.resource
    map_error relations (
        Q.lookup_subjects cmd.resource cmd.relation cmd.subject_type cmd.subject_relation
          (normalize_consistency cmd.consistency) q)
