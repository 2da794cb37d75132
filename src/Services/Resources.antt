-- ===== src/Services/Resources.antt =====
-- internal/service/resources/kesselinventoryservice.go: the handlers, each a conversion, a call of the use
-- case, and a conversion back. A stream that is sent to is the list of what was sent. Logs are left out.
pub mod Keys
pub mod Answers
use inventory_api.Base.{
  Bool, true, false, Option, none, some, List, [], ◌∷◌, map, nonempty, Text, if◌then◌else◌,
  CaseTables, Result, ok, err, ◌>>=◌, ◌>>◌, guard,
}
use inventory_api.Model.Values.{Error, new_relation}
use inventory_api.Relations.Codes.{CheckResult, RelationsQueries}
use inventory_api.Store.Repository.{
  Fault, domain, invalid_argument, no_items, ResourceRepository, Run,
}
use inventory_api.UseCases.Commands.{BulkResult}
use inventory_api.UseCases.SelfSubject.{Strategy}
use inventory_api.UseCases.Reports
use inventory_api.UseCases.Reports.{Environment, map_error, report_resource}
use inventory_api.UseCases.Checks
use inventory_api.UseCases.Checks.{check_for_self, check_self_bulk}
use inventory_api.Services.Messages.{
  ResourceReferenceMessage, SubjectReferenceMessage, ReportResourceRequest, CheckRequest,
  CheckForUpdateRequest, CheckSelfRequest, CheckBulkRequestItem, CheckBulkRequest,
  CheckSelfBulkRequestItem, CheckSelfBulkRequest, StreamedListObjectsRequest,
  StreamedListSubjectsRequest, CheckResponse, BulkResponse,
}
use inventory_api.Services.Conversions.{
  consistency_from_proto, to_report_resource_command, reporter_key_from_resource_reference,
  resource_reference_from_proto, subject_reference_from_proto, to_check_bulk_items,
  to_check_bulk_command, to_check_self_bulk_command, to_lookup_objects_command,
  to_lookup_subjects_command, view_response, update_response, from_check_bulk_result,
  from_check_for_update_bulk_result, from_check_self_bulk_result, to_lookup_objects_response,
  to_lookup_subjects_response,
}

-- `status.Errorf(codes.InvalidArgument, …)` around an error; a panic goes on.
abbrev pub as_invalid : Fault → Fault
as_invalid (domain e) = invalid_argument e
as_invalid f = f

module _ ⦃t : CaseTables⦄ (R : ResourceRepository) (env : Environment) where
  -- ReportResource
  unfoldable pub report_resource_request : ReportResourceRequest → Run R.State
  unfolding to_report_resource_command report_resource
  report_resource_request r s = elim (to_report_resource_command r) [
    | err e ↦ (some (invalid_argument e), s)
    | ok cmd ↦ report_resource R env cmd s
  ]

  -- DeleteResource, of the reference in the request.
  unfoldable pub delete_resource_request : Option ResourceReferenceMessage → Run R.State
  unfolding reporter_key_from_resource_reference Reports.delete
  delete_resource_request r s = elim (reporter_key_from_resource_reference r) [
    | err e ↦ (some (domain e), s)
    | ok key ↦ Reports.delete R env key s
  ]

module _ ⦃t : CaseTables⦄ {T : Type 0} (R : ResourceRepository) (Q : RelationsQueries T)
    (env : Environment) (s : R.State) (q : T) where
  -- Check
  unfoldable pub check_request : CheckRequest → Result Fault CheckResponse
  unfolding resource_reference_from_proto subject_reference_from_proto new_relation
      consistency_from_proto Checks.check view_response
  check_request req = do
    object ← map_error domain (resource_reference_from_proto req.object)
    subject ← subject_reference_from_proto req.subject
    relation ← map_error domain (new_relation req.relation)
    result ←
        Checks.check R Q env s q relation subject object
          (some (consistency_from_proto req.consistency))
    ok (view_response result.allowed result.consistency_token)

  -- CheckForUpdate
  unfoldable pub check_for_update_request : CheckForUpdateRequest → Result Fault CheckResponse
  unfolding resource_reference_from_proto subject_reference_from_proto new_relation
      Checks.check_for_update update_response
  check_for_update_request req = do
    object ← map_error domain (resource_reference_from_proto req.object)
    subject ← subject_reference_from_proto req.subject
    relation ← map_error domain (new_relation req.relation)
    result ← Checks.check_for_update R Q env s q relation subject object
    ok (update_response result.allowed result.consistency_token)

  -- CheckForUpdateBulk
  unfoldable pub check_for_update_bulk_request :
      List CheckBulkRequestItem → Result Fault (BulkResponse CheckBulkRequestItem)
  unfolding to_check_bulk_items Checks.check_for_update_bulk from_check_for_update_bulk_result
  check_for_update_bulk_request items = do
    is ← map_error as_invalid (to_check_bulk_items items)
    result ← Checks.check_for_update_bulk R Q env s q is
    ok (from_check_for_update_bulk_result result items)

  -- CheckBulk
  unfoldable pub check_bulk_request :
      CheckBulkRequest → Result Fault (BulkResponse CheckBulkRequestItem)
  unfolding to_check_bulk_command Checks.check_bulk from_check_bulk_result
  check_bulk_request req = do
    cmd ← map_error as_invalid (to_check_bulk_command req)
    result ← Checks.check_bulk R Q env s q cmd
    ok (from_check_bulk_result result req.items)

  -- CheckSelf
  unfoldable pub check_self_request :
      Option Strategy → CheckSelfRequest → Result Fault CheckResponse
  unfolding resource_reference_from_proto new_relation consistency_from_proto check_for_self
      view_response
  check_self_request strategy req = do
    object ← map_error domain (resource_reference_from_proto req.object)
    relation ← map_error domain (new_relation req.relation)
    result ←
        check_for_self R Q env s q strategy relation object
          (some (consistency_from_proto req.consistency))
    ok (view_response result.allowed result.consistency_token)

  -- CheckSelfBulk
  unfoldable pub check_self_bulk_request :
      Option Strategy → CheckSelfBulkRequest → Result Fault (BulkResponse CheckSelfBulkRequestItem)
  unfolding to_check_self_bulk_command check_self_bulk from_check_self_bulk_result
  check_self_bulk_request strategy req = do
    guard (nonempty req.items) no_items
    cmd ← map_error domain (to_check_self_bulk_command req)
    result ← check_self_bulk R Q env s q strategy cmd
    ok (from_check_self_bulk_result result req.items)

  -- StreamedListObjects
  unfoldable pub streamed_list_objects :
      Option StreamedListObjectsRequest → Result Fault (List ResourceReferenceMessage)
  unfolding to_lookup_objects_command Checks.lookup_objects to_lookup_objects_response
  streamed_list_objects req = do
    cmd ← to_lookup_objects_command req
    found ← Checks.lookup_objects R Q env s q cmd
    ok (map to_lookup_objects_response found)

  -- StreamedListSubjects
  unfoldable pub streamed_list_subjects :
      Option StreamedListSubjectsRequest → Result Fault (List SubjectReferenceMessage)
  unfolding to_lookup_subjects_command Checks.lookup_subjects to_lookup_subjects_response
  streamed_list_subjects req = do
    cmd ← to_lookup_subjects_command req
    found ← Checks.lookup_subjects R Q env s q cmd
    ok (map to_lookup_subjects_response found)
