-- ===== src/Services/Conversions.antt =====
-- internal/service/resources/kesselinventoryservice.go: messages to commands, and results to messages.
-- A conversion that dereferences a nil message panics.
use inventory_api.Base.{
  ℕ, Bool, true, false, Option, none, some, List, [], ◌∷◌, nonempty, Text, nat_eq, ◌==◌,
  if◌then◌else◌, CaseTables, Result, ok, err, ◌>>=◌, is_some,
}
use inventory_api.Model.Values.{
  Fallible, invalid_data, new_trimmed, new_resource_type, new_reporter_type, new_relation,
}
use inventory_api.Model.Representation.{Json, Representation}
use inventory_api.Model.ReporterResource.{ReporterResourceKey, new_reporter_resource_key}
use inventory_api.Model.References.{ReporterReference, ResourceReference, SubjectReference}
use inventory_api.Model.Consistency.{
  Consistency, unspecified, minimize_latency, at_least_as_acknowledged, at_least_as_fresh,
}
use inventory_api.Store.Repository.{Fault, domain, panicked, no_request}
use inventory_api.UseCases.Reports.{map_error, or_fail}
use inventory_api.UseCases.Commands
use inventory_api.UseCases.Commands.{
  WriteVisibility, consistent, ReportResourceCommand, CheckBulkItem, CheckBulkCommand,
  CheckSelfBulkItem, CheckSelfBulkCommand, LookupObjectsCommand, LookupSubjectsCommand,
  CheckBulkResultItem, CheckBulkResultPair, BulkResult,
}
use inventory_api.Services.Messages.{
  ResourceReferenceMessage, SubjectReferenceMessage, ReporterReferenceMessage, ConsistencyMessage,
  wants_minimize_latency, wants_acknowledged, wants_at_least_as_fresh, no_requirement,
  WriteVisibilityMessage, immediate, write_minimize_latency, ReportResourceRequest,
  CheckBulkRequestItem, CheckBulkRequest, CheckSelfBulkRequestItem, CheckSelfBulkRequest,
  StreamedListObjectsRequest, StreamedListSubjectsRequest, CheckResponse, PairResponse, answer,
  failure, BulkResponsePair, BulkResponse, text_or_empty, get_resource_id, get_resource_type,
  get_reporter, get_type, get_instance_id, get_metadata, get_common, get_reporter_data,
  get_represented_type, get_represented_reporter,
}

-- Whether a Struct has fields, as AsMap tells.
abbrev given_fields : Option (List (Text × Json)) → Option Representation
given_fields none = none
given_fields (some fields) = if nonempty fields then some (some fields) else none

-- representationFromProtoStruct; NewRepresentation refuses a nil map alone.
unfoldable pub representation_from_proto_struct :
    Option (List (Text × Json)) → Fallible (Option Representation)
representation_from_proto_struct s = elim (given_fields s) [
  | none ↦ ok none
  | some r ↦ if is_some r then ok (some r) else err invalid_data
]

-- writeVisibilityFromProto
unfoldable pub write_visibility_from_proto : WriteVisibilityMessage → WriteVisibility
write_visibility_from_proto immediate = consistent
write_visibility_from_proto write_minimize_latency = Commands.minimize_latency
write_visibility_from_proto _ = Commands.unspecified

-- consistencyFromProto
unfoldable pub consistency_from_proto : Option ConsistencyMessage → Consistency
consistency_from_proto none = unspecified
consistency_from_proto (some no_requirement) = unspecified
consistency_from_proto (some (wants_minimize_latency b)) =
    if b then minimize_latency else unspecified
consistency_from_proto (some (wants_acknowledged b)) =
    if b then at_least_as_acknowledged else unspecified
consistency_from_proto (some (wants_at_least_as_fresh none)) = unspecified
consistency_from_proto (some (wants_at_least_as_fresh (some token))) = at_least_as_fresh token

-- A field that may be left out, by being empty.
unfoldable pub if_nonempty : (Text → Fallible Text) → Text → Fallible (Option Text)
if_nonempty make s = elim (nonempty s) [ false ↦ ok none | true ↦ (do s' ← make s; ok (some s')) ]

module _ ⦃t : CaseTables⦄ where
  -- toReportResourceCommand. NewURI and NewReporterVersion trim and refuse the empty string.
  unfoldable pub to_report_resource_command : ReportResourceRequest → Fallible ReportResourceCommand
  unfolding new_trimmed new_resource_type new_reporter_type if_nonempty
      representation_from_proto_struct write_visibility_from_proto
  to_report_resource_command r = do
    let m = get_metadata r.representations
    local_resource_id ← new_trimmed m.local_resource_id
    resource_type ← new_resource_type r.resource_type
    reporter_type ← new_reporter_type r.reporter_type
    reporter_instance_id ← new_reporter_type r.reporter_instance_id
    api_href ← new_trimmed m.api_href
    console_href ← if_nonempty new_trimmed m.console_href
    reporter_version ← if_nonempty new_trimmed m.reporter_version
    reporter ← representation_from_proto_struct (get_reporter_data r.representations)
    common ← representation_from_proto_struct (get_common r.representations)
    ok (record {
      local_resource_id = local_resource_id;
      resource_type = resource_type;
      reporter_type = reporter_type;
      reporter_instance_id = reporter_instance_id;
      api_href = api_href;
      console_href = console_href;
      reporter_version = reporter_version;
      transaction_id = if nonempty m.transaction_id then some m.transaction_id else none;
      reporter_representation = reporter;
      common_representation = common;
      write_visibility = write_visibility_from_proto r.write_visibility;
    })

  -- reporterKeyFromResourceReference
  unfoldable pub reporter_key_from_resource_reference :
      Option ResourceReferenceMessage → Fallible ReporterResourceKey
  unfolding new_trimmed new_resource_type new_reporter_type if_nonempty new_reporter_resource_key
  reporter_key_from_resource_reference r = do
    local_resource_id ← new_trimmed (get_resource_id r)
    resource_type ← new_resource_type (get_resource_type r)
    reporter_type ← new_reporter_type (get_type (get_reporter r))
    instance_id ← if_nonempty new_reporter_type (get_instance_id (get_reporter r))
    ok (
        new_reporter_resource_key local_resource_id resource_type reporter_type
          (text_or_empty instance_id))

  -- resourceReferenceFromProto
  unfoldable pub resource_reference_from_proto :
      Option ResourceReferenceMessage → Fallible ResourceReference
  unfolding new_trimmed new_resource_type new_reporter_type if_nonempty
  resource_reference_from_proto r = do
    local_resource_id ← new_trimmed (get_resource_id r)
    resource_type ← new_resource_type (get_resource_type r)
    reporter_type ← new_reporter_type (get_type (get_reporter r))
    instance_id ← if_nonempty new_reporter_type (get_instance_id (get_reporter r))
    ok (record {
      resource_type = resource_type;
      resource_id = local_resource_id;
      reporter = some (record { reporter_type = reporter_type; instance_id = instance_id });
    })

  -- subjectReferenceFromProto, which drops the instance id.
  unfoldable pub subject_reference_from_proto :
      Option SubjectReferenceMessage → Result Fault SubjectReference
  unfolding new_trimmed new_resource_type new_reporter_type new_relation if_nonempty
  subject_reference_from_proto m = do
    s ← or_fail panicked m
    local_resource_id ← map_error domain (new_trimmed (get_resource_id s.resource))
    resource_type ← map_error domain (new_resource_type (get_resource_type s.resource))
    reporter_type ← map_error domain (new_reporter_type (get_type (get_reporter s.resource)))
    relation ← map_error domain (if_nonempty new_relation (text_or_empty s.relation))
    ok (record {
      resource = record {
        resource_type = resource_type;
        resource_id = local_resource_id;
        reporter = some (record { reporter_type = reporter_type; instance_id = none });
      };
      relation = relation;
    })

  -- protoToCheckBulkItem
  unfoldable pub proto_to_check_bulk_item : CheckBulkRequestItem → Result Fault CheckBulkItem
  unfolding resource_reference_from_proto subject_reference_from_proto new_relation
  proto_to_check_bulk_item m = do
    object ← map_error domain (resource_reference_from_proto m.object)
    subject ← subject_reference_from_proto m.subject
    relation ← map_error domain (new_relation m.relation)
    ok (record { resource = object; relation = relation; subject = subject })

  -- The items of a bulk request, in order; the first error ends the loop.
  unfoldable pub to_check_bulk_items : List CheckBulkRequestItem → Result Fault (List CheckBulkItem)
  unfolding proto_to_check_bulk_item
  to_check_bulk_items [] = ok []
  to_check_bulk_items (m ∷ ms) =
      let rest = to_check_bulk_items ms in
      (do i ← proto_to_check_bulk_item m; is ← rest; ok (i ∷ is))

  -- toCheckBulkCommand
  unfoldable pub to_check_bulk_command : CheckBulkRequest → Result Fault CheckBulkCommand
  unfolding to_check_bulk_items consistency_from_proto
  to_check_bulk_command req = do
    items ← to_check_bulk_items req.items
    ok (record { items = items; consistency = some (consistency_from_proto req.consistency) })

  unfoldable pub proto_to_check_self_bulk_item :
      CheckSelfBulkRequestItem → Fallible CheckSelfBulkItem
  unfolding resource_reference_from_proto new_relation
  proto_to_check_self_bulk_item m = do
    object ← resource_reference_from_proto m.object
    relation ← new_relation m.relation
    ok (record { resource = object; relation = relation })

  unfoldable pub to_check_self_bulk_items :
      List CheckSelfBulkRequestItem → Fallible (List CheckSelfBulkItem)
  unfolding proto_to_check_self_bulk_item
  to_check_self_bulk_items [] = ok []
  to_check_self_bulk_items (m ∷ ms) =
      let rest = to_check_self_bulk_items ms in
      (do i ← proto_to_check_self_bulk_item m; is ← rest; ok (i ∷ is))

  -- toCheckSelfBulkCommand
  unfoldable pub to_check_self_bulk_command : CheckSelfBulkRequest → Fallible CheckSelfBulkCommand
  unfolding to_check_self_bulk_items consistency_from_proto
  to_check_self_bulk_command req = do
    items ← to_check_self_bulk_items req.items
    ok (record { items = items; consistency = some (consistency_from_proto req.consistency) })

  -- ToLookupObjectsCommand
  unfoldable pub to_lookup_objects_command :
      Option StreamedListObjectsRequest → Result Fault LookupObjectsCommand
  unfolding new_resource_type new_reporter_type new_relation subject_reference_from_proto
      consistency_from_proto
  to_lookup_objects_command m = do
    r ← or_fail no_request m
    resource_type ← map_error domain (new_resource_type (get_represented_type r.object_type))
    reporter_type ← map_error domain (new_reporter_type (get_represented_reporter r.object_type))
    relation ← map_error domain (new_relation r.relation)
    subject ← subject_reference_from_proto r.subject
    ok (record {
      object_type = record { resource_type = resource_type; reporter_type = some reporter_type };
      relation = relation;
      subject = subject;
      consistency = some (consistency_from_proto r.consistency);
    })

  -- ToLookupSubjectsCommand
  unfoldable pub to_lookup_subjects_command :
      Option StreamedListSubjectsRequest → Result Fault LookupSubjectsCommand
  unfolding resource_reference_from_proto new_resource_type new_reporter_type new_relation
      if_nonempty consistency_from_proto
  to_lookup_subjects_command m = do
    r ← or_fail no_request m
    resource ← map_error domain (resource_reference_from_proto r.resource)
    relation ← map_error domain (new_relation r.relation)
    subject_type ← map_error domain (new_resource_type (get_represented_type r.subject_type))
    reporter ← map_error domain (new_reporter_type (get_represented_reporter r.subject_type))
    subject_relation ←
        map_error domain (if_nonempty new_relation (text_or_empty r.subject_relation))
    ok (record {
      resource = resource;
      relation = relation;
      subject_type = record { resource_type = subject_type; reporter_type = some reporter };
      subject_relation = subject_relation;
      consistency = some (consistency_from_proto r.consistency);
    })

-- The code of an error without one: codes.Internal.
abbrev internal : ℕ
internal = 13

-- The token of a response, left out if it is empty.
abbrev pub token_if_any : Text → Option Text
token_if_any token = if nonempty token then some token else none

-- viewResponseFromAuthzRequestV1beta2
unfoldable pub view_response : Bool → Text → CheckResponse
view_response allowed token = record { allowed = allowed; consistency_token = token_if_any token }

-- updateResponseFromAuthzRequestV1beta2
unfoldable pub update_response : Bool → Text → CheckResponse
update_response allowed token = record { allowed = allowed; consistency_token = token_if_any token }

-- checkBulkResultItemToProtoFields, and the response that is set by what it returns.
unfoldable pub check_bulk_result_item_to_proto_fields : CheckBulkResultItem → PairResponse
check_bulk_result_item_to_proto_fields item = elim item.error [
  | none ↦ answer item.allowed
  | some e ↦ failure (if item.error_code == 0 then internal else item.error_code) e
]

abbrev head_item : {Item : Type 0} → List Item → Option Item
head_item [] = none
head_item (i ∷ is) = some i

abbrev tail_items : {Item : Type 0} → List Item → List Item
tail_items [] = []
tail_items (i ∷ is) = is

-- The loops over the pairs of a result, with the item of the request at the same index.
unfoldable pub response_pairs :
    {Item : Type 0} → List CheckBulkResultPair → List Item → List (BulkResponsePair Item)
unfolding check_bulk_result_item_to_proto_fields
response_pairs [] items = []
response_pairs (p ∷ ps) items =
    record { request = head_item items; response = check_bulk_result_item_to_proto_fields p.result }
    ∷ response_pairs ps (tail_items items)

-- The responses to the three bulk requests are built alike.
abbrev bulk_response : {Item : Type 0} → BulkResult → List Item → BulkResponse Item
bulk_response result items = record {
  pairs = response_pairs result.pairs items;
  consistency_token = token_if_any result.consistency_token;
}

-- fromCheckBulkResult
unfoldable pub from_check_bulk_result :
    BulkResult → List CheckBulkRequestItem → BulkResponse CheckBulkRequestItem
unfolding response_pairs
from_check_bulk_result = bulk_response

-- fromCheckForUpdateBulkResult
unfoldable pub from_check_for_update_bulk_result :
    BulkResult → List CheckBulkRequestItem → BulkResponse CheckBulkRequestItem
unfolding response_pairs
from_check_for_update_bulk_result = bulk_response

-- fromCheckSelfBulkResult
unfoldable pub from_check_self_bulk_result :
    BulkResult → List CheckSelfBulkRequestItem → BulkResponse CheckSelfBulkRequestItem
unfolding response_pairs
from_check_self_bulk_result = bulk_response

-- The reporter of a reference as a message, without its instance id.
abbrev reporter_message : Option ReporterReference → Option ReporterReferenceMessage
reporter_message none = none
reporter_message (some r) = some (record { reporter_type = r.reporter_type; instance_id = none })

-- ToLookupObjectsResponse, without the page.
unfoldable pub to_lookup_objects_response : ResourceReference → ResourceReferenceMessage
to_lookup_objects_response r = record {
  resource_type = r.resource_type;
  resource_id = r.resource_id;
  reporter = reporter_message r.reporter;
}

-- ToLookupSubjectsResponse, without the page.
unfoldable pub to_lookup_subjects_response : SubjectReference → SubjectReferenceMessage
unfolding to_lookup_objects_response
to_lookup_subjects_response s = record {
  resource = some (to_lookup_objects_response s.resource);
  relation = s.relation;
}
