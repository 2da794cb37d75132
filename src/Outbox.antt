-- ===== src/Outbox.antt =====
-- internal/biz/model_legacy/outboxevents.go: what a change of a resource writes to the outbox. A payload
-- is what is marshalled to JSON, and the text of a UUID is a parameter: both belong to libraries.
pub mod Versions
use inventory_api.Base.{
  ℕ, Option, none, some, List, [], ◌∷◌, ◌++◌, Text, codes, look, list_eq, nat_eq, Result, ok, err,
  ◌>>=◌,
}
use inventory_api.Model.Values.{Error, Fallible, Time, Uuid, unexpected_event}
use inventory_api.Model.Representation.{Json, str, Representation, ReporterRepresentation, entries}
use inventory_api.Model.ReporterResource.{ReporterResourceKey}
use inventory_api.Model.Events.{
  ResourceReportEvent, ResourceDeleteEvent, current_common_version,
  current_reporter_representation_version,
}
use inventory_api.Model.Resource.{Resource}
use inventory_api.Consumer.Messages.{TupleEvent, new_tuple_event}
use inventory_api.Store.Repository.{Fault, panicked, EventOperationType, created, updated, deleted}

-- ResourceEvent of internal/biz/model/resource_event.go, an interface with two implementations.
pub data DomainEvent : Type 0 where
  reported : ResourceReportEvent → DomainEvent
  removed : ResourceDeleteEvent → DomainEvent

pub data AggregateType : Type 0 where
  kessel_tuples kessel_resources : AggregateType

pub record EventResourceMetadata : Type 0 where
  pub id : Uuid
  pub resource_type : Text
  pub created_at : Option Time
  pub updated_at : Option Time
  pub deleted_at : Option Time
  pub workspace_id : Option Text

pub record EventResourceReporter : Type 0 where
  pub reporter_instance_id : Text
  pub reporter_type : Text
  pub console_href : Option Text
  pub api_href : Text
  pub local_resource_id : Text
  pub reporter_version : Option Text

pub record ResourceEvent : Type 0 where
  pub event_type : Text
  pub id : Uuid
  pub subject : Text
  pub time : Time
  pub metadata : EventResourceMetadata
  pub reporter_data : EventResourceReporter
  pub resource_data : Representation

-- The payload of an event; that of a delete is empty for the resource.
pub data Payload : Type 0 where
  nothing : Payload
  of_resource : ResourceEvent → Payload
  of_tuple : TupleEvent → Payload

pub record OutboxEvent : Type 0 where
  pub operation : EventOperationType
  pub aggregate_type : AggregateType
  pub aggregate_id : Uuid
  pub tx_id : Text
  pub payload : Payload

abbrev pub event_id : DomainEvent → Uuid
event_id (reported e) = e.id
event_id (removed e) = e.id

-- ReporterResourceKey of the two events
abbrev pub event_key : DomainEvent → ReporterResourceKey
event_key (reported e) = record {
  local_resource_id = e.local_resource_id;
  resource_type = e.resource_type;
  reporter = e.reporter_id;
}
event_key (removed e) = record {
  local_resource_id = e.local_resource_id;
  resource_type = e.resource_type;
  reporter = e.reporter_id;
}

-- CurrentCommonVersion and CurrentReporterRepresentationVersion of the two events
unfoldable pub common_version_of : DomainEvent → Option ℕ
unfolding current_common_version
common_version_of (reported e) = current_common_version e
common_version_of (removed e) = none

unfoldable pub reporter_version_of : DomainEvent → Option ℕ
unfolding current_reporter_representation_version
reporter_version_of (reported e) = current_reporter_representation_version e
reporter_version_of (removed e) = some e.reporter_representation.version

abbrev string_of : Option Json → Option Text
string_of (some (str s)) = some s
string_of _ = none

-- ResourceReportEvent.WorkspaceId
unfoldable pub event_workspace_id : ResourceReportEvent → Option Text
event_workspace_id e = elim e.common_representation [
  | none ↦ none
  | some c ↦ string_of (look (codes "workspace_id") (entries c.content))
]

abbrev operation_text : EventOperationType → Text
operation_text created = codes "created"
operation_text updated = codes "updated"
operation_text deleted = codes "deleted"

unfoldable pub make_event_type : Text → Text → Text → Text
make_event_type event_type resource_type operation =
    codes "redhat.inventory."
    ++ (event_type ++ (codes "." ++ (resource_type ++ (codes "." ++ operation))))

unfoldable pub make_event_subject : Text → Text → Text → Text
make_event_subject event_type resource_type resource_id =
    codes "/" ++ (event_type ++ (codes "/" ++ (resource_type ++ (codes "/" ++ resource_id))))

module _ (print_uuid : Uuid → Text) (now : Time) (fresh : Fallible Uuid) where
  abbrev created_at_of : EventOperationType → ResourceReportEvent → Option Time
  created_at_of created e = some e.created_at
  created_at_of _ e = none

  abbrev updated_at_of : EventOperationType → ResourceReportEvent → Option Time
  updated_at_of updated e = some e.updated_at
  updated_at_of _ e = none

  abbrev deleted_at_of : EventOperationType → Option Time
  deleted_at_of deleted = some now
  deleted_at_of _ = none

  abbrev reported_time : EventOperationType → ResourceReportEvent → Time
  reported_time created e = e.created_at
  reported_time updated e = e.updated_at
  reported_time deleted e = now

  abbrev reporter_version_in : Option ReporterRepresentation → Option Text
  reporter_version_in none = none
  reporter_version_in (some r) = r.reporter_version

  abbrev content_of : Option ReporterRepresentation → Representation
  content_of none = none
  content_of (some r) = r.content

  -- newResourceEvent
  unfoldable pub new_resource_event :
      EventOperationType → ResourceReportEvent → Fallible ResourceEvent
  unfolding make_event_type make_event_subject event_workspace_id
  new_resource_event operation e = do
    id ← fresh
    ok (record {
      event_type = make_event_type (codes "resources") e.resource_type (operation_text operation);
      id = id;
      subject = make_event_subject (codes "resources") e.resource_type (print_uuid e.id);
      time = reported_time operation e;
      metadata = record {
        id = e.id;
        resource_type = e.resource_type;
        created_at = created_at_of operation e;
        updated_at = updated_at_of operation e;
        deleted_at = deleted_at_of operation;
        workspace_id = event_workspace_id e;
      };
      reporter_data = record {
        reporter_instance_id = e.reporter_id.reporter_instance_id;
        reporter_type = e.reporter_id.reporter_type;
        console_href = e.console_href;
        api_href = e.api_href;
        local_resource_id = e.local_resource_id;
        reporter_version = reporter_version_in e.reporter_representation;
      };
      resource_data = content_of e.reporter_representation;
    })

  -- The payload for the resource: none for a delete, and no delete event for another operation.
  unfoldable pub resource_payload : EventOperationType → DomainEvent → Fallible Payload
  unfolding new_resource_event
  resource_payload deleted d = ok nothing
  resource_payload created (reported e) = do x ← new_resource_event created e; ok (of_resource x)
  resource_payload updated (reported e) = do x ← new_resource_event updated e; ok (of_resource x)
  resource_payload created (removed e) = err unexpected_event
  resource_payload updated (removed e) = err unexpected_event

  -- NewOutboxEventsFromResourceEvent: the event of the resource, and that of its tuples.
  unfoldable pub new_outbox_events :
      DomainEvent → EventOperationType → Text → Fallible (OutboxEvent × OutboxEvent)
  unfolding new_tuple_event common_version_of reporter_version_of resource_payload
  new_outbox_events d operation txid = do
    tuple ← new_tuple_event (event_key d) (common_version_of d) (reporter_version_of d)
    payload ← resource_payload operation d
    ok (
      record {
        operation = operation;
        aggregate_type = kessel_resources;
        aggregate_id = event_id d;
        tx_id = [];
        payload = payload;
      },
      record {
        operation = operation;
        aggregate_type = kessel_tuples;
        aggregate_id = event_id d;
        tx_id = txid;
        payload = of_tuple tuple;
      },
    )

-- The choice of Save in internal/data/resource_repository.go: no event of a delete that did nothing, and
-- a panic where a report left none.
unfoldable pub event_to_publish : EventOperationType → Resource → Result Fault (Option DomainEvent)
event_to_publish operation r = elim operation [
  | deleted ↦ elim r.resource_delete_events [ [] ↦ ok none | e ∷ _ ↦ ok (some (removed e)) ]
  | created ↦ elim r.resource_report_events [ [] ↦ err panicked | e ∷ _ ↦ ok (some (reported e)) ]
  | updated ↦ elim r.resource_report_events [ [] ↦ err panicked | e ∷ _ ↦ ok (some (reported e)) ]
]
