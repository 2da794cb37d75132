-- ===== src/Services/Messages.antt =====
-- The messages of api/kessel/inventory/v1beta2 that the service reads and writes, as records of what
-- their getters return: a message inside another one may be nil, and a getter of nil gives a zero value.
-- A Struct stands as the map that AsMap makes of it. The Allowed enum is a Boolean.
use inventory_api.Base.{ℕ, Bool, Option, none, some, List, [], Text}
use inventory_api.Model.Representation.{Json}
use inventory_api.Relations.Codes.{Code}

pub record ReporterReferenceMessage : Type 0 where
  pub reporter_type : Text
  pub instance_id : Option Text

pub record ResourceReferenceMessage : Type 0 where
  pub resource_type : Text
  pub resource_id : Text
  pub reporter : Option ReporterReferenceMessage

pub record SubjectReferenceMessage : Type 0 where
  pub resource : Option ResourceReferenceMessage
  pub relation : Option Text

-- The requirement of a Consistency message, of which one is set at most.
pub data ConsistencyMessage : Type 0 where
  no_requirement : ConsistencyMessage
  wants_minimize_latency wants_acknowledged : Bool → ConsistencyMessage
  wants_at_least_as_fresh : Option Text → ConsistencyMessage

pub data WriteVisibilityMessage : Type 0 where
  write_visibility_unspecified immediate write_minimize_latency : WriteVisibilityMessage
  write_visibility_other : ℕ → WriteVisibilityMessage

pub record MetadataMessage : Type 0 where
  pub local_resource_id : Text
  pub api_href : Text
  pub console_href : Text
  pub reporter_version : Text
  pub transaction_id : Text

pub record RepresentationsMessage : Type 0 where
  pub metadata : Option MetadataMessage
  pub common : Option (List (Text × Json))
  pub reporter : Option (List (Text × Json))

pub record ReportResourceRequest : Type 0 where
  pub resource_type : Text
  pub reporter_type : Text
  pub reporter_instance_id : Text
  pub representations : Option RepresentationsMessage
  pub write_visibility : WriteVisibilityMessage

pub record CheckRequest : Type 0 where
  pub object : Option ResourceReferenceMessage
  pub relation : Text
  pub subject : Option SubjectReferenceMessage
  pub consistency : Option ConsistencyMessage

pub record CheckForUpdateRequest : Type 0 where
  pub object : Option ResourceReferenceMessage
  pub relation : Text
  pub subject : Option SubjectReferenceMessage

pub record CheckSelfRequest : Type 0 where
  pub object : Option ResourceReferenceMessage
  pub relation : Text
  pub consistency : Option ConsistencyMessage

pub record CheckBulkRequestItem : Type 0 where
  pub object : Option ResourceReferenceMessage
  pub relation : Text
  pub subject : Option SubjectReferenceMessage

pub record CheckBulkRequest : Type 0 where
  pub items : List CheckBulkRequestItem
  pub consistency : Option ConsistencyMessage

pub record CheckSelfBulkRequestItem : Type 0 where
  pub object : Option ResourceReferenceMessage
  pub relation : Text

pub record CheckSelfBulkRequest : Type 0 where
  pub items : List CheckSelfBulkRequestItem
  pub consistency : Option ConsistencyMessage

pub record RepresentationTypeMessage : Type 0 where
  pub resource_type : Text
  pub reporter_type : Option Text

pub record StreamedListObjectsRequest : Type 0 where
  pub object_type : Option RepresentationTypeMessage
  pub relation : Text
  pub subject : Option SubjectReferenceMessage
  pub consistency : Option ConsistencyMessage

pub record StreamedListSubjectsRequest : Type 0 where
  pub resource : Option ResourceReferenceMessage
  pub relation : Text
  pub subject_type : Option RepresentationTypeMessage
  pub subject_relation : Option Text
  pub consistency : Option ConsistencyMessage

-- The response to a single check.
pub record CheckResponse : Type 0 where
  pub allowed : Bool
  pub consistency_token : Option Text

-- What a pair answers: an item, or a status with its code.
pub data PairResponse : Type 0 where
  answer : Bool → PairResponse
  failure : ℕ → Code → PairResponse

pub record BulkResponsePair (Item : Type 0) : Type 0 where
  pub request : Option Item
  pub response : PairResponse

pub record BulkResponse (Item : Type 0) : Type 0 where
  pub pairs : List (BulkResponsePair Item)
  pub consistency_token : Option Text

abbrev pub text_or_empty : Option Text → Text
text_or_empty none = []
text_or_empty (some s) = s

abbrev pub get_resource_id : Option ResourceReferenceMessage → Text
get_resource_id none = []
get_resource_id (some r) = r.resource_id

abbrev pub get_resource_type : Option ResourceReferenceMessage → Text
get_resource_type none = []
get_resource_type (some r) = r.resource_type

abbrev pub get_reporter : Option ResourceReferenceMessage → Option ReporterReferenceMessage
get_reporter none = none
get_reporter (some r) = r.reporter

abbrev pub get_type : Option ReporterReferenceMessage → Text
get_type none = []
get_type (some r) = r.reporter_type

abbrev pub get_instance_id : Option ReporterReferenceMessage → Text
get_instance_id none = []
get_instance_id (some r) = text_or_empty r.instance_id

abbrev no_metadata : MetadataMessage
no_metadata = record {
  local_resource_id = [];
  api_href = [];
  console_href = [];
  reporter_version = [];
  transaction_id = [];
}

abbrev pub get_metadata : Option RepresentationsMessage → MetadataMessage
get_metadata none = no_metadata
get_metadata (some r) = elim r.metadata [ none ↦ no_metadata | some m ↦ m ]

abbrev pub get_common : Option RepresentationsMessage → Option (List (Text × Json))
get_common none = none
get_common (some r) = r.common

abbrev pub get_reporter_data : Option RepresentationsMessage → Option (List (Text × Json))
get_reporter_data none = none
get_reporter_data (some r) = r.reporter

abbrev pub get_represented_type : Option RepresentationTypeMessage → Text
get_represented_type none = []
get_represented_type (some r) = r.resource_type

abbrev pub get_represented_reporter : Option RepresentationTypeMessage → Text
get_represented_reporter none = []
get_represented_reporter (some r) = text_or_empty r.reporter_type
