-- ===== src/Services/Tuples.antt =====
-- internal/service/tuples/tuples.go: the deprecated service of tuples for one client, with the messages of
-- api/kessel/inventory/v1beta2 that it reads and writes, as their getters show them. Pages are left out.
pub mod RoundTrip
use inventory_api.Base.{
  Bool, Option, none, some, List, [], ◌∷◌, map, nonempty, Text, if◌then◌else◌, Result, ok, err,
  ◌>>=◌, on_result,
}
use inventory_api.Model.Values.{Error, Fallible, new_trimmed}
use inventory_api.Model.References.{
  ReporterReference, ResourceReference, RelationsTuple, TupleFilter, TupleSubjectFilter,
}
use inventory_api.Relations.Codes.{FencingCheck, RelationsRepository, RelationsQueries}
use inventory_api.Access.Authorization.{AuthzContext, MetaAuthorizer}
use inventory_api.Store.Repository.{Fault, domain}
use inventory_api.UseCases.Tuples
use inventory_api.UseCases.Tuples.{CreateTuplesCommand, DeleteTuplesCommand, ReadTuplesCommand}
use inventory_api.Services.Messages.{ConsistencyMessage}
use inventory_api.Services.Conversions.{consistency_from_proto, token_if_any}

pub record RelationObjectType : Type 0 where
  pub namespace : Text
  pub name : Text

pub record RelationObjectReference : Type 0 where
  pub object_type : Option RelationObjectType
  pub id : Text

pub record RelationSubjectReference : Type 0 where
  pub subject : Option RelationObjectReference
  pub relation : Option Text

pub record RelationshipMessage : Type 0 where
  pub resource : Option RelationObjectReference
  pub relation : Text
  pub subject : Option RelationSubjectReference

pub record RelationFencingCheck : Type 0 where
  pub lock_id : Text
  pub lock_token : Text

pub record RelationSubjectFilter : Type 0 where
  pub subject_namespace : Option Text
  pub subject_type : Option Text
  pub subject_id : Option Text
  pub relation : Option Text

pub record RelationTupleFilter : Type 0 where
  pub resource_namespace : Option Text
  pub resource_type : Option Text
  pub resource_id : Option Text
  pub relation : Option Text
  pub subject_filter : Option RelationSubjectFilter

pub record CreateTuplesRequest : Type 0 where
  pub tuples : List RelationshipMessage
  pub upsert : Bool
  pub fencing_check : Option RelationFencingCheck

pub record DeleteTuplesRequest : Type 0 where
  pub filter : Option RelationTupleFilter
  pub fencing_check : Option RelationFencingCheck

pub record ReadTuplesRequest : Type 0 where
  pub filter : Option RelationTupleFilter
  pub consistency : Option ConsistencyMessage

abbrev pub get_id : Option RelationObjectReference → Text
get_id none = []
get_id (some o) = o.id

abbrev pub get_object_type : Option RelationObjectReference → RelationObjectType
get_object_type none = record { namespace = []; name = [] }
get_object_type (some o) = elim o.object_type [
  | none ↦ record { namespace = []; name = [] }
  | some t ↦ t
]

abbrev pub get_subject : Option RelationSubjectReference → Option RelationObjectReference
get_subject none = none
get_subject (some s) = s.subject

-- `GetSubject().Relation`: a missing subject has no id, and its conversion ended before this.
abbrev pub get_subject_relation : Option RelationSubjectReference → Option Text
get_subject_relation none = none
get_subject_relation (some s) = s.relation

-- An object as a reference, by the id that was read of it. DeserializeResourceType and
-- DeserializeReporterType change nothing.
abbrev pub reference_of : Option RelationObjectReference → Text → ResourceReference
reference_of o id = record {
  resource_type = (get_object_type o).name;
  resource_id = id;
  reporter = some (record { reporter_type = (get_object_type o).namespace; instance_id = none });
}

-- relationshipToRelationsTuple
unfoldable pub relationship_to_relations_tuple : RelationshipMessage → Fallible RelationsTuple
unfolding new_trimmed
relationship_to_relations_tuple m = do
  resource_id ← new_trimmed (get_id m.resource)
  subject_id ← new_trimmed (get_id (get_subject m.subject))
  ok (record {
    object = reference_of m.resource resource_id;
    relation = m.relation;
    subject = record {
      resource = reference_of (get_subject m.subject) subject_id;
      relation = get_subject_relation m.subject;
    };
  })

-- relationshipsToRelationsTuples; the first error ends the loop.
unfoldable pub relationships_to_relations_tuples :
    List RelationshipMessage → Fallible (List RelationsTuple)
unfolding relationship_to_relations_tuple
relationships_to_relations_tuples [] = ok []
relationships_to_relations_tuples (m ∷ ms) =
    let rest = relationships_to_relations_tuples ms in
    (do t ← relationship_to_relations_tuple m; ts ← rest; ok (t ∷ ts))

-- fencingCheckFromProto
unfoldable pub fencing_check_from_proto :
    Option RelationFencingCheck → Fallible (Option FencingCheck)
unfolding new_trimmed
fencing_check_from_proto none = ok none
fencing_check_from_proto (some m) = do
  lock_id ← new_trimmed m.lock_id
  lock_token ← new_trimmed m.lock_token
  ok (some (record { lock_id = lock_id; lock_token = lock_token }))

abbrev subject_filter_of : Option RelationSubjectFilter → Option TupleSubjectFilter
subject_filter_of none = none
subject_filter_of (some m) = some (record {
  subject_type = m.subject_type;
  reporter_type = m.subject_namespace;
  subject_id = m.subject_id;
  relation = m.relation;
})

-- tupleFilterFromProto
unfoldable pub tuple_filter_from_proto : Option RelationTupleFilter → TupleFilter
tuple_filter_from_proto none = record {
  object_type = none;
  reporter_type = none;
  object_id = none;
  relation = none;
  subject = none;
}
tuple_filter_from_proto (some m) = record {
  object_type = m.resource_type;
  reporter_type = m.resource_namespace;
  object_id = m.resource_id;
  relation = m.relation;
  subject = subject_filter_of m.subject_filter;
}

-- toCreateTuplesCommand
unfoldable pub to_create_tuples_command : CreateTuplesRequest → Fallible CreateTuplesCommand
unfolding relationships_to_relations_tuples fencing_check_from_proto
to_create_tuples_command req = do
  tuples ← relationships_to_relations_tuples req.tuples
  fencing_check ← fencing_check_from_proto req.fencing_check
  ok (record { tuples = tuples; upsert = req.upsert; fencing_check = fencing_check })

-- toDeleteTuplesCommand
unfoldable pub to_delete_tuples_command : DeleteTuplesRequest → Fallible DeleteTuplesCommand
unfolding tuple_filter_from_proto fencing_check_from_proto
to_delete_tuples_command req = do
  fencing_check ← fencing_check_from_proto req.fencing_check
  ok (record { filter = tuple_filter_from_proto req.filter; fencing_check = fencing_check })

-- toReadTuplesCommand, which gives no error.
unfoldable pub to_read_tuples_command : ReadTuplesRequest → ReadTuplesCommand
unfolding tuple_filter_from_proto consistency_from_proto
to_read_tuples_command req = record {
  filter = tuple_filter_from_proto req.filter;
  consistency = some (consistency_from_proto req.consistency);
}

abbrev namespace_of : Option ReporterReference → Text
namespace_of none = []
namespace_of (some r) = r.reporter_type

abbrev object_message : ResourceReference → RelationObjectReference
object_message r = record {
  object_type = some (record { namespace = namespace_of r.reporter; name = r.resource_type });
  id = r.resource_id;
}

-- readTuplesItemToProto, without the page and the token.
unfoldable pub read_tuples_item_to_proto : RelationsTuple → RelationshipMessage
read_tuples_item_to_proto t = record {
  resource = some (object_message t.object);
  relation = t.relation;
  subject = some (record {
    subject = some (object_message t.subject.resource);
    relation = t.subject.relation;
  });
}

module _ (R : RelationsRepository) (context : Option AuthzContext)
    (authorizer : Option MetaAuthorizer) where
  -- CreateTuples, with fromCreateTuplesResult
  unfoldable pub create_tuples_request :
      CreateTuplesRequest → R.State → Result Fault (Option Text) × R.State
  unfolding to_create_tuples_command Tuples.create_tuples
  create_tuples_request req s = elim (to_create_tuples_command req) [
    | err e ↦ (err (domain e), s)
    | ok cmd ↦
        on_result (Tuples.create_tuples R context authorizer cmd s)
          (λ token s'. (ok (token_if_any token), s')) (λ e s'. (err e, s'))
  ]

  -- DeleteTuples, with fromDeleteTuplesResult
  unfoldable pub delete_tuples_request :
      DeleteTuplesRequest → R.State → Result Fault (Option Text) × R.State
  unfolding to_delete_tuples_command Tuples.delete_tuples
  delete_tuples_request req s = elim (to_delete_tuples_command req) [
    | err e ↦ (err (domain e), s)
    | ok cmd ↦
        on_result (Tuples.delete_tuples R context authorizer cmd s)
          (λ token s'. (ok (token_if_any token), s')) (λ e s'. (err e, s'))
  ]

  -- AcquireLock, with toAcquireLockCommand
  unfoldable pub acquire_lock_request : Text → R.State → Result Fault Text × R.State
  unfolding new_trimmed Tuples.acquire_lock
  acquire_lock_request lock_id s = elim (new_trimmed lock_id) [
    | err e ↦ (err (domain e), s)
    | ok id ↦ Tuples.acquire_lock R context authorizer id s
  ]

  -- ReadTuples: what is sent to the stream.
  unfoldable pub read_tuples_request :
      RelationsQueries R.State
      → ReadTuplesRequest
      → R.State
      → Result Fault (List RelationshipMessage) × R.State
  unfolding to_read_tuples_command Tuples.read_tuples read_tuples_item_to_proto
  read_tuples_request Q req s =
      on_result (Tuples.read_tuples R context authorizer Q (to_read_tuples_command req) s)
        (λ found s'. (ok (map read_tuples_item_to_proto found), s')) (λ e s'. (err e, s'))
