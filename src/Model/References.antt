-- ===== src/Model/References.antt =====
-- internal/biz/model/resource_reference.go, subject_reference.go, relationship.go,
-- relations_tuple.go and tuple_filter.go: what the relations backend is told and asked.
use inventory_api.Base.{Option, none, some, Text, codes}
use inventory_api.Model.ReporterResource.{ReporterResourceKey}

pub record ReporterReference : Type 0 where
  pub reporter_type : Text
  pub instance_id : Option Text

pub record ResourceReference : Type 0 where
  pub resource_type : Text
  pub resource_id : Text
  pub reporter : Option ReporterReference

pub record SubjectReference : Type 0 where
  pub resource : ResourceReference
  pub relation : Option Text

pub record Relationship : Type 0 where
  pub object : ResourceReference
  pub relation : Text
  pub subject : SubjectReference

pub record RelationsTuple : Type 0 where
  pub object : ResourceReference
  pub relation : Text
  pub subject : SubjectReference

pub record TupleSubjectFilter : Type 0 where
  pub subject_type : Option Text
  pub reporter_type : Option Text
  pub subject_id : Option Text
  pub relation : Option Text

-- A field that is `none` matches any value.
pub record TupleFilter : Type 0 where
  pub object_type : Option Text
  pub reporter_type : Option Text
  pub object_id : Option Text
  pub relation : Option Text
  pub subject : Option TupleSubjectFilter

abbrev reference_in : Text → Text → Text → ResourceReference
reference_in reporter_type resource_type resource_id = record {
  resource_type = resource_type;
  resource_id = resource_id;
  reporter = some (record { reporter_type = reporter_type; instance_id = none });
}

-- NewRelationTupleForSubject
unfoldable pub new_relation_tuple_for_subject :
    ReporterResourceKey → Text → Text → Text → Text → RelationsTuple
new_relation_tuple_for_subject key relation namespace subject_type subject_id = record {
  object = reference_in key.reporter.reporter_type key.resource_type key.local_resource_id;
  relation = relation;
  subject = record { resource = reference_in namespace subject_type subject_id; relation = none };
}

abbrev pub workspace_relation : Text
workspace_relation = codes "workspace"

abbrev pub rbac_namespace : Text
rbac_namespace = codes "rbac"

unfoldable pub new_workspace_relations_tuple : Text → ReporterResourceKey → RelationsTuple
unfolding new_relation_tuple_for_subject
new_workspace_relations_tuple workspace_id key =
    new_relation_tuple_for_subject key workspace_relation rbac_namespace workspace_relation
      workspace_id
