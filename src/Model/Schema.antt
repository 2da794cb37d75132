-- ===== src/Model/Schema.antt =====
-- internal/biz/model/schema.go: which tuples follow from the two versions of a resource.
pub mod Workspace
use inventory_api.Base.{
  Bool, true, false, ◌&&◌, not, Option, none, some, List, [], ◌∷◌, ◌++◌, nonempty, Text, list_eq,
  nat_eq, ◌==◌, if◌then◌else◌, Result, ok, err, ◌>>=◌, ◌>>◌, guard,
}
use inventory_api.Model.Values.{
  Fallible, field_name_required, relation_name_required, subject_namespace_required,
  subject_resource_type_required,
}
use inventory_api.Model.ReporterResource.{ReporterResourceKey}
use inventory_api.Model.References.{RelationsTuple, new_workspace_relations_tuple}
use inventory_api.Model.Tuples.{TuplesToReplicate, new_tuples_to_replicate, diff_relation_values}
use inventory_api.Model.Representations.{
  Representations, string_field, string_slice_field, workspace_id,
}

abbrev pub tuple_if_given : Text → ReporterResourceKey → List RelationsTuple
tuple_if_given workspace key =
    if nonempty workspace then new_workspace_relations_tuple workspace key ∷ [] else []

-- DefaultSchema.CalculateTuples
unfoldable pub calculate_tuples :
    Option Representations → Option Representations → ReporterResourceKey → TuplesToReplicate
unfolding workspace_id new_tuples_to_replicate
calculate_tuples current previous key =
    if nonempty (workspace_id previous) && workspace_id previous == workspace_id current
    then record { tuples_to_create = none; tuples_to_delete = none }
    else new_tuples_to_replicate (tuple_if_given (workspace_id current) key)
        (tuple_if_given (workspace_id previous) key)

pub record RelationDef : Type 0 where
  pub field_name : Text
  pub relation_name : Text
  pub subject_namespace : Text
  pub subject_resource_type : Text
  pub multi_valued : Bool

unfoldable pub new_relation_def : Text → Text → Text → Text → Bool → Fallible RelationDef
new_relation_def field_name relation_name namespace resource_type multi_valued = do
  guard (nonempty field_name) field_name_required
  guard (nonempty relation_name) relation_name_required
  guard (nonempty namespace) subject_namespace_required
  guard (nonempty resource_type) subject_resource_type_required
  ok (record {
    field_name = field_name;
    relation_name = relation_name;
    subject_namespace = namespace;
    subject_resource_type = resource_type;
    multi_valued = multi_valued;
  })

abbrev pub singleton_if_given : Text → List Text
singleton_if_given v = if nonempty v then v ∷ [] else []

-- The values that a relation takes in one version of the resource.
unfoldable pub relation_values : RelationDef → Option Representations → List Text
unfolding string_field string_slice_field
relation_values rel r =
    if rel.multi_valued
    then string_slice_field rel.field_name r
    else singleton_if_given (string_field rel.field_name r)

-- The loop of CalculateTuplesFromRelationDefs.
unfoldable pub diff_relations :
    List RelationDef
    → Option Representations
    → Option Representations
    → ReporterResourceKey
    → List RelationsTuple × List RelationsTuple
unfolding relation_values diff_relation_values
diff_relations [] current previous key = ([], [])
diff_relations (rel ∷ rels) current previous key =
    let (creates, deletes) =
      diff_relation_values key rel.relation_name rel.subject_namespace rel.subject_resource_type
        (relation_values rel current) (relation_values rel previous) in
    let (all_creates, all_deletes) = diff_relations rels current previous key in
    (creates ++ all_creates, deletes ++ all_deletes)

unfoldable pub calculate_tuples_from_relation_defs :
    List RelationDef
    → Option Representations
    → Option Representations
    → ReporterResourceKey
    → TuplesToReplicate
unfolding diff_relations new_tuples_to_replicate
calculate_tuples_from_relation_defs rels current previous key =
    let (creates, deletes) = diff_relations rels current previous key in
    new_tuples_to_replicate creates deletes
