-- ===== src/Model/Schema/Workspace.antt =====
-- The default schema of internal/biz/model/schema.go as one relation definition.
use inventory_api.Base.{
  ◌≡◌, refl, ap, ◌∙◌, false, ◌&&◌, Option, none, List, [], ◌∷◌, ◌++◌, map, arith, Text, codes,
  list_eq, list_beq, nat_eq, ◌==◌, ==_comm, if◌then◌else◌, contains, keep, set_of, nonempty,
}
use inventory_api.Model.ReporterResource.{ReporterResourceKey}
use inventory_api.Model.References.{
  RelationsTuple, new_relation_tuple_for_subject, new_workspace_relations_tuple, workspace_relation,
  rbac_namespace,
}
use inventory_api.Model.Tuples.{new_tuples_to_replicate, values_only_in}
use inventory_api.Model.Representations.{Representations, workspace_id}
use inventory_api.Model.Schema.{
  RelationDef, calculate_tuples, calculate_tuples_from_relation_defs, singleton_if_given,
  tuple_if_given,
}

-- The relation that the default schema replicates.
abbrev pub workspace_def : RelationDef
workspace_def = record {
  field_name = codes "workspace_id";
  relation_name = workspace_relation;
  subject_namespace = rbac_namespace;
  subject_resource_type = workspace_relation;
  multi_valued = false;
}

values_only_in-singletons :
    (v w : Text)
    → values_only_in (singleton_if_given v) (singleton_if_given w)
      ≡ (if v == w then [] else singleton_if_given v)
unfolding values_only_in keep contains set_of list_beq
values_only_in-singletons [] [] = refl
values_only_in-singletons [] (b ∷ w) = refl
values_only_in-singletons (a ∷ v) [] = refl
values_only_in-singletons (a ∷ v) (b ∷ w) = ground (arith, ==_comm (a ∷ v) (b ∷ w))

-- What is written for one text if the other is there already.
abbrev tuples_if_new : Text → Text → ReporterResourceKey → List RelationsTuple
tuples_if_new v w key = if v == w then [] else tuple_if_given v key

tuples_if_given :
    (v w : Text) (key : ReporterResourceKey)
    → map
          (new_relation_tuple_for_subject key workspace_relation rbac_namespace workspace_relation)
          (values_only_in (singleton_if_given v) (singleton_if_given w))
        ++ []
      ≡ tuples_if_new v w key
unfolding new_workspace_relations_tuple
tuples_if_given v w key = rw (values_only_in-singletons v w) (ground arith)

new_tuples_to_replicate-tuples_if_new :
    (v w : Text) (key : ReporterResourceKey)
    → (if nonempty w && w == v
        then record { tuples_to_create = none; tuples_to_delete = none }
        else new_tuples_to_replicate (tuple_if_given v key) (tuple_if_given w key))
      ≡ new_tuples_to_replicate (tuples_if_new v w key) (tuples_if_new w v key)
unfolding new_tuples_to_replicate list_beq
new_tuples_to_replicate-tuples_if_new [] [] key = refl
new_tuples_to_replicate-tuples_if_new [] (b ∷ w) key = refl
new_tuples_to_replicate-tuples_if_new (a ∷ v) [] key = refl
new_tuples_to_replicate-tuples_if_new (a ∷ v) (b ∷ w) key =
    rw (==_comm (a ∷ v) (b ∷ w)) (ground arith)

-- The tuples of the default schema are those of the relation definitions with the one definition
-- `workspace_def`, whatever the two versions of the resource are.
pub calculate_tuples_lem :
    (current previous : Option Representations) (key : ReporterResourceKey)
    → calculate_tuples current previous key
      ≡ calculate_tuples_from_relation_defs (workspace_def ∷ []) current previous key
unfolding calculate_tuples calculate_tuples_from_relation_defs
calculate_tuples_lem current previous key =
    new_tuples_to_replicate-tuples_if_new (workspace_id current) (workspace_id previous) key
    ∙ cc (
      ap new_tuples_to_replicate
          (tuples_if_given (workspace_id current) (workspace_id previous) key),
      tuples_if_given (workspace_id previous) (workspace_id current) key,
    )
