-- ===== src/Tests/Messages.antt =====
-- The processing of a message at a concrete input.
use inventory_api.Base.{◌≡◌, refl, true, none, some, [], ◌∷◌, ok, err, arith, Text, codes}
use inventory_api.Model.Values.{resource_schema_not_found, reporter_schema_not_found}
use inventory_api.Model.SchemaService.{SchemaReads}
use inventory_api.Model.Schema.Workspace.{workspace_def}
use inventory_api.Relations.Simple.{SimpleRelations, new_simple_relations, simple_repository}
use inventory_api.Consumer.Replication.{limited}
use inventory_api.Consumer.RelationDefs.{Reflects, AgreesOutside}
use inventory_api.Consumer.Messages.{
  TupleEvent, RepresentationReads, parse_headers, process_message,
}
use inventory_api.Consumer.Updates.{CalculatesBy, no_schemas-CalculatesBy, process_message-Reflects}
use inventory_api.Tests.Data.{host, in_version}
use inventory_api.Tests.Replication.{fence, new_simple_relations-Reflects}

abbrev no_schemas : SchemaReads
no_schemas = record {
  resource_schema = λ t. err resource_schema_not_found;
  reporter_schema = λ t reporter. err reporter_schema_not_found;
}

-- The host is in its first workspace, and was in none before.
abbrev first_version : RepresentationReads
first_version = record {
  find_current_and_previous = λ key version operation. ok (in_version (codes "w1") 0, none);
  find_latest = λ key. ok (in_version (codes "w1") 0);
}

abbrev event : TupleEvent
event = record {
  reporter_resource_key = host;
  common_version = some 0;
  reporter_representation_version = some 0;
}

no_schemas-workspace : CalculatesBy no_schemas (workspace_def ∷ [])
no_schemas-workspace = no_schemas-CalculatesBy no_schemas (λ t. refl)

process_message-Reflects_example :
    (token : Text) × (s' : SimpleRelations) × (process_message simple_repository fence
        (limited 3)
        0
        no_schemas
        first_version
        true
        (codes "updated")
        (ok (some event))
        new_simple_relations
      ≡ (some (ok token), s'))
    × Reflects host (workspace_def ∷ []) (in_version (codes "w1") 0) s'
    × AgreesOutside host (workspace_def ∷ []) new_simple_relations s'
unfolding new_simple_relations inventory_api.Base.contains
process_message-Reflects_example =
    process_message-Reflects fence (limited 3) 0 no_schemas first_version (workspace_def ∷ []) event
      (in_version (codes "w1") 0) none new_simple_relations (omega arith) (refl, refl) (refl, tt)
      no_schemas-workspace refl new_simple_relations-Reflects

headers_run :
    parse_headers
      ((codes "txid", []) ∷ (codes "other", codes "x") ∷ (codes "operation", codes "updated") ∷ [])
    ≡ ok (record { operation = codes "updated"; txid = [] })
unfolding parse_headers inventory_api.Base.list_beq
headers_run = refl
