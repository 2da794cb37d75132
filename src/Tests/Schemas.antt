-- ===== src/Tests/Schemas.antt =====
-- The properties of the schema service and of the schemas in memory at concrete inputs.
use inventory_api.Base.{
  ◌≡◌, refl, ◌↔◌, Bool, true, false, ◌&&◌, Option, none, some, List, [], ◌∷◌, Text, codes, list_eq,
  nat_eq, ◌==◌, if◌then◌else◌, ok, err,
}
use inventory_api.Model.Values.{schema_mismatch, reporter_schema_not_found, reporter_not_allowed}
use inventory_api.Model.Representation.{has_data}
use inventory_api.Model.Schema.{calculate_tuples}
use inventory_api.Model.SchemaService.{SchemaFunctions, validate_report_against_schema}
use inventory_api.Model.SchemaService.Reports.{
  FitsReporter, FitsCommon, validate_report_against_schema-ok,
}
use inventory_api.Model.SchemaRepository.{
  Repository, ResourceSchemaRepresentation, ReporterSchemaRepresentation, get_resource_schema,
  get_reporter_schema, update_resource_schema, delete_reporter_schema, reads_of,
}
use inventory_api.Model.SchemaRepository.Updates.{
  get_schema-update_resource_schema, get_schema-delete_reporter_schema,
  validate_report-delete_reporter_schema,
}
use inventory_api.Tests.Data.{in_workspace}

-- A schema that wants some field.
abbrev wants_data : SchemaFunctions
wants_data = record {
  validate = λ r. if has_data r then none else some schema_mismatch;
  calculate = λ current previous key. ok (calculate_tuples current previous key);
}

abbrev host_schema : ResourceSchemaRepresentation
host_schema = record { resource_type = codes "host"; schema = none }

abbrev new_host_schema : ResourceSchemaRepresentation
new_host_schema = record { resource_type = codes "host"; schema = some wants_data }

abbrev hbi_schema : ReporterSchemaRepresentation
hbi_schema = record { resource_type = codes "host"; reporter_type = codes "hbi"; schema = none }

abbrev schemas : Repository
schemas =
    (codes "host", record { schema = host_schema; reporters = (codes "hbi", hbi_schema) ∷ [] }) ∷ []

abbrev with_new_host : Repository
with_new_host =
    (codes "host", record { schema = new_host_schema; reporters = (codes "hbi", hbi_schema) ∷ [] })
    ∷ []

abbrev without_hbi : Repository
without_hbi = (codes "host", record { schema = host_schema; reporters = [] }) ∷ []

updates_host : update_resource_schema new_host_schema schemas ≡ (none, with_new_host)
unfolding update_resource_schema inventory_api.Base.list_beq
updates_host = refl

deletes_hbi : delete_reporter_schema (codes "host") (codes "hbi") schemas ≡ (none, without_hbi)
unfolding delete_reporter_schema inventory_api.Base.list_beq
deletes_hbi = refl

validate_report_against_schema-ok_example :
    (validate_report_against_schema
        (reads_of with_new_host)
        (codes "host")
        (codes "hbi")
        (some (in_workspace (codes "w1")))
        none
      ≡ ok tt)
    ↔ (((schema : Option SchemaFunctions) × ((reads_of with_new_host).reporter_schema
              (codes "host")
              (codes "hbi")
            ≡ ok schema)
          × FitsReporter schema none)
        × FitsCommon
            ((reads_of with_new_host).resource_schema (codes "host"))
            (some (in_workspace (codes "w1"))))
validate_report_against_schema-ok_example =
    validate_report_against_schema-ok (reads_of with_new_host) (codes "host") (codes "hbi")
      (some (in_workspace (codes "w1"))) none

get_schema-update_resource_schema_example :
    (get_resource_schema (codes "host") with_new_host ≡ (
      if codes "host" == codes "host"
      then ok new_host_schema
      else get_resource_schema (codes "host") schemas))
    × (get_reporter_schema (codes "host") (codes "hbi") with_new_host
        ≡ get_reporter_schema (codes "host") (codes "hbi") schemas)
get_schema-update_resource_schema_example =
    get_schema-update_resource_schema new_host_schema schemas with_new_host (codes "host")
      (codes "hbi") updates_host

get_schema-delete_reporter_schema_example :
    (get_resource_schema (codes "host") without_hbi ≡ get_resource_schema (codes "host") schemas)
    × (get_reporter_schema (codes "host") (codes "hbi") without_hbi ≡ (
        if codes "host" == codes "host" && codes "hbi" == codes "hbi"
        then err reporter_schema_not_found
        else get_reporter_schema (codes "host") (codes "hbi") schemas))
get_schema-delete_reporter_schema_example =
    get_schema-delete_reporter_schema (codes "host") (codes "hbi") schemas without_hbi
      (codes "host") (codes "hbi") deletes_hbi

validate_report-delete_reporter_schema_example :
    validate_report_against_schema
      (reads_of without_hbi)
      (codes "host")
      (codes "hbi")
      (some (in_workspace (codes "w1")))
      none
    ≡ err reporter_not_allowed
validate_report-delete_reporter_schema_example =
    validate_report-delete_reporter_schema (codes "host") (codes "hbi") schemas without_hbi
      (some (in_workspace (codes "w1"))) none deletes_hbi
