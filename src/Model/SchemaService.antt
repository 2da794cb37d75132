-- ===== src/Model/SchemaService.antt =====
-- internal/biz/model/schema_service.go, over any repository of schemas. A schema is an interface of the
-- source, whose implementations call a JSON schema library: here the two functions that it has. A
-- schema may be nil.
pub mod Reports
use inventory_api.Base.{
  ℕ, Bool, true, false, not, Option, none, some, List, [], ◌∷◌, nonempty, Text, if◌then◌else◌,
  Result, ok, err, ◌>>=◌, ◌>>◌, guard,
}
use inventory_api.Model.Values.{
  Error, Fallible, resource_schema_not_found, reporter_schema_not_found, reporter_not_allowed,
  no_schema, missing_common, missing_reporter,
}
use inventory_api.Model.Representation.{Representation, has_data, new_empty_representation}
use inventory_api.Model.ReporterResource.{ReporterResourceKey}
use inventory_api.Model.Representations.{Representations}
use inventory_api.Model.Tuples.{TuplesToReplicate}
use inventory_api.Model.Schema.{calculate_tuples}

pub record SchemaFunctions : Type 0 where
  -- What Validate finds wrong.
  pub validate : Representation → Option Error
  pub calculate :
      Option Representations
      → Option Representations
      → ReporterResourceKey
      → Fallible TuplesToReplicate

-- The two reads of SchemaRepository that the service calls, at one state of the repository.
pub record SchemaReads : Type 0 where
  pub resource_schema : Text → Fallible (Option SchemaFunctions)
  pub reporter_schema : Text → Text → Fallible (Option SchemaFunctions)

-- The data that is validated: no data is the empty object.
abbrev pub data_or_empty : Representation → Representation
data_or_empty r = if has_data r then r else new_empty_representation

-- The error of a schema, or `missing` where there was no data.
abbrev pub mismatch : Error → Representation → Option Error → Fallible (Unit {0})
mismatch missing r none = ok tt
mismatch missing r (some e) = if has_data r then err e else err missing

abbrev pub validate_common : Representation → Option SchemaFunctions → Fallible (Unit {0})
validate_common r none = err no_schema
validate_common r (some schema) = mismatch missing_common r (schema.validate (data_or_empty r))

-- A reporter without a schema is abstract: it may give no data.
abbrev pub validate_reporter : Representation → Option SchemaFunctions → Fallible (Unit {0})
validate_reporter r none = if has_data r then err no_schema else ok tt
validate_reporter r (some schema) = mismatch missing_reporter r (schema.validate (data_or_empty r))

abbrev pub if_given :
    (Representation → Fallible (Unit {0})) → Option Representation → Fallible (Unit {0})
if_given validate none = ok tt
if_given validate (some r) = validate r

-- Whether a reporter reports the resource type, by the read of its schema.
abbrev pub reports_by : Fallible (Option SchemaFunctions) → Fallible Bool
reports_by (ok schema) = ok true
reports_by (err resource_schema_not_found) = ok false
reports_by (err reporter_schema_not_found) = ok false
reports_by (err e) = err e

module _ (repository : SchemaReads) where
  -- CalculateTuplesForResource; `none` is the panic of a call of a nil schema.
  unfoldable pub calculate_tuples_for_resource :
      Option Representations
      → Option Representations
      → ReporterResourceKey
      → Option (Fallible TuplesToReplicate)
  unfolding calculate_tuples
  calculate_tuples_for_resource current previous key =
      elim (repository.resource_schema key.resource_type) [
        | err resource_schema_not_found ↦ some (ok (calculate_tuples current previous key))
        | err e ↦ some (err e)
        | ok none ↦ none
        | ok (some schema) ↦ some (schema.calculate current previous key)
      ]

  -- IsReporterForResource
  unfoldable pub is_reporter_for_resource : Text → Text → Fallible Bool
  is_reporter_for_resource resource_type reporter_type =
      reports_by (repository.reporter_schema resource_type reporter_type)

  -- CommonShallowValidate
  unfoldable pub common_shallow_validate : Text → Representation → Fallible (Unit {0})
  common_shallow_validate resource_type r = do
    schema ← repository.resource_schema resource_type
    validate_common r schema

  -- ReporterShallowValidate
  unfoldable pub reporter_shallow_validate : Text → Text → Representation → Fallible (Unit {0})
  reporter_shallow_validate resource_type reporter_type r = do
    schema ← repository.reporter_schema resource_type reporter_type
    validate_reporter r schema

  -- ValidateReportAgainstSchema
  unfoldable pub validate_report_against_schema :
      Text → Text → Option Representation → Option Representation → Fallible (Unit {0})
  unfolding is_reporter_for_resource common_shallow_validate reporter_shallow_validate
  validate_report_against_schema resource_type reporter_type common reporter = do
    reports ← is_reporter_for_resource resource_type reporter_type
    guard reports reporter_not_allowed
    if_given (reporter_shallow_validate resource_type reporter_type) reporter
    if_given (common_shallow_validate resource_type) common
