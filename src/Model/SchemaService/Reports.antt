-- ===== src/Model/SchemaService/Reports.antt =====
-- Which reports internal/biz/model/schema_service.go admits.
use inventory_api.Base.{
  ◌≡◌, refl, ◌↔◌, ◌⊎◌, false, Option, none, some, arith, Text, ok, err, ◌>>=◌, ◌>>◌, guard,
}
use inventory_api.Model.Values.{
  Error, Fallible, missing_common, missing_reporter, reporter_not_allowed,
}
use inventory_api.Model.Representation.{Representation, has_data}
use inventory_api.Model.SchemaService.{
  SchemaFunctions, SchemaReads, data_or_empty, common_shallow_validate,
  validate_report_against_schema, mismatch, validate_common, validate_reporter, if_given,
  reports_by,
}

-- A schema finds nothing wrong with data; no data stand for the empty object.
abbrev pub Satisfies : Representation → SchemaFunctions → Type 0
Satisfies r schema = schema.validate (data_or_empty r) ≡ none

-- Reporter data fit a reporter that has the schema, or none and then no data.
abbrev pub FitsReporter : Option SchemaFunctions → Option Representation → Type 0
FitsReporter schema none = Unit {0}
FitsReporter none (some r) = has_data r ≡ false
FitsReporter (some schema) (some r) = Satisfies r schema

-- Common data fit a resource type that has a schema.
abbrev pub FitsCommon : Fallible (Option SchemaFunctions) → Option Representation → Type 0
FitsCommon schema none = Unit {0}
FitsCommon schema (some r) = (f : SchemaFunctions) × (schema ≡ ok (some f)) × Satisfies r f

mismatch-ok :
    (missing : Error) (r : Representation) (o : Option Error)
    → (mismatch missing r o ≡ ok tt) ↔ (o ≡ none)
mismatch-ok missing r none = (λ h. refl, λ h. refl)
mismatch-ok missing r (some e) = (λ h. ground arith, λ h. cc)

validate_reporter-ok :
    (schema : Option SchemaFunctions) (r : Representation)
    → (validate_reporter r schema ≡ ok tt) ↔ FitsReporter schema (some r)
validate_reporter-ok none r = (λ h. ground arith, λ h. ground arith)
validate_reporter-ok (some f) r = mismatch-ok missing_reporter r (f.validate (data_or_empty r))

>>-ok : (m c : Fallible (Unit {0})) → ((m >> c) ≡ ok tt) ↔ ((m ≡ ok tt) × (c ≡ ok tt))
>>-ok (ok tt) c = (λ h. (refl, h), λ h. h.1)
>>-ok (err e) c = (λ h. cc, λ h. cc (h.0))

validate_common-ok :
    (schema : Fallible (Option SchemaFunctions)) (r : Representation)
    → ((schema >>= validate_common r) ≡ ok tt) ↔ FitsCommon schema (some r)
validate_common-ok (err e) r = (λ h. cc, λ h. cc (h.1))
validate_common-ok (ok none) r = (λ h. cc, λ h. cc (h.1))
validate_common-ok (ok (some f)) r =
    let whole = mismatch-ok missing_common r (f.validate (data_or_empty r)) in
    (λ h. (f, refl, whole.0 h), λ h. let same : f ≡ h.0 = cc (h.1) in whole.1 (rw same h.2))

reports_by-err : (e : Error) → (reports_by (err e) ≡ ok false) ⊎ (reports_by (err e) ≡ err e)
reports_by-err e = ground arith

reporter-ok :
    (schema : Fallible (Option SchemaFunctions)) (reporter : Option Representation)
    (c : Fallible (Unit {0}))
    → ((do
      reports ← reports_by schema
      guard reports reporter_not_allowed
      if_given (λ r. schema >>= validate_reporter r) reporter
      c)
        ≡ ok tt)
      ↔ (((s : Option SchemaFunctions) × (schema ≡ ok s) × FitsReporter s reporter) × (c ≡ ok tt))
reporter-ok (err e) reporter c = (λ h. ground (arith, reports_by-err e, h), λ h. cc (h.0.1))
reporter-ok (ok s) none c = (λ h. ((s, refl, tt), h), λ h. h.1)
reporter-ok (ok s) (some r) c =
    let both = >>-ok (validate_reporter r s) c in
    let fits = validate_reporter-ok s r in
    (
      λ h. ((s, refl, fits.0 (both.0 h).0), (both.0 h).1),
      λ h. let same : s ≡ h.0.0 = cc (h.0.1) in both.1 (fits.1 (rw same h.0.2), h.1),
    )

module _ (repository : SchemaReads) where
  common_shallow_validate-ok :
      (resource_type : Text) (common : Option Representation)
      → (if_given (common_shallow_validate repository resource_type) common ≡ ok tt)
        ↔ FitsCommon (repository.resource_schema resource_type) common
  unfolding common_shallow_validate
  common_shallow_validate-ok resource_type none = (λ h. tt, λ h. refl)
  common_shallow_validate-ok resource_type (some r) =
      validate_common-ok (repository.resource_schema resource_type) r

  -- A report passes exactly if the reporter has an entry for the resource type, its own data fit that
  -- entry's schema, and its common data fit the schema of the resource type, as far as they are given.
  pub validate_report_against_schema-ok :
      (resource_type reporter_type : Text) (common reporter : Option Representation)
      → (validate_report_against_schema repository resource_type reporter_type common reporter
          ≡ ok tt)
        ↔ (((schema : Option SchemaFunctions) × (repository.reporter_schema resource_type
                  reporter_type
                ≡ ok schema)
              × FitsReporter schema reporter)
            × FitsCommon (repository.resource_schema resource_type) common)
  unfolding validate_report_against_schema
  validate_report_against_schema-ok resource_type reporter_type common reporter =
      let own =
        reporter-ok (repository.reporter_schema resource_type reporter_type) reporter
          (if_given (common_shallow_validate repository resource_type) common) in
      let shared = common_shallow_validate-ok resource_type common in
      (λ h. ((own.0 h).0, shared.0 (own.0 h).1), λ h. own.1 (h.0, shared.1 h.1))
