-- ===== src/Model/SchemaRepository.antt =====
-- internal/data/inmemory_schema_repository.go: the schemas by resource type, each with the schemas of
-- its reporters. Reading them from a directory or a file is not modelled.
pub mod Updates
use inventory_api.Base.{
  ℕ, Bool, true, false, not, Option, none, some, List, [], ◌∷◌, map, nonempty, Text, nat_eq,
  list_eq, ◌==◌, if◌then◌else◌, is_some, Result, ok, err, ◌>>=◌, ◌>>◌, guard, look, put, remove,
}
use inventory_api.Model.Values.{
  Error, Fallible, empty, resource_schema_not_found, reporter_schema_not_found, resource_exists,
  reporter_exists,
}
use inventory_api.Model.SchemaService.{SchemaFunctions, SchemaReads}

pub record ResourceSchemaRepresentation : Type 0 where
  pub resource_type : Text
  pub schema : Option SchemaFunctions

pub record ReporterSchemaRepresentation : Type 0 where
  pub resource_type : Text
  pub reporter_type : Text
  pub schema : Option SchemaFunctions

unfoldable pub new_resource_schema_representation :
    Text → Option SchemaFunctions → Fallible ResourceSchemaRepresentation
new_resource_schema_representation resource_type schema = do
  guard (nonempty resource_type) empty
  ok (record { resource_type = resource_type; schema = schema })

unfoldable pub new_reporter_schema_representation :
    Text → Text → Option SchemaFunctions → Fallible ReporterSchemaRepresentation
new_reporter_schema_representation resource_type reporter_type schema = do
  guard (nonempty resource_type) empty
  guard (nonempty reporter_type) empty
  ok (record { resource_type = resource_type; reporter_type = reporter_type; schema = schema })

pub record ResourceEntry : Type 0 where
  pub schema : ResourceSchemaRepresentation
  pub reporters : List (Text × ReporterSchemaRepresentation)

-- The field `content`.
abbrev pub Repository : Type 0
Repository = List (Text × ResourceEntry)

-- An operation that changes the repository, with its error.
abbrev pub Change : Type 0
Change = Repository → Option Error × Repository

unfoldable pub new_in_memory_schema_repository : Repository
new_in_memory_schema_repository = []

unfoldable pub get_resource_entry : Text → Repository → Fallible ResourceEntry
unfolding look
get_resource_entry t r = elim (look t r) [ none ↦ err resource_schema_not_found | some e ↦ ok e ]

-- Go ranges over the map in no fixed order.
unfoldable pub get_resource_schemas : Repository → List Text
get_resource_schemas r = map (λ (p : Text × ResourceEntry). p.0) r

unfoldable pub create_resource_schema : ResourceSchemaRepresentation → Change
unfolding look put
create_resource_schema resource r =
    if is_some (look resource.resource_type r)
    then (some resource_exists, r)
    else (none, put resource.resource_type (record { schema = resource; reporters = [] }) r)

unfoldable pub get_resource_schema : Text → Repository → Fallible ResourceSchemaRepresentation
unfolding get_resource_entry
get_resource_schema t r = do entry ← get_resource_entry t r; ok entry.schema

-- The entry is replaced, and keeps its reporters.
unfoldable pub update_resource_schema : ResourceSchemaRepresentation → Change
unfolding look put
update_resource_schema resource r = elim (look resource.resource_type r) [
  | none ↦ (some resource_schema_not_found, r)
  | some entry ↦ (none, put resource.resource_type (record entry { schema = resource }) r)
]

unfoldable pub delete_resource_schema : Text → Change
unfolding look remove
delete_resource_schema t r =
    if is_some (look t r) then (none, remove t r) else (some resource_schema_not_found, r)

unfoldable pub get_reporter_schemas : Text → Repository → Fallible (List Text)
unfolding get_resource_entry
get_reporter_schemas t r = do
  entry ← get_resource_entry t r
  ok (map (λ (p : Text × ReporterSchemaRepresentation). p.1.reporter_type) entry.reporters)

-- A change of the reporters of an entry, which the map holds by a pointer.
abbrev pub with_reporters :
    Text → ResourceEntry → List (Text × ReporterSchemaRepresentation) → Repository → Repository
with_reporters t entry reporters r = put t (record entry { reporters = reporters }) r

unfoldable pub create_reporter_schema : ReporterSchemaRepresentation → Change
unfolding look put
create_reporter_schema reporter r = elim (look reporter.resource_type r) [
  | none ↦ (some resource_schema_not_found, r)
  | some entry ↦
      if is_some (look reporter.reporter_type entry.reporters) then (some reporter_exists, r) else (
        none,
        with_reporters reporter.resource_type entry
            (put reporter.reporter_type reporter entry.reporters) r,
      )
]

unfoldable pub find_reporter : Text → ResourceEntry → Fallible ReporterSchemaRepresentation
unfolding look
find_reporter reporter entry = elim (look reporter entry.reporters) [
  | none ↦ err reporter_schema_not_found
  | some s ↦ ok s
]

unfoldable pub get_reporter_schema :
    Text → Text → Repository → Fallible ReporterSchemaRepresentation
unfolding get_resource_entry find_reporter
get_reporter_schema t reporter r = do entry ← get_resource_entry t r; find_reporter reporter entry

unfoldable pub update_reporter_schema : ReporterSchemaRepresentation → Change
unfolding look put
update_reporter_schema reporter r = elim (look reporter.resource_type r) [
  | none ↦ (some resource_schema_not_found, r)
  | some entry ↦
      if is_some (look reporter.reporter_type entry.reporters)
      then (
        none,
        with_reporters reporter.resource_type entry
            (put reporter.reporter_type reporter entry.reporters) r,
      )
      else (some reporter_schema_not_found, r)
]

unfoldable pub delete_reporter_schema : Text → Text → Change
unfolding look put remove
delete_reporter_schema t reporter r = elim (look t r) [
  | none ↦ (some resource_schema_not_found, r)
  | some entry ↦
      if is_some (look reporter entry.reporters)
      then (none, with_reporters t entry (remove reporter entry.reporters) r)
      else (some reporter_schema_not_found, r)
]

-- The repository as the schema service reads it.
abbrev pub reads_of : Repository → SchemaReads
reads_of r = record {
  resource_schema = λ t. (do resource ← get_resource_schema t r; ok resource.schema);
  reporter_schema = λ t reporter. (do s ← get_reporter_schema t reporter r; ok s.schema);
}
