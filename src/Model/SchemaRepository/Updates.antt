-- ===== src/Model/SchemaRepository/Updates.antt =====
-- What the reads of internal/data/inmemory_schema_repository.go say after a change.
use inventory_api.Base.{
  ◌≡◌, refl, sym, ap, ◌∙◌, true, ◌&&◌, Option, none, some, List, arith, Text, nat_eq, list_eq, ◌==◌,
  ==_iff, ==_refl, if◌then◌else◌, is_some, ok, err, look, put, remove, look-put, look-remove,
  Option-cases, inl, inr,
}
use inventory_api.Model.Values.{Error, reporter_schema_not_found, reporter_not_allowed}
use inventory_api.Model.Representation.{Representation}
use inventory_api.Model.SchemaService.{validate_report_against_schema, is_reporter_for_resource}
use inventory_api.Model.SchemaRepository.{
  Repository, ResourceEntry, ResourceSchemaRepresentation, ReporterSchemaRepresentation,
  get_resource_entry, get_resource_schema, get_reporter_schema, find_reporter,
  update_resource_schema, delete_reporter_schema, reads_of,
}

get_resource_entry-put :
    (t k : Text) (entry : ResourceEntry) (r : Repository)
    → get_resource_entry t (put k entry r) ≡ (if k == t then ok entry else get_resource_entry t r)
unfolding get_resource_entry
get_resource_entry-put t k entry r = ground (arith, look-put t k entry r)

get_resource_entry-look :
    (t : Text) (entry : ResourceEntry) (r : Repository)
    → look t r ≡ some entry
    → get_resource_entry t r ≡ ok entry
unfolding get_resource_entry
get_resource_entry-look t entry r h = ground arith

module _ (t reporter k : Text) (entry : ResourceEntry) (r : Repository) where
  get_reporter_schema-put :
      get_reporter_schema t reporter (put k entry r)
      ≡ (if k == t then find_reporter reporter entry else get_reporter_schema t reporter r)
  unfolding get_reporter_schema
  get_reporter_schema-put = ground (arith, get_resource_entry-put t k entry r)

  get_resource_schema-put :
      get_resource_schema t (put k entry r)
      ≡ (if k == t then ok entry.schema else get_resource_schema t r)
  unfolding get_resource_schema
  get_resource_schema-put = ground (arith, get_resource_entry-put t k entry r)

  -- Reads of the entry that is there, at any name that is equal to its own.
  get_reporter_schema-look :
      look k r ≡ some entry
      → (k == t) ≡ true
      → get_reporter_schema t reporter r ≡ find_reporter reporter entry
  unfolding get_reporter_schema
  get_reporter_schema-look h e =
      ground (arith, get_resource_entry-look k entry r h, (==_iff k t).0 e)

  get_resource_schema-look :
      look k r ≡ some entry → (k == t) ≡ true → get_resource_schema t r ≡ ok entry.schema
  unfolding get_resource_schema
  get_resource_schema-look h e =
      ground (arith, get_resource_entry-look k entry r h, (==_iff k t).0 e)

find_reporter-update :
    (reporter : Text) (entry : ResourceEntry) (resource : ResourceSchemaRepresentation)
    → find_reporter reporter (record entry { schema = resource }) ≡ find_reporter reporter entry
unfolding find_reporter
find_reporter-update reporter entry resource = refl

find_reporter-remove :
    (reporter name : Text) (entry : ResourceEntry)
    → find_reporter reporter (record entry { reporters = remove name entry.reporters })
      ≡ (if name == reporter then err reporter_schema_not_found else find_reporter reporter entry)
unfolding find_reporter
find_reporter-remove reporter name entry = ground (arith, look-remove reporter name entry.reporters)

deleted_from :
    (k name : Text) (entry : ResourceEntry) (r r' : Repository)
    → ◌≡◌ {A = Option Error × Repository}
        (if is_some (look name entry.reporters)
          then (none, put k (record entry { reporters = remove name entry.reporters }) r)
          else (some reporter_schema_not_found, r))
        (none, r')
    → r' ≡ put k (record entry { reporters = remove name entry.reporters }) r
deleted_from k name entry r r' h = ground arith

updated_resource :
    (resource : ResourceSchemaRepresentation) (r r' : Repository)
    → update_resource_schema resource r ≡ (none, r')
    → (entry : ResourceEntry) × (look resource.resource_type r ≡ some entry)
      × (r' ≡ put resource.resource_type (record entry { schema = resource }) r)
unfolding update_resource_schema
updated_resource resource r r' h = elim (Option-cases (look resource.resource_type r)) [
  | inl e ↦ cc (rw (e, update_resource_schema) at h)
  | inr (entry, e) ↦ (
    entry,
    e,
    sym (ap (λ (x : Option Error × Repository). x.1) (rw (e, update_resource_schema) at h)),
  )
]

-- A new schema of a resource type replaces the old one: the reads of that resource type give it, those
-- of other types and all reads of reporters are as before.
pub get_schema-update_resource_schema :
    (resource : ResourceSchemaRepresentation) (r r' : Repository) (t reporter : Text)
    → update_resource_schema resource r ≡ (none, r')
    → (get_resource_schema t r'
        ≡ (if resource.resource_type == t then ok resource else get_resource_schema t r))
      × (get_reporter_schema t reporter r' ≡ get_reporter_schema t reporter r)
get_schema-update_resource_schema resource r r' t reporter h =
    let (entry, e, f) = updated_resource resource r r' h in
    let k = resource.resource_type in
    let new : ResourceEntry = record entry { schema = resource } in
    rw f (
      get_resource_schema-put t reporter k new r,
      ground (
        arith,
        get_reporter_schema-put t reporter k new r,
        get_reporter_schema-look t reporter k entry r e,
        find_reporter-update reporter entry resource,
      ),
    )

-- A change of the reporters of one resource type.
reporters_changed :
    (t reporter k : Text) (entry : ResourceEntry)
    (reporters : List (Text × ReporterSchemaRepresentation)) (r : Repository)
    → look k r ≡ some entry
    → (get_resource_schema t (put k (record entry { reporters = reporters }) r)
        ≡ get_resource_schema t r)
      × (get_reporter_schema t reporter (put k (record entry { reporters = reporters }) r) ≡ (
          if k == t
          then find_reporter reporter (record entry { reporters = reporters })
          else get_reporter_schema t reporter r))
reporters_changed t reporter k entry reporters r h = (
  ground (
    arith,
    get_resource_schema-put t reporter k (record entry { reporters = reporters }) r,
    get_resource_schema-look t reporter k entry r h,
  ),
  get_reporter_schema-put t reporter k (record entry { reporters = reporters }) r,
)

deleted_reporter :
    (k name : Text) (r r' : Repository)
    → delete_reporter_schema k name r ≡ (none, r')
    → (entry : ResourceEntry) × (look k r ≡ some entry)
      × (r' ≡ put k (record entry { reporters = remove name entry.reporters }) r)
unfolding delete_reporter_schema
deleted_reporter k name r r' h = elim (Option-cases (look k r)) [
  | inl e ↦ cc (rw (e, delete_reporter_schema) at h)
  | inr (entry, e) ↦
      (entry, e, deleted_from k name entry r r' (rw (e, delete_reporter_schema) at h))
]

-- A reporter that is deleted is gone for its resource type, and nothing else changes.
pub get_schema-delete_reporter_schema :
    (k name : Text) (r r' : Repository) (t reporter : Text)
    → delete_reporter_schema k name r ≡ (none, r')
    → (get_resource_schema t r' ≡ get_resource_schema t r)
      × (get_reporter_schema t reporter r' ≡ (
          if k == t && name == reporter
          then err reporter_schema_not_found
          else get_reporter_schema t reporter r))
get_schema-delete_reporter_schema k name r r' t reporter h =
    let (entry, e, f) = deleted_reporter k name r r' h in
    let (resources, reporters) =
      reporters_changed t reporter k entry (remove name entry.reporters) r e in
    rw f (
      resources,
      reporters
          ∙ ground (
            arith,
            find_reporter-remove reporter name entry,
            get_reporter_schema-look t reporter k entry r e,
          ),
    )

-- After a reporter was deleted, the schema service refuses its reports of the resource type, whatever
-- data they have.
pub validate_report-delete_reporter_schema :
    (k name : Text) (r r' : Repository) (common reporter : Option Representation)
    → delete_reporter_schema k name r ≡ (none, r')
    → validate_report_against_schema (reads_of r') k name common reporter ≡ err reporter_not_allowed
unfolding validate_report_against_schema is_reporter_for_resource
validate_report-delete_reporter_schema k name r r' common reporter h =
    let gone = (get_schema-delete_reporter_schema k name r r' k name h).1 in
    let absent : get_reporter_schema k name r' ≡ err reporter_schema_not_found =
      ground (arith, gone, ==_refl k, ==_refl name) in
    rw absent refl
