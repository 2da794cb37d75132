-- ===== src/Consumer/Updates.antt =====
-- A message of an update, from the event to the tuples of the simple backend.
use inventory_api.Base.{
  ℕ, ◌<◌, ◌≡◌, sym, ap, ◌∙◌, true, Option, some, List, [], ◌∷◌, arith, Text, codes, list_eq,
  list_beq, nat_eq, Bool-cases, inl, inr, IsDistinct, Result, ok, err,
}
use inventory_api.Model.Values.{resource_schema_not_found}
use inventory_api.Model.Representations.{Representations}
use inventory_api.Model.Tuples.{TuplesToReplicate, is_empty}
use inventory_api.Model.Schema.{RelationDef, calculate_tuples_from_relation_defs}
use inventory_api.Model.Schema.Workspace.{workspace_def, calculate_tuples_lem}
use inventory_api.Model.ReporterResource.{ReporterResourceKey}
use inventory_api.Model.SchemaService.{SchemaReads, calculate_tuples_for_resource}
use inventory_api.Relations.Codes.{FencingCheck}
use inventory_api.Relations.Simple.{SimpleRelations, simple_repository}
use inventory_api.Relations.Simple.Writes.{IsHealthy}
use inventory_api.Consumer.Replication.{Failure, RetryLimit, update_tuple, delete_old_tuples}
use inventory_api.Consumer.RelationDefs.{
  Reflects, AgreesOutside, names_of, update_tuple-calculate_tuples_from_relation_defs,
}
use inventory_api.Consumer.Retries.{rounds_of, retry-ok, run_times}
use inventory_api.Consumer.Messages.{
  TupleEvent, RepresentationReads, updated, execute, replicate, with_representations,
  process_relations_operation, process_message,
}

update_tuple-is_empty :
    (fencing : FencingCheck) (t : TuplesToReplicate) (s : SimpleRelations)
    → is_empty t ≡ true
    → update_tuple simple_repository fencing t.tuples_to_create t.tuples_to_delete s ≡ (ok [], s)
unfolding is_empty update_tuple delete_old_tuples
update_tuple-is_empty fencing t s h = ground arith

-- The schema that the service finds calculates the tuples of a list of relations.
abbrev pub CalculatesBy : SchemaReads → List RelationDef → Type 0
CalculatesBy schemas rels =
    (current previous : Option Representations) (key : ReporterResourceKey)
    → calculate_tuples_for_resource schemas current previous key
      ≡ some (ok (calculate_tuples_from_relation_defs rels current previous key))

-- Without any schema the service calculates the tuples of the workspace alone.
pub no_schemas-CalculatesBy :
    (schemas : SchemaReads)
    → ((t : Text) → schemas.resource_schema t ≡ err resource_schema_not_found)
    → CalculatesBy schemas (workspace_def ∷ [])
unfolding calculate_tuples_for_resource
no_schemas-CalculatesBy schemas h current previous key =
    rw (calculate_tuples_for_resource, h key.resource_type)
      (ap (λ (t : TuplesToReplicate). some (ok t)) (calculate_tuples_lem current previous key))

module _ (fencing : FencingCheck) (limit : RetryLimit) (rounds : ℕ) (schemas : SchemaReads)
    (reads : RepresentationReads) where
  -- Where UpdateTuple succeeds, so does the replication, and leaves the same state.
  replicate-updated :
      (t : TuplesToReplicate) (token : Text) (s s' : SimpleRelations)
      → 0 < rounds_of limit rounds
      → update_tuple simple_repository fencing t.tuples_to_create t.tuples_to_delete s
        ≡ (ok token, s')
      → (new : Text) × (replicate simple_repository fencing limit rounds schemas reads updated s
            (some (ok t))
          ≡ (some (ok new), s'))
  unfolding execute run_times
  replicate-updated t token s s' below e = elim (Bool-cases (is_empty t)) [
    | inl h ↦ (
      [],
      rw h (
          ap (λ (x : SimpleRelations). (some (ok []), x))
            (ap (λ (x : Result Failure Text × SimpleRelations). x.1)
              (sym (update_tuple-is_empty fencing t s h) ∙ e))),
    )
    | inr h ↦ (
      token,
      rw h (
          retry-ok (update_tuple simple_repository fencing t.tuples_to_create t.tuples_to_delete)
            limit rounds 0 token s s' below (λ j impossible. ground arith) e),
    )
  ]

  -- A message of an update is processed, with relations enabled, a limit that allows an attempt and a
  -- backend without injected errors. If the repository finds the current and the previous version of
  -- the resource, its schema calculates by relations of different names, and the backend holds their
  -- values in the previous version, then the processing succeeds and the backend holds their values in
  -- the current version; every tuple of another relation is as before.
  pub process_message-Reflects :
      (rels : List RelationDef) (e : TupleEvent) (current previous : Option Representations)
      (s : SimpleRelations)
      → 0 < rounds_of limit rounds
      → IsHealthy s
      → IsDistinct (names_of rels)
      → CalculatesBy schemas rels
      → reads.find_current_and_previous e.reporter_resource_key e.common_version updated
        ≡ ok (current, previous)
      → Reflects e.reporter_resource_key rels previous s
      → (token : Text) × (s' : SimpleRelations) × (process_message simple_repository fencing limit
            rounds schemas reads true
            (codes "updated")
            (ok (some e))
            s
          ≡ (some (ok token), s'))
        × Reflects e.reporter_resource_key rels current s'
        × AgreesOutside e.reporter_resource_key rels s s'
  unfolding process_message process_relations_operation list_beq
  process_message-Reflects rels e current previous s below healthy distinct by found before =
      let (token, s', written, after, outside) =
        update_tuple-calculate_tuples_from_relation_defs rels current previous
          e.reporter_resource_key fencing s healthy distinct before in
      let (new, replicated) =
        replicate-updated
          (calculate_tuples_from_relation_defs rels current previous e.reporter_resource_key) token
          s s' below written in
      (
        new,
        s',
        ap (with_representations simple_repository fencing limit rounds schemas reads updated e s)
              found
            ∙ ap (replicate simple_repository fencing limit rounds schemas reads updated s)
                (by current previous e.reporter_resource_key)
            ∙ replicated,
        after,
        outside,
      )
