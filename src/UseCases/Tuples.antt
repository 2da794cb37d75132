-- ===== src/UseCases/Tuples.antt =====
-- internal/biz/usecase/tuples: the deprecated operations on tuples for one client, over any relations
-- backend. Each asks the meta authorizer for the tuple system as a whole, then passes the call on.
use inventory_api.Base.{Bool, Option, none, some, List, Text, codes, Result, ok, err, on_result}
use inventory_api.Model.Consistency.{Consistency, normalize_consistency}
use inventory_api.Model.References.{RelationsTuple, TupleFilter}
use inventory_api.Relations.Codes.{Code, FencingCheck, RelationsRepository, RelationsQueries}
use inventory_api.Access.Authorization.{
  AuthzContext, MetaAuthorizer, tuple_system, enforce_meta_authz_object,
}
use inventory_api.Store.Repository.{Fault, not_enforced, relations}

pub record CreateTuplesCommand : Type 0 where
  pub tuples : List RelationsTuple
  pub upsert : Bool
  pub fencing_check : Option FencingCheck

pub record DeleteTuplesCommand : Type 0 where
  pub filter : TupleFilter
  pub fencing_check : Option FencingCheck

pub record ReadTuplesCommand : Type 0 where
  pub filter : TupleFilter
  pub consistency : Option Consistency

module _ (R : RelationsRepository) (context : Option AuthzContext)
    (authorizer : Option MetaAuthorizer) where
  -- EnforceMetaAuthzObject in front of a call.
  unfoldable pub enforced {ℓ} :
      {A : Type ℓ}
      → Text
      → (R.State → Result Fault A × R.State)
      → R.State
      → Result Fault A × R.State
  unfolding enforce_meta_authz_object
  enforced relation call s =
      elim (enforce_meta_authz_object context authorizer relation tuple_system) [
        | some e ↦ (err (not_enforced e), s)
        | none ↦ call s
      ]

  -- An error of the backend is passed on.
  abbrev pub passed_on {ℓ} : {A : Type ℓ} → Result Code A × R.State → Result Fault A × R.State
  passed_on x = on_result x (λ a s. (ok a, s)) (λ e s. (err (relations e), s))

  -- CreateTuples
  unfoldable pub create_tuples : CreateTuplesCommand → R.State → Result Fault Text × R.State
  unfolding enforced
  create_tuples cmd =
      enforced (codes "create_tuples")
        (λ s. passed_on (R.create_tuples cmd.tuples cmd.upsert cmd.fencing_check s))

  -- DeleteTuples
  unfoldable pub delete_tuples : DeleteTuplesCommand → R.State → Result Fault Text × R.State
  unfolding enforced
  delete_tuples cmd =
      enforced (codes "delete_tuples")
        (λ s. passed_on (R.delete_tuples cmd.filter cmd.fencing_check s))

  -- AcquireLock
  unfoldable pub acquire_lock : Text → R.State → Result Fault Text × R.State
  unfolding enforced
  acquire_lock lock_id = enforced (codes "acquire_lock") (λ s. passed_on (R.acquire_lock lock_id s))

  -- ReadTuples
  unfoldable pub read_tuples :
      RelationsQueries R.State
      → ReadTuplesCommand
      → R.State
      → Result Fault (List RelationsTuple) × R.State
  unfolding enforced normalize_consistency
  read_tuples Q cmd =
      enforced (codes "read_tuples")
        (λ s. passed_on (Q.read_tuples cmd.filter (normalize_consistency cmd.consistency) s, s))
