-- ===== src/Consumer/Messages.antt =====
-- internal/consumer/consumer.go: ParseHeaders, ProcessMessage and processRelationsOperation, and the
-- event of internal/biz/model/tuple_event.go. What the JSON library makes of the body is an argument.
use inventory_api.Base.{
  ℕ, Bool, not, ◌&&◌, ◌||◌, Option, none, some, List, [], ◌∷◌, nonempty, Text, codes, list_eq,
  nat_eq, ◌==◌, if◌then◌else◌, contains, look, put, is_some, Result, ok, err, ◌>>=◌, ◌>>◌, guard,
  on_result,
}
use inventory_api.Model.Values.{Fallible, empty, no_representation_provided}
use inventory_api.Model.ReporterResource.{ReporterResourceKey}
use inventory_api.Model.Representations.{Representations}
use inventory_api.Model.Tuples.{TuplesToReplicate, is_empty}
use inventory_api.Model.SchemaService.{SchemaReads, calculate_tuples_for_resource}
use inventory_api.Relations.Codes.{FencingCheck, RelationsRepository}
use inventory_api.Consumer.Replication.{
  Failure, bad_message, finding_representations, calculating_tuples, RetryLimit, retry,
  create_tuple, update_tuple, delete_tuple,
}

pub record TupleEvent : Type 0 where
  pub reporter_resource_key : ReporterResourceKey
  pub common_version : Option ℕ
  pub reporter_representation_version : Option ℕ

abbrev is_zero_key : ReporterResourceKey → Bool
is_zero_key key =
    not (nonempty key.local_resource_id)
    && not (nonempty key.resource_type)
    && not (nonempty key.reporter.reporter_type)
    && not (nonempty key.reporter.reporter_instance_id)

unfoldable pub new_tuple_event : ReporterResourceKey → Option ℕ → Option ℕ → Fallible TupleEvent
new_tuple_event key common_version reporter_version = do
  guard (not (is_zero_key key)) empty
  guard (is_some common_version || is_some reporter_version) no_representation_provided
  ok (record {
    reporter_resource_key = key;
    common_version = common_version;
    reporter_representation_version = reporter_version;
  })

abbrev pub required_headers : List Text
required_headers = codes "operation" ∷ codes "txid" ∷ []

-- The map of the required headers; a later header of the same name replaces an earlier one.
unfoldable pub header_map : List (Text × Text) → List (Text × Text) → List (Text × Text)
unfolding put contains
header_map m [] = m
header_map m ((k, v) ∷ hs) = header_map (if contains k required_headers then put k v m else m) hs

-- The two values that are used.
pub record Headers : Type 0 where
  pub operation : Text
  pub txid : Text

abbrev headers_in : Option Text → Option Text → Result Failure Headers
headers_in (some operation) (some txid) =
    if nonempty operation
    then ok (record { operation = operation; txid = txid })
    else err bad_message
headers_in _ _ = err bad_message

unfoldable pub parse_headers : List (Text × Text) → Result Failure Headers
unfolding header_map look
parse_headers hs =
    let m = header_map [] hs in headers_in (look (codes "operation") m) (look (codes "txid") m)

pub data OperationType : Type 0 where
  created updated deleted : OperationType

unfoldable pub operation_type_of : Text → Option OperationType
operation_type_of s =
    if s == codes "created"
    then some created
    else if s == codes "updated"
    then some updated
    else if s == codes "deleted"
    then some deleted
    else none

-- The reads of ResourceRepository that the consumer calls.
pub record RepresentationReads : Type 0 where
  pub find_current_and_previous :
      ReporterResourceKey
      → Option ℕ
      → OperationType
      → Fallible (Option Representations × Option Representations)
  pub find_latest : ReporterResourceKey → Fallible (Option Representations)

module _ (R : RelationsRepository) (fencing : FencingCheck) (limit : RetryLimit) (rounds : ℕ)
    (schemas : SchemaReads) (reads : RepresentationReads) where
  -- The current and the previous version that the operation is about.
  abbrev pub fetch_representations :
      OperationType → TupleEvent → Fallible (Option Representations × Option Representations)
  fetch_representations created e =
      reads.find_current_and_previous e.reporter_resource_key e.common_version created
  fetch_representations updated e =
      reads.find_current_and_previous e.reporter_resource_key e.common_version updated
  fetch_representations deleted e = do
    previous ← reads.find_latest e.reporter_resource_key
    ok (none, previous)

  -- A result; `none` if the call does not return: it panics at a nil pointer, or still retries.
  abbrev pub Returned : Type 0
  Returned = Option (Result Failure Text) × R.State

  -- What is run by Retry.
  unfoldable pub execute : OperationType → TuplesToReplicate → R.State → Returned
  unfolding create_tuple update_tuple delete_tuple retry
  execute created t s = retry limit rounds (create_tuple R fencing t.tuples_to_create) s
  execute updated t s =
      retry limit rounds (update_tuple R fencing t.tuples_to_create t.tuples_to_delete) s
  execute deleted t s = elim t.tuples_to_delete [
    | none ↦ (none, s)
    | some ts ↦
        retry limit rounds
          (λ r.
            on_result (delete_tuple R fencing ts r) (λ token r'. (ok [], r')) (λ e r'. (err e, r')))
          s
  ]

  abbrev pub replicate : OperationType → R.State → Option (Fallible TuplesToReplicate) → Returned
  replicate operation s none = (none, s)
  replicate operation s (some (err e)) = (some (err calculating_tuples), s)
  replicate operation s (some (ok t)) =
      if is_empty t then (some (ok []), s) else execute operation t s

  abbrev pub with_representations :
      OperationType
      → TupleEvent
      → R.State
      → Fallible (Option Representations × Option Representations)
      → Returned
  with_representations operation e s (err x) = (some (err finding_representations), s)
  with_representations operation e s (ok (current, previous)) =
      replicate operation s
        (calculate_tuples_for_resource schemas current previous e.reporter_resource_key)

  -- processRelationsOperation, with the parsed body, which may be a nil pointer.
  unfoldable pub process_relations_operation :
      OperationType → Result Failure (Option TupleEvent) → R.State → Returned
  process_relations_operation operation (err x) s = (some (err x), s)
  process_relations_operation operation (ok none) s = (none, s)
  process_relations_operation operation (ok (some e)) s =
      with_representations operation e s (fetch_representations operation e)

  -- ProcessMessage: an unknown operation is dropped.
  unfoldable pub process_message :
      Bool → Text → Result Failure (Option TupleEvent) → R.State → Returned
  unfolding operation_type_of process_relations_operation
  process_message relations_enabled operation body s = elim (operation_type_of operation) [
    | none ↦ (some (ok []), s)
    | some o ↦ if relations_enabled then process_relations_operation o body s else (some (ok []), s)
  ]
