-- ===== src/Tests/Replication.antt =====
-- The properties of the relations backend and of the consumer at concrete inputs.
use inventory_api.Base.{
  ℕ, zero, suc, ◌≤◌, ◌≡◌, refl, true, none, some, [], ◌∷◌, arith, Text, codes, nat_eq, list_eq,
  ◌==◌, contains, is_some, format_int64, zero_int64, ◌+◌, Result, ok, err,
}
use inventory_api.Model.References.{RelationsTuple, new_workspace_relations_tuple}
use inventory_api.Model.Schema.{
  calculate_tuples, calculate_tuples_from_relation_defs, relation_values,
}
use inventory_api.Model.Schema.Workspace.{workspace_def, calculate_tuples_lem}
use inventory_api.Relations.Codes.{FencingCheck, unavailable}
use inventory_api.Relations.Simple.Keys.{key_eq, simple_matches_tuple_filter}
use inventory_api.Relations.Simple.{
  SimpleRelations, new_simple_relations, key_of, simple_repository, get_tuples_for_token,
}
use inventory_api.Relations.Simple.Snapshots.{tuples_at, get_tuples_for_token_lem}
use inventory_api.Consumer.Replication.{
  Failure, no_tuples, tuple_to_filter, update_tuple, limited, retry,
}
use inventory_api.Consumer.Replicated.{simple_matches_tuple_filter-tuple_to_filter}
use inventory_api.Consumer.Differences.{key_for}
use inventory_api.Consumer.RelationDefs.{
  Reflects, AgreesOutside, update_tuple-calculate_tuples_from_relation_defs,
}
use inventory_api.Consumer.Replays.{
  HasSameTuples, update, failing_deletes, recovered, delete_result, update-recovered,
}
use inventory_api.Consumer.Retries.{FailsBefore, run_times, retry-ok}
use inventory_api.Tests.Data.{host, in_version}

abbrev pub fence : FencingCheck
fence = record { lock_id = codes "lock"; lock_token = codes "token" }

abbrev first_workspace : RelationsTuple
first_workspace = new_workspace_relations_tuple (codes "w1") host

abbrev second_workspace : RelationsTuple
second_workspace = new_workspace_relations_tuple (codes "w2") host

-- Nothing is known of the host before its first report.
pub new_simple_relations-Reflects : Reflects host (workspace_def ∷ []) none new_simple_relations
unfolding new_simple_relations contains relation_values
new_simple_relations-Reflects name rel v h = ground arith

update_tuple-calculate_tuples_from_relation_defs_example :
    let t =
      calculate_tuples_from_relation_defs
        (workspace_def ∷ [])
        (in_version (codes "w1") 0)
        none
        host in
    (token : Text) × (s' : SimpleRelations) × (update_tuple simple_repository fence
        t.tuples_to_create t.tuples_to_delete new_simple_relations
      ≡ (ok token, s'))
    × Reflects host (workspace_def ∷ []) (in_version (codes "w1") 0) s'
    × AgreesOutside host (workspace_def ∷ []) new_simple_relations s'
unfolding new_simple_relations contains
update_tuple-calculate_tuples_from_relation_defs_example =
    update_tuple-calculate_tuples_from_relation_defs (workspace_def ∷ [])
      (in_version (codes "w1") 0) none host fence new_simple_relations (refl, refl) (refl, tt)
      new_simple_relations-Reflects

nothing_before :
    (v : Text)
    → contains
        (key_for host (codes "parent") (codes "rbac") (codes "workspace") v)
        new_simple_relations.tuples
      ≡ contains v []
unfolding new_simple_relations contains
nothing_before v = refl

simple_matches_tuple_filter-tuple_to_filter_example :
    simple_matches_tuple_filter (key_of second_workspace) (tuple_to_filter first_workspace)
    ≡ (key_of first_workspace == key_of second_workspace)
unfolding new_workspace_relations_tuple
simple_matches_tuple_filter-tuple_to_filter_example =
    simple_matches_tuple_filter-tuple_to_filter (key_of second_workspace) first_workspace
      (refl, refl)

calculate_tuples_lem_example :
    calculate_tuples (in_version (codes "w2") 1) (in_version (codes "w1") 0) host
    ≡ calculate_tuples_from_relation_defs
        (workspace_def ∷ [])
        (in_version (codes "w2") 1)
        (in_version (codes "w1") 0)
        host
calculate_tuples_lem_example =
    calculate_tuples_lem (in_version (codes "w2") 1) (in_version (codes "w1") 0) host

update-recovered_example :
    (token : Text) × ((update fence
        (second_workspace ∷ [])
        (first_workspace ∷ [])
        (failing_deletes unavailable new_simple_relations)).0
      ≡ delete_result fence unavailable (first_workspace ∷ []) token)
    × HasSameTuples
        (update fence (second_workspace ∷ []) (first_workspace ∷ []) (
          recovered
            (update fence
              (second_workspace ∷ [])
              (first_workspace ∷ [])
              (failing_deletes unavailable new_simple_relations)).1)).1
        (update fence (second_workspace ∷ []) (first_workspace ∷ []) new_simple_relations).1
unfolding new_simple_relations new_workspace_relations_tuple
update-recovered_example =
    update-recovered fence unavailable (second_workspace ∷ []) (first_workspace ∷ [])
      new_simple_relations (refl, refl) ((refl, refl), tt)

-- An operation that fails while its countdown runs.
countdown : ℕ → Result Failure Text × ℕ
countdown zero = (ok (codes "token"), zero)
countdown (suc n) = (err no_tuples, n)

countdown_fails : (n : ℕ) → FailsBefore countdown n n
unfolding countdown run_times
countdown_fails zero j below = ground arith
countdown_fails (suc n) zero below = refl
countdown_fails (suc n) (suc j) below = countdown_fails n j (omega arith)

second_run : countdown (run_times countdown 2 2) ≡ (ok (codes "token"), 0)
unfolding countdown run_times
second_run = refl

retry-ok_example : retry (limited 5) 0 countdown 2 ≡ (some (ok (codes "token")), 0)
retry-ok_example =
    retry-ok countdown (limited 5) 0 2 (codes "token") 2 0 (omega arith) (countdown_fails 2)
      second_run

-- A backend at version 5 that still has the tuples of version 2.
abbrev with_snapshot : SimpleRelations
with_snapshot = record new_simple_relations {
  version = zero_int64 + 5;
  tuples = key_of second_workspace ∷ [];
  snapshots = (zero_int64 + 2, key_of first_workspace ∷ []) ∷ [];
}

get_tuples_for_token_lem_example :
    (v : ℕ) × (zero_int64 + 2 ≤ v)
    × (tuples_at v with_snapshot
        ≡ some (get_tuples_for_token (format_int64 (zero_int64 + 2)) with_snapshot))
    × ((w : ℕ) → zero_int64 + 2 ≤ w → is_some (tuples_at w with_snapshot) ≡ true → v ≤ w)
get_tuples_for_token_lem_example =
    get_tuples_for_token_lem (zero_int64 + 2) with_snapshot (omega arith) (omega arith)
