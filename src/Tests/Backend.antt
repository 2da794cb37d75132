-- ===== src/Tests/Backend.antt =====
-- The properties of the simple backend at concrete inputs.
use inventory_api.Base.{
  ◌≡◌, refl, true, ◌&&◌, not, none, [], ◌∷◌, map, arith, Text, codes, contains, ==_refl, ok,
}
use inventory_api.Model.Consistency.{at_least_as_fresh}
use inventory_api.Model.References.{RelationsTuple, new_workspace_relations_tuple}
use inventory_api.Relations.Codes.{CheckResult}
use inventory_api.Relations.Simple.Keys.{key_eq, simple_matches_tuple_filter}
use inventory_api.Relations.Simple.{
  SimpleRelations, new_simple_relations, key_of, check, create_tuples, delete_tuples,
}
use inventory_api.Relations.Simple.Queries.{read_tuples}
use inventory_api.Relations.Simple.Sessions.{
  relationship_of, check-create_tuples, check-delete_tuples, read_tuples-delete_tuples,
}
use inventory_api.Consumer.Replication.{tuple_to_filter}
use inventory_api.Tests.Data.{host}

abbrev in_workspace : RelationsTuple
in_workspace = new_workspace_relations_tuple (codes "w1") host

abbrev stored : SimpleRelations
stored = record new_simple_relations { tuples = key_of in_workspace ∷ [] }

created_here : contains (key_of in_workspace) (map key_of (in_workspace ∷ [])) ≡ true
unfolding contains
created_here = ground (arith, ==_refl (key_of in_workspace))

check-create_tuples_example :
    (token : Text) × (s' : SimpleRelations) × (create_tuples
        (in_workspace ∷ [])
        true
        none
        new_simple_relations
      ≡ (ok token, s'))
    × (c : CheckResult) × (check (relationship_of in_workspace) (at_least_as_fresh token) s'
        ≡ (ok c, s'))
    × (c.allowed ≡ true)
unfolding new_simple_relations
check-create_tuples_example =
    check-create_tuples in_workspace (in_workspace ∷ []) true none new_simple_relations refl
      created_here

check-delete_tuples_example :
    (token : Text) × (s' : SimpleRelations) × (delete_tuples
        (tuple_to_filter in_workspace)
        none
        stored
      ≡ (ok token, s'))
    × (c : CheckResult) × (check (relationship_of in_workspace) (at_least_as_fresh token) s'
        ≡ (ok c, s'))
    × (c.allowed ≡ (
        contains (key_of in_workspace) stored.tuples
        && not (simple_matches_tuple_filter (key_of in_workspace) (tuple_to_filter in_workspace))))
unfolding new_simple_relations
check-delete_tuples_example =
    check-delete_tuples in_workspace (tuple_to_filter in_workspace) none stored refl

read_tuples-delete_tuples_example :
    read_tuples
      (tuple_to_filter in_workspace)
      (delete_tuples (tuple_to_filter in_workspace) none stored).1
    ≡ []
unfolding new_simple_relations
read_tuples-delete_tuples_example =
    read_tuples-delete_tuples (tuple_to_filter in_workspace) none stored refl
