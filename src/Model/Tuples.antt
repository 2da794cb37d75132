-- ===== src/Model/Tuples.antt =====
-- internal/biz/model/relation_diff.go and tuples_to_replicate.go.
use inventory_api.Base.{
  Bool, false, ◌&&◌, not, Option, none, some, List, [], ◌∷◌, map, nonempty, Text, list_eq, nat_eq,
  keep, contains, set_of,
}
use inventory_api.Model.ReporterResource.{ReporterResourceKey}
use inventory_api.Model.References.{RelationsTuple, new_relation_tuple_for_subject}

pub record TuplesToReplicate : Type 0 where
  pub tuples_to_create : Option (List RelationsTuple)
  pub tuples_to_delete : Option (List RelationsTuple)

-- An empty slice becomes the nil pointer.
abbrev pub pointer_to : List RelationsTuple → Option (List RelationsTuple)
pointer_to [] = none
pointer_to (t ∷ ts) = some (t ∷ ts)

unfoldable pub new_tuples_to_replicate :
    List RelationsTuple → List RelationsTuple → TuplesToReplicate
new_tuples_to_replicate creates deletes = record {
  tuples_to_create = pointer_to creates;
  tuples_to_delete = pointer_to deletes;
}

-- `p != nil && len(*p) > 0`
abbrev pub has_tuples : Option (List RelationsTuple) → Bool
has_tuples none = false
has_tuples (some ts) = nonempty ts

-- TuplesToReplicate.IsEmpty
unfoldable pub is_empty : TuplesToReplicate → Bool
is_empty t = not (has_tuples t.tuples_to_create) && not (has_tuples t.tuples_to_delete)

-- The members of the first set that are not in the second.
unfoldable pub values_only_in : List Text → List Text → List Text
unfolding keep contains set_of
values_only_in xs ys = keep (λ v. not (contains v (set_of ys))) (set_of xs)

-- DiffRelationValues: what to create and what to delete.
unfoldable pub diff_relation_values :
    ReporterResourceKey
    → Text
    → Text
    → Text
    → List Text
    → List Text
    → List RelationsTuple × List RelationsTuple
unfolding values_only_in new_relation_tuple_for_subject
diff_relation_values key relation namespace subject_type current previous =
    let tuple = new_relation_tuple_for_subject key relation namespace subject_type in
    (map tuple (values_only_in current previous), map tuple (values_only_in previous current))
