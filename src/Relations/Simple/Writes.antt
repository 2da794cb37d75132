-- ===== src/Relations/Simple/Writes.antt =====
-- What the writes of the simple backend do to its tuples, when no error is injected.
use inventory_api.Base.{
  ◌≡◌, refl, Bool, ◌||◌, not, Option, none, List, [], ◌∷◌, map, arith, list_eq, nat_eq, contains,
  keep, ok, format_int64,
}
use inventory_api.Model.References.{RelationsTuple, TupleFilter}
use inventory_api.Relations.Codes.{FencingCheck}
use inventory_api.Relations.Simple.Keys.{SimpleTupleKey, key_eq, simple_matches_tuple_filter}
use inventory_api.Relations.Simple.{
  SimpleRelations, key_of, put_all, create_tuples, delete_tuples, advance_version,
}

pub contains-put_all :
    (k : SimpleTupleKey) (ts : List RelationsTuple) (ks : List SimpleTupleKey)
    → contains k (put_all ts ks) ≡ (contains k (map key_of ts) || contains k ks)
unfolding put_all contains
contains-put_all k [] ks = refl
contains-put_all k (t ∷ ts) ks = ground (arith, contains-put_all k ts (key_of t ∷ ks))

-- The state after a write that is not refused.
abbrev pub created : List RelationsTuple → SimpleRelations → SimpleRelations
created ts s = advance_version (record s { tuples = put_all ts s.tuples })

abbrev pub without : TupleFilter → SimpleRelations → SimpleRelations
without f s =
    advance_version
      (record s { tuples = keep (λ k. not (simple_matches_tuple_filter k f)) s.tuples })

pub create_tuples_lem :
    (ts : List RelationsTuple) (upsert : Bool) (fencing : Option FencingCheck) (s : SimpleRelations)
    → s.create_tuples_error ≡ none
    → create_tuples ts upsert fencing s ≡ (ok (format_int64 (created ts s).version), created ts s)
unfolding create_tuples
create_tuples_lem ts upsert fencing s h = ground arith

pub delete_tuples_lem :
    (f : TupleFilter) (fencing : Option FencingCheck) (s : SimpleRelations)
    → s.delete_tuples_error ≡ none
    → delete_tuples f fencing s ≡ (ok (format_int64 (without f s).version), without f s)
unfolding delete_tuples
delete_tuples_lem f fencing s h = ground arith

-- A backend in which no error is injected stays so.
abbrev pub IsHealthy : SimpleRelations → Type 0
IsHealthy s = (s.create_tuples_error ≡ none) × (s.delete_tuples_error ≡ none)

pub created-IsHealthy :
    (ts : List RelationsTuple) (s : SimpleRelations) → IsHealthy s → IsHealthy (created ts s)
unfolding advance_version
created-IsHealthy ts s h = h

pub without-IsHealthy :
    (f : TupleFilter) (s : SimpleRelations) → IsHealthy s → IsHealthy (without f s)
unfolding advance_version
without-IsHealthy f s h = h
