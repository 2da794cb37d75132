-- ===== src/Relations/Simple/Keys.antt =====
-- The keys of the tuple map of internal/data/relations_simple.go, and the filter on them.
use inventory_api.Base.{
  Bool, true, ◌&&◌, Option, none, some, [], ◌≡◌, ◌↔◌, Text, list_eq, nat_eq, ◌==◌, Eq, ==_iff,
  arith,
}
use inventory_api.Model.References.{
  ResourceReference, SubjectReference, TupleFilter, TupleSubjectFilter,
}

pub record SimpleTupleKey : Type 0 where
  pub resource_namespace : Text
  pub resource_type : Text
  pub resource_id : Text
  pub relation : Text
  pub subject_namespace : Text
  pub subject_type : Text
  pub subject_id : Text

unfoldable pub key_beq : SimpleTupleKey → SimpleTupleKey → Bool
key_beq a b =
    a.resource_namespace == b.resource_namespace
    && a.resource_type == b.resource_type
    && a.resource_id == b.resource_id
    && a.relation == b.relation
    && a.subject_namespace == b.subject_namespace
    && a.subject_type == b.subject_type
    && a.subject_id == b.subject_id

pub key_beq_iff : (a b : SimpleTupleKey) → (key_beq a b ≡ true) ↔ (a ≡ b)
unfolding key_beq
key_beq_iff a b = (
  λ h. ground (
    arith,
    ==_iff a.resource_namespace b.resource_namespace,
    ==_iff a.resource_type b.resource_type,
    ==_iff a.resource_id b.resource_id,
    ==_iff a.relation b.relation,
    ==_iff a.subject_namespace b.subject_namespace,
    ==_iff a.subject_type b.subject_type,
    ==_iff a.subject_id b.subject_id,
  ),
  λ h. ground (
    arith,
    ==_iff a.resource_namespace b.resource_namespace,
    ==_iff a.resource_type b.resource_type,
    ==_iff a.resource_id b.resource_id,
    ==_iff a.relation b.relation,
    ==_iff a.subject_namespace b.subject_namespace,
    ==_iff a.subject_type b.subject_type,
    ==_iff a.subject_id b.subject_id,
  ),
)

instance abbrev pub key_eq : Eq SimpleTupleKey
key_eq = record { beq = key_beq; beq_iff = key_beq_iff }

abbrev pub namespace_of : ResourceReference → Text
namespace_of r = elim r.reporter [ none ↦ [] | some p ↦ p.reporter_type ]

-- simpleTupleKeyFromModelTuple; the two checks build the same key from their relationship.
unfoldable pub simple_tuple_key : ResourceReference → Text → SubjectReference → SimpleTupleKey
simple_tuple_key object relation subject = record {
  resource_namespace = namespace_of object;
  resource_type = object.resource_type;
  resource_id = object.resource_id;
  relation = relation;
  subject_namespace = namespace_of subject.resource;
  subject_type = subject.resource.resource_type;
  subject_id = subject.resource.resource_id;
}

-- A field of a filter: nil matches any value.
abbrev pub admits : Option Text → Text → Bool
admits none v = true
admits (some w) v = w == v

-- The relation of the subject is not looked at: the keys have none.
unfoldable pub subject_matches : SimpleTupleKey → Option TupleSubjectFilter → Bool
subject_matches k none = true
subject_matches k (some f) =
    admits f.reporter_type k.subject_namespace
    && admits f.subject_type k.subject_type
    && admits f.subject_id k.subject_id

unfoldable pub simple_matches_tuple_filter : SimpleTupleKey → TupleFilter → Bool
unfolding subject_matches
simple_matches_tuple_filter k f =
    admits f.reporter_type k.resource_namespace
    && admits f.object_type k.resource_type
    && admits f.object_id k.resource_id
    && admits f.relation k.relation
    && subject_matches k f.subject
