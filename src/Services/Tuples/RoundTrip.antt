-- ===== src/Services/Tuples/RoundTrip.antt =====
-- A message of a relationship, as a tuple and back.
use inventory_api.Base.{
  ◌≡◌, ap, ◌∙◌, sym, Option, some, Text, ok, ok->>=, trim_space, nonempty, Bool-cases, inl, inr,
}
use inventory_api.Model.Values.{Fallible, new_trimmed}
use inventory_api.Model.References.{RelationsTuple}
use inventory_api.Services.Tuples.{
  RelationObjectReference, RelationshipMessage, get_id, get_object_type, get_subject,
  get_subject_relation, relationship_to_relations_tuple, read_tuples_item_to_proto,
}

abbrev filled_object : Option RelationObjectReference → Text → RelationObjectReference
filled_object o id = record { object_type = some (get_object_type o); id = id }

-- The message with nothing nil inside, and with the given ids.
abbrev with_ids : RelationshipMessage → Text → Text → RelationshipMessage
with_ids m resource_id subject_id = record {
  resource = some (filled_object m.resource resource_id);
  relation = m.relation;
  subject = some (record {
    subject = some (filled_object (get_subject m.subject) subject_id);
    relation = get_subject_relation m.subject;
  });
}

-- A message with nothing nil inside and no spaces around its ids.
abbrev pub trimmed : RelationshipMessage → RelationshipMessage
trimmed m =
    with_ids m (trim_space (get_id m.resource)) (trim_space (get_id (get_subject m.subject)))

ok-injective : {A : Type 0} {x y : A} → ◌≡◌ {A = Fallible A} (ok x) (ok y) → x ≡ y
ok-injective h = cc

trimmed_as : (s x : Text) → new_trimmed s ≡ ok x → trim_space s ≡ x
unfolding new_trimmed
trimmed_as s x h = elim (Bool-cases (nonempty (trim_space s))) [
  | inl e ↦ cc (rw (e, new_trimmed) at h)
  | inr e ↦ cc (rw (e, new_trimmed) at h)
]

-- A relationship that is converted to a tuple is read back as it was, but for the spaces around its ids
-- and for what was nil.
pub read-relationship_to_tuple :
    (m : RelationshipMessage) (t : RelationsTuple)
    → relationship_to_relations_tuple m ≡ ok t
    → read_tuples_item_to_proto t ≡ trimmed m
unfolding relationship_to_relations_tuple read_tuples_item_to_proto
read-relationship_to_tuple m t h =
    let (a, h1, e1) = ok->>= (new_trimmed (get_id m.resource)) _ (sym h) in
    let (b, h2, e2) = ok->>= (new_trimmed (get_id (get_subject m.subject))) _ h1 in
    ap read_tuples_item_to_proto (ok-injective h2)
    ∙ sym (λ i.
      with_ids m (trimmed_as (get_id m.resource) a e1 i)
        (trimmed_as (get_id (get_subject m.subject)) b e2 i))
