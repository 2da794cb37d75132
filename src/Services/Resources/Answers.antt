-- ===== src/Services/Resources/Answers.antt =====
-- A bulk check request is answered as its single requests are.
use inventory_api.Base.{
  ◌≡◌, refl, ap, ◌∙◌, sym, Option, some, List, [], ◌∷◌, map, CaseTables, Result, ok, err, codes,
  All, ◌>>=◌,
}
use mathlib.Core.Path.{subst}
use inventory_api.Model.Values.{new_relation}
use inventory_api.Model.Consistency.{Consistency}
use inventory_api.Relations.Codes.{CheckResult}
use inventory_api.Relations.Simple.{SimpleRelations}
use inventory_api.Relations.Simple.Queries.{simple_queries}
use inventory_api.Store.Repository.{domain, ResourceRepository}
use inventory_api.UseCases.Reports.{Environment, map_error}
use inventory_api.UseCases.Commands.{CheckBulkItem, CheckBulkResultPair}
use inventory_api.UseCases.Checks.{check, enforce_on, enforce_all}
use inventory_api.UseCases.Checks.Bulk.{Agrees, AllAgree, IsExplicit, check_bulk-AllAgree}
use inventory_api.Services.Messages.{
  ConsistencyMessage, CheckRequest, CheckBulkRequestItem, CheckResponse, answer, BulkResponse,
  BulkResponsePair,
}
use inventory_api.Services.Conversions.{
  consistency_from_proto, resource_reference_from_proto, subject_reference_from_proto,
  proto_to_check_bulk_item, to_check_bulk_items, to_check_bulk_command, view_response,
  check_bulk_result_item_to_proto_fields, response_pairs, from_check_bulk_result,
}
use inventory_api.Services.Resources.{check_request, check_bulk_request}

-- The single request for an item of a bulk request.
abbrev pub single_of : Option ConsistencyMessage → CheckBulkRequestItem → CheckRequest
single_of c m = record {
  object = m.object;
  relation = m.relation;
  subject = m.subject;
  consistency = c;
}

-- Two chains with the same three steps, of which the first one succeeds.
same_steps :
    {E A B D I X : Type 0} (a : Result E A) (b : Result E B) (d : Result E D) (make : A → B → D → I)
    (next : I → Result E X) {i : I}
    → (a >>= (λ a'. b >>= (λ b'. d >>= (λ d'. ok (make a' b' d'))))) ≡ ok i
    → (a >>= (λ a'. b >>= (λ b'. d >>= (λ d'. next (make a' b' d'))))) ≡ next i
same_steps (err e) b d make next h = cc
same_steps (ok a) (err e) d make next h = cc
same_steps (ok a) (ok b) (err e) make next h = cc
same_steps {E = E} {I = I} (ok a) (ok b) (ok d) make next h = ap (λ (x : Result E I). x >>= next) h

first_and_rest :
    {E A : Type 0} (a : Result E A) (more : Result E (List A)) (xs : List A)
    → (a >>= (λ a'. more >>= (λ rest. ok (a' ∷ rest)))) ≡ ok xs
    → (x : A) × (rest : List A) × (a ≡ ok x) × (more ≡ ok rest) × (x ∷ rest ≡ xs)
first_and_rest (err e) more xs h = cc
first_and_rest (ok a) (err e) xs h = cc
first_and_rest (ok a) (ok rest) xs h = (a, rest, refl, refl, cc)

module _ ⦃t : CaseTables⦄ (R : ResourceRepository) (env : Environment) (s : R.State)
    (q : SimpleRelations) (c : Option ConsistencyMessage) where
  abbrev consistency : Consistency
  consistency = consistency_from_proto c

  -- A pair of a bulk response is for an item of the request, and answers what the single request for the
  -- item is answered.
  abbrev pub Answers : CheckBulkRequestItem → BulkResponsePair CheckBulkRequestItem → Type 0
  Answers m p =
      (p.request ≡ some m)
      × ((r : CheckResponse) × (check_request R simple_queries env s q (single_of c m) ≡ ok r)
          × (p.response ≡ answer r.allowed))

  -- The pairs answer the items one for one, in order.
  abbrev pub AllAnswered :
      List CheckBulkRequestItem → List (BulkResponsePair CheckBulkRequestItem) → Type 0
  AllAnswered [] [] = Unit {0}
  AllAnswered [] (p ∷ ps) = ⊥
  AllAnswered (m ∷ ms) [] = ⊥
  AllAnswered (m ∷ ms) (p ∷ ps) = Answers m p × AllAnswered ms ps

  single-ok :
      (m : CheckBulkRequestItem) (i : CheckBulkItem) (r : CheckResult)
      → proto_to_check_bulk_item m ≡ ok i
      → check R simple_queries env s q i.relation i.subject i.resource (some consistency) ≡ ok r
      → check_request R simple_queries env s q (single_of c m)
        ≡ ok (view_response r.allowed r.consistency_token)
  unfolding check_request proto_to_check_bulk_item
  single-ok m i r h k =
      same_steps (map_error domain (resource_reference_from_proto m.object))
        (subject_reference_from_proto m.subject) (map_error domain (new_relation m.relation))
        (λ object subject relation. record {
          resource = object;
          relation = relation;
          subject = subject;
        })
        (λ i'.
          check R simple_queries env s q i'.relation i'.subject i'.resource (some consistency)
          >>= (λ r'. ok (view_response r'.allowed r'.consistency_token)))
        h
      ∙ rw k refl

  response-Answers :
      (m : CheckBulkRequestItem) (i : CheckBulkItem) (p : CheckBulkResultPair)
      → proto_to_check_bulk_item m ≡ ok i
      → Agrees R env s q consistency i p
      → Answers m
          (record { request = some m; response = check_bulk_result_item_to_proto_fields p.result })
  unfolding check_bulk_result_item_to_proto_fields view_response
  response-Answers m i p h (same, fine, (r, checked, allowed)) = (
    refl,
    (
      view_response r.allowed r.consistency_token,
      single-ok m i r h checked,
      rw (fine, sym allowed) refl,
    ),
  )

  pairs-AllAnswered :
      (ms : List CheckBulkRequestItem) (is : List CheckBulkItem) (ps : List CheckBulkResultPair)
      → to_check_bulk_items ms ≡ ok is
      → AllAgree R env s q consistency is ps
      → AllAnswered ms (response_pairs ps ms)
  unfolding to_check_bulk_items response_pairs
  pairs-AllAnswered [] [] [] h a = tt
  pairs-AllAnswered [] [] (p ∷ ps) h a = absurd a
  pairs-AllAnswered [] (i ∷ is) ps h a = cc
  pairs-AllAnswered (m ∷ ms) is [] h a =
      let (i, rest, made, made_rest, e) =
        first_and_rest (proto_to_check_bulk_item m) (to_check_bulk_items ms) is h in
      absurd (subst (λ is'. AllAgree R env s q consistency is' []) (sym e) a)
  pairs-AllAnswered (m ∷ ms) is (p ∷ ps) h a =
      let (i, rest, made, made_rest, e) =
        first_and_rest (proto_to_check_bulk_item m) (to_check_bulk_items ms) is h in
      let (here, there) = subst (λ is'. AllAgree R env s q consistency is' (p ∷ ps)) (sym e) a in
      (response-Answers m i p made here, pairs-AllAnswered ms rest ps made_rest there)

  -- Over the simple backend, a bulk check request of well-formed items, at a consistency that it states in
  -- full, by a caller who may make it and the single checks, gets a pair for each item, in order, that
  -- answers what the single request for the item is answered.
  pub check_bulk_request-AllAnswered :
      (ms : List CheckBulkRequestItem) (is : List CheckBulkItem)
      → to_check_bulk_items ms ≡ ok is
      → IsExplicit R env s q consistency
      → enforce_all env (codes "check_bulk") (map (λ (i : CheckBulkItem). i.resource) is) ≡ ok tt
      → All (λ (i : CheckBulkItem). enforce_on env (codes "check") i.resource ≡ ok tt) is
      → (b : BulkResponse CheckBulkRequestItem) × (check_bulk_request R simple_queries env s q
            (record { items = ms; consistency = c })
          ≡ ok b)
        × AllAnswered ms b.pairs
  unfolding check_bulk_request to_check_bulk_command from_check_bulk_result
  check_bulk_request-AllAnswered ms is h explicit permitted each =
      let (b, answered, agree) =
        check_bulk-AllAgree R env s q consistency is explicit permitted each in
      (from_check_bulk_result b ms, rw (h, answered) refl, pairs-AllAnswered ms is b.pairs h agree)
