-- ===== src/UseCases/SelfSubject/Identities.antt =====
-- The subject of a self check tells callers apart.
use inventory_api.Base.{
  ◌≡◌, refl, ◌∙◌, sym, inl, inr, true, false, Option, none, some, List, [], ◌∷◌, arith, nonempty,
  Text, contains, All, look, list_eq, nat_eq, ◌==◌, trim_space, ok, Bool-cases, ℕ, ==_iff,
}
use inventory_api.Access.Authentication.{Claims, is_authenticated}
use inventory_api.Access.Authorization.{AuthzContext}
use inventory_api.UseCases.SelfSubject.{
  RedHatRbacSelfSubjectStrategy, domain_of, resolve_oidc_issuer_domain, or_empty,
  derive_from_claims, derive_subject_id, qualified,
}

abbrev slash : ℕ
slash = b'/'

-- A name with no slash, in front of a slash, is told apart from what follows.
qualified_parts :
    (d d' x x' : Text)
    → contains slash d ≡ false
    → contains slash d' ≡ false
    → qualified d x ≡ qualified d' x'
    → (d ≡ d') × (x ≡ x')
unfolding contains
qualified_parts [] [] x x' h h' e = (refl, cc)
qualified_parts [] (c ∷ d') x x' h h' e = absurd (ground (arith, ==_iff c slash, h', e))
qualified_parts (c ∷ d) [] x x' h h' e = absurd (ground (arith, ==_iff c slash, h, e))
qualified_parts (c ∷ d) (c' ∷ d') x x' h h' e = ground (arith, qualified_parts d d' x x', h, h', e)

module _ (s : RedHatRbacSelfSubjectStrategy) where
  derived_from_claims :
      (c : Claims) (id : Text)
      → derive_from_claims s c ≡ ok id
      → id ≡ qualified (domain_of s c) (trim_space c.subject_id)
  unfolding derive_from_claims
  derived_from_claims c id h = elim (Bool-cases (nonempty (domain_of s c))) [
    | inr none_there ↦ cc (rw (none_there, derive_from_claims) at h)
    | inl there ↦ elim (Bool-cases (nonempty (trim_space c.subject_id))) [
      | inr blank ↦ cc (rw (there, blank, derive_from_claims) at h)
      | inl given ↦ cc (rw (there, given, derive_from_claims) at h)
    ]
  ]

  -- A subject is derived only for a caller who is authenticated, from the domain and the trimmed id.
  derived :
      (o : Option Claims) (context : AuthzContext) (id : Text)
      → context.subject ≡ o
      → derive_subject_id s context ≡ ok id
      → nonempty id ≡ true
      → (c : Claims) × (o ≡ some c)
        × (is_authenticated (some c) ≡ true)
        × (id ≡ qualified (domain_of s c) (trim_space c.subject_id))
  unfolding derive_subject_id
  derived none context id e h given = absurd (ground (arith, e, h, given))
  derived (some c) context id e h given = elim (Bool-cases s.enabled) [
    | inr off ↦ absurd (ground (arith, e, h, off))
    | inl on ↦ elim (Bool-cases (is_authenticated (some c))) [
      | inr guest ↦ absurd (ground (arith, e, h, on, guest, given))
      | inl known ↦ (c, refl, known, derived_from_claims c id (ground (arith, e, h, on, known)))
    ]
  ]

-- No domain of the configuration has a slash.
pub record IsPlain (s : RedHatRbacSelfSubjectStrategy) : Type 0 where
  pub header : contains slash s.x_rh_identity_domain ≡ false
  pub issuers : All (λ (p : Text × Text). contains slash p.1 ≡ false) s.oidc_issuer_domains

plain_look :
    (issuer : Text) (m : List (Text × Text))
    → All (λ (p : Text × Text). contains slash p.1 ≡ false) m
    → contains slash (or_empty (look issuer m)) ≡ false
unfolding look contains
plain_look issuer [] h = refl
plain_look issuer ((i, d) ∷ m) (h, rest) = elim (Bool-cases (i == issuer)) [
  | inl e ↦ rw e h
  | inr e ↦ rw e (plain_look issuer m rest)
]

plain_domain :
    (s : RedHatRbacSelfSubjectStrategy) (c : Claims)
    → IsPlain s
    → contains slash (domain_of s c) ≡ false
unfolding domain_of resolve_oidc_issuer_domain contains
plain_domain s c h = ground (arith, h.header, plain_look c.issuer s.oidc_issuer_domains h.issuers)

-- Where no configured domain has a slash, two callers from whom the same subject is derived are both
-- authenticated, in the same domain, with the same id up to the spaces around it.
pub derive_subject_id-distinct :
    (s : RedHatRbacSelfSubjectStrategy) (a b : AuthzContext) (id : Text)
    → IsPlain s
    → derive_subject_id s a ≡ ok id
    → derive_subject_id s b ≡ ok id
    → nonempty id ≡ true
    → (c d : Claims) × (a.subject ≡ some c)
      × (b.subject ≡ some d)
      × (is_authenticated (some c) ≡ true)
      × (is_authenticated (some d) ≡ true)
      × (domain_of s c ≡ domain_of s d)
      × (trim_space c.subject_id ≡ trim_space d.subject_id)
derive_subject_id-distinct s a b id plain ha hb given =
    let (c, ec, kc, ic) = derived s a.subject a id refl ha given in
    let (d, ed, kd, id') = derived s b.subject b id refl hb given in
    let (same_domain, same_id) =
      qualified_parts (domain_of s c) (domain_of s d) (trim_space c.subject_id)
        (trim_space d.subject_id) (plain_domain s c plain) (plain_domain s d plain)
        (sym ic ∙ id') in
    (c, d, ec, ed, kc, kd, same_domain, same_id)
