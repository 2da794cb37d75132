-- ===== src/PubSub/Waits.antt =====
-- A subscriber who reads often enough sees its notification.
use inventory_api.Base.{
  ℕ, suc, ◌<◌, ◌≡◌, refl, ap, ◌∙◌, ◌⊎◌, inl, inr, Bool, true, false, ◌||◌, List, [], ◌∷◌, ◌++◌,
  length, Text, list_eq, nat_eq, ltb, contains, arith, ==_refl, Bool-cases,
}
use inventory_api.PubSub.{Subscription, offer, read_own, block_for_notification}

-- What happens at a subscription: a notification is sent to it, or its subscriber reads.
pub data Step : Type 0 where
  notified : Text → Step
  polled : Step

-- A step after the other; the Boolean tells whether the own notification was read.
unfoldable pub waited : List Step → Bool → Subscription → Bool × Subscription
unfolding offer block_for_notification
waited [] found s = (found, s)
waited (notified p ∷ rest) found s = waited rest found (offer p s)
waited (polled ∷ rest) found s =
    let (b, s') = block_for_notification s in waited rest (found || b) s'

-- The subscriber reads before a third notification waits.
abbrev pub KeepsUp : ℕ → List Step → Type 0
KeepsUp n [] = Unit {0}
KeepsUp n (notified p ∷ rest) = (n < 2) × KeepsUp (suc n) rest
KeepsUp n (polled ∷ rest) = KeepsUp 0 rest

abbrev pub HasPoll : List Step → Type 0
HasPoll [] = ⊥
HasPoll (notified p ∷ rest) = HasPoll rest
HasPoll (polled ∷ rest) = Unit {0}

-- The notification of a transaction comes, and the subscriber reads afterwards.
abbrev pub IsSent : Text → List Step → Type 0
IsSent tx_id [] = ⊥
IsSent tx_id (notified p ∷ rest) = ((p ≡ tx_id) × HasPoll rest) ⊎ IsSent tx_id rest
IsSent tx_id (polled ∷ rest) = IsSent tx_id rest

waited_found : (steps : List Step) (s : Subscription) → (waited steps true s).0 ≡ true
unfolding waited
waited_found [] s = refl
waited_found (notified p ∷ rest) s = waited_found rest (offer p s)
waited_found (polled ∷ rest) s = waited_found rest (block_for_notification s).1

contains-append :
    (x p : Text) (ps : List Text) → contains x ps ≡ true → contains x (ps ++ p ∷ []) ≡ true
unfolding contains
contains-append x p [] h = cc
contains-append x p (q ∷ ps) h = ground (arith, contains-append x p ps, h)

contains_last : (x : Text) (ps : List Text) → contains x (ps ++ x ∷ []) ≡ true
unfolding contains
contains_last x [] = ground (arith, ==_refl x)
contains_last x (q ∷ ps) = ground (arith, contains_last x ps)

length_last : (x : Text) (ps : List Text) → length (ps ++ x ∷ []) ≡ suc (length ps)
length_last x [] = refl
length_last x (q ∷ ps) = ap suc (length_last x ps)

read_own_there : (x : Text) (ps : List Text) → contains x ps ≡ true → (read_own x ps).0 ≡ true
unfolding contains read_own
read_own_there x [] h = cc
read_own_there x (q ∷ ps) h = ground (arith, read_own_there x ps, h)

-- What was read without the own notification was read to the end.
read_own_empty : (x : Text) (ps : List Text) → (read_own x ps).0 ≡ false → (read_own x ps).1 ≡ []
unfolding read_own
read_own_empty x [] h = refl
read_own_empty x (q ∷ ps) h = ground (arith, read_own_empty x ps, h)

offer-room :
    (p : Text) (s : Subscription)
    → length s.pending < 2
    → offer p s ≡ record s { pending = s.pending ++ p ∷ [] }
unfolding offer
offer-room p s h = ground (arith, h)

-- A send leaves the buffer as it was, or adds to its end.
offer_cases :
    (p : Text) (s : Subscription)
    → (offer p s ≡ s) ⊎ (offer p s ≡ record s { pending = s.pending ++ p ∷ [] })
unfolding offer
offer_cases p s = elim (Bool-cases (ltb (length s.pending) 2)) [
  | inl e ↦ inr (rw e refl)
  | inr e ↦ inl (rw e refl)
]

with_subscription :
    (rest : List Step) {s s' : Subscription}
    → s ≡ s'
    → (waited rest false s).0 ≡ (waited rest false s').0
with_subscription rest e = ap (λ x. (waited rest false x).0) e

with_found :
    (rest : List Step) (s : Subscription) {b b' : Bool}
    → b ≡ b'
    → (waited rest b s).0 ≡ (waited rest b' s).0
with_found rest s e = ap (λ b. (waited rest b s).0) e

waited_pending :
    (steps : List Step) (s : Subscription)
    → contains s.tx_id s.pending ≡ true
    → HasPoll steps
    → (waited steps false s).0 ≡ true
unfolding waited block_for_notification
waited_pending [] s h q = absurd q
waited_pending (notified p ∷ rest) s h q = elim (offer_cases p s) [
  | inl e ↦ with_subscription rest e ∙ waited_pending rest s h q
  | inr e ↦
      with_subscription rest e
      ∙ waited_pending rest (record s { pending = s.pending ++ p ∷ [] })
          (contains-append s.tx_id p s.pending h) q
]
waited_pending (polled ∷ rest) s h q =
    with_found rest _ (read_own_there s.tx_id s.pending h)
    ∙ (waited_found rest (record s { pending = (read_own s.tx_id s.pending).1 }))

-- A subscriber who reads before a third notification waits sees the notification of its transaction,
-- whatever other notifications come before it, if it reads after it.
pub waited-IsSent :
    (steps : List Step) (s : Subscription)
    → KeepsUp (length s.pending) steps
    → IsSent s.tx_id steps
    → (waited steps false s).0 ≡ true
unfolding waited block_for_notification
waited-IsSent [] s k q = absurd q
waited-IsSent (notified p ∷ rest) s (room, k) (inl (own, poll)) =
    with_subscription rest (offer-room p s room)
    ∙ waited_pending rest (record s { pending = s.pending ++ p ∷ [] })
        (rw own (contains_last s.tx_id s.pending)) poll
waited-IsSent (notified p ∷ rest) s (room, k) (inr later) =
    with_subscription rest (offer-room p s room)
    ∙ waited-IsSent rest (record s { pending = s.pending ++ p ∷ [] })
        (rw (length_last p s.pending) k) later
waited-IsSent (polled ∷ rest) s k q = elim (Bool-cases (read_own s.tx_id s.pending).0) [
  | inl e ↦
      with_found rest _ e
      ∙ (waited_found rest (record s { pending = (read_own s.tx_id s.pending).1 }))
  | inr e ↦
      let s' : Subscription = record s { pending = (read_own s.tx_id s.pending).1 } in
      with_found rest s' e ∙ (waited-IsSent rest s' (rw (read_own_empty s.tx_id s.pending e) k) q)
]
