-- ===== src/PubSub/Watched.antt =====
-- The subscription of a transaction stays in the map of the manager while nobody else subscribes for the
-- transaction and nobody ends it, whatever calls of others come in between.
use inventory_api.Base.{
  ℕ, ◌<◌, ◌≡◌, ◌≢◌, refl, ap, sym, ◌∙◌, true, false, Option, none, some, List, [], ◌∷◌, map, Text,
  list_eq, nat_eq, ◌==◌, if◌then◌else◌, contains, look, put, remove, look-put, look-remove, ==_refl,
  ==_iff, arith, Bool-cases, inl, inr, Option-cases,
}
use inventory_api.PubSub.{
  Subscription, ListenManager, subscribe, unsubscribe, distribute, offer, handles,
  block_for_notification,
}
use inventory_api.PubSub.Calls.{IsFree}

-- The other subscriptions for the transaction were ended.
pub record IsWatched (tx_id : Text) (h : ℕ) (s : Subscription) (m : ListenManager) : Type 0 where
  pub object : look h m.objects ≡ some s
  pub listed : look tx_id m.subscriptions ≡ some h
  pub own : s.tx_id ≡ tx_id
  pub earlier : h < m.next
  pub alone :
      (k : ℕ) (o : Subscription)
      → k ≢ h
      → look k m.objects ≡ some o
      → o.tx_id ≡ tx_id
      → o.unsubscribed ≡ true

contains-handles :
    (t : Text) (h : ℕ) (m : List (Text × ℕ)) → look t m ≡ some h → contains h (handles m) ≡ true
unfolding look contains
contains-handles t h [] e = cc
contains-handles t h ((u, k) ∷ rest) e = ground (arith, ==_refl h, contains-handles t h rest)

not_same : (k h : ℕ) → k ≢ h → (k == h) ≡ false
not_same k h n = elim (Bool-cases (k == h)) [ inl e ↦ absurd (n ((==_iff k h).0 e)) | inr e ↦ e ]

look-put_other :
    (j k : ℕ) (o : Subscription) (os : List (ℕ × Subscription))
    → (k == j) ≡ false
    → look j (put k o os) ≡ look j os
look-put_other j k o os e = look-put j k o os ∙ rw e refl

not_same_text : (a b : Text) → a ≢ b → (a == b) ≡ false
not_same_text a b n = elim (Bool-cases (a == b)) [
  | inl e ↦ absurd (n ((==_iff a b).0 e))
  | inr e ↦ e
]

-- What a notification makes of the object with a number.
abbrev sent_to : Text → List ℕ → ℕ → Subscription → Subscription
sent_to p hs k o = if contains k hs then offer p o else o

abbrev sent : Text → List ℕ → ℕ → Option Subscription → Option Subscription
sent p hs k none = none
sent p hs k (some o) = some (sent_to p hs k o)

look-distribute :
    (k : ℕ) (p : Text) (hs : List ℕ) (os : List (ℕ × Subscription))
    → look k
        (map (λ (o : ℕ × Subscription). (o.0, if contains o.0 hs then offer p o.1 else o.1)) os)
      ≡ sent p hs k (look k os)
unfolding look
look-distribute k p hs [] = refl
look-distribute k p hs ((j, o) ∷ os) = elim (Bool-cases (j == k)) [
  | inl same ↦ rw (same, look) (ap (λ i. some (sent_to p hs i o)) ((==_iff j k).0 same))
  | inr other ↦ rw (other, look) (look-distribute k p hs os)
]

sent_before :
    (p : Text) (hs : List ℕ) (k : ℕ) (q : Option Subscription) (o : Subscription)
    → sent p hs k q ≡ some o
    → (o' : Subscription) × (q ≡ some o')
      × (o'.tx_id ≡ o.tx_id)
      × (o'.unsubscribed ≡ o.unsubscribed)
unfolding offer
sent_before p hs k none o e = cc
sent_before p hs k (some o') o e = (o', refl, ground arith, ground arith)

module _ (tx_id : Text) (h : ℕ) (s : Subscription) (m : ListenManager)
    (w : IsWatched tx_id h s m) where
  pub distribute-IsWatched : (p : Text) → IsWatched tx_id h (offer p s) (distribute p m)
  unfolding distribute offer
  distribute-IsWatched p =
      let hs = handles m.subscriptions in
      record {
        object =
            look-distribute h p hs m.objects
            ∙ rw (w.object, contains-handles tx_id h m.subscriptions w.listed) refl;
        listed = w.listed;
        own = ground (arith, w.own);
        earlier = w.earlier;
        alone = λ k o other there for.
            let (o', before, same, ended) =
              sent_before p hs k (look k m.objects) o
                (sym (look-distribute k p hs m.objects) ∙ there) in
            sym ended ∙ w.alone k o' other before (same ∙ for);
      }

  pub subscribe-keeps : (t : Text) → t ≢ tx_id → IsWatched tx_id h s (subscribe t m).1
  unfolding subscribe look put
  subscribe-keeps t other = record {
    object = rw (not_same m.next h (λ e. omega (arith, e, w.earlier))) w.object;
    listed = look-put tx_id t m.next m.subscriptions ∙ rw (not_same_text t tx_id other) w.listed;
    own = w.own;
    earlier = omega (arith, w.earlier);
    alone = λ k o distinct there for. elim (Bool-cases (m.next == k)) [
      | inl new ↦ absurd (other (cc (rw new at there, for)))
      | inr old ↦ w.alone k o distinct (rw old at there) for
    ];
  }

  pub read_own-IsWatched :
      IsWatched tx_id h
        (block_for_notification s).1
        (record m { objects = put h (block_for_notification s).1 m.objects })
  unfolding block_for_notification
  read_own-IsWatched = record {
    object = look-put h h (block_for_notification s).1 m.objects ∙ rw (==_refl h) refl;
    listed = w.listed;
    own = w.own;
    earlier = w.earlier;
    alone = λ k o other there for.
        w.alone k o other
          (sym (look-put_other k h _ m.objects (not_same h k (λ e. other (sym e)))) ∙ there) for;
  }

  module _ (k : ℕ) (o : Subscription) (there : look k m.objects ≡ some o) (other : k ≢ h) where
    -- A write to the object of another subscription, which keeps what it is for and does not revive it.
    pub put-IsWatched :
        (o' : Subscription) (subs : List (Text × ℕ))
        → look tx_id subs ≡ some h
        → o'.tx_id ≡ o.tx_id
        → (o.unsubscribed ≡ true → o'.unsubscribed ≡ true)
        → IsWatched tx_id h s (record m { subscriptions = subs; objects = put k o' m.objects })
    put-IsWatched o' subs listed same ends = record {
      object = look-put h k o' m.objects ∙ rw (not_same k h other) w.object;
      listed = listed;
      own = w.own;
      earlier = w.earlier;
      alone = λ j q distinct held for. elim (Bool-cases (k == j)) [
        | inl e ↦
            let q_is : o' ≡ q = cc (sym (look-put j k o' m.objects) ∙ held, e) in
            let ended = ends (w.alone k o other there (sym same ∙ ap (λ x. x.tx_id) q_is ∙ for)) in
            ap (λ x. x.unsubscribed) (sym q_is) ∙ ended
        | inr e ↦ w.alone j q distinct (sym (look-put_other j k o' m.objects e) ∙ held) for
      ];
    }

  pub unsubscribe-keeps : (k : ℕ) → k ≢ h → IsWatched tx_id h s (unsubscribe k m)
  unfolding unsubscribe
  unsubscribe-keeps k other = elim (Option-cases (look k m.objects)) [
    | inl e ↦ rw e w
    | inr (o, e) ↦ elim (Bool-cases o.unsubscribed) [
      | inl ended ↦ rw (e, ended) w
      | inr live ↦
          let another = not_same_text o.tx_id tx_id (λ t. cc (w.alone k o other e t, live)) in
          rw (e, live)
            (put-IsWatched k o e other (record o { unsubscribed = true })
              (remove o.tx_id m.subscriptions)
              (look-remove tx_id o.tx_id m.subscriptions ∙ rw another w.listed) refl (λ u. refl))
    ]
  ]

  pub read_other-IsWatched :
      (k : ℕ) (o : Subscription)
      → look k m.objects ≡ some o
      → k ≢ h
      → IsWatched tx_id h s (record m { objects = put k (block_for_notification o).1 m.objects })
  unfolding block_for_notification
  read_other-IsWatched k o e other =
      put-IsWatched k o e other (block_for_notification o).1 m.subscriptions w.listed refl (λ u. u)

pub subscribe-IsWatched :
    (tx_id : Text) (m : ListenManager)
    → IsFree tx_id m
    → IsWatched tx_id
        (subscribe tx_id m).0
        (record { tx_id = tx_id; pending = []; unsubscribed = false })
        (subscribe tx_id m).1
unfolding subscribe look
subscribe-IsWatched tx_id m free = record {
  object = rw (==_refl m.next) refl;
  listed = look-put tx_id tx_id m.next m.subscriptions ∙ rw (==_refl tx_id) refl;
  own = refl;
  earlier = omega arith;
  alone = λ k o distinct there for.
      free k o (rw (not_same m.next k (λ e. distinct (sym e))) at there) for;
}
