-- ===== src/PubSub/Delivery.antt =====
-- A subscriber of the manager sees the notification of its transaction, among the calls of others.
use inventory_api.Base.{
  ℕ, ◌≡◌, refl, ap, sym, ◌∙◌, Bool, true, false, ◌||◌, none, some, List, [], ◌∷◌, Text, nat_eq,
  ◌==◌, look, put, ==_iff, Bool-cases, inl, inr, Option-cases,
}
use inventory_api.PubSub.{
  Subscription, ListenManager, subscribe, arrived, gave_up, failed, offer, block_for_notification,
}
use inventory_api.PubSub.Waits.{polled, waited, KeepsUp, IsSent, waited-IsSent}
use inventory_api.PubSub.Calls.{
  Call, subscribe_for, unsubscribe_at, wait, read, call, sees, watch, seen_at, Spares, IsFree,
}
use inventory_api.PubSub.Watched.{
  IsWatched, subscribe-IsWatched, distribute-IsWatched, subscribe-keeps, unsubscribe-keeps,
  read_own-IsWatched, read_other-IsWatched,
}

not_found : (b : Bool) → (b || false) ≡ b
not_found true = refl
not_found false = refl

module _ (tx_id : Text) (h : ℕ) where
  -- A call that shows the subscription nothing leads on as it stands.
  unseen :
      (c : Call) (rest : List Call) (found : Bool) (s : Subscription) (m : ListenManager)
      → sees h c m ≡ false
      → watch h rest found (call c m) ≡ (waited (seen_at h rest) found s).0
      → watch h (c ∷ rest) found m ≡ (waited (seen_at h rest) found s).0
  unfolding watch
  unseen c rest found s m e next =
      ap (λ b. watch h rest b (call c m)) (ap (λ b. found || b) e ∙ not_found found) ∙ next

  sees_own :
      (k : ℕ) (s : Subscription) (m : ListenManager)
      → (k == h) ≡ true
      → look h m.objects ≡ some s
      → sees h (read k) m ≡ (block_for_notification s).0
  unfolding sees
  sees_own k s m e there = rw (e, there) refl

  sees_other : (k : ℕ) (m : ListenManager) → (k == h) ≡ false → sees h (read k) m ≡ false
  unfolding sees
  sees_other k m e = rw e refl

  call_read :
      (k : ℕ) (s : Subscription) (m : ListenManager)
      → look k m.objects ≡ some s
      → call (read k) m ≡ record m { objects = put k (block_for_notification s).1 m.objects }
  unfolding call
  call_read k s m there = rw there refl

  call_read_none : (k : ℕ) (m : ListenManager) → look k m.objects ≡ none → call (read k) m ≡ m
  unfolding call
  call_read_none k m there = rw there refl

  seen_own :
      (k : ℕ) (rest : List Call)
      → (k == h) ≡ true
      → seen_at h (read k ∷ rest) ≡ polled ∷ seen_at h rest
  seen_own k rest e = rw e refl

  seen_other :
      (k : ℕ) (rest : List Call) → (k == h) ≡ false → seen_at h (read k ∷ rest) ≡ seen_at h rest
  seen_other k rest e = rw e refl

  watch_own :
      (k : ℕ) (rest : List Call) (found : Bool) (s : Subscription) (m : ListenManager)
      → (k == h) ≡ true
      → look h m.objects ≡ some s
      → watch h (read k ∷ rest) found m
        ≡ watch h rest
            (found || (block_for_notification s).0)
            (record m { objects = put h (block_for_notification s).1 m.objects })
  unfolding watch
  watch_own k rest found s m e there =
      let same : k ≡ h = (==_iff k h).0 e in
      ap (λ b. watch h rest (found || b) (call (read k) m)) (sees_own k s m e there)
      ∙ ap (λ i. watch h rest (found || (block_for_notification s).0) (call (read i) m)) same
      ∙ ap (watch h rest (found || (block_for_notification s).0)) (call_read h s m there)

  read-keeps :
      (k : ℕ) (s : Subscription) (m : ListenManager)
      → IsWatched tx_id h s m
      → (k == h) ≡ false
      → IsWatched tx_id h s (call (read k) m)
  read-keeps k s m w e = elim (Option-cases (look k m.objects)) [
    | inl none_there ↦ rw (call_read_none k m none_there) w
    | inr (o, there) ↦
        rw (call_read k o m there)
          (read_other-IsWatched tx_id h s m w k o there (λ same. cc (e, (==_iff k h).1 same)))
  ]

  -- What the subscriber sees among the calls of others is what it sees at its own subscription.
  watch-waited :
      (calls : List Call) (found : Bool) (s : Subscription) (m : ListenManager)
      → IsWatched tx_id h s m
      → Spares tx_id h calls
      → watch h calls found m ≡ (waited (seen_at h calls) found s).0
  unfolding watch waited
  watch-waited [] found s m w spare = refl
  watch-waited (subscribe_for t ∷ rest) found s m w (other, spare) =
      unseen (subscribe_for t) rest found s m refl
        (watch-waited rest found s _ (subscribe-keeps tx_id h s m w t other) spare)
  watch-waited (unsubscribe_at k ∷ rest) found s m w (other, spare) =
      unseen (unsubscribe_at k) rest found s m refl
        (watch-waited rest found s _ (unsubscribe-keeps tx_id h s m w k other) spare)
  watch-waited (wait (arrived p) ∷ rest) found s m w spare =
      rw (not_found found)
        (watch-waited rest found (offer p s) _ (distribute-IsWatched tx_id h s m w p) spare)
  watch-waited (wait gave_up ∷ rest) found s m w spare =
      unseen (wait gave_up) rest found s m refl (watch-waited rest found s m w spare)
  watch-waited (wait failed ∷ rest) found s m w spare =
      unseen (wait failed) rest found s m refl (watch-waited rest found s m w spare)
  watch-waited (read k ∷ rest) found s m w spare = elim (Bool-cases (k == h)) [
    | inl e ↦
        watch_own k rest found s m e w.object
        ∙ watch-waited rest (found || (block_for_notification s).0) (block_for_notification s).1 _
            (read_own-IsWatched tx_id h s m w) spare
        ∙ ap (λ steps. (waited steps found s).0) (sym (seen_own k rest e))
    | inr e ↦
        unseen (read k) rest found s m (sees_other k m e)
          (watch-waited rest found s (call (read k) m) (read-keeps k s m w e) spare)
        ∙ ap (λ steps. (waited steps found s).0) (sym (seen_other k rest e))
  ]

-- Who subscribes for a transaction sees its notification, if it reads before a third notification waits,
-- and reads after the notification of the transaction; whatever other notifications, and whatever calls
-- of other subscribers, come in between, as long as earlier subscriptions for the transaction were ended,
-- nobody else subscribes for it, and the subscription is not ended.
pub watch-subscribe :
    (tx_id : Text) (m : ListenManager) (calls : List Call)
    → IsFree tx_id m
    → Spares tx_id (subscribe tx_id m).0 calls
    → KeepsUp 0 (seen_at (subscribe tx_id m).0 calls)
    → IsSent tx_id (seen_at (subscribe tx_id m).0 calls)
    → watch (subscribe tx_id m).0 calls false (subscribe tx_id m).1 ≡ true
watch-subscribe tx_id m calls free spare k q =
    let h = (subscribe tx_id m).0 in
    let s : Subscription = record { tx_id = tx_id; pending = []; unsubscribed = false } in
    watch-waited tx_id h calls false s (subscribe tx_id m).1 (subscribe-IsWatched tx_id m free)
      spare
    ∙ waited-IsSent (seen_at h calls) s k q
