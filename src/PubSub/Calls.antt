-- ===== src/PubSub/Calls.antt =====
-- internal/pubsub/listenmanager.go and subscription.go: the calls of all subscribers one after the other,
-- and what one of them reads.
use inventory_api.Base.{
  ℕ, ◌≡◌, ◌≢◌, Bool, true, false, ◌||◌, Option, none, some, List, [], ◌∷◌, Text, nat_eq, ◌==◌,
  if◌then◌else◌, look, put,
}
use inventory_api.PubSub.{
  Subscription, ListenManager, subscribe, unsubscribe, WaitEnd, arrived, gave_up, failed,
  wait_and_distribute, block_for_notification,
}
use inventory_api.PubSub.Waits.{Step, notified, polled}

-- The calls of the manager and of its subscriptions: those of all subscribers, in their order.
pub data Call : Type 0 where
  subscribe_for : Text → Call
  unsubscribe_at : ℕ → Call
  wait : WaitEnd → Call
  read : ℕ → Call

abbrev read_of : ℕ → Option Subscription → ListenManager → ListenManager
read_of h none m = m
read_of h (some s) m = record m { objects = put h (block_for_notification s).1 m.objects }

abbrev saw : Option Subscription → Bool
saw none = false
saw (some s) = (block_for_notification s).0

unfoldable pub call : Call → ListenManager → ListenManager
unfolding subscribe unsubscribe wait_and_distribute block_for_notification
call (subscribe_for tx_id) m = (subscribe tx_id m).1
call (unsubscribe_at h) m = unsubscribe h m
call (wait end) m = (wait_and_distribute false end m).1
call (read h) m = read_of h (look h m.objects) m

-- Whether the holder of a subscription reads its own notification at a call.
unfoldable pub sees : ℕ → Call → ListenManager → Bool
unfolding block_for_notification
sees h (read k) m = if k == h then saw (look h m.objects) else false
sees h _ m = false

-- Whether the holder of a subscription reads its own notification in a sequence of calls.
unfoldable pub watch : ℕ → List Call → Bool → ListenManager → Bool
unfolding call sees
watch h [] found m = found
watch h (c ∷ rest) found m = watch h rest (found || sees h c m) (call c m)

-- What a call is at a subscription: WaitAndDistribute sends what arrived, and its own reads.
abbrev pub seen_at : ℕ → List Call → List Step
seen_at h [] = []
seen_at h (subscribe_for tx_id ∷ rest) = seen_at h rest
seen_at h (unsubscribe_at k ∷ rest) = seen_at h rest
seen_at h (wait (arrived p) ∷ rest) = notified p ∷ seen_at h rest
seen_at h (wait gave_up ∷ rest) = seen_at h rest
seen_at h (wait failed ∷ rest) = seen_at h rest
seen_at h (read k ∷ rest) = if k == h then polled ∷ seen_at h rest else seen_at h rest

-- Nobody subscribes for the transaction again, and the subscription is not ended.
abbrev pub Spares : Text → ℕ → List Call → Type 0
Spares tx_id h [] = Unit {0}
Spares tx_id h (subscribe_for other ∷ rest) = (other ≢ tx_id) × Spares tx_id h rest
Spares tx_id h (unsubscribe_at k ∷ rest) = (k ≢ h) × Spares tx_id h rest
Spares tx_id h (wait end ∷ rest) = Spares tx_id h rest
Spares tx_id h (read k ∷ rest) = Spares tx_id h rest

-- Every subscription for the transaction was ended already.
abbrev pub IsFree : Text → ListenManager → Type 0
IsFree tx_id m =
    (k : ℕ) (o : Subscription) → look k m.objects ≡ some o → o.tx_id ≡ tx_id → o.unsubscribed ≡ true
