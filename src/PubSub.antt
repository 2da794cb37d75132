-- ===== src/PubSub.antt =====
-- internal/pubsub/listenmanager.go and subscription.go: notifications of the database, handed to those who
-- wait for a transaction. A subscription is an object with a number, which the manager's map points to.
-- A channel is its buffer. Calls run one after the other: the lock makes each of them one step. The
-- driver is what a wait for it ended with.
pub mod Waits
pub mod Calls
pub mod Watched
pub mod Delivery
use inventory_api.Base.{
  ℕ, suc, ◌+◌, Bool, true, false, not, ◌||◌, ◌&&◌, Option, none, some, List, [], ◌∷◌, ◌++◌, map,
  length, Text, list_eq, nat_eq, ◌==◌, ltb, if◌then◌else◌, contains, look, put, remove,
}

pub record Subscription : Type 0 where
  pub tx_id : Text
  pub pending : List Text
  pub unsubscribed : Bool

pub record ListenManager : Type 0 where
  pub subscriptions : List (Text × ℕ)
  pub objects : List (ℕ × Subscription)
  pub next : ℕ

unfoldable pub new_listen_manager : ListenManager
new_listen_manager = record { subscriptions = []; objects = []; next = 0 }

-- Subscribe: the object, and the manager.
unfoldable pub subscribe : Text → ListenManager → ℕ × ListenManager
subscribe tx_id m = (
  m.next,
  record {
    subscriptions = put tx_id m.next m.subscriptions;
    objects = (m.next, record { tx_id = tx_id; pending = []; unsubscribed = false }) ∷ m.objects;
    next = suc m.next;
  },
)

-- A send that does not block: the buffer holds two.
unfoldable pub offer : Text → Subscription → Subscription
offer payload s =
    if ltb (length s.pending) 2 then record s { pending = s.pending ++ payload ∷ [] } else s

abbrev pub handles : List (Text × ℕ) → List ℕ
handles = map (λ p. p.1)

-- The loop of WaitAndDistribute over the subscriptions in the map.
unfoldable pub distribute : Text → ListenManager → ListenManager
unfolding offer contains
distribute payload m = record m {
  objects =
      map (λ p. (p.0, if contains p.0 (handles m.subscriptions) then offer payload p.1 else p.1))
        m.objects;
}

-- How the wait for the driver ended: `gave_up` is a cancellation or a deadline.
pub data WaitEnd : Type 0 where
  arrived : Text → WaitEnd
  gave_up failed : WaitEnd

-- WaitAndDistribute: whether it gave an error, and the manager. The first argument tells whether the
-- context of the caller is done.
unfoldable pub wait_and_distribute : Bool → WaitEnd → ListenManager → Bool × ListenManager
unfolding distribute
wait_and_distribute done (arrived payload) m = (false, distribute payload m)
wait_and_distribute done gave_up m = (done, m)
wait_and_distribute done failed m = (true, m)

-- Run, over the ends of its waits; each comes with the state of the context after it. The Boolean tells
-- whether the loop has ended.
unfoldable pub run : List (WaitEnd × Bool) → ListenManager → Bool × ListenManager
unfolding wait_and_distribute
run [] m = (false, m)
run ((end, done) ∷ rest) m =
    let (failure, m') = wait_and_distribute done end m in
    let next = run rest m' in if failure || done then (true, m') else next

abbrev set_unsubscribed : Option Subscription → ℕ → ListenManager → ListenManager
set_unsubscribed none h m = m
set_unsubscribed (some s) h m = if s.unsubscribed then m else record m {
  subscriptions = remove s.tx_id m.subscriptions;
  objects = put h (record s { unsubscribed = true }) m.objects;
}

-- Unsubscribe, once, with unsubscribe of the manager.
unfoldable pub unsubscribe : ℕ → ListenManager → ListenManager
unsubscribe h m = set_unsubscribed (look h m.objects) h m

-- The reads of BlockForNotification from a buffer: whether the own notification came, and what is left.
unfoldable pub read_own : Text → List Text → Bool × List Text
read_own tx_id [] = (false, [])
read_own tx_id (p ∷ ps) = let next = read_own tx_id ps in if p == tx_id then (true, ps) else next

-- BlockForNotification, as far as it gets with what is in the buffer.
unfoldable pub block_for_notification : Subscription → Bool × Subscription
unfolding read_own
block_for_notification s =
    let (found, rest) = read_own s.tx_id s.pending in (found, record s { pending = rest })
