-- ===== src/Tests/PubSub.antt =====
-- The property of notifications at a concrete run.
use inventory_api.Base.{
  ◌≡◌, refl, inl, inr, true, false, none, some, List, [], ◌∷◌, codes, arith, ==_refl, list_beq,
}
use inventory_api.PubSub.{new_listen_manager, subscribe, arrived, gave_up}
use inventory_api.PubSub.Calls.{Call, subscribe_for, unsubscribe_at, wait, read, watch, IsFree}
use inventory_api.PubSub.Delivery.{watch-subscribe}

-- Two notifications of others come first, one of which is read in between, while another subscriber comes,
-- reads and goes.
abbrev calls : List Call
calls =
    wait (arrived (codes "a"))
    ∷ subscribe_for (codes "other")
    ∷ read 0
    ∷ wait gave_up
    ∷ wait (arrived (codes "b"))
    ∷ read 1
    ∷ unsubscribe_at 1
    ∷ wait (arrived (codes "tx"))
    ∷ read 0
    ∷ []

IsFree-new : IsFree (codes "tx") new_listen_manager
unfolding new_listen_manager inventory_api.Base.look
IsFree-new k o there same = cc

watch-subscribe_example :
    watch
      (subscribe (codes "tx") new_listen_manager).0
      calls
      false
      (subscribe (codes "tx") new_listen_manager).1
    ≡ true
unfolding subscribe new_listen_manager
watch-subscribe_example =
    watch-subscribe (codes "tx") new_listen_manager calls IsFree-new
      ((λ h. cc), ((λ h. omega (arith, h)), tt)) (omega arith, (omega arith, (omega arith, tt)))
      (inr (inr (inl (refl, tt))))
