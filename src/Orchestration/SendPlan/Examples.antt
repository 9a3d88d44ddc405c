-- ===== src/Orchestration/SendPlan/Examples.antt =====
-- Plans for a few devices, and the theorems about them.
use construct_core.Prelude.{ℕ, ◌≡◌, refl, true, false, List, [], ◌∷◌, All, contains, Distinct}
use construct_core.Orchestration.SendPlan.{plan_send, plan_of, push, push_recipients, push_replicas}
use construct_core.Orchestration.SendPlan.Audience.{Rightly, plan_send-Rightly}
use construct_core.Orchestration.SendPlan.Laws.{ids, plan_send-Distinct, contains-plan_send}

abbrev device : List ℕ
device = 1 ∷ []

abbrev other_device : List ℕ
other_device = 2 ∷ []

plan_lem :
    ids
      (plan_send (device ∷ [] ∷ device ∷ []) (other_device ∷ (3 ∷ []) ∷ device ∷ []) (3 ∷ []) false)
    ≡ device ∷ other_device ∷ []
unfolding plan_send plan_of push push_recipients push_replicas
plan_lem = refl

plan_send-Distinct_example :
    Distinct (ids (plan_send (device ∷ device ∷ []) (device ∷ other_device ∷ []) (3 ∷ []) false))
plan_send-Distinct_example =
    plan_send-Distinct (device ∷ device ∷ []) (device ∷ other_device ∷ []) (3 ∷ []) false

contains-plan_send_example :
    contains (ids (plan_send (device ∷ []) (other_device ∷ []) (3 ∷ []) false)) other_device ≡ true
contains-plan_send_example =
    contains-plan_send (device ∷ []) (other_device ∷ []) (3 ∷ []) false other_device

plan_send-Rightly_example :
    All
      (Rightly (device ∷ []) (other_device ∷ []) (3 ∷ []) false)
      (plan_send (device ∷ []) (other_device ∷ []) (3 ∷ []) false)
plan_send-Rightly_example = plan_send-Rightly (device ∷ []) (other_device ∷ []) (3 ∷ []) false
