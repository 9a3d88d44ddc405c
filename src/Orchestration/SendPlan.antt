-- ===== src/Orchestration/SendPlan.antt =====
-- src/orchestration/send_plan.rs: who gets a copy of an outgoing message.
pub mod Laws
pub mod Audience
mod Examples
use construct_core.Prelude.{
  ℕ, if◌then◌else◌, Bool, true, false, ◌||◌, List, [], ◌∷◌, ◌++◌, bytes_eq, contains,
}

pub data DeliveryAudience : Type 0 where
  recipient own_replica : DeliveryAudience

pub record DeliveryTarget : Type 0 where
  pub device_id : List ℕ
  pub audience : DeliveryAudience

-- `id.is_empty()`.
abbrev pub is_empty : List ℕ → Bool
is_empty [] = true
is_empty (c ∷ id) = false

-- The two vectors that the closure `push` extends.
pub record Plan : Type 0 where
  pub seen : List (List ℕ)
  pub out : List DeliveryTarget

pub push : List ℕ → DeliveryAudience → Plan → Plan
push id audience plan = if is_empty id || contains plan.seen id then plan else record {
  seen = plan.seen ++ (id ∷ []);
  out = plan.out ++ (record { device_id = id; audience = audience } ∷ []);
}

pub push_recipients : List (List ℕ) → Plan → Plan
push_recipients [] plan = plan
push_recipients (id ∷ ids) plan = push_recipients ids (push id recipient plan)

pub push_replicas : List ℕ → List (List ℕ) → Plan → Plan
push_replicas our_device_id [] plan = plan
push_replicas our_device_id (id ∷ ids) plan =
    push_replicas our_device_id ids
      (if bytes_eq id our_device_id then plan else push id own_replica plan)

pub plan_of : List (List ℕ) → List (List ℕ) → List ℕ → Bool → Plan
plan_of recipient_device_ids own_device_ids our_device_id recipient_is_self =
    let start : Plan = record { seen = []; out = [] } in
    let first = if recipient_is_self then start else push_recipients recipient_device_ids start in
    if is_empty our_device_id then first else push_replicas our_device_id own_device_ids first

pub plan_send : List (List ℕ) → List (List ℕ) → List ℕ → Bool → List DeliveryTarget
plan_send recipient_device_ids own_device_ids our_device_id recipient_is_self =
    (plan_of recipient_device_ids own_device_ids our_device_id recipient_is_self).out
