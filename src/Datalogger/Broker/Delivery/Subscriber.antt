-- ===== src/Datalogger/Broker/Delivery/Subscriber.antt =====
-- What a new subscriber of the broker receives.
use iot_edge.Prelude.{
  ℕ, ◌≡◌, refl, ap, subst, ◌∙◌, true, false, some, List, [], ◌∷◌, ◌++◌, length, get_elem?, Result,
  ok, err, Bool-cases, inl, inr, ok-injective, ◌==◌, ◌≤◌, ◌⊎◌, Bool, arith,
}
use iot_edge.Datalogger.Batch.{RawBatch, clone_raw_batch}
use iot_edge.Datalogger.Broker.{
  Subscription, Broker, BrokerError, subscribe, offer, close_subscription_locked, Operation,
  subscribes, publishes, closes, receives, execute,
}
use iot_edge.Datalogger.Broker.Delivery.{commits, committed, received}
use iot_edge.Datalogger.Broker.Delivery.Single.{step_one, run_one, execute-one, received-one}
use iot_edge.Datalogger.Broker.Delivery.Alone.{IsOpen, Cause, Ends, open-IsDelivered}

get_elem?-length {ℓ} :
    {A : Type ℓ} (xs : List A) (a : A) → get_elem? (xs ++ a ∷ []) (length xs) ≡ some a
get_elem?-length [] a = refl
get_elem?-length (x ∷ xs) a = get_elem?-length xs a

-- A new subscription is the last one, for its logger, open and with nothing in its channel.
abbrev IsNew : ℕ → Broker → Broker → Type 0
IsNew logger_id b c =
    (s : Subscription) × (get_elem? c.subscriptions (length b.subscriptions) ≡ some s)
    × IsOpen s
    × (s.events ≡ [])
    × (s.logger_id ≡ logger_id)
    × (s.capacity ≡ c.buffer_size)

err≢ok : {e : BrokerError} {c : Broker} → ◌≡◌ {A = Result BrokerError Broker} (err e) (ok c) → ⊥
err≢ok h = cc

subscribe-IsNew :
    (logger_id : ℕ) (b c : Broker) → subscribe logger_id b ≡ ok c → IsNew logger_id b c
unfolding subscribe
subscribe-IsNew logger_id b c h = elim (Bool-cases (logger_id == 0)) [
  | inl nil ↦ absurd (err≢ok (rw nil at h))
  | inr given ↦
      subst (IsNew logger_id b) (ok-injective (rw given at h))
        (_, get_elem?-length b.subscriptions _, (refl, refl, refl), refl, refl, refl)
]

-- No operation changes the size of a channel.
capacity-step_one :
    (i : ℕ) (op : Operation) (s : Subscription) → (step_one i op s).capacity ≡ s.capacity
unfolding offer close_subscription_locked
capacity-step_one i (subscribes logger_id) s = refl
capacity-step_one i (publishes batch) s = ground arith
capacity-step_one i (closes j) s = ground arith
capacity-step_one i (receives j) s = ground arith

capacity-run_one :
    (i : ℕ) (ops : List Operation) (s : Subscription) → (run_one i s ops).capacity ≡ s.capacity
capacity-run_one i [] s = refl
capacity-run_one i (op ∷ ops) s =
    capacity-run_one i ops (step_one i op s) ∙ capacity-step_one i op s

-- The i-th subscription was shut by its Close, or because a batch of its logger came when its channel
-- held as many batches as the broker buffers; it is marked as lagged in the second case only.
abbrev pub IsShutBy : ℕ → ℕ → Broker → List Operation → Operation → Bool → Type 0
IsShutBy i logger_id c earlier op lagged =
    ((op ≡ closes i) × (lagged ≡ false))
    ⊎ ((batch : RawBatch) × (t : Subscription) × (op ≡ publishes batch)
        × (commits logger_id op ≡ clone_raw_batch batch ∷ [])
        × (get_elem? (execute c earlier).subscriptions i ≡ some t)
        × (c.buffer_size ≤ length t.events)
        × (lagged ≡ true))

-- A stream goes on and has lost nothing, or it has ended at the operation that shut it, and lost what
-- its logger committed from there on.
abbrev pub IsStream : ℕ → ℕ → Broker → List Operation → Subscription → List RawBatch → Type 0
IsStream i logger_id c ops s lost =
    ((s.listed ≡ true) × (lost ≡ []))
    ⊎ ((earlier later : List Operation) × (op : Operation) × (ops ≡ earlier ++ op ∷ later)
        × (s.listed ≡ false)
        × (lost ≡ committed logger_id (op ∷ later))
        × IsShutBy i logger_id c earlier op s.lagged)

IsShutBy-Cause :
    (i logger_id : ℕ) (c : Broker) (earlier : List Operation) (op : Operation) (lagged : Bool)
    (s : Subscription)
    → get_elem? c.subscriptions i ≡ some s
    → s.capacity ≡ c.buffer_size
    → Cause i logger_id op (run_one i s earlier) lagged
    → IsShutBy i logger_id c earlier op lagged
IsShutBy-Cause i logger_id c earlier op lagged s at size (inl closed) = inl closed
IsShutBy-Cause i logger_id c earlier op lagged s at size (inr (batch, published, news, full, lag)) =
    inr (
      batch,
      run_one i s earlier,
      published,
      news,
      execute-one i c earlier s at,
      subst (λ n. n ≤ length (run_one i s earlier).events) (capacity-run_one i earlier s ∙ size)
          full,
      lag,
    )

IsStream-Ends :
    (i : ℕ) (c : Broker) (ops : List Operation) (s : Subscription) (lost : List RawBatch)
    → get_elem? c.subscriptions i ≡ some s
    → s.capacity ≡ c.buffer_size
    → Ends i s ops lost
    → IsStream i s.logger_id c ops (run_one i s ops) lost
IsStream-Ends i c ops s lost at size (inl on) = inl on
IsStream-Ends i c ops s lost at size (inr (earlier, later, op, split, off, missed, cause)) = inr (
  earlier,
  later,
  op,
  split,
  off,
  missed,
  IsShutBy-Cause i s.logger_id c earlier op (run_one i s ops).lagged s at size cause,
)

-- In any execution after a subscription, what its subscriber has received, what its channel holds
-- and what it lost are in this order the valid batches that its logger has committed. It is in the
-- broker's set and has lost none, or some operation has shut it, from which on it has lost them all:
-- its Close, or the commit of a batch that found its channel as full as the broker's buffers are,
-- and just then it is marked as lagged.
pub subscribe-delivered :
    (logger_id : ℕ) (b c : Broker) (ops : List Operation)
    → subscribe logger_id b ≡ ok c
    → (s : Subscription) × (lost : List RawBatch) × (get_elem?
          (execute c ops).subscriptions
          (length b.subscriptions)
        ≡ some s)
      × (received (length b.subscriptions) c ops ++ (s.events ++ lost) ≡ committed logger_id ops)
      × IsStream (length b.subscriptions) logger_id c ops s lost
subscribe-delivered logger_id b c ops h =
    let (s, at, opened, empty, own, size) = subscribe-IsNew logger_id b c h in
    let i = length b.subscriptions in
    let (lost, handed, ends) = open-IsDelivered i ops s opened in
    (
      run_one i s ops,
      lost,
      execute-one i c ops s at,
      ap (λ t. t ++ ((run_one i s ops).events ++ lost)) (received-one i c ops s at)
          ∙ handed
          ∙ ap (λ t. t ++ committed s.logger_id ops) empty
          ∙ ap (λ l. committed l ops) own,
      subst (λ l. IsStream i l c ops (run_one i s ops) lost) own
          (IsStream-Ends i c ops s lost at size ends),
    )
