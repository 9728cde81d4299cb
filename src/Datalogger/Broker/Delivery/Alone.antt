-- ===== src/Datalogger/Broker/Delivery/Alone.antt =====
-- One subscription alone: what it receives, holds and loses.
use iot_edge.Prelude.{
  ℕ, ◌≡◌, refl, sym, ap, subst, ◌∙◌, Bool, true, false, List, [], ◌∷◌, ◌++◌, length, ltb, ◌==◌,
  if◌then◌else◌, ◌&&◌, if-elim, Bool-cases, ◌⊎◌, inl, inr, ◌≢◌, ◌≤◌, arith,
}
use mathlib.Core.List.{append_assoc}
use iot_edge.Datalogger.Batch.{
  RawBatch, valid_committed_batch, clone_raw_batch, clone_raw_batch_idem,
}
use iot_edge.Datalogger.Broker.{
  Subscription, close_subscription_locked, offer, first_of, rest_of, Operation, subscribes,
  publishes, closes, receives,
}
use iot_edge.Datalogger.Broker.Delivery.{commits, committed}
use iot_edge.Datalogger.Broker.Delivery.Single.{step_one, take_one, run_one, received_one}

-- A subscription that still listens, and one that is shut for good.
abbrev pub IsOpen : Subscription → Type 0
IsOpen s = (s.listed ≡ true) × (s.closed ≡ false) × (s.lagged ≡ false)

abbrev pub IsShut : Subscription → Type 0
IsShut s = (s.listed ≡ false) × (s.closed ≡ true)

offer-IsShut : (batch : RawBatch) (s : Subscription) → IsShut s → offer batch s ≡ s
unfolding offer
offer-IsShut batch s (unlisted, closed) = rw unlisted

first-rest : (events : List RawBatch) → first_of events ++ rest_of events ≡ events
first-rest [] = refl
first-rest (batch ∷ events) = refl

-- A shut subscription only hands out what it holds.
abbrev Holds : List RawBatch → Bool → Subscription → List RawBatch → Type 0
Holds events lagged t taken = IsShut t × (t.lagged ≡ lagged) × (taken ++ t.events ≡ events)

IsShut-step :
    (i : ℕ) (op : Operation) (s : Subscription)
    → IsShut s
    → Holds s.events s.lagged (step_one i op s) (take_one i op s)
unfolding close_subscription_locked
IsShut-step i (subscribes logger_id) s h = (h, refl, refl)
IsShut-step i (publishes batch) s h =
    if-elim (λ t. Holds s.events s.lagged t []) (valid_committed_batch batch)
      (λ _.
        subst (λ t. Holds s.events s.lagged t []) (sym (offer-IsShut (clone_raw_batch batch) s h))
          (h, refl, refl))
      (λ _. (h, refl, refl))
IsShut-step i (closes j) s h =
    if-elim (λ t. Holds s.events s.lagged t []) (j == i)
      (λ _.
        if-elim (λ t. Holds s.events s.lagged t []) s.closed (λ _. (h, refl, refl))
          (λ _. ((refl, refl), refl, refl)))
      (λ _. (h, refl, refl))
IsShut-step i (receives j) s h = elim (Bool-cases (j == i)) [
  | inl here ↦ (rw here h, rw here refl, rw (here, first-rest s.events))
  | inr elsewhere ↦ (rw elsewhere h, rw elsewhere refl, rw elsewhere)
]

shut-execute :
    (i : ℕ) (ops : List Operation) (s : Subscription)
    → IsShut s
    → Holds s.events s.lagged (run_one i s ops) (received_one i s ops)
shut-execute i [] s h = (h, refl, refl)
shut-execute i (op ∷ ops) s h =
    let (still, lag, held) = IsShut-step i op s h in
    let (off, lag_later, handed) = shut-execute i ops (step_one i op s) still in
    (
      off,
      lag_later ∙ lag,
      append_assoc (take_one i op s) _ _ ∙ ap (λ t. take_one i op s ++ t) handed ∙ held,
    )

-- Why an operation shuts a subscription: it closes it, or a batch of its logger is published and its
-- channel is full, which is a lag.
abbrev pub Cause : ℕ → ℕ → Operation → Subscription → Bool → Type 0
Cause i logger_id op s lagged =
    ((op ≡ closes i) × (lagged ≡ false))
    ⊎ ((batch : RawBatch) × (op ≡ publishes batch)
        × (commits logger_id op ≡ clone_raw_batch batch ∷ [])
        × (s.capacity ≤ length s.events)
        × (lagged ≡ true))

-- After one operation, an open subscription is open and has all that was committed, or it is shut
-- for a cause, and lacks what was committed last.
abbrev Steps : ℕ → Operation → Subscription → Subscription → Type 0
Steps i op s t =
    (t.logger_id ≡ s.logger_id)
    × ((IsOpen t × (take_one i op s ++ t.events ≡ s.events ++ commits s.logger_id op))
        ⊎ (IsShut t
            × Cause i s.logger_id op s t.lagged
            × (take_one i op s ++ (t.events ++ commits s.logger_id op)
                ≡ s.events ++ commits s.logger_id op)))

true≢false : true ≢ false
true≢false h = cc

close-unclosed :
    (s : Subscription)
    → s.closed ≡ false
    → close_subscription_locked s ≡ record s { closed = true; listed = false }
unfolding close_subscription_locked
close-unclosed s h =
    if-elim (λ t. t ≡ record s { closed = true; listed = false }) s.closed
      (λ closed. absurd (true≢false (sym closed ∙ h))) (λ _. refl)

close-Steps :
    (i : ℕ) (op : Operation) (s : Subscription)
    → IsOpen s
    → take_one i op s ≡ []
    → (lagged : Bool) → Cause i s.logger_id op s lagged
    → Steps i op s (close_subscription_locked (record s { lagged = lagged }))
close-Steps i op s (_, unclosed, _) nothing lagged cause =
    subst (Steps i op s) (sym (close-unclosed (record s { lagged = lagged }) unclosed))
      (refl, inr ((refl, refl), cause, rw nothing refl))

append_nil_eq : (xs : List RawBatch) → xs ++ [] ≡ xs
append_nil_eq [] = refl
append_nil_eq (x ∷ xs) = ap (λ t. x ∷ t) (append_nil_eq xs)

offer-foreign :
    (batch : RawBatch) (s : Subscription)
    → s.listed ≡ true
    → (s.logger_id == batch.logger_id) ≡ false
    → offer batch s ≡ s
unfolding offer
offer-foreign batch s listed foreign = rw (listed, foreign)

offer-mine :
    (batch : RawBatch) (s : Subscription)
    → s.listed ≡ true
    → (s.logger_id == batch.logger_id) ≡ true
    → offer batch s ≡ (
        if ltb (length s.events) s.capacity
        then record s { events = s.events ++ clone_raw_batch batch ∷ [] }
        else close_subscription_locked (record s { lagged = true }))
unfolding offer
offer-mine batch s listed mine =
    if-elim
      (λ t. t ≡ (
        if ltb (length s.events) s.capacity
        then record s { events = s.events ++ clone_raw_batch batch ∷ [] }
        else close_subscription_locked (record s { lagged = true })))
      (s.listed && (s.logger_id == batch.logger_id)) (λ _. refl)
      (λ h. absurd (true≢false (sym (rw (listed, mine)) ∙ h)))

ltb-le : (m n : ℕ) → ltb m n ≡ false → n ≤ m
ltb-le m n h = ground (arith, h)

publish-mine :
    (i : ℕ) (batch : RawBatch) (s : Subscription)
    → IsOpen s
    → commits s.logger_id (publishes batch) ≡ clone_raw_batch batch ∷ []
    → (s.logger_id == (clone_raw_batch batch).logger_id) ≡ true
    → Steps i (publishes batch) s (offer (clone_raw_batch batch) s)
publish-mine i batch s h news mine =
    subst (Steps i (publishes batch) s) (sym (offer-mine (clone_raw_batch batch) s h.0 mine)) (
      if-elim (Steps i (publishes batch) s) (ltb (length s.events) s.capacity)
        (λ _. (
          refl,
          inl (
            h,
            ap (λ (c : RawBatch). s.events ++ c ∷ []) (clone_raw_batch_idem batch)
                ∙ ap (λ t. s.events ++ t) (sym news),
          ),
        ))
        (λ full.
          close-Steps i (publishes batch) s h refl true
            (inr (batch, refl, news, ltb-le (length s.events) s.capacity full, refl))))

publish-Steps :
    (i : ℕ) (batch : RawBatch) (s : Subscription)
    → IsOpen s
    → valid_committed_batch batch ≡ true
    → Steps i (publishes batch) s (offer (clone_raw_batch batch) s)
unfolding clone_raw_batch
publish-Steps i batch s h valid = elim (Bool-cases (s.logger_id == batch.logger_id)) [
  | inl mine ↦ publish-mine i batch s h (rw (valid, mine)) mine
  | inr foreign ↦
      let nothing : commits s.logger_id (publishes batch) ≡ [] = rw (valid, foreign) in
      subst (Steps i (publishes batch) s)
        (sym (offer-foreign (clone_raw_batch batch) s h.0 foreign))
        (refl, inl (h, sym (append_nil_eq s.events) ∙ ap (λ t. s.events ++ t) (sym nothing)))
]

==-eq : (j i : ℕ) → (j == i) ≡ true → j ≡ i
==-eq j i h = ground (arith, h)

open-step : (i : ℕ) (op : Operation) (s : Subscription) → IsOpen s → Steps i op s (step_one i op s)
open-step i (subscribes logger_id) s h = (refl, inl (h, sym (append_nil_eq s.events)))
open-step i (publishes batch) s h =
    if-elim (Steps i (publishes batch) s) (valid_committed_batch batch) (publish-Steps i batch s h)
      (λ invalid.
        let nothing : commits s.logger_id (publishes batch) ≡ [] = rw invalid in
        (refl, inl (h, sym (append_nil_eq s.events) ∙ ap (λ t. s.events ++ t) (sym nothing))))
open-step i (closes j) s h = elim (Bool-cases (j == i)) [
  | inl here ↦
      rw here (close-Steps i (closes j) s h refl s.lagged (inl (ap closes (==-eq j i here), h.2)))
  | inr elsewhere ↦ rw elsewhere (refl, inl (h, sym (append_nil_eq s.events)))
]
open-step i (receives j) s h = elim (Bool-cases (j == i)) [
  | inl here ↦ rw here (refl, inl (h, first-rest s.events ∙ sym (append_nil_eq s.events)))
  | inr elsewhere ↦ rw elsewhere (refl, inl (h, sym (append_nil_eq s.events)))
]

-- The parts of an execution, put together: t received and x left of the first operation, r received
-- and v left of the others, with what was lost.
module _ {ℓ} {A : Type ℓ} where
  regroup :
      (t r rest x e c m : List A)
      → t ++ x ≡ e ++ c
      → r ++ rest ≡ x ++ m
      → (t ++ r) ++ rest ≡ e ++ (c ++ m)
  regroup t r rest x e c m h k =
      append_assoc t r rest
      ∙ ap (λ z. t ++ z) k
      ∙ sym (append_assoc t x m)
      ∙ ap (λ z. z ++ m) h
      ∙ append_assoc e c m

  regroup_lost :
      (t r v x k e c m : List A)
      → t ++ (x ++ k) ≡ e ++ c
      → r ++ v ≡ x
      → (t ++ r) ++ (v ++ (k ++ m)) ≡ e ++ (c ++ m)
  regroup_lost t r v x k e c m h held =
      regroup t r (v ++ (k ++ m)) (x ++ k) e c m h
        (sym (append_assoc r v (k ++ m)) ∙ ap (λ z. z ++ (k ++ m)) held ∙ sym (append_assoc x k m))

-- How the stream of a subscription ends, if it does: at an operation that shuts it for a cause, from
-- which on every batch is lost, and none before.
abbrev pub Ends : ℕ → Subscription → List Operation → List RawBatch → Type 0
Ends i s ops lost =
    ((run_one i s ops).listed ≡ true) × (lost ≡ [])
    ⊎ ((earlier later : List Operation) × (op : Operation) × (ops ≡ earlier ++ op ∷ later)
        × ((run_one i s ops).listed ≡ false)
        × (lost ≡ committed s.logger_id (op ∷ later))
        × Cause i s.logger_id op (run_one i s earlier) (run_one i s ops).lagged)

-- What an open subscription has received and holds at the end are the first of the batches that it
-- held and that its logger committed since.
abbrev pub IsDelivered : ℕ → Subscription → List Operation → Type 0
IsDelivered i s ops =
    (lost : List RawBatch) × (received_one i s ops ++ ((run_one i s ops).events ++ lost)
      ≡ s.events ++ committed s.logger_id ops)
    × Ends i s ops lost

Ends-step :
    (i : ℕ) (op : Operation) (s : Subscription) (ops : List Operation) (lost : List RawBatch)
    → (step_one i op s).logger_id ≡ s.logger_id
    → Ends i (step_one i op s) ops lost
    → Ends i s (op ∷ ops) lost
Ends-step i op s ops lost same (inl on) = inl on
Ends-step i op s ops lost same (inr (earlier, later, last, at, off, missed, cause)) = inr (
  op ∷ earlier,
  later,
  last,
  ap (λ rest. op ∷ rest) at,
  off,
  missed ∙ ap (λ l. committed l (last ∷ later)) same,
  subst
      (λ l.
        Cause i l last (run_one i (step_one i op s) earlier)
          (run_one i (step_one i op s) ops).lagged)
      same cause,
)

pub open-IsDelivered :
    (i : ℕ) (ops : List Operation) (s : Subscription) → IsOpen s → IsDelivered i s ops
open-IsDelivered i [] s h = ([], refl, inl (h.0, refl))
open-IsDelivered i (op ∷ ops) s h =
    let next = step_one i op s in
    let (same, after) = open-step i op s h in
    elim after [
      | inl (still, kept) ↦
          let (lost, handed, ends) = open-IsDelivered i ops next still in
          (
            lost,
            regroup (take_one i op s) (received_one i next ops) _ next.events s.events
                (commits s.logger_id op) (committed s.logger_id ops) kept
                (handed ∙ ap (λ l. next.events ++ committed l ops) same),
            Ends-step i op s ops lost same ends,
          )
      | inr (shut, cause, kept) ↦
          let (off, lag, held) = shut-execute i ops next shut in
          (
            commits s.logger_id op ++ committed s.logger_id ops,
            regroup_lost (take_one i op s) (received_one i next ops) _ next.events
                (commits s.logger_id op) s.events (commits s.logger_id op)
                (committed s.logger_id ops) kept held,
            inr ([], ops, op, refl, off.0, refl, subst (Cause i s.logger_id op s) (sym lag) cause),
          )
    ]
