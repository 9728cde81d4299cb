-- ===== src/Datalogger/Broker/Bounds.antt =====
-- The invariant of the broker's subscriptions.
use iot_edge.Prelude.{
  All-map, All-update, ℕ, ◌≤◌, ◌≡◌, refl, sym, ap, subst, true, not, Option, List, [], ◌∷◌, length,
  All, All-append, ltb, ◌==◌, ok, ◌&&◌, if-elim, arith, length-append, ltb→lt, ok-injective,
  >>=-eq-ok, ℤ,
}
use iot_edge.Datalogger.Batch.{RawBatch, valid_committed_batch, clone_raw_batch}
use iot_edge.Datalogger.Broker.{
  Subscription, Broker, new_broker, with_buffer, subscribe, close_subscription_locked, offer,
  publish_committed_batch, close, rest_of, drain, receive, Operation, subscribes, publishes, closes,
  receives, step, execute, keep_broker,
}

-- A channel has room for a batch at least and never holds more than its room; a subscription is in
-- the broker's set just when it is not closed, and one that lagged is closed.
abbrev pub IsSound : Subscription → Type 0
IsSound s =
    (1 ≤ s.capacity)
    × (length s.events ≤ s.capacity)
    × (s.listed ≡ not s.closed)
    × (s.lagged ≡ true → s.closed ≡ true)

close-IsSound :
    (s : Subscription)
    → 1 ≤ s.capacity
    → length s.events ≤ s.capacity
    → s.listed ≡ not s.closed
    → IsSound (close_subscription_locked s)
unfolding close_subscription_locked
close-IsSound s room held flag =
    if-elim IsSound s.closed (λ closed. (room, held, flag, λ _. closed))
      (λ _. (room, held, refl, λ _. refl))

offer-IsSound : (batch : RawBatch) (s : Subscription) → IsSound s → IsSound (offer batch s)
unfolding offer
offer-IsSound batch s (room, held, flag, lag) =
    if-elim IsSound (s.listed && (s.logger_id == batch.logger_id))
      (λ _.
        if-elim IsSound (ltb (length s.events) s.capacity)
          (λ free. (
            room,
            omega (
              arith,
              length-append s.events (clone_raw_batch batch ∷ []),
              ltb→lt (length s.events) s.capacity free,
            ),
            flag,
            lag,
          ))
          (λ _. close-IsSound (record s { lagged = true }) room held flag))
      (λ _. (room, held, flag, lag))

length-rest_of : (events : List RawBatch) → length (rest_of events) ≤ length events
length-rest_of [] = omega arith
length-rest_of (batch ∷ events) = omega arith

drain-IsSound : (s : Subscription) → IsSound s → IsSound (drain s)
drain-IsSound s (room, held, flag, lag) =
    (room, omega (arith, held, length-rest_of s.events), flag, lag)

abbrev AllSound : Broker → Type 0
AllSound b = All IsSound b.subscriptions

subscribe-AllSound :
    (logger_id : ℕ) (b : Broker) → AllSound b → AllSound (keep_broker b (subscribe logger_id b))
unfolding subscribe
subscribe-AllSound logger_id b h =
    if-elim (λ m. AllSound (keep_broker b m)) (logger_id == 0) (λ _. h)
      (λ _. All-append IsSound b.subscriptions _ h (
        (
          if-elim (λ (size : ℕ). 1 ≤ size) (ltb b.buffer_size 1) (λ _. omega arith)
              (λ large. ground (arith, large)),
          omega arith,
          refl,
          λ e. e,
        ),
        tt,
      ))

step-AllSound : (b : Broker) (op : Operation) → AllSound b → AllSound (step b op)
unfolding publish_committed_batch close receive
step-AllSound b (subscribes logger_id) h = subscribe-AllSound logger_id b h
step-AllSound b (publishes batch) h =
    if-elim AllSound (valid_committed_batch batch)
      (λ _.
        All-map IsSound (offer (clone_raw_batch batch)) (offer-IsSound (clone_raw_batch batch))
          b.subscriptions h)
      (λ _. h)
step-AllSound b (closes i) h =
    All-update IsSound close_subscription_locked (λ s k. close-IsSound s k.0 k.1 k.2) i
      b.subscriptions h
step-AllSound b (receives i) h = All-update IsSound drain drain-IsSound i b.subscriptions h

execute-AllSound : (b : Broker) (ops : List Operation) → AllSound b → AllSound (execute b ops)
execute-AllSound b [] h = h
execute-AllSound b (op ∷ ops) h = execute-AllSound (step b op) ops (step-AllSound b op h)

new_broker-empty :
    (option : Option ℤ) (b : Broker) → new_broker option ≡ ok b → b.subscriptions ≡ []
unfolding new_broker
new_broker-empty option b h =
    let (size, _, made) = >>=-eq-ok (with_buffer option) _ h in
    ap (λ (c : Broker). c.subscriptions) (sym (ok-injective made))

-- In any execution of a broker that was made with an accepted buffer size or the default, every
-- subscription keeps its channel within its room, and is listed just while it is open.
pub broker-IsSound :
    (option : Option ℤ) (b : Broker) (ops : List Operation)
    → new_broker option ≡ ok b
    → All IsSound (execute b ops).subscriptions
broker-IsSound option b ops h =
    execute-AllSound b ops (subst (All IsSound) (sym (new_broker-empty option b h)) tt)
