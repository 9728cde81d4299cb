-- ===== src/Tag/Store/Delivery.antt =====
-- What a subscriber that is cut off when it lags gets, in any execution.
use iot_edge.Prelude.{
  ℕ, ◌≡◌, refl, sym, ap, ap₂, subst, ◌∙◌, true, false, ◌||◌, not, some, List, [], ◌∷◌, ◌++◌, ◌==◌,
  length, drop, get_elem?, get_elem?-end, append_nil, append_assoc, if-elim, Bool-cases, inl, inr,
  arith, ltb,
}
use iot_edge.Value.Float.{Arithmetic}
use iot_edge.Tag.Store.{
  event_buffer, TagValue, Store, Subscriber, matches, notify, offered, offer_tag_value,
  close_subscriber, filter_of,
}
use iot_edge.Tag.Store.Subscribing.{subscribe_values, add_subscriber, new_subscriber}
use iot_edge.Tag.Store.Execution.{
  Operation, puts, subscribes, subscribes_values, unsubscribes, receives, step, stores, execute,
  log,
}
use iot_edge.Tag.Store.Streams.{
  wanted, wanted-append, head_of, notify_all, step_one, take_one, takes-one, step-one, received,
}

-- A subscriber after some values, of which it received the first ones: as long as it is open and is
-- one that lag disconnects, it has lost none that its filter lets through.
abbrev Follows : Subscriber → List TagValue → List TagValue → Subscriber → Type 0
Follows s entries taken r =
    (r.tag_ids ≡ s.tag_ids)
    × (r.disconnect_on_lag ≡ s.disconnect_on_lag)
    × (s.closed ≡ true → r.closed ≡ true)
    × (s.disconnect_on_lag ≡ true
        → r.closed ≡ false
        → taken ++ r.stream ≡ s.stream ++ wanted s.tag_ids entries)

Follows-self : (s : Subscriber) → Follows s [] [] s
Follows-self s = (refl, refl, λ h. h, λ _ _. sym (append_nil s.stream))

wanted_one :
    (s : Subscriber) (entry : TagValue)
    → matches s entry.tag_id ≡ true
    → wanted s.tag_ids (entry ∷ []) ≡ entry ∷ []
unfolding matches
wanted_one s entry h = rw h

unwanted_one :
    (s : Subscriber) (entry : TagValue)
    → matches s entry.tag_id ≡ false
    → wanted s.tag_ids (entry ∷ []) ≡ []
unfolding matches
unwanted_one s entry h = rw h

offered-Follows :
    (s : Subscriber) (entry : TagValue)
    → s.closed ≡ false
    → matches s entry.tag_id ≡ true
    → Follows s (entry ∷ []) [] (offered (offer_tag_value s.capacity s.stream entry) entry s)
unfolding offered offer_tag_value close_subscriber
offered-Follows s entry open_ through =
    if-elim (λ o. Follows s (entry ∷ []) [] (offered o entry s)) (ltb (length s.stream) s.capacity)
      (λ _. (refl, refl, λ h. h, λ _ _. ap (λ t. s.stream ++ t) (sym (wanted_one s entry through))))
      (λ _.
        if-elim (Follows s (entry ∷ []) []) s.disconnect_on_lag
          (λ _. (refl, refl, λ _. refl, λ _ shut. cc)) (λ keeps. (refl, refl, λ h. h, λ cut _. cc)))

notify-Follows : (s : Subscriber) (entry : TagValue) → Follows s (entry ∷ []) [] (notify entry s)
unfolding notify
notify-Follows s entry =
    if-elim (Follows s (entry ∷ []) []) (s.closed || not (matches s entry.tag_id))
      (λ skip. (
        refl,
        refl,
        λ h. h,
        λ _ still. sym (
            ap (λ t. s.stream ++ t) (unwanted_one s entry (ground (arith, skip, still)))
            ∙ append_nil s.stream),
      ))
      (λ go. offered-Follows s entry (ground (arith, go)) (ground (arith, go)))

open_before :
    (r q : Subscriber) → (r.closed ≡ true → q.closed ≡ true) → q.closed ≡ false → r.closed ≡ false
open_before r q stays open_ = elim (Bool-cases r.closed) [
  | inl shut ↦ cc (stays shut)
  | inr yes_ ↦ yes_
]

Follows-compose :
    (s r q : Subscriber) (es fs t u : List TagValue)
    → Follows s es t r
    → Follows r fs u q
    → Follows s (es ++ fs) (t ++ u) q
Follows-compose s r q es fs t u (ids, cut, shut, got) (ids', cut', shut', got') = (
  ids' ∙ ids,
  cut' ∙ cut,
  λ h. shut' (shut h),
  λ lag open_.
      append_assoc t u q.stream
      ∙ ap (λ x. t ++ x) (got' (cut ∙ lag) open_)
      ∙ sym (append_assoc t r.stream _)
      ∙ ap₂ ◌++◌ (got lag (open_before r q shut' open_)) (ap (λ i. wanted i fs) ids)
      ∙ append_assoc s.stream _ _
      ∙ ap (λ x. s.stream ++ x) (sym (wanted-append s.tag_ids es fs)),
)

notify_all-Follows :
    (s : Subscriber) (entries : List TagValue) → Follows s entries [] (notify_all entries s)
notify_all-Follows s [] = Follows-self s
notify_all-Follows s (entry ∷ entries) =
    Follows-compose s (notify entry s) (notify_all entries (notify entry s)) (entry ∷ []) entries []
      [] (notify-Follows s entry) (notify_all-Follows (notify entry s) entries)

head_of-drop : (stream : List TagValue) → head_of stream ++ drop 1 stream ≡ stream
head_of-drop [] = refl
head_of-drop (entry ∷ stream) = refl

module _ (arithmetic : Arithmetic) (i : ℕ) where
  step_one-Follows :
      (store : Store) (op : Operation) (s : Subscriber)
      → Follows s
          (stores arithmetic store op)
          (take_one i op s)
          (step_one i (stores arithmetic store op) op s)
  unfolding close_subscriber
  step_one-Follows store (puts now value) s =
      notify_all-Follows s (stores arithmetic store (puts now value))
  step_one-Follows store (subscribes ids) s = Follows-self s
  step_one-Follows store (subscribes_values ids after) s = Follows-self s
  step_one-Follows store (unsubscribes j) s =
      if-elim (Follows s [] []) (j == i) (λ _. (refl, refl, λ _. refl, λ _ shut. cc))
        (λ _. Follows-self s)
  step_one-Follows store (receives j) s = elim (Bool-cases (j == i)) [
    | inl own ↦
        rw own (refl, refl, λ h. h, λ _ _. head_of-drop s.stream ∙ sym (append_nil s.stream))
    | inr other ↦ rw other (Follows-self s)
  ]

  -- The i-th subscriber after an execution.
  abbrev Ends : Store → List Operation → Subscriber → Type 0
  Ends store ops s =
      (r : Subscriber) × (get_elem? (execute arithmetic store ops).subscribers i ≡ some r)
      × Follows s (log arithmetic store ops) (received arithmetic i store ops) r

  execute-Ends :
      (store : Store) (ops : List Operation) (s : Subscriber)
      → get_elem? store.subscribers i ≡ some s
      → Ends store ops s
  execute-Ends store [] s h = (s, h, Follows-self s)
  execute-Ends store (op ∷ ops) s h =
      let next = step_one i (stores arithmetic store op) op s in
      let (r, at, rest) =
        execute-Ends (step arithmetic store op) ops next (step-one arithmetic i store op s h) in
      (
        r,
        at,
        subst
            (λ t.
              Follows s (log arithmetic store (op ∷ ops))
                (t ++ received arithmetic i (step arithmetic store op) ops) r)
            (sym (takes-one i store op s h))
            (Follows-compose s next r _ _ (take_one i op s) _ (step_one-Follows store op s) rest),
      )

-- After SubscribeValues, in any execution, what its subscriber has received and what its stream
-- holds are, while it is connected, in this order all the values that its tags have been given
-- since, none of them lost.
pub subscribe_values-delivered :
    (arithmetic : Arithmetic) (ids : List ℕ) (after : ℕ) (store : Store) (ops : List Operation)
    → let i = length store.subscribers in
      let joined = (subscribe_values ids after store).1 in
      (s : Subscriber) × (get_elem? (execute arithmetic joined ops).subscribers i ≡ some s)
      × (s.closed ≡ false
          → received arithmetic i joined ops ++ s.stream
            ≡ wanted (filter_of ids) (log arithmetic joined ops))
unfolding subscribe_values
subscribe_values-delivered arithmetic ids after store ops =
    let s = new_subscriber ids event_buffer true in
    let (r, at, follows) =
      execute-Ends arithmetic (length store.subscribers) (add_subscriber s store) ops s
        (get_elem?-end store.subscribers s) in
    (r, at, λ open_. follows.3 refl open_)
