-- ===== src/Tag/Store/Newest.antt =====
-- A subscriber that may lag always gets the newest value.
use iot_edge.Prelude.{
  ℕ, zero, suc, ◌+◌, ◌≤◌, ◌≡◌, ◌≢◌, refl, sym, ap, ap₂, subst, ◌∙◌, true, false, ◌||◌, not, Option,
  none, some, List, [], ◌∷◌, ◌++◌, ◌==◌, if◌then◌else◌, Result, ok, err, length, drop, take,
  replicate, get_elem?, get_elem?-end, if-elim, Bool-cases, inl, inr, arith, ltb, length-append,
  length-drop, last_of, last_of-append, find, ok-injective, get_elem?-map,
}
use iot_edge.Value.Float.{Arithmetic}
use iot_edge.Datalogger.Batch.{member}
use iot_edge.Tag.Store.{
  TagValue, Store, Subscriber, StoreError, is_all, matches, notify, offered, offer_tag_value,
  offer_latest_tag_value, close_subscriber, filter_of, history_limit, put, put_normalized,
  store_entry, normalize_tag_value,
}
use iot_edge.Tag.Store.Subscribing.{
  subscribe_latest, offer_known, offer_found, take_value, receive_value, add_subscriber,
  new_subscriber,
}
use iot_edge.Tag.Store.Execution.{
  Operation, puts, subscribes, subscribes_values, unsubscribes, receives, step, stores, execute,
}
use iot_edge.Tag.Store.Streams.{head_of, notify_all, takes-one, step-one, received}

-- An open subscriber that may lag, whose stream keeps within its room.
abbrev IsOpen : List ℕ → ℕ → Subscriber → Type 0
IsOpen ids capacity s =
    (s.tag_ids ≡ ids)
    × (s.disconnect_on_lag ≡ false)
    × (s.closed ≡ false)
    × (s.capacity ≡ capacity)
    × (1 ≤ capacity)
    × (length s.stream ≤ capacity)

-- A stream that ends with a value, within the room.
abbrev EndsWith : ℕ → TagValue → List TagValue → Type 0
EndsWith capacity entry stream = (last_of stream ≡ some entry) × (length stream ≤ capacity)

ends_with :
    (capacity : ℕ) (stream : List TagValue) (entry : TagValue)
    → suc (length stream) ≤ capacity
    → EndsWith capacity entry (stream ++ entry ∷ [])
ends_with capacity stream entry h =
    (last_of-append stream entry, omega (arith, length-append stream (entry ∷ [])))

offer_latest_tag_value-EndsWith :
    (capacity : ℕ) (stream : List TagValue) (entry : TagValue)
    → 1 ≤ capacity
    → length stream ≤ capacity
    → EndsWith capacity entry (offer_latest_tag_value capacity stream entry)
unfolding offer_latest_tag_value offer_tag_value
offer_latest_tag_value-EndsWith capacity stream entry room h =
    elim (Bool-cases (ltb (length stream) capacity)) [
      | inl free ↦ rw free (ends_with capacity stream entry (ground (arith, free)))
      | inr full ↦
          let free : ltb (length (drop 1 stream)) capacity ≡ true =
            ground (arith, full, length-drop 1 stream) in
          rw (full, free) (ends_with capacity (drop 1 stream) entry (ground (arith, free)))
    ]

-- A subscriber that stays open, and holds the value last.
abbrev Holds : List ℕ → ℕ → TagValue → Subscriber → Type 0
Holds ids capacity entry s = IsOpen ids capacity s × (last_of s.stream ≡ some entry)

notify-Holds :
    (ids : List ℕ) (capacity : ℕ) (s : Subscriber) (entry : TagValue)
    → IsOpen ids capacity s
    → matches s entry.tag_id ≡ true
    → Holds ids capacity entry (notify entry s)
unfolding notify offered offer_tag_value
notify-Holds ids capacity s entry (same, lag, open_, room, some_, fits) through =
    if-elim (Holds ids capacity entry) (s.closed || not (matches s entry.tag_id))
      (λ skip. absurd (ground (arith, open_, through, skip)))
      (λ _.
        if-elim (λ o. Holds ids capacity entry (offered o entry s))
          (ltb (length s.stream) s.capacity)
          (λ free.
            let sent = ends_with s.capacity s.stream entry (ground (arith, free)) in
            (
              (
                same,
                lag,
                open_,
                room,
                some_,
                subst (λ n. length (s.stream ++ entry ∷ []) ≤ n) room sent.1,
              ),
              sent.0,
            ))
          (λ full.
            if-elim (Holds ids capacity entry) s.disconnect_on_lag
              (λ cut. absurd (ground (arith, lag, cut)))
              (λ _.
                let sent =
                  offer_latest_tag_value-EndsWith s.capacity s.stream entry (omega arith)
                    (omega arith) in
                (
                  (
                    same,
                    lag,
                    open_,
                    room,
                    some_,
                    subst (λ n. length (offer_latest_tag_value s.capacity s.stream entry) ≤ n) room
                        sent.1,
                  ),
                  sent.0,
                ))))

notify-IsOpen :
    (ids : List ℕ) (capacity : ℕ) (s : Subscriber) (entry : TagValue)
    → IsOpen ids capacity s
    → IsOpen ids capacity (notify entry s)
unfolding notify
notify-IsOpen ids capacity s entry h = elim (Bool-cases (matches s entry.tag_id)) [
  | inl through ↦ (notify-Holds ids capacity s entry h through).0
  | inr held ↦
      if-elim (IsOpen ids capacity) (s.closed || not (matches s entry.tag_id)) (λ _. h)
        (λ go. absurd (ground (arith, held, go)))
]

notify_all-IsOpen :
    (ids : List ℕ) (capacity : ℕ) (s : Subscriber) (entries : List TagValue)
    → IsOpen ids capacity s
    → IsOpen ids capacity (notify_all entries s)
notify_all-IsOpen ids capacity s [] h = h
notify_all-IsOpen ids capacity s (entry ∷ entries) h =
    notify_all-IsOpen ids capacity (notify entry s) entries (notify-IsOpen ids capacity s entry h)

-- An operation that does not end the i-th subscription.
abbrev pub Keeps : ℕ → List Operation → Type 0
Keeps i [] = Unit
Keeps i (unsubscribes j ∷ ops) = (j ≢ i) × Keeps i ops
Keeps i (op ∷ ops) = Keeps i ops

head_of-take :
    (n : ℕ) (stream : List TagValue)
    → head_of stream ++ take n (drop 1 stream) ≡ take (suc n) stream
head_of-take zero [] = refl
head_of-take (suc n) [] = refl
head_of-take n (entry ∷ stream) = refl

put_normalized-ok :
    (now : ℕ) (store : Store) (r : Result StoreError TagValue) {entry : TagValue} {next : Store}
    → put_normalized now store r ≡ ok (entry, next)
    → (normalized : TagValue) × (next ≡ store_entry entry store)
put_normalized-ok now store (err e) h = cc
put_normalized-ok now store (ok normalized) h =
    let e = ok-injective h in
    (
      normalized,
      sym (ap (λ (p : TagValue × Store). p.1) e)
          ∙ ap (λ (p : TagValue × Store). store_entry p.0 store) e,
    )

offer_found-room :
    (capacity : ℕ) (stream : List TagValue) (o : Option TagValue)
    → 1 ≤ capacity
    → length stream ≤ capacity
    → length (offer_found capacity stream o) ≤ capacity
offer_found-room capacity stream none room h = h
offer_found-room capacity stream (some entry) room h =
    (offer_latest_tag_value-EndsWith capacity stream entry room h).1

offer_known-room :
    (capacity : ℕ) (ids : List ℕ) (store : Store) (stream : List TagValue)
    → 1 ≤ capacity
    → length stream ≤ capacity
    → length (offer_known capacity ids store stream) ≤ capacity
unfolding offer_known
offer_known-room capacity [] store stream room h = h
offer_known-room capacity (id ∷ ids) store stream room h =
    offer_known-room capacity ids store (offer_found capacity stream (find id store.latest)) room
      (offer_found-room capacity stream (find id store.latest) room h)

take_all : (n : ℕ) (stream : List TagValue) → length stream ≤ n → take n stream ≡ stream
take_all zero [] h = refl
take_all zero (entry ∷ stream) h = absurd (omega arith)
take_all (suc n) [] h = refl
take_all (suc n) (entry ∷ stream) h = ap (λ t. entry ∷ t) (take_all n stream (omega arith))

module _ (arithmetic : Arithmetic) (i : ℕ) (ids : List ℕ) (capacity : ℕ) where
  -- The i-th subscriber of a store is open.
  abbrev AtOpen : Store → Type 0
  AtOpen store = (s : Subscriber) × (get_elem? store.subscribers i ≡ some s) × IsOpen ids capacity s

  take_value-IsOpen : (s : Subscriber) → IsOpen ids capacity s → IsOpen ids capacity (take_value s)
  take_value-IsOpen s (same, lag, open_, room, some_, fits) =
      (same, lag, open_, room, some_, omega (arith, fits, length-drop 1 s.stream))

  step-AtOpen :
      (store : Store) (op : Operation) (ops : List Operation)
      → Keeps i (op ∷ ops)
      → AtOpen store
      → AtOpen (step arithmetic store op) × Keeps i ops
  unfolding close_subscriber
  step-AtOpen store (puts now value) ops keeps (s, at, h) = (
    (
      notify_all (stores arithmetic store (puts now value)) s,
      step-one arithmetic i store (puts now value) s at,
      notify_all-IsOpen ids capacity s (stores arithmetic store (puts now value)) h,
    ),
    keeps,
  )
  step-AtOpen store (subscribes tags) ops keeps (s, at, h) =
      ((s, step-one arithmetic i store (subscribes tags) s at, h), keeps)
  step-AtOpen store (subscribes_values tags after) ops keeps (s, at, h) =
      ((s, step-one arithmetic i store (subscribes_values tags after) s at, h), keeps)
  step-AtOpen store (unsubscribes j) ops (other, keeps) (s, at, h) = (
    (
      if j == i then close_subscriber s else s,
      step-one arithmetic i store (unsubscribes j) s at,
      if-elim (IsOpen ids capacity) (j == i) (λ own. absurd (other (ground (arith, own)))) (λ _. h),
    ),
    keeps,
  )
  step-AtOpen store (receives j) ops keeps (s, at, h) = (
    (
      if j == i then take_value s else s,
      step-one arithmetic i store (receives j) s at,
      if-elim (IsOpen ids capacity) (j == i) (λ _. take_value-IsOpen s h) (λ _. h),
    ),
    keeps,
  )

  execute-AtOpen :
      (store : Store) (ops : List Operation)
      → Keeps i ops
      → AtOpen store
      → AtOpen (execute arithmetic store ops)
  execute-AtOpen store [] keeps h = h
  execute-AtOpen store (op ∷ ops) keeps h =
      let (next, rest) = step-AtOpen store op ops keeps h in
      execute-AtOpen (step arithmetic store op) ops rest next

  -- Receives alone take what the stream holds, in order.
  received-take :
      (n : ℕ) (store : Store) (s : Subscriber)
      → get_elem? store.subscribers i ≡ some s
      → received arithmetic i store (replicate n (receives i)) ≡ take n s.stream
  received-take zero store s at = refl
  received-take (suc n) store s at =
      let own : (i == i) ≡ true = ground arith in
      let next =
        step-one arithmetic i store (receives i) s at
        ∙ ap (λ b. some (if b then take_value s else s)) own in
      ap₂ ◌++◌
        (takes-one i store (receives i) s at ∙ ap (λ b. if b then head_of s.stream else []) own)
        (received-take n (receive_value i store) (take_value s) next)
      ∙ head_of-take n s.stream

  -- What the operation of a put leaves of the i-th subscriber.
  put-Holds :
      (now : ℕ) (value entry : TagValue) (store next : Store)
      → AtOpen store
      → put arithmetic now value store ≡ ok (entry, next)
      → is_all ids || member entry.tag_id ids ≡ true
      → (s : Subscriber) × (get_elem? next.subscribers i ≡ some s) × Holds ids capacity entry s
  unfolding put store_entry matches
  put-Holds now value entry store next (s, at, h) stored through =
      let (made, left) =
        put_normalized-ok now store (normalize_tag_value arithmetic value) stored in
      (
        notify entry s,
        ap (λ (st : Store). get_elem? st.subscribers i) left
            ∙ get_elem?-map store.subscribers (notify entry) i at,
        notify-Holds ids capacity s entry h
            (ap (λ t. is_all t || member entry.tag_id t) h.0 ∙ through),
      )

-- A subscriber of Subscribe that has not unsubscribed and receives as often as its stream has room
-- gets as the last value the newest one that its tags have been given, however long it has waited
-- before and whatever it has missed.
pub subscribe_latest-newest :
    (arithmetic : Arithmetic) (ids : List ℕ) (store : Store) (ops : List Operation) (now : ℕ)
    (value entry : TagValue) (next : Store)
    → let i = length store.subscribers in
      Keeps i ops
      → put arithmetic now value (execute arithmetic (subscribe_latest ids store) ops)
        ≡ ok (entry, next)
      → is_all (filter_of ids) || member entry.tag_id (filter_of ids) ≡ true
      → last_of (received arithmetic i next (replicate (history_limit + 1) (receives i)))
        ≡ some entry
unfolding subscribe_latest
subscribe_latest-newest arithmetic ids store ops now value entry next keeps stored through =
    let i = length store.subscribers in
    let room = history_limit + 1 in
    let tags = filter_of ids in
    let base = new_subscriber ids room false in
    let s = record base { stream = offer_known room tags store [] } in
    let before = execute-AtOpen arithmetic i tags room (add_subscriber s store) ops keeps (
      s,
      get_elem?-end store.subscribers s,
      (
        refl,
        refl,
        refl,
        refl,
        omega arith,
        offer_known-room room tags store [] (omega arith) (omega arith),
      ),
    ) in
    let (r, at, (open_, newest)) =
      put-Holds arithmetic i tags room now value entry _ next before stored through in
    ap last_of
      (received-take arithmetic i tags room room next r at ∙ take_all room r.stream open_.5)
    ∙ newest
