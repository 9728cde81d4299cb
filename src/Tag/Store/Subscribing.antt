-- ===== src/Tag/Store/Subscribing.antt =====
-- backend/internal/tag/value_store.go: `Subscribe`, `SubscribeValues`, `Unsubscribe` and the streams.
use iot_edge.Prelude.{
  update, ℕ, ◌+◌, Bool, true, false, ◌||◌, not, Option, none, some, List, [], ◌∷◌, ◌++◌, drop, ltb,
  leb, if◌then◌else◌, find,
}
use iot_edge.Tag.Store.{
  TagValue, history_limit, event_buffer, Subscriber, Store, filter_of, matches,
  offer_latest_tag_value, close_subscriber,
}

abbrev pub new_subscriber : List ℕ → ℕ → Bool → Subscriber
new_subscriber ids buffer lag = record {
  tag_ids = filter_of ids;
  capacity = buffer;
  stream = [];
  disconnect_on_lag = lag;
  closed = false;
}

abbrev pub offer_found : ℕ → List TagValue → Option TagValue → List TagValue
offer_found capacity stream none = stream
offer_found capacity stream (some entry) = offer_latest_tag_value capacity stream entry

-- The loop of `Subscribe` over the tags of the filter.
unfoldable pub offer_known : ℕ → List ℕ → Store → List TagValue → List TagValue
unfolding offer_latest_tag_value
offer_known capacity [] store stream = stream
offer_known capacity (id ∷ ids) store stream =
    offer_known capacity ids store (offer_found capacity stream (find id store.latest))

abbrev pub add_subscriber : Subscriber → Store → Store
add_subscriber s store = record store { subscribers = store.subscribers ++ s ∷ [] }

unfoldable pub subscribe_latest : List ℕ → Store → Store
unfolding offer_known
subscribe_latest ids store =
    let s = new_subscriber ids (history_limit + 1) false in
    add_subscriber (record s { stream = offer_known s.capacity s.tag_ids store [] }) store

-- `sort.Slice` by the sequence.
unfoldable pub insert_sorted : TagValue → List TagValue → List TagValue
insert_sorted entry [] = entry ∷ []
insert_sorted entry (other ∷ entries) =
    let rest = insert_sorted entry entries in
    if ltb entry.sequence other.sequence then entry ∷ other ∷ entries else other ∷ rest

unfoldable pub sort_by_sequence : List TagValue → List TagValue
unfolding insert_sorted
sort_by_sequence [] = []
sort_by_sequence (entry ∷ entries) = insert_sorted entry (sort_by_sequence entries)

-- The loop of `SubscribeValues` over the latest values.
unfoldable pub collect_replay : Subscriber → ℕ → List (ℕ × TagValue) → List TagValue
unfolding matches
collect_replay s after [] = []
collect_replay s after ((id, entry) ∷ entries) =
    let rest = collect_replay s after entries in
    if leb entry.sequence after || not (matches s id) then rest else entry ∷ rest

-- The replay, and the store with its new subscriber.
unfoldable pub subscribe_values : List ℕ → ℕ → Store → List TagValue × Store
unfolding collect_replay sort_by_sequence
subscribe_values ids after store =
    let s = new_subscriber ids event_buffer true in
    (sort_by_sequence (collect_replay s after store.latest), add_subscriber s store)

-- `Unsubscribe`, which a context that is done calls too.
unfoldable pub unsubscribe : ℕ → Store → Store
unfolding close_subscriber
unsubscribe i store = record store { subscribers = update i close_subscriber store.subscribers }

abbrev pub take_value : Subscriber → Subscriber
take_value s = record s { stream = drop 1 s.stream }

-- A receive from the i-th stream.
unfoldable pub receive_value : ℕ → Store → Store
receive_value i store = record store { subscribers = update i take_value store.subscribers }
