-- ===== src/Tag/Store.antt =====
-- backend/internal/tag/value_store.go: `MemoryValueStore`. Each operation holds the store's lock, so
-- an execution is a sequence of operations. A map is an association list, and its order stands for
-- the order of iteration, which Go leaves open. Subscribers are told apart by their place in the
-- order of creation; one that is closed is no longer in the map of subscribers. A channel is its
-- buffer, the oldest value first.
pub mod Reading
pub mod Subscribing
pub mod Restoring
pub mod Execution
pub mod Refinement
pub mod Restored
pub mod Numbering
pub mod Streams
pub mod Delivery
pub mod Newest
pub mod Replay
pub mod Typed
mod Tests
use iot_edge.Prelude.{
  update, ℕ, zero, suc, ◌+◌, ◌-◌, ◌^◌, ◌%◌, Bool, true, false, ◌&&◌, ◌||◌, not, Option, none, some,
  List, [], ◌∷◌, ◌++◌, map, length, drop, ltb, leb, ◌==◌, if◌then◌else◌, Result, ok, err, ◌>>=◌,
  ◌>>◌, fail_if, find, insert, ℤ, pos, negsuc,
}
use iot_edge.Value.{DataType, Value}
use iot_edge.Value.Float.{Arithmetic}
use iot_edge.Value.Text.{Text, is_empty}
use iot_edge.Datalogger.Batch.{Quality, member}
use iot_edge.Tag.Coerce.{coerce_tag_value}

pub record TagValue : Type 0 where
  pub tag_id : ℕ
  pub sequence : ℕ
  pub observed_at : ℕ
  pub stored_at : ℕ
  pub quality : Quality
  pub data_type : DataType
  pub value : Value
  pub error : Text

pub data StoreError : Type 0 where
  context_done invalid_tag_value tag_value_not_found tag_value_unavailable tag_value_store_in_use :
      StoreError

abbrev pub history_limit : ℕ
history_limit = 10

abbrev pub event_buffer : ℕ
event_buffer = 64

-- `valueSubscriber`, with the buffer of its stream.
pub record Subscriber : Type 0 where
  pub tag_ids : List ℕ
  pub capacity : ℕ
  pub stream : List TagValue
  pub disconnect_on_lag : Bool
  pub closed : Bool

pub record Store : Type 0 where
  pub sequence : ℕ
  pub latest : List (ℕ × TagValue)
  pub history : List (ℕ × List TagValue)
  pub subscribers : List Subscriber

abbrev pub new_memory_value_store : Store
new_memory_value_store = record { sequence = 0; latest = []; history = []; subscribers = [] }

-- `validTagDataType`
unfoldable pub valid_tag_data_type : DataType → Bool
valid_tag_data_type DataType.other = false
valid_tag_data_type _ = true

-- The set of tags of a subscriber, without the nil id; no tag at all stands for every tag.
abbrev pub filter_of : List ℕ → List ℕ
filter_of [] = []
filter_of (id ∷ ids) =
    let rest = filter_of ids in if (id == 0) || member id rest then rest else id ∷ rest

abbrev pub is_all : List ℕ → Bool
is_all [] = true
is_all (id ∷ ids) = false

unfoldable pub matches : Subscriber → ℕ → Bool
matches s id = is_all s.tag_ids || member id s.tag_ids

-- `offerTagValue`: a send that does not wait; `none` where there is no room.
unfoldable pub offer_tag_value : ℕ → List TagValue → TagValue → Option (List TagValue)
offer_tag_value capacity stream entry =
    if ltb (length stream) capacity then some (stream ++ entry ∷ []) else none

abbrev or_stream : Option (List TagValue) → List TagValue → List TagValue
or_stream none stream = stream
or_stream (some sent) stream = sent

-- `offerLatestTagValue`: where there is no room, the oldest value makes room for this one.
unfoldable pub offer_latest_tag_value : ℕ → List TagValue → TagValue → List TagValue
unfolding offer_tag_value
offer_latest_tag_value capacity stream entry =
    or_stream (offer_tag_value capacity stream entry)
      (or_stream (offer_tag_value capacity (drop 1 stream) entry) (drop 1 stream))

unfoldable pub close_subscriber : Subscriber → Subscriber
close_subscriber s = record s { closed = true }

-- One round of the loop of `Put`, once the first offer has been tried.
unfoldable pub offered : Option (List TagValue) → TagValue → Subscriber → Subscriber
unfolding close_subscriber offer_latest_tag_value
offered (some sent) entry s = record s { stream = sent }
offered none entry s =
    if s.disconnect_on_lag
    then close_subscriber s
    else record s { stream = offer_latest_tag_value s.capacity s.stream entry }

unfoldable pub notify : TagValue → Subscriber → Subscriber
unfolding matches offer_tag_value offered
notify entry s =
    if s.closed || not (matches s entry.tag_id)
    then s
    else offered (offer_tag_value s.capacity s.stream entry) entry s

abbrev pub or_empty : Option (List TagValue) → List TagValue
or_empty none = []
or_empty (some entries) = entries

-- The history of a tag with a value more, cut to its limit.
unfoldable pub extend_history : List TagValue → TagValue → List TagValue
extend_history entries entry =
    let history = entries ++ entry ∷ [] in
    if ltb history_limit (length history)
    then drop (length history - history_limit) history
    else history

-- What `Put` stores of a normalized value.
unfoldable pub stamp : ℕ → TagValue → Store → TagValue
stamp now entry store = record entry { sequence = (store.sequence + 1) % 2 ^ 64; stored_at = now }

unfoldable pub store_entry : TagValue → Store → Store
unfolding extend_history notify
store_entry entry store = record {
  sequence = entry.sequence;
  latest = insert entry.tag_id entry store.latest;
  history =
      insert entry.tag_id (extend_history (or_empty (find entry.tag_id store.history)) entry)
        store.history;
  subscribers = map (notify entry) store.subscribers;
}

-- `Put` of a value once it is normalized, or refused.
abbrev pub put_normalized :
    ℕ → Store → Result StoreError TagValue → Result StoreError (TagValue × Store)
put_normalized now store (err e) = err e
put_normalized now store (ok entry) =
    let stored = stamp now entry store in ok (stored, store_entry stored store)

module _ (arithmetic : Arithmetic) where
  -- The `switch` over qualities: the value and the error that are kept.
  unfoldable pub normalize_quality :
      Quality → DataType → Value → Text → Result StoreError (Value × Text)
  unfolding coerce_tag_value
  normalize_quality Quality.good t v error = elim (coerce_tag_value arithmetic t v) [
    | ok coerced ↦ ok (coerced, [])
    | err e ↦ err invalid_tag_value
  ]
  normalize_quality Quality.bad t v error =
      if is_empty error then err invalid_tag_value else ok (Value.nil, error)
  normalize_quality Quality.other t v error = err invalid_tag_value

  unfoldable pub normalize_tag_value : TagValue → Result StoreError TagValue
  unfolding normalize_quality valid_tag_data_type
  normalize_tag_value entry =
      fail_if ((entry.tag_id == 0) || not (valid_tag_data_type entry.data_type)) invalid_tag_value
      >> (normalize_quality entry.quality entry.data_type entry.value entry.error >>= λ kept.
          fail_if (entry.observed_at == 0) invalid_tag_value
          >> ok (record entry { value = kept.0; error = kept.1 }))

  unfoldable pub put : ℕ → TagValue → Store → Result StoreError (TagValue × Store)
  unfolding normalize_tag_value stamp store_entry
  put now entry store = put_normalized now store (normalize_tag_value entry)
