-- ===== src/Datalogger/Batch.antt =====
-- backend/internal/datalogger/history.go and committed_batches.go: batches of raw samples.
use iot_edge.Prelude.{
  ℕ, ◌≡◌, refl, ap, ap₂, Bool, true, false, ◌&&◌, ◌||◌, not, List, [], ◌∷◌, map, ◌==◌,
}
use iot_edge.Value.{DataType, Value}
use iot_edge.Value.Text.{Text, is_empty, trim_space, trim_space_idem}

-- The strings `RawQualityGood` and `RawQualityBad`, and any other.
pub data Quality : Type 0 where
  good bad other : Quality

-- `RawSample`; `UTC()` keeps the instant of a time.
pub record RawSample : Type 0 where
  pub tag_id : ℕ
  pub observed_at : ℕ
  pub data_type : DataType
  pub value : Value
  pub quality : Quality
  pub error : Text

pub record RawBatch : Type 0 where
  pub logger_id : ℕ
  pub batch_at : ℕ
  pub samples : List RawSample

unfoldable pub valid_history_data_type : DataType → Bool
valid_history_data_type DataType.other = false
valid_history_data_type _ = true

-- The type switch on the Go type of a value.
unfoldable pub valid_committed_value : DataType → Value → Bool
valid_committed_value DataType.bool (Value.bool b) = true
valid_committed_value DataType.int16 (Value.int16 z) = true
valid_committed_value DataType.uint16 (Value.uint16 n) = true
valid_committed_value DataType.int32 (Value.int32 z) = true
valid_committed_value DataType.uint32 (Value.uint32 n) = true
valid_committed_value DataType.float32 (Value.float32 b) = true
valid_committed_value DataType.float64 (Value.float64 b) = true
valid_committed_value _ _ = false

abbrev is_nil_value : Value → Bool
is_nil_value Value.nil = true
is_nil_value _ = false

-- The `switch` over qualities.
unfoldable pub valid_quality : Quality → Text → DataType → Value → Bool
unfolding valid_committed_value
valid_quality Quality.good error t v = is_empty error && valid_committed_value t v
valid_quality Quality.bad error t v = is_nil_value v && not (is_empty (trim_space error))
valid_quality Quality.other error t v = false

abbrev pub member : ℕ → List ℕ → Bool
member id [] = false
member id (x ∷ seen) = (x == id) || member id seen

-- The loop over samples; `seen` holds the ids of the samples before.
unfoldable pub valid_samples : List ℕ → List RawSample → Bool
unfolding valid_history_data_type valid_quality
valid_samples seen [] = true
valid_samples seen (s ∷ samples) =
    not (s.tag_id == 0)
    && not (s.observed_at == 0)
    && valid_history_data_type s.data_type
    && not (member s.tag_id seen)
    && valid_quality s.quality s.error s.data_type s.value
    && valid_samples (s.tag_id ∷ seen) samples

abbrev has_samples : List RawSample → Bool
has_samples [] = false
has_samples (s ∷ samples) = true

unfoldable pub valid_committed_batch : RawBatch → Bool
unfolding valid_samples
valid_committed_batch b =
    not (b.logger_id == 0)
    && not (b.batch_at == 0)
    && has_samples b.samples
    && valid_samples [] b.samples

abbrev pub clean_error : Quality → Text → Text
clean_error Quality.bad error = trim_space error
clean_error _ error = error

-- One round of the loop of `cloneRawBatch`.
abbrev pub clone_sample : RawSample → RawSample
clone_sample s = record s { error = clean_error s.quality s.error }

unfoldable pub clone_raw_batch : RawBatch → RawBatch
clone_raw_batch b = record b { samples = map clone_sample b.samples }

clean_error_idem : (q : Quality) (e : Text) → clean_error q (clean_error q e) ≡ clean_error q e
clean_error_idem Quality.good e = refl
clean_error_idem Quality.bad e = trim_space_idem e
clean_error_idem Quality.other e = refl

clone_samples_idem :
    (list : List RawSample) → map clone_sample (map clone_sample list) ≡ map clone_sample list
clone_samples_idem [] = refl
clone_samples_idem (s ∷ list) =
    ap₂ ◌∷◌ (ap (λ (e : Text). record s { error = e }) (clean_error_idem s.quality s.error))
      (clone_samples_idem list)

-- A copy of a copy is the copy.
pub clone_raw_batch_idem : (b : RawBatch) → clone_raw_batch (clone_raw_batch b) ≡ clone_raw_batch b
unfolding clone_raw_batch
clone_raw_batch_idem b =
    ap (λ (list : List RawSample). record b { samples = list }) (clone_samples_idem b.samples)

valid_quality-clean :
    (q : Quality) (e : Text) (t : DataType) (v : Value)
    → valid_quality q (clean_error q e) t v ≡ valid_quality q e t v
unfolding valid_quality
valid_quality-clean Quality.good e t v = refl
valid_quality-clean Quality.bad e t v =
    ap (λ (x : Text). is_nil_value v && not (is_empty x)) (trim_space_idem e)
valid_quality-clean Quality.other e t v = refl

valid_samples-clone :
    (seen : List ℕ) (list : List RawSample)
    → valid_samples seen (map clone_sample list) ≡ valid_samples seen list
unfolding valid_samples
valid_samples-clone seen [] = refl
valid_samples-clone seen (s ∷ list) = rw (
  valid_quality-clean s.quality s.error s.data_type s.value,
  valid_samples-clone (s.tag_id ∷ seen) list,
)

has_samples-clone : (list : List RawSample) → has_samples (map clone_sample list) ≡ has_samples list
has_samples-clone [] = refl
has_samples-clone (s ∷ list) = refl

-- The copy of a batch is valid just when the batch is.
pub valid_committed_batch-clone :
    (b : RawBatch) → valid_committed_batch (clone_raw_batch b) ≡ valid_committed_batch b
unfolding valid_committed_batch clone_raw_batch
valid_committed_batch-clone b = rw (has_samples-clone b.samples, valid_samples-clone [] b.samples)
