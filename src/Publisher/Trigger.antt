-- ===== src/Publisher/Trigger.antt =====
-- backend/internal/publisher/trigger.go: the configuration of a publisher's trigger. encoding/json is
-- not modelled: a configuration is what its text decodes to, with members of the exact names.
pub mod Normal
use iot_edge.Prelude.{
  ℕ, ◌+◌, ◌*◌, ◌%◌, ◌≡◌, refl, sym, ap, subst, ◌∙◌, Bool, true, false, ◌&&◌, ◌||◌, not, List, [],
  ◌∷◌, length, ltb, leb, ◌==◌, if◌then◌else◌, ℤ, pos, ltb_ℤ, Result, ok, err, ◌>>=◌, ◌>>◌, fail_if,
  fail_if-eq-ok, >>=-eq-ok, ok-injective, Bool-cases, inl, inr, if-elim,
}
use iot_edge.Value.{to_signed}
use iot_edge.Value.Text.{Text, is_empty}

pub data TriggerMode : Type 0 where
  unset interval on_change other : TriggerMode

-- `TriggerConfig`; the two times are numbers of the type uint64.
pub record TriggerConfig : Type 0 where
  pub mode : TriggerMode
  pub source_alias : Text
  pub interval_ms : ℕ
  pub coalesce_ms : ℕ

pub data PublisherError : Type 0 where
  invalid_publisher_config : PublisherError

-- The member `trigger` of a configuration.
pub data TriggerMember : Type 0 where
  missing null malformed : TriggerMember
  trigger : TriggerConfig → TriggerMember

-- A configuration: no text, no object, or an object that may have other members.
pub data Config : Type 0 where
  empty no_object : Config
  object : (has_others : Bool) → TriggerMember → Config

-- `time.Duration(ms) * time.Millisecond`, which wraps around to the 64 bits of an int64.
unfoldable pub milliseconds : ℕ → ℤ
unfolding to_signed
milliseconds ms = to_signed 9223372036854775808 ((ms * 1000000) % 18446744073709551616)

abbrev pub outside : ℤ → ℤ → ℤ → Bool
outside low high d = ltb_ℤ d low || ltb_ℤ high d

-- `Interval()` is not from 100 ms to 24 h, `Coalesce()` not from 1 ms to 1 min.
abbrev pub bad_interval : ℕ → Bool
bad_interval ms = outside (pos 100000000) (pos 86400000000000) (milliseconds ms)

abbrev pub bad_coalesce : ℕ → Bool
bad_coalesce ms = outside (pos 1000000) (pos 60000000000) (milliseconds ms)

-- The classes of `sourceAliasPattern`.
abbrev is_letter : ℕ → Bool
is_letter c = (leb 65 c && leb c 90) || (leb 97 c && leb c 122) || (c == 95)

abbrev is_alias_rest : Text → Bool
is_alias_rest [] = true
is_alias_rest (c ∷ s) =
    (is_letter c || (leb 48 c && leb c 57) || (c == 46) || (c == 45)) && is_alias_rest s

abbrev pub is_source_alias : Text → Bool
is_source_alias [] = false
is_source_alias (c ∷ s) = is_letter c && is_alias_rest s && not (ltb 63 (length s))

unfoldable pub default_interval_trigger : TriggerConfig
default_interval_trigger = record {
  mode = interval;
  source_alias = [];
  interval_ms = 60000;
  coalesce_ms = 0;
}

abbrev pub or_default : ℕ → ℕ → ℕ
or_default ms d = if ms == 0 then d else ms

-- The cases of the `switch` over modes.
unfoldable pub normalize_interval : TriggerConfig → Result PublisherError TriggerConfig
normalize_interval t =
    fail_if (not (is_empty t.source_alias) || not (t.coalesce_ms == 0)) invalid_publisher_config
    >> fail_if (bad_interval (or_default t.interval_ms 60000)) invalid_publisher_config
    >> ok (record t { interval_ms = or_default t.interval_ms 60000 })

unfoldable pub normalize_on_change : TriggerConfig → Result PublisherError TriggerConfig
normalize_on_change t =
    fail_if (not (is_source_alias t.source_alias) || not (t.interval_ms == 0))
      invalid_publisher_config
    >> fail_if (bad_coalesce (or_default t.coalesce_ms 100)) invalid_publisher_config
    >> ok (record t { coalesce_ms = or_default t.coalesce_ms 100 })

abbrev pub by_mode : TriggerMode → TriggerConfig → Result PublisherError TriggerConfig
by_mode unset t = ok default_interval_trigger
by_mode interval t = normalize_interval t
by_mode on_change t = normalize_on_change t
by_mode other t = err invalid_publisher_config

unfoldable pub normalize_trigger : TriggerConfig → Result PublisherError TriggerConfig
unfolding normalize_interval normalize_on_change default_interval_trigger
normalize_trigger t = by_mode t.mode t

abbrev normalize_member : TriggerMember → Result PublisherError TriggerConfig
normalize_member missing = normalize_trigger default_interval_trigger
normalize_member null = err invalid_publisher_config
normalize_member malformed = err invalid_publisher_config
normalize_member (trigger t) = normalize_trigger t

-- `normalizePublisherConfig`, of whose text the trigger is the only member.
unfoldable pub normalize_publisher_config : Config → Result PublisherError TriggerConfig
unfolding normalize_trigger default_interval_trigger
normalize_publisher_config empty = normalize_trigger default_interval_trigger
normalize_publisher_config no_object = err invalid_publisher_config
normalize_publisher_config (object has_others member) =
    fail_if has_others invalid_publisher_config >> normalize_member member

unfoldable pub parse_trigger_config : Config → Result PublisherError TriggerConfig
unfolding normalize_trigger default_interval_trigger
parse_trigger_config empty = ok default_interval_trigger
parse_trigger_config no_object = err invalid_publisher_config
parse_trigger_config (object has_others missing) = ok default_interval_trigger
parse_trigger_config (object has_others null) = err invalid_publisher_config
parse_trigger_config (object has_others malformed) = err invalid_publisher_config
parse_trigger_config (object has_others (trigger t)) = normalize_trigger t
