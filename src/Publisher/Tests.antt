-- ===== src/Publisher/Tests.antt =====
-- Triggers of publishers, and the theorem at one.
use iot_edge.Prelude.{◌≡◌, refl, false, [], pos, ok}
use iot_edge.Value.{to_signed}
use iot_edge.Value.Text.{codes}
use iot_edge.Publisher.Trigger.{
  interval, on_change, TriggerConfig, trigger, object, milliseconds, normalize_interval,
  normalize_on_change, normalize_trigger, normalize_publisher_config, parse_trigger_config,
}
use iot_edge.Publisher.Trigger.Normal.{IsNormal, parse-normalize_publisher_config}

abbrev on_power : TriggerConfig
on_power = record {
  mode = on_change;
  source_alias = codes "power";
  interval_ms = 0;
  coalesce_ms = 250;
}

on_power_accepted : normalize_publisher_config (object false (trigger on_power)) ≡ ok on_power
unfolding normalize_publisher_config normalize_trigger normalize_on_change milliseconds to_signed
on_power_accepted = refl

-- Nine million years in milliseconds wrap around to 100 ms.
abbrev wrapped : TriggerConfig
wrapped = record {
  mode = interval;
  source_alias = [];
  interval_ms = 288230376151711844;
  coalesce_ms = 0;
}

wrapped_accepted : normalize_trigger wrapped ≡ ok wrapped
unfolding normalize_trigger normalize_interval milliseconds to_signed
wrapped_accepted = refl

wrapped_duration : milliseconds 288230376151711844 ≡ pos 100000000
unfolding milliseconds to_signed
wrapped_duration = refl

parse-normalize_publisher_config_example :
    (parse_trigger_config (object false (trigger on_power)) ≡ ok on_power) × IsNormal on_power
parse-normalize_publisher_config_example =
    parse-normalize_publisher_config (object false (trigger on_power)) on_power on_power_accepted
