-- ===== src/Publisher/Trigger/Normal.antt =====
-- Normalized triggers.
use iot_edge.Prelude.{
  ℕ, ◌≡◌, refl, ap, subst, ◌∙◌, Bool, true, false, ◌||◌, not, ◌==◌, ok, fail_if-eq-ok, ok-injective,
  if-elim, ◌⊎◌, inl, inr, arith,
}
use iot_edge.Value.{to_signed}
use iot_edge.Value.Text.{is_empty}
use iot_edge.Publisher.Trigger.{
  TriggerMode, unset, interval, on_change, other, TriggerConfig, invalid_publisher_config, missing,
  null, malformed, trigger, Config, empty, no_object, object, milliseconds, bad_interval,
  bad_coalesce, is_source_alias, default_interval_trigger, or_default, normalize_interval,
  normalize_on_change, by_mode, normalize_trigger, normalize_publisher_config, parse_trigger_config,
}

or_default_idem : (ms d : ℕ) → or_default (or_default ms d) d ≡ or_default ms d
or_default_idem ms d =
    if-elim (λ (x : ℕ). or_default x d ≡ x) (ms == 0)
      (λ _. if-elim (λ (x : ℕ). x ≡ d) (d == 0) (λ _. refl) (λ _. refl)) (λ given. rw given)

-- A trigger that normalization keeps, and whose times as durations are in their ranges.
abbrev pub IsNormal : TriggerConfig → Type 0
IsNormal t =
    (normalize_trigger t ≡ ok t)
    × (((t.mode ≡ interval) × (bad_interval t.interval_ms ≡ false) × (t.coalesce_ms ≡ 0))
        ⊎ ((t.mode ≡ on_change) × (bad_coalesce t.coalesce_ms ≡ false) × (t.interval_ms ≡ 0)))

zero_of_not : (n : ℕ) (rest : Bool) → (rest || not (n == 0)) ≡ false → n ≡ 0
zero_of_not n true h = cc
zero_of_not n false h = ground (arith, h)

normalize_interval-IsNormal :
    (t u : TriggerConfig) → t.mode ≡ interval → normalize_interval t ≡ ok u → IsNormal u
unfolding normalize_interval normalize_trigger
normalize_interval-IsNormal t u mode h =
    let (plain, h1) =
      fail_if-eq-ok (not (is_empty t.source_alias) || not (t.coalesce_ms == 0))
        invalid_publisher_config _ h in
    let (good, made) =
      fail_if-eq-ok (bad_interval (or_default t.interval_ms 60000)) invalid_publisher_config _ h1 in
    let v : TriggerConfig = record t { interval_ms = or_default t.interval_ms 60000 } in
    let again : normalize_interval v ≡ ok v =
      rw (or_default_idem t.interval_ms 60000, plain, good) in
    subst IsNormal (ok-injective made) (
      ap (λ m. by_mode m v) mode ∙ again,
      inl (mode, good, zero_of_not t.coalesce_ms (not (is_empty t.source_alias)) plain),
    )

normalize_on_change-IsNormal :
    (t u : TriggerConfig) → t.mode ≡ on_change → normalize_on_change t ≡ ok u → IsNormal u
unfolding normalize_on_change normalize_trigger
normalize_on_change-IsNormal t u mode h =
    let (plain, h1) =
      fail_if-eq-ok (not (is_source_alias t.source_alias) || not (t.interval_ms == 0))
        invalid_publisher_config _ h in
    let (good, made) =
      fail_if-eq-ok (bad_coalesce (or_default t.coalesce_ms 100)) invalid_publisher_config _ h1 in
    let v : TriggerConfig = record t { coalesce_ms = or_default t.coalesce_ms 100 } in
    let again : normalize_on_change v ≡ ok v =
      rw (or_default_idem t.coalesce_ms 100, plain, good) in
    subst IsNormal (ok-injective made) (
      ap (λ m. by_mode m v) mode ∙ again,
      inr (mode, good, zero_of_not t.interval_ms (not (is_source_alias t.source_alias)) plain),
    )

default_interval_trigger-IsNormal : IsNormal default_interval_trigger
unfolding default_interval_trigger normalize_trigger normalize_interval milliseconds to_signed
default_interval_trigger-IsNormal = (refl, inl (refl, refl, refl))

by_mode-IsNormal :
    (m : TriggerMode) (t u : TriggerConfig) → t.mode ≡ m → by_mode m t ≡ ok u → IsNormal u
by_mode-IsNormal unset t u e h = subst IsNormal (ok-injective h) default_interval_trigger-IsNormal
by_mode-IsNormal interval t u e h = normalize_interval-IsNormal t u e h
by_mode-IsNormal on_change t u e h = normalize_on_change-IsNormal t u e h
by_mode-IsNormal other t u e h = cc

normalize_trigger-IsNormal : (t u : TriggerConfig) → normalize_trigger t ≡ ok u → IsNormal u
unfolding normalize_trigger
normalize_trigger-IsNormal t u h = by_mode-IsNormal t.mode t u refl h

normalize_publisher_config-trigger :
    (c : Config) (u : TriggerConfig)
    → normalize_publisher_config c ≡ ok u
    → (t : TriggerConfig) × (normalize_trigger t ≡ ok u)
unfolding normalize_publisher_config
normalize_publisher_config-trigger empty u h = (default_interval_trigger, h)
normalize_publisher_config-trigger no_object u h = cc
normalize_publisher_config-trigger (object true member) u h = cc
normalize_publisher_config-trigger (object false missing) u h = (default_interval_trigger, h)
normalize_publisher_config-trigger (object false null) u h = cc
normalize_publisher_config-trigger (object false malformed) u h = cc
normalize_publisher_config-trigger (object false (trigger t)) u h = (t, h)

-- What an accepted publisher configuration is stored as is read back as the same trigger, which is
-- an interval whose Interval() is from 100 ms to 24 h, or a change whose Coalesce() is from 1 ms to
-- 1 min, with the other time zero.
pub parse-normalize_publisher_config :
    (c : Config) (u : TriggerConfig)
    → normalize_publisher_config c ≡ ok u
    → (parse_trigger_config (object false (trigger u)) ≡ ok u) × IsNormal u
unfolding parse_trigger_config
parse-normalize_publisher_config c u h =
    let (t, accepted) = normalize_publisher_config-trigger c u h in
    let normal = normalize_trigger-IsNormal t u accepted in (normal.0, normal)
