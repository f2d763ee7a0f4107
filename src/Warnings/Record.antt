-- ===== src/Warnings/Record.antt =====
-- utils/warning_system/user_warning.py: `UserLimitWarning`. A time is a number of milliseconds; the
-- source's seconds stand multiplied out. A trust score is a whole number, as the score is a sum of
-- whole numbers. The field `active_monitoring_task`, which nothing sets, and the texts of the summaries
-- have no part here. `owner` is the identity of the object, which `is` compares.
use pg_limiter.Prelude.{
  ℕ, ◌+◌, ◌-◌, ◌*◌, ◌/◌, max, min, String, Bool, false, not, ◌&&◌, ◌||◌, none, some, List, [], ◌∷◌,
  string_eq, add, length, is_empty, ltb, if◌then◌else◌,
}
use pg_limiter.Prelude.Int.{ℤ, pos, negsuc, ◌+ℤ◌, ◌-ℤ◌, ltb_ℤ, leb_ℤ, sub_ℕ}
use pg_limiter.Prelude.Dict.{Dict, lookup, has_key, insert, keys}
use pg_limiter.Types.{ConnectionInfo}
use mathlib.Core.List.{◌++◌}

pub record Snapshot : Type 0 where
  pub timestamp : ℕ
  pub ips : List String
  pub ip_count : ℕ

pub record UserLimitWarning : Type 0 where
  pub owner : ℕ
  pub username : String
  pub ip_count : ℕ
  pub ips : List String
  pub warning_time : ℕ
  pub monitoring_end_time : ℕ
  pub warned : Bool
  pub monitoring_history : List Snapshot
  pub ip_first_seen : Dict String ℕ
  pub ip_last_seen : Dict String ℕ
  pub ip_seen_count : Dict String ℕ
  pub trust_score : ℤ
  pub inbound_protocols : List String
  pub ip_subnets : List String
  pub previous_warnings_12h : ℕ
  pub previous_warnings_24h : ℕ
  pub ip_to_inbounds : Dict String (List String)
  pub same_ip_multiple_inbounds : Bool
  pub connection_details : List ConnectionInfo
  pub user_limit : ℤ
  pub consecutive_violations : ℕ
  pub last_scan_time : ℕ
  pub max_warnings_at_creation : ℕ

abbrev pub seconds : ℕ → ℕ
seconds n = n * 1000

unfoldable pub is_monitoring_active : ℕ → UserLimitWarning → Bool
is_monitoring_active now w = ltb now w.monitoring_end_time

-- Whole seconds, and 0 once the window has closed.
unfoldable pub time_remaining : ℕ → UserLimitWarning → ℕ
time_remaining now w = (w.monitoring_end_time - now) / 1000

abbrev pub count_in : String → Dict String ℕ → ℕ
count_in ip d = elim (lookup ip d) [ none ↦ 0 | some n ↦ n ]

-- The loop of `update_ip_activity`.
unfoldable pub see_ips : ℕ → List String → UserLimitWarning → UserLimitWarning
see_ips now [] w = w
see_ips now (ip ∷ ips) w = see_ips now ips (record w {
  ip_first_seen =
      if has_key ip w.ip_first_seen then w.ip_first_seen else insert ip now w.ip_first_seen;
  ip_last_seen = insert ip now w.ip_last_seen;
  ip_seen_count = insert ip (count_in ip w.ip_seen_count + 1) w.ip_seen_count;
})

unfoldable pub update_ip_activity : List String → ℕ → UserLimitWarning → UserLimitWarning
unfolding see_ips
update_ip_activity current_ips now w =
    let seen = see_ips now current_ips w in
    if ltb (length w.monitoring_history) 20
    then record seen {
      monitoring_history =
          w.monitoring_history
          ++ record { timestamp = now; ips = current_ips; ip_count = length current_ips } ∷ [];
    }
    else seen

-- Milliseconds between the first and the last sight of an address.
unfoldable pub get_ip_active_duration : String → UserLimitWarning → ℤ
get_ip_active_duration ip w = elim (lookup ip w.ip_first_seen) [
  | none ↦ pos 0
  | some start ↦ elim (lookup ip w.ip_last_seen) [ none ↦ pos 0 | some end ↦ sub_ℕ end start ]
]

-- The loop of `get_persistent_devices`: addresses seen in the last five minutes.
unfoldable pub recent_ips : ℕ → UserLimitWarning → List String → List String
recent_ips now w [] = []
recent_ips now w (ip ∷ ips) =
    let rest = recent_ips now w ips in
    if ltb (count_in ip w.ip_last_seen + seconds 300) now then rest else add ip rest

unfoldable pub get_persistent_devices : ℕ → UserLimitWarning → List String
unfolding recent_ips
get_persistent_devices now w =
    let found = recent_ips now w (keys w.ip_first_seen) in if is_empty found then w.ips else found

pub record Pattern : Type 0 where
  pub same_ip_multi_inbound : Bool
  pub multi_ip_same_inbound : Bool
  pub pattern_type : String

abbrev pub has_many : List String → Bool
has_many xs = ltb 1 (length xs)

abbrev pub values_with : (List String → Bool) → Dict String (List String) → Bool
values_with p [] = false
values_with p ((k, v) ∷ d) = p v || values_with p d

abbrev pub set_at : String → Dict String (List String) → List String
set_at k d = elim (lookup k d) [ none ↦ [] | some s ↦ s ]

-- `inbound_to_ips`, from the inbounds of one address.
unfoldable pub turn_round :
    String → List String → Dict String (List String) → Dict String (List String)
turn_round ip [] d = d
turn_round ip (inbound ∷ rest) d = turn_round ip rest (insert inbound (add ip (set_at inbound d)) d)

unfoldable pub inbound_to_ips :
    Dict String (List String) → Dict String (List String) → Dict String (List String)
unfolding turn_round
inbound_to_ips [] d = d
inbound_to_ips ((ip, inbounds) ∷ rest) d = inbound_to_ips rest (turn_round ip inbounds d)

unfoldable pub analyze_ip_inbound_pattern : UserLimitWarning → Pattern
unfolding inbound_to_ips
analyze_ip_inbound_pattern w =
    let same = values_with has_many w.ip_to_inbounds in
    let multi = values_with has_many (inbound_to_ips w.ip_to_inbounds []) in
    record {
      same_ip_multi_inbound = same;
      multi_ip_same_inbound = multi;
      pattern_type =
          if same && not multi
          then "single_device_switching"
          else if multi && not same
          then "multi_device"
          else if same && multi
          then "mixed"
          else "unknown";
    }

abbrev pub points : Bool → ℕ → ℤ
points earned n = if earned then pos n else pos 0

-- The part of the score below 50 that the disables of the last day take away.
unfoldable pub history_penalty : ℕ → ℕ → ℕ
history_penalty disables_12h disables_24h = disables_12h * 20 + (disables_24h - disables_12h) * 10

-- The excess of addresses over the limit, which counts as 1 where it is below 1.
unfoldable pub excess : ℕ → ℤ → ℕ
excess ip_count limit =
    let effective : ℕ = elim limit [ pos n ↦ max n 1 | negsuc n ↦ 1 ] in ip_count - effective

-- The score before it is clamped.
unfoldable pub raw_trust_score : UserLimitWarning → ℤ
unfolding analyze_ip_inbound_pattern history_penalty excess
raw_trust_score w =
    let pattern' = analyze_ip_inbound_pattern w in
    let ip_count = length w.ips in
    let inbound_count = length w.inbound_protocols in
    let spread = ltb 1 inbound_count && ltb 1 ip_count && not pattern'.same_ip_multi_inbound in
    pos 50
    +ℤ points pattern'.same_ip_multi_inbound 20
    -ℤ points pattern'.multi_ip_same_inbound 30
    -ℤ points spread (min inbound_count ip_count * 15)
    -ℤ pos (history_penalty w.previous_warnings_12h w.previous_warnings_24h)
    -ℤ pos (excess ip_count w.user_limit * 10)

-- `max(-100.0, min(100.0, score))`
unfoldable pub clamp : ℤ → ℤ
clamp score =
    if ltb_ℤ (pos 100) score then pos 100 else if ltb_ℤ score (negsuc 99) then negsuc 99 else score

unfoldable pub calculate_trust_score : UserLimitWarning → ℤ
unfolding raw_trust_score clamp
calculate_trust_score w = clamp (raw_trust_score w)

pub data TrustLevel : Type 0 where
  trusted high medium low suspicious critical : TrustLevel

unfoldable pub get_trust_level : ℤ → TrustLevel
get_trust_level score =
    if leb_ℤ (pos 40) score
    then trusted
    else if leb_ℤ (pos 20) score
    then high
    else if leb_ℤ (pos 0) score
    then medium
    else if leb_ℤ (negsuc 24) score
    then low
    else if leb_ℤ (negsuc 49) score
    then suspicious
    else critical
