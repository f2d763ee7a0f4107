-- ===== src/Warnings/FileTests.antt =====
-- The file of the warnings at concrete records.
use pg_limiter.Prelude.{String, ◌≡◌, refl, true, false, none, some, [], ◌∷◌, string_eq}
use pg_limiter.Prelude.Int.{pos, negsuc}
use pg_limiter.Prelude.Dict.{Dict, lookup}
use pg_limiter.Warnings.Record.{UserLimitWarning, calculate_trust_score}
use pg_limiter.Warnings.System.{WarningSystem}
use pg_limiter.Warnings.File.{
  serialize_warning, serialize_warnings, read_snapshot, read_inbounds, read_required, restore,
  deserialize_warning, take_loaded, load_each, load_warnings,
}
use pg_limiter.Warnings.Restart.{plain, load_warnings-serialize_warnings}

program : Unit {0}
unfolding serialize_warning serialize_warnings read_snapshot read_inbounds read_required restore
    deserialize_warning take_loaded load_each load_warnings calculate_trust_score
program = tt

abbrev watched : UserLimitWarning
watched = record {
  owner = 4;
  username = "ann";
  ip_count = 2;
  ips = "1.2.3.4" ∷ "5.6.7.8" ∷ [];
  warning_time = 1000;
  monitoring_end_time = 181000;
  warned = true;
  monitoring_history =
      record { timestamp = 1000; ips = "1.2.3.4" ∷ "5.6.7.8" ∷ []; ip_count = 2 } ∷ [];
  ip_first_seen = ("1.2.3.4", 1000) ∷ [];
  ip_last_seen = ("1.2.3.4", 1000) ∷ [];
  ip_seen_count = ("1.2.3.4", 1) ∷ [];
  trust_score = negsuc 4;
  inbound_protocols = "vless" ∷ [];
  ip_subnets = "1.2.3" ∷ "5.6.7" ∷ [];
  previous_warnings_12h = 1;
  previous_warnings_24h = 2;
  ip_to_inbounds = ("1.2.3.4", "vless" ∷ []) ∷ [];
  same_ip_multiple_inbounds = false;
  connection_details = [];
  user_limit = pos 1;
  consecutive_violations = 2;
  last_scan_time = 1000;
  max_warnings_at_creation = 3;
}

abbrev saved : Dict String UserLimitWarning
saved =
    ("ann", watched) ∷ ("bob", record watched { username = "bob"; monitoring_end_time = 2000 }) ∷ []

abbrev restarted : WarningSystem
restarted = record {
  warnings = [];
  warning_history = [];
  check_interval = 60;
  max_warnings = 3;
  monitoring_period = 180;
  next_owner = 1;
}

-- The record of ann is read back, the one of bob is too old, and a file without a key is skipped.
restart_run :
    (lookup "ann" (load_warnings 5000 (serialize_warnings saved) restarted).warnings
      ≡ some (record watched { owner = 1 }))
    × (lookup "bob" (load_warnings 5000 (serialize_warnings saved) restarted).warnings ≡ none)
    × ((load_warnings 5000 (("eve", []) ∷ []) restarted).warnings ≡ [])
unfolding program
restart_run = (refl, refl, refl)

load_warnings-serialize_warnings_example :
    plain (lookup "ann" (load_warnings 5000 (serialize_warnings saved) restarted).warnings)
    ≡ plain (some watched)
load_warnings-serialize_warnings_example =
    load_warnings-serialize_warnings 5000 "ann" saved restarted
      (
        record {
          ips_once = (refl, (refl, tt));
          protocols_once = (refl, tt);
          subnets_once = (refl, (refl, tt));
          snapshots_once = ((refl, (refl, tt)), tt);
          inbounds_once = ((refl, tt), tt);
        },
        (
          record {
            ips_once = (refl, (refl, tt));
            protocols_once = (refl, tt);
            subnets_once = (refl, (refl, tt));
            snapshots_once = ((refl, (refl, tt)), tt);
            inbounds_once = ((refl, tt), tt);
          },
          tt,
        ),
      )
      (refl, (refl, tt)) refl
