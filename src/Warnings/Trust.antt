-- ===== src/Warnings/Trust.antt =====
-- The trust score of utils/warning_system/user_warning.py.
use pg_limiter.Prelude.{ℕ, ◌*◌, ◌≤◌, length, arith}
use pg_limiter.Prelude.Int.{ℤ, pos, negsuc, ◌≤ℤ◌, ◌-ℤ◌, -ℤ_parts}
use pg_limiter.Warnings.Record.{
  UserLimitWarning, calculate_trust_score, raw_trust_score, clamp, history_penalty, excess,
  get_trust_level, TrustLevel, trusted, high, medium, low, suspicious, critical,
}

clamp-bounds : (x : ℤ) → (negsuc 99 ≤ℤ clamp x) × (clamp x ≤ℤ pos 100)
unfolding clamp
clamp-bounds x = ground arith

clamp_mono : (x y : ℤ) → x ≤ℤ y → clamp x ≤ℤ clamp y
unfolding clamp
clamp_mono x y h = ground arith

history_penalty_mono : (a b c d : ℕ) → a ≤ c → b ≤ d → history_penalty a b ≤ history_penalty c d
unfolding history_penalty
history_penalty_mono a b c d p q = omega arith

-- How severe a level is.
abbrev pub severity : TrustLevel → ℕ
severity trusted = 0
severity high = 1
severity medium = 2
severity low = 3
severity suspicious = 4
severity critical = 5

get_trust_level_mono :
    (x y : ℤ) → x ≤ℤ y → severity (get_trust_level y) ≤ severity (get_trust_level x)
unfolding get_trust_level
get_trust_level_mono x y h = ground arith

lower_by :
    (base : ℤ) (a b rest : ℕ) → b ≤ a → (base -ℤ pos a -ℤ pos rest) ≤ℤ (base -ℤ pos b -ℤ pos rest)
lower_by base a b rest h = omega (
  arith,
  -ℤ_parts base (pos a),
  -ℤ_parts base (pos b),
  -ℤ_parts (base -ℤ pos a) (pos rest),
  -ℤ_parts (base -ℤ pos b) (pos rest),
)

raw_mono :
    (w : UserLimitWarning) (more_12h more_24h : ℕ)
    → w.previous_warnings_12h ≤ more_12h
    → w.previous_warnings_24h ≤ more_24h
    → raw_trust_score
        (record w { previous_warnings_12h = more_12h; previous_warnings_24h = more_24h })
      ≤ℤ raw_trust_score w
unfolding raw_trust_score
raw_mono w more_12h more_24h p q =
    lower_by _ (history_penalty more_12h more_24h)
      (history_penalty w.previous_warnings_12h w.previous_warnings_24h)
      (excess (length w.ips) w.user_limit * 10) (history_penalty_mono _ _ _ _ p q)

-- More disables in the last 12 or 24 hours never raise the score of a record that is the same
-- otherwise, nor make its level less severe, and the score lies between -100 and 100.
pub calculate_trust_score-history :
    (w : UserLimitWarning) (more_12h more_24h : ℕ)
    → w.previous_warnings_12h ≤ more_12h
    → w.previous_warnings_24h ≤ more_24h
    → (let v = record w { previous_warnings_12h = more_12h; previous_warnings_24h = more_24h } in
        (calculate_trust_score v ≤ℤ calculate_trust_score w)
        × (severity (get_trust_level (calculate_trust_score w))
            ≤ severity (get_trust_level (calculate_trust_score v)))
        × (negsuc 99 ≤ℤ calculate_trust_score v)
        × (calculate_trust_score w ≤ℤ pos 100))
unfolding calculate_trust_score
calculate_trust_score-history w more_12h more_24h p q =
    let v : UserLimitWarning = record w {
      previous_warnings_12h = more_12h;
      previous_warnings_24h = more_24h;
    } in
    let lower =
      clamp_mono (raw_trust_score v) (raw_trust_score w) (raw_mono w more_12h more_24h p q) in
    (
      lower,
      get_trust_level_mono (calculate_trust_score v) (calculate_trust_score w) lower,
      (clamp-bounds (raw_trust_score v)).0,
      (clamp-bounds (raw_trust_score w)).1,
    )
