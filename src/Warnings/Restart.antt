-- ===== src/Warnings/Restart.antt =====
-- utils/warning_system/enhanced_system.py: the warnings that are written, and what is read back.
use pg_limiter.Prelude.{
  ℕ, suc, String, ◌≡◌, refl, ap, ◌∙◌, true, false, not, ◌&&◌, Option, none, some, List, [], ◌∷◌,
  ◌==◌, string_eq, map, set_of, Distinct, All, arith, leb, if◌then◌else◌, contains, Bool-cases, inl,
  inr,
}
use pg_limiter.Prelude.Dict.{Dict, lookup, insert, keys, lookup-insert}
use pg_limiter.Warnings.Record.{UserLimitWarning, Snapshot}
use pg_limiter.Warnings.System.{WarningSystem}
use pg_limiter.Warnings.File.{
  serialize_warning, serialize_warnings, read_snapshot, read_inbounds, read_required, restore,
  deserialize_warning, take_loaded, load_each, load_warnings,
}

-- The sets of a record hold each element once.
pub record IsStorable (w : UserLimitWarning) : Type 0 where
  pub ips_once : Distinct w.ips
  pub protocols_once : Distinct w.inbound_protocols
  pub subnets_once : Distinct w.ip_subnets
  pub snapshots_once : All (λ (s : Snapshot). Distinct s.ips) w.monitoring_history
  pub inbounds_once : All (λ (x : String × List String). Distinct x.1) w.ip_to_inbounds

set_of-Distinct : (xs : List String) → Distinct xs → set_of xs ≡ xs
set_of-Distinct [] h = refl
set_of-Distinct (x ∷ xs) h = rw (set_of-Distinct xs h.1, h.0) refl

map-read_snapshot :
    (xs : List Snapshot) → All (λ (s : Snapshot). Distinct s.ips) xs → map read_snapshot xs ≡ xs
unfolding read_snapshot
map-read_snapshot [] h = refl
map-read_snapshot (x ∷ xs) h = rw (set_of-Distinct x.ips h.0, map-read_snapshot xs h.1) refl

read_inbounds-once :
    (d : Dict String (List String))
    → All (λ (x : String × List String). Distinct x.1) d
    → read_inbounds d ≡ d
unfolding read_inbounds
read_inbounds-once [] h = refl
read_inbounds-once ((ip, xs) ∷ d) h = rw (set_of-Distinct xs h.0, read_inbounds-once d h.1) refl

-- What is written for a record reads back as the record, with a new identity.
pub deserialize_warning-serialize_warning :
    (owner : ℕ) (w : UserLimitWarning)
    → IsStorable w
    → deserialize_warning owner (serialize_warning w) ≡ some (record w { owner = owner })
unfolding deserialize_warning serialize_warning read_required restore
deserialize_warning-serialize_warning owner w h =
    rw
      (
        set_of-Distinct w.ips h.ips_once,
        set_of-Distinct w.inbound_protocols h.protocols_once,
        set_of-Distinct w.ip_subnets h.subnets_once,
        map-read_snapshot w.monitoring_history h.snapshots_once,
        read_inbounds-once w.ip_to_inbounds h.inbounds_once,
      )
      refl

-- One record of the file that was written for w.
abbrev loaded : ℕ → String → UserLimitWarning → WarningSystem → WarningSystem
loaded now username w s =
    let next : WarningSystem = record s { next_owner = suc s.next_owner } in
    if leb w.monitoring_end_time now
    then next
    else record next { warnings = insert username (record w { owner = s.next_owner }) s.warnings }

load_step :
    (now : ℕ) (username : String) (w : UserLimitWarning) (d : Dict String UserLimitWarning)
    (s : WarningSystem)
    → IsStorable w
    → load_each now (serialize_warnings ((username, w) ∷ d)) s
      ≡ load_each now (serialize_warnings d) (loaded now username w s)
unfolding load_each serialize_warnings take_loaded
load_step now username w d s h =
    let next : WarningSystem = record s { next_owner = suc s.next_owner } in
    ap (λ o. load_each now (serialize_warnings d) (take_loaded now username o next))
      (deserialize_warning-serialize_warning s.next_owner w h)

-- Whether a loaded record is in the system.
loaded_here :
    (now : ℕ) (username user : String) (w : UserLimitWarning) (s : WarningSystem)
    → lookup user (loaded now username w s).warnings ≡ (
        if user == username && not (leb w.monitoring_end_time now)
        then some (record w { owner = s.next_owner })
        else lookup user s.warnings)
loaded_here now username user w s = elim (Bool-cases (leb w.monitoring_end_time now)) [
  | inl e ↦ rw e (ground arith)
  | inr e ↦
      rw e
        (ground (arith, lookup-insert username user (record w { owner = s.next_owner }) s.warnings))
]

load_others :
    (now : ℕ) (user : String) (d : Dict String UserLimitWarning) (s : WarningSystem)
    → All (λ (x : String × UserLimitWarning). IsStorable x.1) d
    → contains (keys d) user ≡ false
    → lookup user (load_each now (serialize_warnings d) s).warnings ≡ lookup user s.warnings
unfolding load_each serialize_warnings
load_others now user [] s ok h = refl
load_others now user ((username, w) ∷ d) s ok h =
    ap (λ (r : WarningSystem). lookup user r.warnings) (load_step now username w d s ok.0)
    ∙ load_others now user d (loaded now username w s) ok.1 (ground arith)
    ∙ loaded_here now username user w s
    ∙ ground arith

-- A record without its identity.
abbrev pub plain : Option UserLimitWarning → Option UserLimitWarning
plain none = none
plain (some w) = some (record w { owner = 0 })

abbrev pub still_open : ℕ → Option UserLimitWarning → Option UserLimitWarning
still_open now none = none
still_open now (some w) = if leb w.monitoring_end_time now then none else some w

found_here :
    (now : ℕ) (user username : String) (w : UserLimitWarning) (s : WarningSystem)
    (d : Dict String UserLimitWarning)
    → (user == username) ≡ true
    → lookup user s.warnings ≡ none
    → plain (
        if user == username && not (leb w.monitoring_end_time now)
        then some (record w { owner = s.next_owner })
        else lookup user s.warnings)
      ≡ plain (still_open now (lookup user ((username, w) ∷ d)))
found_here now user username w s d e h = elim (Bool-cases (leb w.monitoring_end_time now)) [
  | inl closed ↦ rw (e, h, closed) refl
  | inr open_still ↦ rw (e, h, open_still) refl
]

load_found :
    (now : ℕ) (user : String) (d : Dict String UserLimitWarning) (s : WarningSystem)
    → All (λ (x : String × UserLimitWarning). IsStorable x.1) d
    → Distinct (keys d)
    → lookup user s.warnings ≡ none
    → plain (lookup user (load_each now (serialize_warnings d) s).warnings)
      ≡ plain (still_open now (lookup user d))
unfolding load_each serialize_warnings
load_found now user [] s ok once h = rw h refl
load_found now user ((username, w) ∷ d) s ok once h =
    ap (λ (r : WarningSystem). plain (lookup user r.warnings)) (load_step now username w d s ok.0)
    ∙ elim (Bool-cases (user == username)) [
      | inl e ↦
          ap plain (
            load_others now user d (loaded now username w s) ok.1
              (ap (contains (keys d)) ((string_eq.beq_iff user username).0 e) ∙ once.0)
            ∙ loaded_here now username user w s)
          ∙ found_here now user username w s d e h
      | inr e ↦ rw e (
          load_found now user d (loaded now username w s) ok.1 once.1
            (loaded_here now username user w s ∙ rw e h))
    ]

-- The warnings survive a restart: what is written for a system whose sets hold each element once is read
-- back into an empty system as the records whose window is still open, each under its user and with a
-- new identity, and as no others.
pub load_warnings-serialize_warnings :
    (now : ℕ) (user : String) (warnings : Dict String UserLimitWarning) (s : WarningSystem)
    → All (λ (x : String × UserLimitWarning). IsStorable x.1) warnings
    → Distinct (keys warnings)
    → s.warnings ≡ []
    → plain (lookup user (load_warnings now (serialize_warnings warnings) s).warnings)
      ≡ plain (still_open now (lookup user warnings))
unfolding load_warnings
load_warnings-serialize_warnings now user warnings s ok once empty =
    load_found now user warnings s ok once (rw empty refl)
