-- ===== src/DeviceCount/Tests.antt =====
-- Runs of utils/device_count.py on small samples, and the theorems at them.
use pg_limiter.Prelude.{◌≤◌, ◌≡◌, refl, false, some, List, [], ◌∷◌, arith, map}
use pg_limiter.Prelude.Int.{pos}
use pg_limiter.Text.{strip, split_dots, is_octet}
use pg_limiter.Types.{ConnectionInfo, UserType}
use pg_limiter.DeviceCount.Key.{
  DeviceCountingConfig, default_config, subnet_key, subnet_parts, node_key, device_key, key_beq,
}
use pg_limiter.DeviceCount.Tally.{
  empty_tally, is_cdn_inbound, is_cdn_node, observation_of, record_key, observe, observe_all,
  connections_of, count_of, count_devices, count_devices_from_ips,
}
use pg_limiter.DeviceCount.Sample.{complete, partial, count_devices-partial-le, count_devices-same}
use pg_limiter.DeviceCount.Addresses.{plain_ip, count_devices-from_ips}
use pg_limiter.DeviceCount.Bound.{count_devices-le, observe_all-enabled}

program : Unit {0}
unfolding subnet_key subnet_parts node_key device_key strip is_cdn_inbound is_cdn_node
    observation_of record_key observe observe_all count_of count_devices key_beq split_dots is_octet
program = tt

abbrev home : ConnectionInfo
home = record {
  ip = "10.0.0.7";
  node_id = some 1;
  node_name = "n1";
  inbound_protocol = "vless";
  last_seen = 5;
}

abbrev mobile : ConnectionInfo
mobile = record {
  ip = "10.0.0.9";
  node_id = some 2;
  node_name = "n2";
  inbound_protocol = "vless";
  last_seen = 6;
}

abbrev edge : ConnectionInfo
edge = record {
  ip = "172.16.0.1";
  node_id = some 3;
  node_name = "n3";
  inbound_protocol = "vmess";
  last_seen = 6;
}

abbrev user : List ConnectionInfo → UserType
user cs = record {
  name = "alice";
  ip = map (λ c. c.ip) cs;
  device_info = some (record { connections = cs; inbound_protocols = "vless" ∷ [] });
}

abbrev rules : DeviceCountingConfig
rules = record default_config { cdn_nodes = 3 ∷ []; disabled_nodes = 2 ∷ [] }

subnet_key_example : subnet_key "192.168.12.40" ≡ "192.168.12"
unfolding program
subnet_key_example = refl

subnet_key_leading_zero : subnet_key "192.168.012.40" ≡ "192.168.012.40"
unfolding program
subnet_key_leading_zero = refl

-- One home address and one CDN node, no overlap; the disabled node is ignored.
count_example :
    count_devices (some (user (home ∷ mobile ∷ edge ∷ home ∷ []))) (some rules) (pos 0) 0 ≡ 2
unfolding program connections_of
count_example = refl

count_devices-partial-le_example :
    count_devices (some (user (edge ∷ []))) (some (partial rules)) (pos 0) 0
    ≤ count_devices (some (user (home ∷ edge ∷ []))) (some (complete rules)) (pos 0) 0
unfolding connections_of
count_devices-partial-le_example =
    count_devices-partial-le rules (user (edge ∷ [])) (user (home ∷ edge ∷ [])) (pos 0) 0 0
      (λ e. cc e) (λ p h. ground arith)

count_devices-same_example :
    count_devices (some (user (home ∷ edge ∷ []))) (some (complete rules)) (pos 0) 0
    ≡ count_devices (some (user (edge ∷ home ∷ edge ∷ []))) (some (complete rules)) (pos 0) 0
unfolding connections_of
count_devices-same_example =
    count_devices-same rules (user (home ∷ edge ∷ [])) (user (edge ∷ home ∷ edge ∷ [])) (pos 0) 0 0
      (λ e. cc e) (λ p h. ground arith) (λ p h. ground arith)

count_devices-from_ips_example :
    count_devices (some (user (home ∷ mobile ∷ []))) (some (plain_ip rules)) (pos 0) 0
    ≡ count_devices_from_ips ("10.0.0.7" ∷ "10.0.0.9" ∷ []) (some (plain_ip rules))
unfolding connections_of
count_devices-from_ips_example =
    count_devices-from_ips rules (user (home ∷ mobile ∷ [])) (pos 0) 0 (λ e. cc e)
      (refl, (refl, tt))

-- The home address is seen directly and behind a CDN inbound, which adds no device.
abbrev relayed : ConnectionInfo
relayed = record home { inbound_protocol = "vmess" }

abbrev relaying : DeviceCountingConfig
relaying = record default_config { cdn_inbounds = "vmess" ∷ []; count_mode = "ip" }

relayed_run : count_devices (some (user (home ∷ relayed ∷ []))) (some relaying) (pos 0) 0 ≡ 1
unfolding program connections_of
relayed_run = refl

count_devices-le_example :
    count_devices
      (some (user (home ∷ relayed ∷ [])))
      (some (record relaying { partial_evidence = false }))
      (pos 0)
      0
    ≤ 1
unfolding program connections_of
count_devices-le_example =
    count_devices-le relaying false (user (home ∷ relayed ∷ [])) (pos 0) 0 (λ e. cc e)

observe_all-enabled_example :
    observe_all rules false (home ∷ []) empty_tally
    ≡ observe_all rules false (home ∷ mobile ∷ []) empty_tally
observe_all-enabled_example = observe_all-enabled rules false (home ∷ mobile ∷ []) empty_tally
