-- ===== src/Types.antt =====
-- utils/types.py: the records that the collectors fill. Fields that no modelled code reads are
-- left out. A node id is `none` where the collector stored no int.
use pg_limiter.Prelude.{ℕ, String, Option, List}

pub record ConnectionInfo : Type 0 where
  pub ip : String
  pub node_id : Option ℕ
  pub node_name : String
  pub inbound_protocol : String
  pub last_seen : ℕ

pub record DeviceInfo : Type 0 where
  pub connections : List ConnectionInfo
  pub inbound_protocols : List String

pub record UserType : Type 0 where
  pub name : String
  pub ip : List String
  pub device_info : Option DeviceInfo
