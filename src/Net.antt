-- ===== src/Net.antt =====
-- What the proxy calls of Go's package net, as parameters: an address or a mask is its bytes.
use lhotse_agent.Prelude.{Str, Bool, Option}

pub record IpNet : Type 0 where
  pub ip : Str
  pub mask : Str

-- `split_host_port` is the host and the port, or `none` on an error.
pub record Net : Type 0 where
  pub split_host_port : Str → Option (Str × Str)
  pub join_host_port : Str → Str → Str
  pub parse_ip : Str → Option Str
  pub parse_cidr : Str → Option (Str × IpNet)
  pub ip_equal : Str → Str → Bool
  pub contains : IpNet → Str → Bool
