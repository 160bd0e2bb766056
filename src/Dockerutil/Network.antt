-- ===== src/Dockerutil/Network.antt =====
-- dockerutil/network.go: the address of Docker's bridge.
--
-- An IPv4 address is its four bytes. `mask` is how many bits of the network `net.ParseCIDR` found.
mod NextIp
mod Tests
use envbox.Prelude.{ℕ, ◌+◌, ◌*◌, ◌/◌, ◌%◌, ◌^◌}

pub record Ipv4 : Type 0 where
  pub b0 : ℕ
  pub b1 : ℕ
  pub b2 : ℕ
  pub b3 : ℕ

-- The bytes of a uint32, `v & 0xFF` of each shift.
address : ℕ → Ipv4
address v = record {
  b0 = v / 2 ^ 24 % 256;
  b1 = v / 2 ^ 16 % 256;
  b2 = v / 2 ^ 8 % 256;
  b3 = v % 256;
}

-- The uint32 of an address.
uint32_of : Ipv4 → ℕ
uint32_of ip =
    let v = ip.b0 * 2 ^ 24 % 2 ^ 32 in
    let v = (v + ip.b1 * 2 ^ 16) % 2 ^ 32 in
    let v = (v + ip.b2 * 2 ^ 8) % 2 ^ 32 in (v + ip.b3) % 2 ^ 32

-- `mustNextIPv4` of an IPv4 address
pub must_next_ipv4 : Ipv4 → ℕ → Ipv4
unfolding address uint32_of
must_next_ipv4 ip inc = address ((uint32_of ip + inc % 2 ^ 32) % 2 ^ 32)

-- `net.IPNet`
pub record IpNet : Type 0 where
  pub ip : Ipv4
  pub mask : ℕ

-- `BridgeIPFromCIDR` behind the parser of the text
pub bridge_ip_from_cidr : IpNet → Ipv4 × ℕ
bridge_ip_from_cidr net = (must_next_ipv4 net.ip 1, net.mask)
