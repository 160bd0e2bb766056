-- ===== src/Dockerutil/Network/NextIp.antt =====
-- `mustNextIPv4` of dockerutil/network.go as addition on addresses.
use envbox.Prelude.{ℕ, ◌+◌, ◌*◌, ◌/◌, ◌%◌, ◌^◌, ◌<◌, ◌≡◌, ◌∙◌, arith}
use envbox.Dockerutil.Network.{Ipv4, address, uint32_of, must_next_ipv4}

-- Four bytes.
abbrev pub IsIpv4 : Ipv4 → Type 0
IsIpv4 ip = (ip.b0 < 256) × (ip.b1 < 256) × (ip.b2 < 256) × (ip.b3 < 256)

-- The number that an address is.
abbrev pub number : Ipv4 → ℕ
number ip = ip.b0 * 16777216 + ip.b1 * 65536 + ip.b2 * 256 + ip.b3

bytes_number :
    (v : ℕ)
    → v < 4294967296
    → v / 16777216 % 256 * 16777216 + v / 65536 % 256 * 65536 + v / 256 % 256 * 256 + v % 256 ≡ v
bytes_number v h = omega arith

address-number : (v : ℕ) → v < 2 ^ 32 → IsIpv4 (address v) × (number (address v) ≡ v)
unfolding address
address-number v h = ((omega arith, omega arith, omega arith, omega arith), bytes_number v h)

uint32_of-number : (ip : Ipv4) → IsIpv4 ip → uint32_of ip ≡ number ip
unfolding uint32_of
uint32_of-number ip (h0, h1, h2, h3) = omega arith

-- The result is an address, and its number is the sum modulo 2 ^ 32: no carry is lost between bytes.
pub number-must_next_ipv4 :
    (ip : Ipv4) (inc : ℕ)
    → IsIpv4 ip
    → IsIpv4 (must_next_ipv4 ip inc) × (number (must_next_ipv4 ip inc) ≡ (number ip + inc) % 2 ^ 32)
unfolding must_next_ipv4
number-must_next_ipv4 ip inc h =
    let sum = (uint32_of ip + inc % 2 ^ 32) % 2 ^ 32 in
    let (is_ipv4, e) = address-number sum (omega arith) in
    let same_sum : sum ≡ (number ip + inc) % 2 ^ 32 = rw (uint32_of-number ip h) (omega arith) in
    (is_ipv4, e ∙ same_sum)
