-- ===== src/Dockerutil/Network/Tests.antt =====
-- The next address of dockerutil/network.go where a carry goes over two bytes.
use envbox.Prelude.{◌+◌, ◌%◌, ◌^◌, ◌≡◌, refl, arith}
use envbox.Dockerutil.Network.{Ipv4, must_next_ipv4, bridge_ip_from_cidr}
use envbox.Dockerutil.Network.NextIp.{IsIpv4, number, number-must_next_ipv4}

abbrev last_of_block : Ipv4
last_of_block = record { b0 = 10; b1 = 0; b2 = 255; b3 = 255 }

default_bridge :
    bridge_ip_from_cidr (record { ip = record { b0 = 172; b1 = 19; b2 = 0; b3 = 0 }; mask = 30 })
    ≡ (record { b0 = 172; b1 = 19; b2 = 0; b3 = 1 }, 30)
unfolding bridge_ip_from_cidr must_next_ipv4
default_bridge = refl

number-must_next_ipv4_run :
    IsIpv4 (must_next_ipv4 last_of_block 1)
    × (number (must_next_ipv4 last_of_block 1) ≡ (number last_of_block + 1) % 2 ^ 32)
number-must_next_ipv4_run =
    number-must_next_ipv4 last_of_block 1 (omega arith, omega arith, omega arith, omega arith)
