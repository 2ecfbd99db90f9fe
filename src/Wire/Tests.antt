-- ===== src/Wire/Tests.antt =====
-- Runs of the byte-level helpers of kernel/net.c, and their theorems at them.
use fobos_os.Base.{◌≡◌, refl, true, some, [], ◌∷◌, arith}
use fobos_os.Wire.{
  ip_from, net_ip_from_string, scan_parts, scan_number, same_string, ends_with_domain,
  net_host_matches,
}
use fobos_os.Wire.Address.{dotted, decimal, net_ip_from_string-dotted}

-- "10.0.2.15", and "a.b" as a parent domain of "x.a.b".
address_text : net_ip_from_string (dotted 10 0 2 15 []) ≡ some 0x0A00020F
unfolding net_ip_from_string scan_parts scan_number decimal
address_text = refl

domain : net_host_matches (97 ∷ 46 ∷ 98 ∷ []) (120 ∷ 46 ∷ 97 ∷ 46 ∷ 98 ∷ []) ≡ true
unfolding net_host_matches same_string ends_with_domain
domain = refl

net_ip_from_string-dotted_example :
    (net_ip_from_string (dotted 10 0 2 15 []) ≡ some (ip_from 10 0 2 15))
    × (net_ip_from_string (dotted 10 0 2 15 (46 ∷ 120 ∷ [])) ≡ some (ip_from 10 0 2 15))
net_ip_from_string-dotted_example =
    net_ip_from_string-dotted 10 0 2 15 (120 ∷ []) (omega arith) (omega arith) (omega arith)
      (omega arith)
