-- ===== src/Net/Arp.antt =====
-- The ARP exchange of kernel/net.c between two machines that run it, and the checksum of the IPv4
-- headers it sends.
use fobos_os.Base.{
  ℕ, ◌^◌, ◌<◌, ◌≡◌, refl, List, [], ◌∷◌, ◌++◌, length, replicate, drop, take, some, true, arith,
  ◌==◌, ◌∙◌, ap,
}
use fobos_os.Wire.{rd16, rd32, wr32}
use fobos_os.Net.Link.{
  Net, arp_frame, handle_arp, cache_arp, lookup_arp, mac_at, transmit, send_arp_request,
}
use fobos_os.Net.Receive.{net_rx_frame}

pub rd32-wr32 : (v : ℕ) → v < 2 ^ 32 → rd32 (wr32 v) 0 ≡ v
rd32-wr32 v h = omega arith

-- A hardware address of six bytes.
record IsMac (l : List ℕ) : Type 0 where
  m0 : ℕ
  m1 : ℕ
  m2 : ℕ
  m3 : ℕ
  m4 : ℕ
  m5 : ℕ
  shape : l ≡ m0 ∷ m1 ∷ m2 ∷ m3 ∷ m4 ∷ m5 ∷ []

IsMac-of_length : (l : List ℕ) → length l ≡ 6 → IsMac l
IsMac-of_length (a ∷ b ∷ c ∷ d ∷ e ∷ f ∷ []) h = record {
  m0 = a;
  m1 = b;
  m2 = c;
  m3 = d;
  m4 = e;
  m5 = f;
  shape = refl;
}
IsMac-of_length [] h = absurd (omega (arith, h))
IsMac-of_length (a ∷ []) h = absurd (omega (arith, h))
IsMac-of_length (a ∷ b ∷ []) h = absurd (omega (arith, h))
IsMac-of_length (a ∷ b ∷ c ∷ []) h = absurd (omega (arith, h))
IsMac-of_length (a ∷ b ∷ c ∷ d ∷ []) h = absurd (omega (arith, h))
IsMac-of_length (a ∷ b ∷ c ∷ d ∷ e ∷ []) h = absurd (omega (arith, h))
IsMac-of_length (a ∷ b ∷ c ∷ d ∷ e ∷ f ∷ g ∷ l) h = absurd (omega (arith, h))

-- What `handle_arp` reads from a message that `arp_frame` built.
record Reads (dst sha tha : List ℕ) (oper spa tpa : ℕ) : Type 0 where
  size : length (drop 14 (arp_frame dst oper sha spa tha tpa)) ≡ 28
  protocol : rd16 (arp_frame dst oper sha spa tha tpa) 12 ≡ 0x0806
  whole : length (arp_frame dst oper sha spa tha tpa) ≡ 42
  oper_eq : rd16 (drop 14 (arp_frame dst oper sha spa tha tpa)) 6 ≡ oper
  spa_eq : rd32 (drop 14 (arp_frame dst oper sha spa tha tpa)) 14 ≡ spa
  tpa_eq : rd32 (drop 14 (arp_frame dst oper sha spa tha tpa)) 24 ≡ tpa
  sha_eq : take 6 (mac_at 8 (drop 14 (arp_frame dst oper sha spa tha tpa))) ≡ sha
  sha_mac : mac_at 8 (drop 14 (arp_frame dst oper sha spa tha tpa)) ≡ sha

Reads-arp_frame :
    (dst sha tha : List ℕ) (oper spa tpa : ℕ)
    → length dst ≡ 6
    → length sha ≡ 6
    → length tha ≡ 6
    → oper < 65536
    → spa < 2 ^ 32
    → tpa < 2 ^ 32
    → Reads dst sha tha oper spa tpa
Reads-arp_frame dst sha tha oper spa tpa hd hs ht ho hp hq =
    let d = IsMac-of_length dst hd in
    let s = IsMac-of_length sha hs in
    let t = IsMac-of_length tha ht in
    rw (d.shape, s.shape, t.shape)
      (record {
        size = refl;
        protocol = refl;
        whole = refl;
        oper_eq = omega arith;
        spa_eq = rd32-wr32 spa hp;
        tpa_eq = rd32-wr32 tpa hq;
        sha_eq = refl;
        sha_mac = refl;
      })

answered :
    (ticks spa : ℕ) (dst sha tha : List ℕ) (n : Net)
    → Reads dst sha tha 1 spa n.our_ip
    → net_rx_frame ticks (arp_frame dst 1 sha spa tha n.our_ip) n
      ≡ transmit (arp_frame sha 2 n.mac n.our_ip sha spa) (cache_arp spa sha n)
unfolding net_rx_frame handle_arp
answered ticks spa dst sha tha n r =
    let same : (n.our_ip == n.our_ip) ≡ true = ground arith in
    rw (r.whole, r.protocol, r.size, r.oper_eq, r.spa_eq, r.tpa_eq, r.sha_mac, same) refl

learnt :
    (ticks spa tpa : ℕ) (dst sha tha : List ℕ) (n : Net)
    → Reads dst sha tha 2 spa tpa
    → net_rx_frame ticks (arp_frame dst 2 sha spa tha tpa) n ≡ cache_arp spa sha n
unfolding net_rx_frame handle_arp
learnt ticks spa tpa dst sha tha n r =
    rw (r.whole, r.protocol, r.size, r.oper_eq, r.spa_eq, r.sha_mac) refl

lookup_arp-cache_arp :
    (ip : ℕ) (mac : List ℕ) (n : Net)
    → length mac ≡ 6
    → lookup_arp ip (cache_arp ip mac n) ≡ some mac
unfolding lookup_arp cache_arp
lookup_arp-cache_arp ip mac n h =
    let m = IsMac-of_length mac h in
    let same : (ip == ip) ≡ true = ground arith in rw (same, m.shape) refl

lookup_arp-transmit :
    (ip : ℕ) (frame : List ℕ) (n : Net) → lookup_arp ip (transmit frame n) ≡ lookup_arp ip n
unfolding lookup_arp
lookup_arp-transmit ip frame n = refl

cache_arp_sent :
    (ip : ℕ) (mac : List ℕ) (n : Net) (frame : List ℕ)
    → (transmit frame (cache_arp ip mac n)).sent ≡ n.sent ++ (frame ∷ [])
unfolding cache_arp
cache_arp_sent ip mac n frame = refl

-- What one machine must have for the exchange: six bytes of hardware address, 32 bits of address.
pub record HasAddress (n : Net) : Type 0 where
  pub mac_length : length n.mac ≡ 6
  pub ip_bound : n.our_ip < 2 ^ 32

-- The request for the address of `b` that `a` sends out.
abbrev pub request : Net → Net → List ℕ
request a b = arp_frame (replicate 6 0xFF) 1 a.mac a.our_ip (replicate 6 0) b.our_ip

abbrev pub reply : Net → Net → List ℕ
reply a b = arp_frame a.mac 2 b.mac b.our_ip a.mac a.our_ip

-- The exchange between two machines that run the stack: `a` sends a request for the address of
-- `b`; `b` answers it with one frame and knows the hardware address of `a` from then on; and when
-- the answer arrives, `a` knows that of `b`.
pub arp_exchange :
    (ticks : ℕ) (a b : Net)
    → HasAddress a
    → HasAddress b
    → let b' = net_rx_frame ticks (request a b) b in
      ((send_arp_request b.our_ip a).sent ≡ a.sent ++ (request a b ∷ []))
      × (b'.sent ≡ b.sent ++ (reply a b ∷ []))
      × (lookup_arp a.our_ip b' ≡ some a.mac)
      × (lookup_arp b.our_ip (net_rx_frame ticks (reply a b) a) ≡ some b.mac)
unfolding send_arp_request
arp_exchange ticks a b ha hb =
    let asked =
      Reads-arp_frame (replicate 6 0xFF) a.mac (replicate 6 0) 1 a.our_ip b.our_ip refl
        ha.mac_length refl (omega arith) ha.ip_bound hb.ip_bound in
    let got =
      Reads-arp_frame a.mac b.mac a.mac 2 b.our_ip a.our_ip ha.mac_length hb.mac_length
        ha.mac_length (omega arith) hb.ip_bound ha.ip_bound in
    let first = answered ticks a.our_ip (replicate 6 0xFF) a.mac (replicate 6 0) b asked in
    let second = learnt ticks b.our_ip a.our_ip a.mac b.mac a.mac a got in
    (
      refl,
      ap (λ n. n.sent) first ∙ cache_arp_sent a.our_ip a.mac b (reply a b),
      ap (lookup_arp a.our_ip) first
          ∙ lookup_arp-transmit a.our_ip (reply a b) (cache_arp a.our_ip a.mac b)
          ∙ lookup_arp-cache_arp a.our_ip a.mac b ha.mac_length,
      ap (lookup_arp b.our_ip) second ∙ lookup_arp-cache_arp b.our_ip b.mac a hb.mac_length,
    )
