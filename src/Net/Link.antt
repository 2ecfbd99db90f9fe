-- ===== src/Net/Link.antt =====
-- State, ARP and IPv4 output of kernel/net.c. The frames handed to the network card are kept in the
-- state, in order. A frame is the list of its bytes: the fields that the code writes one after the
-- other into a buffer are appended to one another, zeroed ones included.
use fobos_os.Base.{
  ℕ, ◌+◌, ◌/◌, Bool, true, not, Option, none, some, List, [], ◌∷◌, ◌++◌, length, take, drop,
  replicate, ltb, ◌==◌, if◌then◌else◌,
}
use fobos_os.Wire.{rd16, rd32, wr16, wr32, csum16}

pub data TcpState : Type 0 where
  closed : TcpState
  syn_sent : TcpState
  established : TcpState
  close_wait : TcpState
  last_ack : TcpState

-- The `g_tcp_*` variables; `rx` is the filled part of the receive buffer.
pub record Tcp : Type 0 where
  pub state : TcpState
  pub remote_ip : ℕ
  pub remote_port : ℕ
  pub local_port : ℕ
  pub snd_nxt : ℕ
  pub rcv_nxt : ℕ
  pub initial_snd : ℕ
  pub rx : List ℕ
  pub got_fin : Bool

-- The other variables, and the frames sent.
pub record Net : Type 0 where
  pub our_ip : ℕ
  pub gateway : ℕ
  pub mac : List ℕ
  pub last_mac : List ℕ
  pub last_ip : ℕ
  pub last_valid : Bool
  pub ping_reply : Bool
  pub ping_dest : ℕ
  pub ping_sent : ℕ
  pub ping_rtt : ℕ
  pub udp_our_port : ℕ
  pub udp_got : Bool
  pub udp_recv_port : ℕ
  pub udp_buf : List ℕ
  pub tcp : Tcp
  pub sent : List (List ℕ)

-- `rtl8139_send`
abbrev pub transmit : List ℕ → Net → Net
transmit frame n = record n { sent = n.sent ++ (frame ∷ []) }

unfoldable pub cache_arp : ℕ → List ℕ → Net → Net
cache_arp ip mac n = record n { last_mac = take 6 mac; last_ip = ip; last_valid = true }

unfoldable pub lookup_arp : ℕ → Net → Option (List ℕ)
lookup_arp ip n =
    if not n.last_valid then none else if n.last_ip == ip then some n.last_mac else none

-- The 42 bytes of an ARP message over Ethernet: destination, sender and target.
abbrev pub arp_frame : List ℕ → ℕ → List ℕ → ℕ → List ℕ → ℕ → List ℕ
arp_frame dst oper sha spa tha tpa =
    dst
    ++ sha
    ++ wr16 0x0806
    ++ wr16 1
    ++ wr16 0x0800
    ++ (6 ∷ 4 ∷ [])
    ++ wr16 oper
    ++ sha
    ++ wr32 spa
    ++ tha
    ++ wr32 tpa

unfoldable pub send_arp_request : ℕ → Net → Net
send_arp_request target n =
    transmit (arp_frame (replicate 6 0xFF) 1 n.mac n.our_ip (replicate 6 0) target) n

-- The header of 20 bytes, with `sum` in the checksum's place.
unfoldable pub ipv4_header : ℕ → ℕ → ℕ → ℕ → ℕ → List ℕ
ipv4_header sum proto plen src dst =
    (0x45 ∷ 0 ∷ [])
    ++ wr16 (20 + plen)
    ++ wr16 0
    ++ wr16 0x4000
    ++ (64 ∷ proto ∷ [])
    ++ wr16 sum
    ++ wr32 src
    ++ wr32 dst

-- The next hop: the destination itself on our subnet, else the gateway.
abbrev pub next_hop : ℕ → Net → ℕ
next_hop dst n = if n.our_ip / 256 == dst / 256 then dst else n.gateway

-- With the next hop's hardware address the frame goes out, without it a request for it.
abbrev pub send_via : Option (List ℕ) → ℕ → ℕ → List ℕ → Net → Net
send_via none dst proto payload n = send_arp_request (next_hop dst n) n
send_via (some dmac) dst proto payload n =
    let plen = length payload in
    let sum = csum16 (ipv4_header 0 proto plen n.our_ip dst) in
    transmit (dmac ++ n.mac ++ wr16 0x0800 ++ ipv4_header sum proto plen n.our_ip dst ++ payload) n

unfoldable pub send_ipv4 : ℕ → ℕ → List ℕ → Net → Net
send_ipv4 dst proto payload n =
    if ltb 1534 (length payload + 20 + 14)
    then n
    else send_via (lookup_arp (next_hop dst n) n) dst proto payload n

-- `memcpy` of six bytes at `i`.
abbrev pub mac_at : ℕ → List ℕ → List ℕ
mac_at i p = take 6 (drop i p)

unfoldable pub handle_arp : List ℕ → Net → Net
handle_arp pkt n =
    let oper = rd16 pkt 6 in
    let spa = rd32 pkt 14 in
    let tpa = rd32 pkt 24 in
    let sha = mac_at 8 pkt in
    let known = cache_arp spa sha n in
    if ltb (length pkt) 28
    then n
    else if oper == 1
    then if tpa == n.our_ip then transmit (arp_frame sha 2 n.mac n.our_ip sha spa) known else known
    else if oper == 2
    then known
    else n
