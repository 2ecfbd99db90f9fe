-- ===== src/Net/Transport.antt =====
-- ICMP, UDP and TCP of kernel/net.c.
use fobos_os.Base.{
  ℕ, zero, suc, ◌+◌, ◌-◌, ◌*◌, ◌/◌, ◌%◌, ◌^◌, Bool, true, false, not, ◌&&◌, ◌||◌, List, [], ◌∷◌,
  ◌++◌, length, get_or, take, drop, ltb, min, ◌==◌, if◌then◌else◌,
}
use fobos_os.Wire.{rd16, rd32, wr16, wr32, csum_add, csum_finish, csum16}
use fobos_os.Net.Link.{Net, Tcp, TcpState, closed, syn_sent, established, close_wait, send_ipv4}

-- `pkt[8 + i] = 'a' + i % 26`, from letter `i` on.
unfoldable pub letters : ℕ → ℕ → List ℕ
letters zero i = []
letters (suc n) i = (97 + i % 26) ∷ letters n (i + 1)

-- Type, code, checksum, and what follows it.
abbrev pub icmp_packet : ℕ → ℕ → ℕ → List ℕ → List ℕ
icmp_packet type code sum rest = (type ∷ code ∷ []) ++ wr16 sum ++ rest

unfoldable pub send_icmp_echo : ℕ → Net → Net
send_icmp_echo dst n =
    let rest = wr16 0x1234 ++ wr16 1 ++ letters 32 0 in
    send_ipv4 dst 1 (icmp_packet 8 0 (csum16 (icmp_packet 8 0 0 rest)) rest) n

-- `ticks` is `timer_ticks()`. An echo request is answered with its own bytes, the type and the
-- checksum replaced.
unfoldable pub handle_icmp : ℕ → List ℕ → ℕ → Net → Net
handle_icmp ticks pkt src n =
    let type = get_or pkt 0 0 in
    let code = get_or pkt 1 0 in
    let rest = drop 4 pkt in
    if ltb (length pkt) 8
    then n
    else if type == 0
    then if src == n.ping_dest
      then record n {
        ping_rtt = (ticks + 2 ^ 64 - n.ping_sent) % 2 ^ 64 * 10 % 2 ^ 64;
        ping_reply = true;
      }
      else n
    else if type == 8
    then if ltb 40 (length pkt)
      then n
      else send_ipv4 src 1 (icmp_packet 0 code (csum16 (icmp_packet 0 code 0 rest)) rest) n
    else n

-- The pseudo header in front of a UDP or TCP packet for its checksum.
abbrev pub pseudo : ℕ → ℕ → ℕ → ℕ → List ℕ
pseudo src dst proto len = wr32 src ++ wr32 dst ++ (0 ∷ proto ∷ []) ++ wr16 len

abbrev pub udp_packet : ℕ → ℕ → ℕ → List ℕ → List ℕ
udp_packet src_port dst_port sum payload =
    wr16 src_port ++ wr16 dst_port ++ wr16 (8 + length payload) ++ wr16 sum ++ payload

unfoldable pub udp_send : ℕ → ℕ → ℕ → List ℕ → Net → Net
udp_send src_port dst_ip dst_port payload n =
    let len = length payload in
    let acc =
      csum_add (csum_add 0 (pseudo n.our_ip dst_ip 17 (8 + len)))
        (udp_packet src_port dst_port 0 payload) in
    let cs = csum_finish acc in
    let cs' = if cs == 0 then 0xFFFF else cs in
    if ltb 1472 len then n else send_ipv4 dst_ip 17 (udp_packet src_port dst_port cs' payload) n

unfoldable pub handle_udp : List ℕ → Net → Net
handle_udp pkt n =
    let dst_port = rd16 pkt 2 in
    let ulen = rd16 pkt 4 in
    let payload_len = min (ulen - 8) 2048 in
    if ltb (length pkt) 8
    then n
    else if not (dst_port == n.udp_our_port)
    then n
    else if ltb ulen 8 || ltb (length pkt) ulen
    then n
    else record n {
      udp_buf = take payload_len (drop 8 pkt);
      udp_recv_port = dst_port;
      udp_got = true;
    }

abbrev pub tcp_packet : Tcp → ℕ → ℕ → List ℕ → List ℕ
tcp_packet t flags sum payload =
    wr16 t.local_port
    ++ wr16 t.remote_port
    ++ wr32 t.snd_nxt
    ++ wr32 t.rcv_nxt
    ++ (80 ∷ flags ∷ [])
    ++ wr16 65535
    ++ wr16 sum
    ++ wr16 0
    ++ payload

unfoldable pub tcp_send_segment : ℕ → List ℕ → Net → Net
tcp_send_segment flags payload n =
    let len = length payload in
    let t = n.tcp in
    let acc =
      csum_add (csum_add 0 (pseudo n.our_ip t.remote_ip 6 (20 + len)))
        (tcp_packet t flags 0 payload) in
    if ltb 1500 len
    then n
    else send_ipv4 t.remote_ip 6 (tcp_packet t flags (csum_finish acc) payload) n

abbrev pub tcp_rx_size : ℕ
tcp_rx_size = 65536

-- Bits of the flags: FIN 1, SYN 2, RST 4, ACK 16.
abbrev pub has_flag : ℕ → ℕ → Bool
has_flag flag flags = flags / flag % 2 == 1

-- The data part of an open connection: what arrives in order is kept as far as there is space.
unfoldable pub take_data : ℕ → List ℕ → Tcp → Tcp
take_data seq payload t =
    let space = tcp_rx_size - length t.rx in
    if seq == t.rcv_nxt
    then record t {
      rx = t.rx ++ take (min (length payload) space) payload;
      rcv_nxt = (t.rcv_nxt + length payload) % 2 ^ 32;
    }
    else t

abbrev pub after_fin : TcpState → TcpState
after_fin established = close_wait
after_fin s = s

unfoldable pub take_fin : Tcp → Tcp
take_fin t = record t {
  rcv_nxt = (t.rcv_nxt + 1) % 2 ^ 32;
  got_fin = true;
  state = after_fin t.state;
}

-- The part of `handle_tcp` for an open connection.
unfoldable pub handle_open : ℕ → ℕ → List ℕ → Net → Net
handle_open seq flags payload n =
    let n' =
      if ltb 0 (length payload)
      then tcp_send_segment 16 [] (record n { tcp = take_data seq payload n.tcp })
      else n in
    if has_flag 1 flags then tcp_send_segment 16 [] (record n' { tcp = take_fin n'.tcp }) else n'

-- The part for a connection that waits for its SYN to be answered.
unfoldable pub handle_syn_sent : ℕ → ℕ → Net → Net
handle_syn_sent seq flags n =
    if has_flag 2 flags && has_flag 16 flags
    then tcp_send_segment 16 [] (record n {
      tcp = record n.tcp {
        rcv_nxt = (seq + 1) % 2 ^ 32;
        snd_nxt = (n.tcp.initial_snd + 1) % 2 ^ 32;
        state = established;
      };
    })
    else n

abbrev pub by_state : TcpState → ℕ → ℕ → List ℕ → Net → Net
by_state syn_sent seq flags payload n = handle_syn_sent seq flags n
by_state established seq flags payload n = handle_open seq flags payload n
by_state close_wait seq flags payload n = handle_open seq flags payload n
by_state _ seq flags payload n = n

abbrev pub is_closed : TcpState → Bool
is_closed closed = true
is_closed _ = false

-- The segment belongs to the connection and its header is whole.
unfoldable pub accepts : List ℕ → ℕ → Tcp → Bool
accepts pkt src_ip t =
    let data_off = get_or pkt 12 0 / 16 * 4 in
    not (ltb (length pkt) 20)
    && not (is_closed t.state)
    && (src_ip == t.remote_ip)
    && (rd16 pkt 0 == t.remote_port)
    && (rd16 pkt 2 == t.local_port)
    && not (ltb data_off 20 || ltb (length pkt) data_off)

unfoldable pub handle_tcp : List ℕ → ℕ → Net → Net
handle_tcp pkt src_ip n =
    let flags = get_or pkt 13 0 in
    let data_off = get_or pkt 12 0 / 16 * 4 in
    if not (accepts pkt src_ip n.tcp)
    then n
    else if has_flag 4 flags
    then record n { tcp = record n.tcp { state = closed } }
    else by_state n.tcp.state (rd32 pkt 4) flags (drop data_off pkt) n
