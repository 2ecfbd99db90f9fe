-- ===== src/Net/Receive.antt =====
-- The way of a received frame through kernel/net.c, and the calls that open, use and close the
-- TCP connection.
use fobos_os.Base.{
  ℕ, zero, suc, ◌+◌, ◌*◌, ◌%◌, ◌^◌, Bool, true, false, not, ◌&&◌, ◌||◌, List, [], length, get_or,
  take, drop, ltb, min, ◌==◌, if◌then◌else◌,
}
use fobos_os.Wire.{rd16, rd32}
use fobos_os.Net.Link.{Net, TcpState, syn_sent, established, close_wait, last_ack, handle_arp}
use fobos_os.Net.Transport.{handle_icmp, handle_udp, handle_tcp, tcp_send_segment}

unfoldable pub handle_ipv4 : ℕ → List ℕ → Net → Net
handle_ipv4 ticks pkt n =
    let ihl = get_or pkt 0 0 % 16 * 4 in
    let proto = get_or pkt 9 0 in
    let dst = rd32 pkt 16 in
    let src = rd32 pkt 12 in
    let payload = drop ihl pkt in
    if ltb (length pkt) 20
    then n
    else if ltb ihl 20 || ltb (length pkt) ihl
    then n
    else if not (dst == n.our_ip) && not (dst == 0xFFFFFFFF)
    then n
    else if proto == 1
    then handle_icmp ticks payload src n
    else if proto == 17
    then handle_udp payload n
    else if proto == 6
    then handle_tcp payload src n
    else n

unfoldable pub net_rx_frame : ℕ → List ℕ → Net → Net
net_rx_frame ticks frame n =
    let type = rd16 frame 12 in
    if ltb (length frame) 14
    then n
    else if type == 0x0806
    then handle_arp (drop 14 frame) n
    else if type == 0x0800
    then handle_ipv4 ticks (drop 14 frame) n
    else n

abbrev pub is_open : TcpState → Bool
is_open established = true
is_open close_wait = true
is_open _ = false

unfoldable pub net_tcp_is_open : Net → Bool
net_tcp_is_open n = is_open n.tcp.state

-- `net_tcp_connect` up to its wait; `ticks` is `timer_ticks()`, `port` the next ephemeral port.
unfoldable pub start_connect : ℕ → ℕ → ℕ → ℕ → Net → Net
start_connect ticks port dst_ip dst_port n =
    let initial = (ticks % 2 ^ 32 * 0x10001 + 0x12345) % 2 ^ 32 in
    tcp_send_segment 2 [] (record n {
      tcp = record {
        state = syn_sent;
        remote_ip = dst_ip;
        remote_port = dst_port;
        local_port = port;
        snd_nxt = initial;
        rcv_nxt = 0;
        initial_snd = initial;
        rx = [];
        got_fin = false;
      };
    })

unfoldable pub next_ephemeral_port : ℕ → ℕ
next_ephemeral_port p =
    let p' = (p + 1) % 65536 in if (p' == 0) || ltb p' 0xC000 then 0xC001 else p'

-- The loop of `net_tcp_send`; a round sends 1 to 1400 bytes, so `length payload` rounds are enough.
unfoldable pub send_loop : ℕ → List ℕ → Net → Net
send_loop zero payload n = n
send_loop (suc fuel) payload n =
    let chunk = min (length payload) 1400 in
    let n' = tcp_send_segment 24 (take chunk payload) n in
    let rest =
      send_loop fuel (drop chunk payload)
        (record n' { tcp = record n'.tcp { snd_nxt = (n'.tcp.snd_nxt + chunk) % 2 ^ 32 } }) in
    if ltb 0 (length payload) then rest else n

abbrev pub is_established : TcpState → Bool
is_established established = true
is_established _ = false

unfoldable pub net_tcp_send : List ℕ → Net → Net
net_tcp_send payload n =
    let n' = send_loop (length payload) payload n in if is_established n.tcp.state then n' else n

-- What `net_tcp_close` does before it waits.
unfoldable pub start_close : Net → Net
start_close n =
    let t = n.tcp in
    let n' =
      tcp_send_segment 17 [] (record n { tcp = record t { snd_nxt = (t.snd_nxt + 1) % 2 ^ 32 } }) in
    if is_open t.state then record n' { tcp = record n'.tcp { state = last_ack } } else n
