-- ===== src/Net/Tests.antt =====
-- Runs of kernel/net.c between two machines and on a connection, and its theorems at them.
use fobos_os.Base.{ℕ, ◌+◌, ◌≡◌, ◌<◌, refl, false, some, List, [], ◌∷◌, ◌++◌, arith}
use fobos_os.Wire.{ip_from}
use fobos_os.Net.Link.{Net, established, lookup_arp, send_arp_request, send_ipv4}
use fobos_os.Net.Transport.{handle_tcp, accepts, handle_open, take_data, tcp_send_segment}
use fobos_os.Net.Receive.{net_rx_frame}
use fobos_os.Net.Arp.{HasAddress, request, reply, arp_exchange}
use fobos_os.Net.Stream.{InStream, Genuine, deliver, deliver-InStream, bytes_of}

-- A machine of the subnet 10.0.2.0/24 with a connection to port 80 of 10.0.2.2.
abbrev machine : ℕ → Net
machine k = record {
  our_ip = ip_from 10 0 2 k;
  gateway = ip_from 10 0 2 2;
  mac = 2 ∷ 0 ∷ 0 ∷ 0 ∷ 0 ∷ k ∷ [];
  last_mac = [];
  last_ip = 0;
  last_valid = false;
  ping_reply = false;
  ping_dest = 0;
  ping_sent = 0;
  ping_rtt = 0;
  udp_our_port = 0xC001;
  udp_got = false;
  udp_recv_port = 0;
  udp_buf = [];
  tcp = record {
    state = established;
    remote_ip = ip_from 10 0 2 2;
    remote_port = 80;
    local_port = 0xC001;
    snd_nxt = 1;
    rcv_nxt = 1001;
    initial_snd = 0;
    rx = [];
    got_fin = false;
  };
  sent = [];
}

machine-HasAddress : (k : ℕ) → k < 256 → HasAddress (machine k)
machine-HasAddress k h = record { mac_length = refl; ip_bound = omega arith }

arp_exchange_example :
    ((send_arp_request (machine 15).our_ip (machine 2)).sent
      ≡ [] ++ (request (machine 2) (machine 15) ∷ []))
    × ((net_rx_frame 0 (request (machine 2) (machine 15)) (machine 15)).sent
        ≡ [] ++ (reply (machine 2) (machine 15) ∷ []))
    × (lookup_arp
          (ip_from 10 0 2 2)
          (net_rx_frame 0 (request (machine 2) (machine 15)) (machine 15))
        ≡ some (machine 2).mac)
    × (lookup_arp (ip_from 10 0 2 15) (net_rx_frame 0 (reply (machine 2) (machine 15)) (machine 2))
        ≡ some (machine 15).mac)
arp_exchange_example =
    arp_exchange 0 (machine 2) (machine 15) (machine-HasAddress 2 (omega arith))
      (machine-HasAddress 15 (omega arith))

-- From port 80 to port 0xC001: sequence number, ACK and PSH, and the data.
abbrev segment : ℕ → List ℕ → List ℕ
segment seq payload =
    0 ∷ 80 ∷ 0xC0 ∷ 1 ∷ 0 ∷ 0 ∷ 3 ∷ seq ∷ 0 ∷ 0 ∷ 0 ∷ 1 ∷ 80 ∷ 24 ∷ 0 ∷ 0 ∷ 0 ∷ 0 ∷ 0 ∷ 0 ∷ payload

-- The stream of the letters a, b, c and so on, whose first byte has number 1001.
abbrev alphabet : ℕ → ℕ
alphabet i = 97 + i

abbrev packets : List (ℕ × List ℕ)
packets =
    (ip_from 10 0 2 2, segment 235 (99 ∷ []))
    ∷ (ip_from 10 0 2 2, segment 233 (97 ∷ 98 ∷ []))
    ∷ (ip_from 10 0 2 2, segment 235 (99 ∷ []))
    ∷ []

machine-InStream : InStream 1001 alphabet (machine 15).tcp
unfolding bytes_of
machine-InStream = record { past_syn = refl; kept = refl; expected = refl; bounded = omega arith }

late-Genuine : Genuine 1001 alphabet 1003 24 (99 ∷ [])
unfolding bytes_of
late-Genuine = record {
  off = 2;
  no_fin = refl;
  seq_eq = refl;
  payload_eq = refl;
  within = omega arith;
}

early-Genuine : Genuine 1001 alphabet 1001 24 (97 ∷ 98 ∷ [])
unfolding bytes_of
early-Genuine = record {
  off = 0;
  no_fin = refl;
  seq_eq = refl;
  payload_eq = refl;
  within = omega arith;
}

-- Out of order at first: the first packet is ignored, and sent again it is taken.
abc : (deliver packets (machine 15)).tcp.rx ≡ 97 ∷ 98 ∷ 99 ∷ []
unfolding deliver handle_tcp accepts handle_open take_data tcp_send_segment send_ipv4 lookup_arp
    send_arp_request
abc = refl

deliver-InStream_example : InStream 1001 alphabet (deliver packets (machine 15)).tcp
deliver-InStream_example =
    deliver-InStream 1001 alphabet packets (machine 15) machine-InStream
      (late-Genuine, (early-Genuine, (late-Genuine, refl)))
