-- ===== src/Net/Stream.antt =====
-- The TCP connection of kernel/net.c: which segments it takes, and that what it keeps is the stream.
use fobos_os.Base.{
  take_all, ℕ, zero, suc, ◌+◌, ◌-◌, ◌*◌, ◌/◌, ◌%◌, ◌^◌, ◌≤◌, ◌≡◌, refl, Bool, true, false, List, [],
  ◌∷◌, ◌++◌, length, length-append, drop, min, none, some, Option, arith, ◌==◌, ltb, Bool-cases,
  inl, inr, ap, get_or, subst,
}
use fobos_os.Wire.{rd32, csum_add, csum_finish}
use fobos_os.Net.Link.{
  Net, Tcp, TcpState, closed, syn_sent, established, close_wait, last_ack, send_ipv4, send_via,
  lookup_arp, next_hop, send_arp_request,
}
use fobos_os.Net.Transport.{
  tcp_send_segment, take_data, handle_open, handle_tcp, accepts, has_flag, tcp_rx_size, by_state,
  pseudo, tcp_packet,
}

send_via-tcp :
    (o : Option (List ℕ)) (dst proto : ℕ) (payload : List ℕ) (n : Net)
    → (send_via o dst proto payload n).tcp ≡ n.tcp
unfolding send_arp_request
send_via-tcp none dst proto payload n = refl
send_via-tcp (some mac) dst proto payload n = refl

send_ipv4-tcp :
    (dst proto : ℕ) (payload : List ℕ) (n : Net) → (send_ipv4 dst proto payload n).tcp ≡ n.tcp
unfolding send_ipv4
send_ipv4-tcp dst proto payload n =
    let via = send_via-tcp (lookup_arp (next_hop dst n) n) dst proto payload n in
    elim (Bool-cases (ltb 1534 (length payload + 20 + 14))) [ inl k ↦ rw k refl | inr k ↦ rw k via ]

-- Sending leaves the connection as it is.
tcp_send_segment-tcp :
    (flags : ℕ) (payload : List ℕ) (n : Net) → (tcp_send_segment flags payload n).tcp ≡ n.tcp
unfolding tcp_send_segment
tcp_send_segment-tcp flags payload n =
    let len = length payload in
    let acc =
      csum_add (csum_add 0 (pseudo n.our_ip n.tcp.remote_ip 6 (20 + len)))
        (tcp_packet n.tcp flags 0 payload) in
    elim (Bool-cases (ltb 1500 (length payload))) [
      | inl k ↦ rw k refl
      | inr k ↦
          rw k
            (send_ipv4-tcp n.tcp.remote_ip 6 (tcp_packet n.tcp flags (csum_finish acc) payload) n)
    ]

-- `n` bytes of the peer's stream from offset `off` on.
unfoldable pub bytes_of : (ℕ → ℕ) → ℕ → ℕ → List ℕ
bytes_of stream off zero = []
bytes_of stream off (suc n) = stream off ∷ bytes_of stream (off + 1) n

length-bytes_of : (stream : ℕ → ℕ) (off n : ℕ) → length (bytes_of stream off n) ≡ n
unfolding bytes_of
length-bytes_of stream off zero = refl
length-bytes_of stream off (suc n) = ap suc (length-bytes_of stream (off + 1) n)

bytes_of-add :
    (stream : ℕ → ℕ) (off m n : ℕ)
    → bytes_of stream off m ++ bytes_of stream (off + m) n ≡ bytes_of stream off (m + n)
unfolding bytes_of
bytes_of-add stream off zero n =
    let same : off + 0 ≡ off = omega arith in
    let none_first : 0 + n ≡ n = omega arith in rw (same, none_first) refl
bytes_of-add stream off (suc m) n =
    let shift : off + suc m ≡ off + 1 + m = omega arith in
    let more : suc m + n ≡ suc (m + n) = omega arith in
    rw (shift, more) (ap (λ l. stream off ∷ l) (bytes_of-add stream (off + 1) m n))

joined :
    (stream : ℕ → ℕ) (xs ys : List ℕ) (off n m : ℕ)
    → xs ≡ bytes_of stream 0 n
    → off ≡ n
    → ys ≡ bytes_of stream off m
    → xs ++ ys ≡ bytes_of stream 0 (n + m)
joined stream xs ys off n m ex eo ey =
    let shift : 0 + n ≡ n = omega arith in
    rw (ex, ey, eo)
      (subst (λ k. bytes_of stream 0 n ++ bytes_of stream k m ≡ bytes_of stream 0 (n + m)) shift
        (bytes_of-add stream 0 n m))

abbrev pub is_syn_sent : TcpState → Bool
is_syn_sent syn_sent = true
is_syn_sent _ = false

-- The connection has got past its SYN, the buffer holds the first bytes of the stream, and the
-- next sequence number expected is that of the byte after them. `first` is the stream's first
-- sequence number.
pub record InStream (first : ℕ) (stream : ℕ → ℕ) (t : Tcp) : Type 0 where
  pub past_syn : is_syn_sent t.state ≡ false
  pub kept : t.rx ≡ bytes_of stream 0 (length t.rx)
  pub expected : t.rcv_nxt ≡ (first + length t.rx) % 2 ^ 32
  pub bounded : length t.rx ≤ tcp_rx_size

-- A segment that carries the bytes of the stream that its sequence number says, and no FIN.
pub record Genuine (first : ℕ) (stream : ℕ → ℕ) (seq flags : ℕ) (payload : List ℕ) : Type 0 where
  pub off : ℕ
  pub no_fin : has_flag 1 flags ≡ false
  pub seq_eq : seq ≡ (first + off) % 2 ^ 32
  pub payload_eq : payload ≡ bytes_of stream off (length payload)
  pub within : off + length payload ≤ tcp_rx_size

InStream-take_data :
    (first seq flags : ℕ) (stream : ℕ → ℕ) (payload : List ℕ) (t : Tcp)
    → InStream first stream t
    → Genuine first stream seq flags payload
    → InStream first stream (take_data seq payload t)
unfolding take_data
InStream-take_data first seq flags stream payload t s g = elim (Bool-cases (seq == t.rcv_nxt)) [
  | inl k ↦
      let here : seq ≡ t.rcv_nxt = ground (arith, k) in
      let at_end : g.off ≡ length t.rx =
        omega (arith, here, g.seq_eq, s.expected, s.bounded, g.within) in
      let fits : length payload ≤ min (length payload) (tcp_rx_size - length t.rx) =
        omega (arith, at_end, g.within) in
      let all = take_all (min (length payload) (tcp_rx_size - length t.rx)) payload fits in
      let len = length-append t.rx payload in
      rw (k, all)
        (record {
          past_syn = s.past_syn;
          kept = rw len (
              joined stream t.rx payload g.off (length t.rx) (length payload) s.kept at_end
                g.payload_eq);
          expected = rw len (omega (arith, s.expected));
          bounded = rw len (omega (arith, at_end, g.within));
        })
  | inr k ↦ rw k s
]

InStream-handle_open :
    (first seq flags : ℕ) (stream : ℕ → ℕ) (payload : List ℕ) (n : Net)
    → InStream first stream n.tcp
    → Genuine first stream seq flags payload
    → InStream first stream (handle_open seq flags payload n).tcp
unfolding handle_open
InStream-handle_open first seq flags stream payload n s g =
    let kept = InStream-take_data first seq flags stream payload n.tcp s g in
    let same = tcp_send_segment-tcp 16 [] (record n { tcp = take_data seq payload n.tcp }) in
    elim (Bool-cases (ltb 0 (length payload))) [
      | inl k ↦ rw (k, g.no_fin, same) kept
      | inr k ↦ rw (k, g.no_fin) s
    ]

InStream-by_state :
    (first seq flags : ℕ) (stream : ℕ → ℕ) (payload : List ℕ) (n : Net) (st : TcpState)
    → is_syn_sent st ≡ false
    → InStream first stream n.tcp
    → Genuine first stream seq flags payload
    → InStream first stream (by_state st seq flags payload n).tcp
InStream-by_state first seq flags stream payload n closed h s g = s
InStream-by_state first seq flags stream payload n syn_sent h s g = ground (arith, h)
InStream-by_state first seq flags stream payload n established h s g =
    InStream-handle_open first seq flags stream payload n s g
InStream-by_state first seq flags stream payload n close_wait h s g =
    InStream-handle_open first seq flags stream payload n s g
InStream-by_state first seq flags stream payload n last_ack h s g = s

-- The segment in a packet.
abbrev pub GenuinePacket : ℕ → (ℕ → ℕ) → List ℕ → Type 0
GenuinePacket first stream pkt =
    Genuine first stream (rd32 pkt 4) (get_or pkt 13 0) (drop (get_or pkt 12 0 / 16 * 4) pkt)

InStream-handle_tcp :
    (first src : ℕ) (stream : ℕ → ℕ) (pkt : List ℕ) (n : Net)
    → InStream first stream n.tcp
    → GenuinePacket first stream pkt
    → InStream first stream (handle_tcp pkt src n).tcp
unfolding handle_tcp
InStream-handle_tcp first src stream pkt n s g =
    let flags = get_or pkt 13 0 in
    let payload = drop (get_or pkt 12 0 / 16 * 4) pkt in
    let next =
      InStream-by_state first (rd32 pkt 4) flags stream payload n n.tcp.state s.past_syn s g in
    elim (Bool-cases (accepts pkt src n.tcp)) [
      | inl k ↦ elim (Bool-cases (has_flag 4 flags)) [
        | inl j ↦
            rw (k, j)
              (record {
                past_syn = refl;
                kept = s.kept;
                expected = s.expected;
                bounded = s.bounded;
              })
        | inr j ↦ rw (k, j) next
      ]
      | inr k ↦ rw k s
    ]

-- The packets of a list handled in order, each with its sender.
unfoldable pub deliver : List (ℕ × List ℕ) → Net → Net
deliver [] n = n
deliver ((src, pkt) ∷ l) n = deliver l (handle_tcp pkt src n)

abbrev pub AllGenuine : ℕ → (ℕ → ℕ) → List (ℕ × List ℕ) → Type 0
AllGenuine first stream [] = true ≡ true
AllGenuine first stream ((src, pkt) ∷ l) =
    GenuinePacket first stream pkt × AllGenuine first stream l

-- Whatever segments of a stream of at most 65536 bytes arrive, in whatever order, lost, repeated or
-- overlapping, with resets among them and without a FIN, the receive buffer holds the beginning of
-- the stream, and the next sequence number expected is the one after it.
pub deliver-InStream :
    (first : ℕ) (stream : ℕ → ℕ) (packets : List (ℕ × List ℕ)) (n : Net)
    → InStream first stream n.tcp
    → AllGenuine first stream packets
    → InStream first stream (deliver packets n).tcp
unfolding deliver
deliver-InStream first stream [] n s g = s
deliver-InStream first stream ((src, pkt) ∷ l) n s g =
    deliver-InStream first stream l (handle_tcp pkt src n)
      (InStream-handle_tcp first src stream pkt n s g.0) g.1
