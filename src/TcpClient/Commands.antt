-- ===== src/TcpClient/Commands.antt =====
-- The packets of the client's messages, byte by byte.
use tcp_udp_client_server.Base.{
  ◌≡◌, ◌<◌, ◌≤◌, ◌+◌, ◌-◌, refl, ℕ, zero, suc, some, length, take, drop, ◌++◌, ◌∷◌, [], arith, ap,
  sym, ◌∙◌, length-append, length-replicate, drop-replicate, take_whole, take-replicate,
  length-take,
}
use tcp_udp_client_server.CString.{Bytes}
use tcp_udp_client_server.Packets.{
  zeros, header_bytes, ctos_bytes, ctos_maxlen, ctos_size, memcpy, tcp_msg_maxlen, packet_maxlen,
}
use tcp_udp_client_server.Packets.Copies.{memcpy-some, fill-some, padded-append}
use tcp_udp_client_server.TcpClient.{client_compose_msg, tcp_client_packet, message_packet}

abbrev zero_byte : ℕ
zero_byte = 0

-- A cut of a padded string is the cut string, padded.
take_mixed :
    (s : Bytes) (k j : ℕ)
    → j ≤ length s + k
    → take j (s ++ zeros k) ≡ take j s ++ zeros (j - length (take j s))
take_mixed [] k zero h = refl
take_mixed [] k (suc j) h =
    let same : suc j ≡ suc j - 0 = omega arith in
    take-replicate 0 (suc j) k (omega arith) ∙ ap zeros same
take_mixed (c ∷ s) k zero h = refl
take_mixed (c ∷ s) k (suc j) h =
    let same : j - length (take j s) ≡ suc j - suc (length (take j s)) = omega arith in
    ap (◌∷◌ c) (take_mixed s k j (omega arith) ∙ ap (λ n. take j s ++ zeros n) same)

-- The copy of a message into its zeroed field, for any sizes.
copied_message :
    (t : ℕ) (s : Bytes) (c m : ℕ)
    → length s < c
    → suc c ≤ m
    → memcpy (zeros m) (t ∷ (s ++ zeros (c - length s))) (suc c)
      ≡ some (t ∷ (s ++ zeros (m - 1 - length s)))
copied_message t s c m short room =
    let all : length (s ++ zeros (c - length s)) ≡ c =
      omega (
        arith,
        length-append s (zeros (c - length s)),
        length-replicate (c - length s) zero_byte,
      ) in
    memcpy-some (zeros m) (t ∷ (s ++ zeros (c - length s))) (suc c)
      (omega (arith, length-replicate m zero_byte)) (omega arith)
    ∙ ap some (
        ap (λ b. (t ∷ b) ++ drop (suc c) (zeros m))
          (take_whole (s ++ zeros (c - length s)) (sym all))
        ∙ ap (λ z. t ∷ ((s ++ zeros (c - length s)) ++ z)) (drop-replicate 0 (suc c) m)
        ∙ ap (◌∷◌ t) (padded-append s (c - length s) (m - suc c) (omega arith)))

-- The copy of the first bytes of a header into a zeroed packet, for any sizes.
copied_header :
    (a b t : ℕ) (s : Bytes) (k j m : ℕ)
    → j ≤ length s + k
    → 3 + j ≤ m
    → memcpy (zeros m) (a ∷ b ∷ t ∷ (s ++ zeros k)) (suc (suc (suc j)))
      ≡ some (a ∷ b ∷ t ∷ (take j s ++ zeros (m - 3 - length (take j s))))
copied_header a b t s k j m inside room =
    let cut : length (take j s) ≤ j = omega (arith, length-take j s) in
    memcpy-some (zeros m) (a ∷ b ∷ t ∷ (s ++ zeros k)) (suc (suc (suc j)))
      (omega (arith, length-replicate m zero_byte))
      (omega (arith, length-append s (zeros k), length-replicate k zero_byte))
    ∙ ap some (
        ap (λ p. (a ∷ b ∷ t ∷ p) ++ drop (suc (suc (suc j))) (zeros m)) (take_mixed s k j inside)
        ∙ ap (λ z. a ∷ b ∷ t ∷ ((take j s ++ zeros (j - length (take j s))) ++ z))
            (drop-replicate 0 (suc (suc (suc j))) m)
        ∙ ap (λ p. a ∷ b ∷ t ∷ p)
            (padded-append (take j s) (j - length (take j s)) (m - suc (suc (suc j)))
              (omega arith)))

-- The composed header of a payload that fits its array.
pub compose-some :
    (type : ℕ) (s : Bytes)
    → length s < ctos_maxlen
    → client_compose_msg type s
      ≡ some (record {
        msg_len = ctos_size;
        msg = type ∷ (s ++ zeros (tcp_msg_maxlen - 1 - length s));
      })
unfolding client_compose_msg ctos_bytes
compose-some type s short = rw (
  fill-some ctos_maxlen s short,
  copied_message type s ctos_maxlen tcp_msg_maxlen short (omega arith),
)

-- The packet: the length, the type, and 50 bytes of the payload.
abbrev pub carried : ℕ → Bytes → Bytes
carried type s = 53 ∷ 0 ∷ type ∷ (take 50 s ++ zeros (1612 - length (take 50 s)))

pub message_packet-carried :
    (type : ℕ) (s : Bytes) → length s < ctos_maxlen → message_packet type s ≡ some (carried type s)
unfolding message_packet tcp_client_packet header_bytes
message_packet-carried type s short = rw (compose-some type s short) (
    copied_header 53 0 type s (tcp_msg_maxlen - 1 - length s) 50 packet_maxlen (omega arith)
      (omega arith))
