-- ===== src/Socks5/RoundTrip.antt =====
-- What `parse_udp_datagram` reads in the datagrams that `build_udp_datagram` makes.
use mathlib.Core.List.{append_assoc}
use ws2tcp_local_core.Base.{
  ℕ, ◌+◌, ◌-◌, ◌*◌, ◌/◌, ◌%◌, ◌≤◌, ◌<◌, ◌≡◌, sym, ap, ◌∙◌, true, false, [], ◌∷◌, ◌++◌, none, some,
  ok, arith, ltb, leb, length, take, drop, All, inl, inr, Option-cases, length-append, drop-append,
  take-append,
}
use ws2tcp_local_core.Text.{Text, Bytes}
use ws2tcp_local_core.Text.Utf8.{as_bytes, IsScalar, from_utf8-as_bytes}
use ws2tcp_local_core.Net.Ipv4
use ws2tcp_local_core.Net.Ipv4.{Ipv4}
use ws2tcp_local_core.Net.Ipv6.{Ipv6Text}
use ws2tcp_local_core.Socks5.{atyp_ipv4, atyp_domain, atyp_ipv6}
use ws2tcp_local_core.Socks5.Datagram.{
  slice, datagram, to_be_bytes, host_at, parse_udp_host, parse_udp_datagram, unbracketed,
  build_udp_datagram,
}

drop_behind : (front rest : Bytes) (n : ℕ) → n ≡ length front → drop n (front ++ rest) ≡ rest
drop_behind front rest n e = rw e (drop-append front rest)

take_front : (piece rest : Bytes) (n : ℕ) → n ≡ length piece → take n (piece ++ rest) ≡ piece
take_front piece rest n e = rw e (take-append piece rest)

slice-append :
    (front piece rest : Bytes) (from to : ℕ)
    → from ≡ length front
    → to ≡ length front + length piece
    → slice from to (front ++ (piece ++ rest)) ≡ some piece
unfolding slice
slice-append front piece rest from to e f =
    rw (inside, drop_behind front (piece ++ rest) from e)
      (ap some (take_front piece rest (to - from) (omega arith)))
  where
    inside : leb to (length (front ++ (piece ++ rest))) ≡ true
    inside = ground (arith, length-append front (piece ++ rest), length-append piece rest)

module _ (ipv6 : Ipv6Text) (port : ℕ) (payload : Bytes) (small : port < 65536) where
  -- Behind the address, the port and the payload are read alike for every address type.
  parse_behind :
      (address_type : ℕ) (address : Bytes) (host : Text) (end : ℕ)
      → end ≡ 4 + length address
      → parse_udp_host ipv6 address_type (datagram address_type address port payload)
        ≡ host_at end host
      → parse_udp_datagram ipv6 (datagram address_type address port payload)
        ≡ ok (record { host = host; port = port; payload = payload })
  unfolding parse_udp_datagram
  parse_behind address_type address host end e h =
      let front : Bytes = 0x00 ∷ 0x00 ∷ 0x00 ∷ address_type ∷ address in
      rw
        (
          long,
          h,
          slice-append front (to_be_bytes port) payload end (end + 2) (omega arith) (omega arith),
        )
        (λ i. ok (record { host = host; port = same i; payload = rest i }))
    where
      same : port / 256 * 256 + port % 256 ≡ port
      same = omega arith

      rest : drop (end + 2) (datagram address_type address port payload) ≡ payload
      rest =
          ap (λ l. drop (end + 2) (0x00 ∷ 0x00 ∷ 0x00 ∷ address_type ∷ l))
            (sym (append_assoc address (to_be_bytes port) payload))
          ∙ drop_behind (0x00 ∷ 0x00 ∷ 0x00 ∷ address_type ∷ (address ++ to_be_bytes port)) payload
              (end + 2) (omega (arith, length-append address (to_be_bytes port)))

      long : ltb (length (datagram address_type address port payload)) 4 ≡ false
      long = ground arith

  parse_v4 :
      (ip : Ipv4)
      → parse_udp_datagram ipv6 (datagram atyp_ipv4 (Ipv4.octets ip) port payload)
        ≡ ok (record { host = Ipv4.display ip; port = port; payload = payload })
  unfolding parse_udp_host
  parse_v4 ip = parse_behind atyp_ipv4 (Ipv4.octets ip) (Ipv4.display ip) 8 (omega arith) (
      rw (
        slice-append (0x00 ∷ 0x00 ∷ 0x00 ∷ atyp_ipv4 ∷ []) (Ipv4.octets ip) _ 4 8 (omega arith)
          (omega arith)))

  parse_v6 :
      (octets : Bytes)
      → length octets ≡ 16
      → parse_udp_datagram ipv6 (datagram atyp_ipv6 octets port payload)
        ≡ ok (record {
          host = b'[' ∷ (ipv6.display octets ++ b']' ∷ []);
          port = port;
          payload = payload;
        })
  unfolding parse_udp_host
  parse_v6 octets n = parse_behind atyp_ipv6 octets _ 20 (omega arith) (
      rw (
        slice-append (0x00 ∷ 0x00 ∷ 0x00 ∷ atyp_ipv6 ∷ []) octets _ 4 20 (omega arith)
          (omega arith)))

  parse_domain :
      (host : Text)
      → All IsScalar host
      → length (as_bytes host) ≤ 255
      → parse_udp_datagram ipv6
          (datagram atyp_domain ((length (as_bytes host) % 256) ∷ as_bytes host) port payload)
        ≡ ok (record { host = host; port = port; payload = payload })
  unfolding parse_udp_host
  parse_domain host chars n =
      parse_behind atyp_domain ((length (as_bytes host) % 256) ∷ as_bytes host) host
        (5 + length (as_bytes host)) (omega arith)
        (rw (
          slice-append (0x00 ∷ 0x00 ∷ 0x00 ∷ atyp_domain ∷ []) ((length (as_bytes host) % 256) ∷ [])
              _ 4 5 (omega arith) (omega arith),
          len,
          slice-append (0x00 ∷ 0x00 ∷ 0x00 ∷ atyp_domain ∷ length (as_bytes host) ∷ [])
              (as_bytes host) _ 5 (5 + length (as_bytes host)) (omega arith) (omega arith),
          from_utf8-as_bytes host chars,
        ))
    where
      len : length (as_bytes host) % 256 ≡ length (as_bytes host)
      len = omega arith

-- The host that a datagram for `host` names: an IPv6 address in brackets and in the form that
-- the address is shown in, and any other host as it is.
pub canonical_host : Ipv6Text → Text → Text
canonical_host ipv6 host = elim (Ipv4.parse host) [
  | some _ ↦ host
  | none ↦ elim (ipv6.parse (unbracketed host)) [
    | some octets ↦ b'[' ∷ (ipv6.display octets ++ b']' ∷ [])
    | none ↦ host
  ]
]

-- For a host of at most 255 bytes and a port that fits 16 bits, `build_udp_datagram` does not
-- panic, and `parse_udp_datagram` reads back the canonical host, the port and the payload.
pub parse_udp_datagram-build_udp_datagram :
    (ipv6 : Ipv6Text) (host : Text) (port : ℕ) (payload : Bytes)
    → All IsScalar host
    → length (as_bytes host) ≤ 255
    → port < 65536
    → (d : Bytes) × (build_udp_datagram ipv6 host port payload ≡ some d)
      × (parse_udp_datagram ipv6 d
          ≡ ok (record { host = canonical_host ipv6 host; port = port; payload = payload }))
unfolding build_udp_datagram canonical_host
parse_udp_datagram-build_udp_datagram ipv6 host port payload chars n small =
    elim (Option-cases (Ipv4.parse host)) [
      | inr (ip, e) ↦ (
        datagram atyp_ipv4 (Ipv4.octets ip) port payload,
        rw (e, build_udp_datagram),
        rw (e, canonical_host)
            (parse_v4 ipv6 port payload small ip
              ∙ ap (λ h. ok (record { host = h; port = port; payload = payload }))
                  (Ipv4.RoundTrip.display-parse host ip e).0),
      )
      | inl e ↦ elim (Option-cases (ipv6.parse (unbracketed host))) [
        | inr (octets, f) ↦ (
          datagram atyp_ipv6 octets port payload,
          rw (e, f, build_udp_datagram),
          rw (e, f, canonical_host)
              (parse_v6 ipv6 port payload small octets (ipv6.parse-IsIpv6 _ _ f).sixteen),
        )
        | inl f ↦ (
          datagram atyp_domain ((length (as_bytes host) % 256) ∷ as_bytes host) port payload,
          rw (e, f, fits, build_udp_datagram),
          rw (e, f, canonical_host) (parse_domain ipv6 port payload small host chars n),
        )
      ]
    ]
  where
    fits : leb (length (as_bytes host)) 255 ≡ true
    fits = ground arith
