-- ===== src/Endpoint/Laws.antt =====
-- Endpoints of four bytes, source/io/net/Endpoint.cpp, and the ids of their peers.
use tarm_io.Prelude.{
  ℕ, ◌+◌, ◌*◌, ◌/◌, ◌%◌, ◌^◌, ◌<◌, ◌≡◌, refl, sym, ap, ◌∙◌, inl, inr, ◌&&◌, ◌==◌, Option, List, [],
  ◌∷◌, arith, Bool-cases,
}
use tarm_io.Convert.{ByteOrder, two, four, network_to_host, host_to_network, ip4_addr_to_string}
use tarm_io.Convert.Laws.{read_ip4, read_ip4-ip4_addr_to_string}
use tarm_io.Endpoint.{
  ip_v4, empty, of_address, of_bytes, port_of, port, ipv4_addr_of, ipv4_addr, address_string_of,
  address_string, peer_id_of, peer_id, is_equal,
}

-- The two and the four bytes of a word the other way round.
abbrev pub swap_2 : ℕ → ℕ
swap_2 v = v % 256 * 256 + v / 256

abbrev pub swap_4 : ℕ → ℕ
swap_4 v = v % 256 * 2 ^ 24 + v / 2 ^ 8 % 256 * 2 ^ 16 + v / 2 ^ 16 % 256 * 2 ^ 8 + v / 2 ^ 24

-- What the C library documents for a host that keeps the lowest byte of a word first.
abbrev pub IsLittleEndian : ByteOrder → Type 0
IsLittleEndian o =
    ((v : ℕ) → v < 2 ^ 16 → o.ntohs v ≡ swap_2 v)
    × ((v : ℕ) → v < 2 ^ 16 → o.htons v ≡ swap_2 v)
    × ((v : ℕ) → v < 2 ^ 32 → o.ntohl v ≡ swap_4 v)
    × ((v : ℕ) → v < 2 ^ 32 → o.htonl v ≡ swap_4 v)

swap_2_twice : (v : ℕ) → v < 2 ^ 16 → swap_2 (swap_2 v) ≡ v
swap_2_twice v h = omega arith

swap_4_twice : (v : ℕ) → v < 2 ^ 32 → swap_4 (swap_4 v) ≡ v
swap_4_twice v h = omega arith

swap_2-lt : (v : ℕ) → v < 2 ^ 16 → swap_2 v < 2 ^ 16
swap_2-lt v h = omega arith

swap_4-lt : (v : ℕ) → v < 2 ^ 32 → swap_4 v < 2 ^ 32
swap_4-lt v h = omega arith

module _ (o : ByteOrder) (little : IsLittleEndian o) where
  port_lem : (v : ℕ) → v < 2 ^ 16 → network_to_host o two (host_to_network o two v) ≡ v
  unfolding network_to_host host_to_network
  port_lem v h = ap o.ntohs (little.1 v h) ∙ little.0 (swap_2 v) (swap_2-lt v h) ∙ swap_2_twice v h

  address_lem : (v : ℕ) → v < 2 ^ 32 → network_to_host o four (host_to_network o four v) ≡ v
  unfolding network_to_host host_to_network
  address_lem v h =
      ap o.ntohl (little.3 v h) ∙ little.2 (swap_4 v) (swap_4-lt v h) ∙ swap_4_twice v h

  -- An endpoint of a 32-bit address and a 16-bit port gives both back, and its text, read as four decimal
  -- numbers, is the address, on a host that keeps the lowest byte of a word first, whatever writes the longer addresses.
  pub of_address-read :
      (ntop : List ℕ → Option (List ℕ)) (a p : ℕ)
      → a < 2 ^ 32
      → p < 2 ^ 16
      → let e = of_address o a p in
        (e.kind ≡ ip_v4)
        × (port o e ≡ p)
        × (ipv4_addr o e ≡ a)
        × (read_ip4 (address_string o ntop e) ≡ a)
  unfolding of_address port port_of ipv4_addr ipv4_addr_of address_string address_string_of
  of_address-read ntop a p ha hp =
      let back = address_lem a ha in
      (
        refl,
        port_lem p hp,
        back,
        ap (λ x. read_ip4 (ip4_addr_to_string x)) back ∙ read_ip4-ip4_addr_to_string a ha,
      )

  -- Four bytes make the same endpoint as the address of which they are the bytes, the highest first, on
  -- a host that keeps the lowest byte of a word first.
  pub of_bytes-of_address :
      (a b c d p : ℕ)
      → a < 256
      → b < 256
      → c < 256
      → d < 256
      → of_bytes o (a ∷ b ∷ c ∷ d ∷ []) p ≡ of_address o (a * 2 ^ 24 + b * 2 ^ 16 + c * 2 ^ 8 + d) p
  unfolding of_bytes of_address host_to_network
  of_bytes-of_address a b c d p ha hb hc hd =
      let swapped : swap_4 (a * 2 ^ 24 + b * 2 ^ 16 + c * 2 ^ 8 + d)
          ≡ d * 2 ^ 24 + c * 2 ^ 16 + b * 2 ^ 8 + a =
        omega arith in
      ap (λ x. record empty { kind = ip_v4; s_addr = x; sin_port = o.htons p })
        (sym (little.3 (a * 2 ^ 24 + b * 2 ^ 16 + c * 2 ^ 8 + d) (omega arith) ∙ swapped))

  same : (a b : ℕ) → (f : ℕ → ℕ) → (f a ≡ f b → a ≡ b) → (f a == f b) ≡ (a == b)
  same a b f inj = elim (Bool-cases (a == b)) [
    | inl x ↦ let e : a ≡ b = ground arith in ground (arith, ap f e)
    | inr x ↦ elim (Bool-cases (f a == f b)) [
      | inl y ↦ let e : f a ≡ f b = ground arith in let q = inj e in ground arith
      | inr y ↦ y ∙ sym x
    ]
  ]

  -- The ids of the peers of two endpoints are equal exactly when their addresses and their ports are, on
  -- a host that keeps the lowest byte of a word first.
  pub peer_id-is_equal :
      (a b p q : ℕ)
      → a < 2 ^ 32
      → b < 2 ^ 32
      → p < 2 ^ 16
      → q < 2 ^ 16
      → is_equal (peer_id (of_address o a p)) (peer_id (of_address o b q)) ≡ (a == b && p == q)
  unfolding peer_id peer_id_of of_address is_equal
  peer_id-is_equal a b p q ha hb hp hq =
      let e =
        same a b (host_to_network o four)
          (λ x. sym (address_lem a ha) ∙ ap (network_to_host o four) x ∙ address_lem b hb) in
      let f =
        same p q (host_to_network o two)
          (λ x. sym (port_lem p hp) ∙ ap (network_to_host o two) x ∙ port_lem q hq) in
      ap (λ x. x && host_to_network o two p == host_to_network o two q) e ∙ ap (λ x. a == b && x) f
