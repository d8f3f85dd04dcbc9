-- ===== src/Endpoint/Tests.antt =====
-- The endpoint 192.168.0.7:8080.
use tarm_io.Prelude.{ℕ, ◌+◌, ◌*◌, ◌^◌, ◌≡◌, refl, Option, none, false, List, [], ◌∷◌, arith}
use tarm_io.Convert.{ByteOrder}
use tarm_io.Convert.Laws.{read_ip4}
use tarm_io.Endpoint.{
  ip_v4, of_address, of_bytes, port, ipv4_addr, address_string, peer_id, is_equal,
}
use tarm_io.Endpoint.Laws.{
  swap_2, swap_4, IsLittleEndian, of_address-read, of_bytes-of_address, peer_id-is_equal,
}

abbrev little : ByteOrder
little = record {
  ntohs = swap_2;
  htons = swap_2;
  ntohl = swap_4;
  htonl = swap_4;
  be64toh = λ v. v;
  htobe64 = λ v. v;
}

little-IsLittleEndian : IsLittleEndian little
little-IsLittleEndian = ((λ v h. refl), (λ v h. refl), (λ v h. refl), (λ v h. refl))

abbrev no_ntop : List ℕ → Option (List ℕ)
no_ntop bytes = none

of_address-read_example :
    let e = of_address little 0xC0A80007 8080 in
    (e.kind ≡ ip_v4)
    × (port little e ≡ 8080)
    × (ipv4_addr little e ≡ 0xC0A80007)
    × (read_ip4 (address_string little no_ntop e) ≡ 0xC0A80007)
of_address-read_example =
    of_address-read little little-IsLittleEndian no_ntop 0xC0A80007 8080 (omega arith) (omega arith)

of_bytes-of_address_example :
    of_bytes little (192 ∷ 168 ∷ 0 ∷ 7 ∷ []) 8080
    ≡ of_address little (192 * 2 ^ 24 + 168 * 2 ^ 16 + 0 * 2 ^ 8 + 7) 8080
of_bytes-of_address_example =
    of_bytes-of_address little little-IsLittleEndian 192 168 0 7 8080 (omega arith) (omega arith)
      (omega arith) (omega arith)

peer_id-is_equal_example :
    is_equal
      (peer_id (of_address little 0xC0A80007 8080))
      (peer_id (of_address little 0xC0A80007 8081))
    ≡ false
peer_id-is_equal_example =
    peer_id-is_equal little little-IsLittleEndian 0xC0A80007 0xC0A80007 8080 8081 (omega arith)
      (omega arith) (omega arith) (omega arith)
