-- ===== src/Convert.antt =====
-- source/io/Convert.cpp, the text of an IPv4 address, and source/io/ByteSwap.cpp. A text is the list of its
-- codes. The conversions of the C library between the byte orders are a parameter.
pub mod Laws
mod Tests
use tarm_io.Prelude.{
  ℕ, ◌+◌, ◌*◌, ◌/◌, ◌%◌, ◌^◌, ◌<◌, ◌≡◌, List, [], ◌∷◌, ◌++◌, ltb, not, if◌then◌else◌, bit_and,
}

-- `ntohs`, `htons`, `ntohl`, `htonl`, `be64toh` and `htobe64`.
pub record ByteOrder : Type 0 where
  pub ntohs : ℕ → ℕ
  pub htons : ℕ → ℕ
  pub ntohl : ℕ → ℕ
  pub htonl : ℕ → ℕ
  pub be64toh : ℕ → ℕ
  pub htobe64 : ℕ → ℕ

-- The widths of the overloads.
pub data Width : Type 0 where
  two four eight : Width

unfoldable pub network_to_host : ByteOrder → Width → ℕ → ℕ
network_to_host o two v = o.ntohs v
network_to_host o four v = o.ntohl v
network_to_host o eight v = o.be64toh v

unfoldable pub host_to_network : ByteOrder → Width → ℕ → ℕ
host_to_network o two v = o.htons v
host_to_network o four v = o.htonl v
host_to_network o eight v = o.htobe64 v

-- The byte is added to a text that is there.
unfoldable pub push_byte_as_str : List ℕ → ℕ → List ℕ
push_byte_as_str s byte =
    if not (ltb byte 100)
    then s ++ (byte / 100 + b'0') ∷ (byte % 100 / 10 + b'0') ∷ (byte % 10 + b'0') ∷ []
    else if not (ltb byte 10)
    then s ++ (byte % 100 / 10 + b'0') ∷ (byte % 10 + b'0') ∷ []
    else s ++ (byte % 10 + b'0') ∷ []

unfoldable pub ip4_addr_to_string : ℕ → List ℕ
unfolding push_byte_as_str
ip4_addr_to_string addr =
    let a = push_byte_as_str [] (bit_and addr 0xFF000000 / 2 ^ 24) in
    let b = push_byte_as_str (a ++ b'.' ∷ []) (bit_and addr 0x00FF0000 / 2 ^ 16) in
    let c = push_byte_as_str (b ++ b'.' ∷ []) (bit_and addr 0x0000FF00 / 2 ^ 8) in
    push_byte_as_str (c ++ b'.' ∷ []) (bit_and addr 0x000000FF)
