-- ===== src/Endpoint.antt =====
-- source/io/net/Endpoint.cpp, `Endpoint::Impl`, and net/detail/PeerId.{h,cpp}. A socket's address is kept in the
-- fields of the C structures; the words of the network are numbers as the host reads them. A text is
-- the list of its codes. libuv's readers and writers of addresses are parameters.
pub mod Laws
mod Tests
use tarm_io.Prelude.{
  ℕ, ◌+◌, ◌*◌, ◌^◌, Bool, true, false, ◌&&◌, ◌==◌, Option, none, some, List, [], ◌∷◌, ◌++◌,
  if◌then◌else◌,
}
use tarm_io.Convert.{ByteOrder, two, four, network_to_host, host_to_network, ip4_addr_to_string}

pub data Kind : Type 0 where
  undefined ip_v4 ip_v6 : Kind

-- `sin_port` is the port of either structure, `sin6_addr` the sixteen bytes of the longer address.
pub record Endpoint : Type 0 where
  pub kind : Kind
  pub s_addr : ℕ
  pub sin6_addr : List ℕ
  pub sin_port : ℕ

abbrev pub empty : Endpoint
empty = record { kind = undefined; s_addr = 0; sin6_addr = []; sin_port = 0 }

abbrev has : ℕ → List ℕ → Bool
has c [] = false
has c (d ∷ ds) = if c == d then true else has c ds

module _ (o : ByteOrder) where
  unfoldable pub of_address : ℕ → ℕ → Endpoint
  of_address address port = record empty {
    kind = ip_v4;
    s_addr = host_to_network o four address;
    sin_port = host_to_network o two port;
  }

  -- Any other number of bytes leaves the endpoint empty.
  unfoldable pub of_bytes : List ℕ → ℕ → Endpoint
  of_bytes (a ∷ b ∷ c ∷ d ∷ []) port = record empty {
    kind = ip_v4;
    s_addr = d * 2 ^ 24 + c * 2 ^ 16 + b * 2 ^ 8 + a;
    sin_port = host_to_network o two port;
  }
  of_bytes (a ∷ b ∷ c ∷ d ∷ e ∷ f ∷ g ∷ h ∷ i ∷ j ∷ k ∷ l ∷ m ∷ n ∷ p ∷ q ∷ []) port =
      record empty {
        kind = ip_v6;
        sin6_addr = a ∷ b ∷ c ∷ d ∷ e ∷ f ∷ g ∷ h ∷ i ∷ j ∷ k ∷ l ∷ m ∷ n ∷ p ∷ q ∷ [];
        sin_port = host_to_network o two port;
      }
  of_bytes bytes port = empty

  port_of : Kind → Endpoint → ℕ
  port_of undefined e = 0
  port_of ip_v4 e = network_to_host o two e.sin_port
  port_of ip_v6 e = network_to_host o two e.sin_port

  unfoldable pub port : Endpoint → ℕ
  unfolding port_of
  port e = port_of e.kind e

  ipv4_addr_of : Kind → Endpoint → ℕ
  ipv4_addr_of ip_v4 e = network_to_host o four e.s_addr
  ipv4_addr_of undefined e = 0
  ipv4_addr_of ip_v6 e = 0

  unfoldable pub ipv4_addr : Endpoint → ℕ
  unfolding ipv4_addr_of
  ipv4_addr e = ipv4_addr_of e.kind e

  -- `ntop` writes the longer addresses; none is its error.
  module _ (ntop : List ℕ → Option (List ℕ)) where
    or_empty : Option (List ℕ) → List ℕ
    or_empty none = []
    or_empty (some s) = s

    pub address_string_of : Kind → Endpoint → List ℕ
    unfolding or_empty
    address_string_of undefined e = []
    address_string_of ip_v4 e = ip4_addr_to_string (network_to_host o four e.s_addr)
    address_string_of ip_v6 e = or_empty (ntop e.sin6_addr)

    unfoldable pub address_string : Endpoint → List ℕ
    unfolding address_string_of
    address_string e = address_string_of e.kind e

-- The readers of libuv give the fields of the structure, or an error.
module _ (ip4_addr ip6_addr : List ℕ → ℕ → Option Endpoint) where
  read_or_empty : Kind → Option Endpoint → Endpoint
  read_or_empty k none = empty
  read_or_empty k (some e) = record e { kind = k }

  of_text_of : Bool → List ℕ → ℕ → Endpoint
  unfolding read_or_empty
  of_text_of true address port = read_or_empty ip_v6 (ip6_addr address port)
  of_text_of false address port = read_or_empty ip_v4 (ip4_addr address port)

  pub of_text : List ℕ → ℕ → Endpoint
  unfolding of_text_of
  of_text [] port = empty
  of_text (c ∷ cs) port = of_text_of (has b':' (c ∷ cs)) (c ∷ cs) port

pub clear : Endpoint → Endpoint
clear e = empty

-- The address of a sender, by which a server of datagrams knows it.
pub record PeerId : Type 0 where
  pub address_high : ℕ
  pub address_low : ℕ
  pub port : ℕ

-- Eight bytes of memory as a word, the lowest first.
abbrev pub word : List ℕ → ℕ
word [] = 0
word (b ∷ bs) = b + 256 * word bs

abbrev pub take_8 : List ℕ → List ℕ
take_8 (a ∷ b ∷ c ∷ d ∷ e ∷ f ∷ g ∷ h ∷ bs) = a ∷ b ∷ c ∷ d ∷ e ∷ f ∷ g ∷ h ∷ []
take_8 bs = bs

abbrev pub drop_8 : List ℕ → List ℕ
drop_8 (a ∷ b ∷ c ∷ d ∷ e ∷ f ∷ g ∷ h ∷ bs) = bs
drop_8 bs = []

peer_id_of : Kind → Endpoint → PeerId
peer_id_of undefined e = record { address_high = 0; address_low = 0; port = 0 }
peer_id_of ip_v4 e = record { address_high = 0; address_low = e.s_addr; port = e.sin_port }
peer_id_of ip_v6 e = record {
  address_high = word (take_8 e.sin6_addr);
  address_low = word (drop_8 e.sin6_addr);
  port = e.sin_port;
}

-- On a host that keeps the lowest byte first.
unfoldable pub peer_id : Endpoint → PeerId
unfolding peer_id_of
peer_id e = peer_id_of e.kind e

-- `operator==`.
unfoldable pub is_equal : PeerId → PeerId → Bool
is_equal a b =
    a.address_high == b.address_high && a.address_low == b.address_low && a.port == b.port
