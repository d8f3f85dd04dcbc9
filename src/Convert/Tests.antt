-- ===== src/Convert/Tests.antt =====
-- The text of 192.168.0.7.
use tarm_io.Prelude.{◌≡◌, refl, [], ◌∷◌}
use tarm_io.Convert.{ip4_addr_to_string}

text :
    ip4_addr_to_string 0xC0A80007
    ≡ b'1' ∷ b'9' ∷ b'2' ∷ b'.' ∷ b'1' ∷ b'6' ∷ b'8' ∷ b'.' ∷ b'0' ∷ b'.' ∷ b'7' ∷ []
unfolding ip4_addr_to_string
text = refl
