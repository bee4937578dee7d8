-- ===== src/Core/MeshIp.antt =====
-- crates/mymesh-core/src/mesh_ip.rs: the loopback address of a device.
use my_mesh.Base.{
  ℕ, ◌+◌, ◌*◌, ◌%◌, ◌≤◌, ◌<◌, ◌≡◌, ◌++◌, arith, get_or, bit_xor, Text, take, text, decimal, sym, ap,
  ◌∙◌, get_or-take,
}
use my_mesh.Core.Identity.{DeviceId}

pub record Ipv4Addr : Type 0 where
  pub octets : ℕ × ℕ × ℕ × ℕ

abbrev byte_at : DeviceId → ℕ → ℕ
byte_at id i = get_or id.bytes i 0

-- The arithmetic is of `u16`: `<< 1` and `<< 2` keep the low sixteen bits.
unfoldable pub mesh_ipv4 : DeviceId → Ipv4Addr
mesh_ipv4 id =
    let x = bit_xor (bit_xor (byte_at id 0) (byte_at id 1 * 2 % 65536)) (byte_at id 2) in
    let y = bit_xor (bit_xor (byte_at id 3) (byte_at id 4 * 4 % 65536)) (byte_at id 5) in
    record { octets = (127, 64, x % 254 + 1, y % 254 + 1) }

-- `Display` of an address.
unfoldable pub ip_string : Ipv4Addr → Text
ip_string ip =
    decimal ip.octets.0
    ++ text "."
    ++ decimal ip.octets.1
    ++ text "."
    ++ decimal ip.octets.2
    ++ text "."
    ++ decimal ip.octets.3

-- Every address lies in 127.64.0.0/16, and neither of its last two octets is 0 or 255.
pub mesh_ipv4_range :
    (id : DeviceId)
    → let (a, b, c, d) = (mesh_ipv4 id).octets in
      (a ≡ 127) × (b ≡ 64) × (1 ≤ c) × (c ≤ 254) × (1 ≤ d) × (d ≤ 254)
unfolding mesh_ipv4
mesh_ipv4_range id = omega arith

-- Only the first six bytes count: ids that share them share the address.
pub mesh_ipv4_collides :
    (a b : DeviceId) → take 6 a.bytes ≡ take 6 b.bytes → mesh_ipv4 a ≡ mesh_ipv4 b
unfolding mesh_ipv4
mesh_ipv4_collides a b e =
    let same = λ (i : ℕ) (h : i < 6).
      (sym (get_or-take 6 i 0 a.bytes h)
        ∙ ap (λ (s : Text). get_or s i 0) e
        ∙ get_or-take 6 i 0 b.bytes h) in
    ground (
      arith,
      same 0 (omega arith),
      same 1 (omega arith),
      same 2 (omega arith),
      same 3 (omega arith),
      same 4 (omega arith),
      same 5 (omega arith),
    )
