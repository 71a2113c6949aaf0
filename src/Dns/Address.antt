-- ===== src/Dns/Address.antt =====
-- The address and the port of the name server.
use mynetwork.Common.{
  ℕ, zero, suc, ◌+◌, ◌%◌, ◌≤◌, ◌<◌, ◌≡◌, refl, ap₂, ◌∙◌, [], ◌∷◌, Bytes, bit_xor, set, get_or,
  arith,
}
use mynetwork.Dns.{server_addr, start_addr}

abbrev pub IsPort : ℕ → Type 0
IsPort port = (5000 ≤ port) × (port < 45000)

bumped-IsPort : (port b : ℕ) → IsPort (((port + b) % 65536 % 40000 + 5000) % 65536)
bumped-IsPort port b = (omega arith, omega arith)

-- A write behind the first byte.
set-first :
    (i : ℕ) (x y z v : ℕ)
    → (x' : ℕ) × (y' : ℕ) × (z' : ℕ) × (set (127 ∷ x ∷ y ∷ z ∷ []) (suc i) v
        ≡ 127 ∷ x' ∷ y' ∷ z' ∷ [])
set-first zero x y z v = (v, y, z, refl)
set-first (suc zero) x y z v = (x, v, z, refl)
set-first (suc (suc zero)) x y z v = (x, y, v, refl)
set-first (suc (suc (suc i))) x y z v = (x, y, z, refl)

server_addr-within :
    (i : ℕ) (name addr : Bytes) (port x y z : ℕ)
    → addr ≡ 127 ∷ x ∷ y ∷ z ∷ []
    → IsPort port
    → (x' : ℕ) × (y' : ℕ) × (z' : ℕ) × ((server_addr i name (addr, port)).0
        ≡ 127 ∷ x' ∷ y' ∷ z' ∷ [])
      × IsPort (server_addr i name (addr, port)).1
unfolding server_addr
server_addr-within i [] addr port x y z e p = (x, y, z, e, p)
server_addr-within i (b ∷ name) addr port x y z e p =
    let (x', y', z', e') = set-first (i % 3) x y z (bit_xor (get_or addr (i % 3 + 1) 0) b) in
    server_addr-within (suc i) name _ _ x' y' z'
      (ap₂ (λ (l : Bytes) (k : ℕ). set l k (bit_xor (get_or addr (i % 3 + 1) 0) b)) e
          (let next : i % 3 + 1 ≡ suc (i % 3) = omega arith in next)
        ∙ e')
      (bumped-IsPort port b)

-- For every interface name the server listens on an address of the loopback network 127.0.0.0/8 and
-- on a port from 5000 to 44999.
pub server_addr-loopback :
    (name : Bytes)
    → (x : ℕ) × (y : ℕ) × (z : ℕ) × ((server_addr 0 name start_addr).0 ≡ 127 ∷ x ∷ y ∷ z ∷ [])
      × IsPort (server_addr 0 name start_addr).1
server_addr-loopback name =
    server_addr-within 0 name (127 ∷ 80 ∷ 1 ∷ 53 ∷ []) 5380 80 1 53 refl (omega arith, omega arith)
