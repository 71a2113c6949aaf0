-- ===== src/Rpc/Client/Port.antt =====
-- The client finds the server by the port file.
use mynetwork.Common.{
  ℕ, ◌≤◌, ◌≡◌, refl, ap, ◌∙◌, true, false, [], ◌∷◌, Bytes, codes, is_ascii, none, some, ok,
  all_digits, is_digit, decimal, atoi, decimal-all_digits, atoi-decimal, arith,
}
use mynetwork.Tun.Windows.Address.{Scanner, is_space, trim_left, trim_right, trim_space}
use mynetwork.Rpc.Client.{
  Calls, signed, scan_ports, local_address, lock_path, otherwise, dial_number, dial_port, attempt,
  retry, attempts, connect_windows, get_client, write_port,
}

digit-space : (c : ℕ) → is_digit c ≡ true → is_space c ≡ false
unfolding is_digit is_space
digit-space c h = ground arith

trim_left-digits : (s : Bytes) → all_digits s ≡ true → trim_left s ≡ s
unfolding trim_left all_digits
trim_left-digits [] h = refl
trim_left-digits (c ∷ s) h = ground (arith, digit-space c)

trim_right-digits : (s : Bytes) → all_digits s ≡ true → trim_right s ≡ s
unfolding trim_right all_digits
trim_right-digits [] h = refl
trim_right-digits (c ∷ s) h = ground (arith, digit-space c, trim_right-digits s)

is_ascii-digits : (s : Bytes) → all_digits s ≡ true → is_ascii s ≡ true
unfolding is_ascii all_digits is_digit
is_ascii-digits [] h = refl
is_ascii-digits (c ∷ s) h = ground (arith, is_ascii-digits s)

trim_space-digits : (sc : Scanner) (s : Bytes) → all_digits s ≡ true → trim_space sc s ≡ s
unfolding trim_space
trim_space-digits sc s h = rw (is_ascii-digits s h, trim_left-digits s h) (trim_right-digits s h)

module _ {W C : Type 0} (calls : Calls W C) where
  -- The port file leads to the dial of the port in it.
  dial_port-decimal :
      (w : W) (port : ℕ)
      → port ≤ 65535
      → dial_port calls (w, some (decimal port))
        ≡ calls.dial w (codes "tcp") (local_address (decimal port))
  unfolding dial_port dial_number signed
  dial_port-decimal w port small =
      ap (λ s. dial_number calls w (atoi s))
        (trim_space-digits calls.scanner (decimal port) (decimal-all_digits port))
      ∙ ap (dial_number calls w) (atoi-decimal port (omega arith))

  -- Once the server on Windows has written its port file for an interface, the client of that interface
  -- finds it at the first attempt, at the first dial: what it gets is what dialling the server's port
  -- on the local address gives. The file is read back as it was written.
  pub get_client-write_port :
      ((v v1 : W) (path text : Bytes)
        → calls.write_file v path text ≡ (v1, none)
        → calls.read_file v1 path ≡ (v1, some text))
      → (ifname : Bytes) (port : ℕ) (w w1 w2 : W) (client : C) → port ≤ 65535
      → calls.write_file w (lock_path calls ifname) (decimal port) ≡ (w1, none)
      → calls.dial w1 (codes "tcp") (local_address (decimal port)) ≡ (w2, some client)
      → get_client calls true ifname (write_port calls ifname port w) ≡ (w2, ok client)
  unfolding get_client connect_windows attempts attempt retry otherwise write_port
  get_client-write_port back ifname port w w1 w2 client small written listening =
      let dialled = otherwise calls (scan_ports calls 100 9000) in
      let after = retry calls (attempts calls 9 ifname) in
      ap (λ v. connect_windows calls ifname v.0) written
      ∙ ap (λ r. after (dialled (dial_port calls r)))
          (back w w1 (lock_path calls ifname) (decimal port) written)
      ∙ ap (λ r. after (dialled r)) (dial_port-decimal w1 port small ∙ listening)
