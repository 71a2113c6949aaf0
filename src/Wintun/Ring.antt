-- ===== src/Wintun/Ring.antt =====
-- Packets are given back to the ring, and a closed device is left alone.
use mynetwork.Common.{
  ℕ, suc, ◌+◌, ◌-◌, ◌≤◌, ◌<◌, ltb, ◌==◌, ◌≡◌, refl, ap, ◌∙◌, inl, inr, false, ◌++◌, Bytes, codes,
  length, take, drop, Outcome, ok, err, Bool-cases, arith,
}
use mynetwork.Wintun.{
  Received, no_more_items, failed_with, packet, Dll, NativeTun, take_packet, read,
}

-- The number of packets that were received and not given back.
pub record RingLaws {W : Type 0} (dll : Dll W) (held : W → ℕ) : Type 0 where
  pub takes :
      (w w' : W) (session : ℕ) (p : Bytes)
      → dll.receive_packet w session ≡ (w', packet p)
      → held w' ≡ suc (held w)
  pub takes_nothing :
      (w w' : W) (session : ℕ)
      → dll.receive_packet w session ≡ (w', no_more_items)
      → held w' ≡ held w
  pub fails :
      (w w' : W) (session : ℕ) (e : Bytes)
      → dll.receive_packet w session ≡ (w', failed_with e)
      → held w' ≡ held w
  pub gives :
      (w : W) (session : ℕ) (p : Bytes) → held (dll.release_receive_packet w session p) ≡ held w - 1

-- How a read may end, by what the driver gives for the session.
pub data Reads {W : Type 0} (dll : Dll W) (session : ℕ) (w : W) (buff : Bytes) (offset : ℕ)
    : Bytes → Outcome ℕ → Type 0 where
  no_session : session ≡ 0 → Reads dll session w buff offset buff (err (codes "session closed"))
  empty_ring :
      (w' : W)
      → dll.receive_packet w session ≡ (w', no_more_items)
      → Reads dll session w buff offset buff (ok 0)
  refused :
      (w' : W) (e : Bytes)
      → dll.receive_packet w session ≡ (w', failed_with e)
      → Reads dll session w buff offset buff (err e)
  too_large :
      (w' : W) (p : Bytes)
      → dll.receive_packet w session ≡ (w', packet p)
      → length buff - offset < length p
      → Reads dll session w buff offset buff (err (codes "packet too large"))
  got :
      (w' : W) (p : Bytes)
      → dll.receive_packet w session ≡ (w', packet p)
      → length p ≤ length buff - offset
      → Reads dll session w buff offset
          (take offset buff ++ (p ++ drop (offset + length p) buff))
          (ok (length p))

module _ {W : Type 0} (dll : Dll W) (held : W → ℕ) (laws : RingLaws dll held) where
  take_packet-held :
      (tun : NativeTun) (buff : Bytes) (offset : ℕ) (w w' : W) (p : Bytes)
      → length buff - offset ≤ 1500
      → dll.receive_packet w tun.session ≡ (w', packet p)
      → let r = take_packet dll tun buff offset (w', packet p) in
        (held r.0.0 ≡ held w) × Reads dll tun.session w buff offset r.0.1 r.1
  unfolding take_packet
  take_packet-held tun buff offset w w' p small taken =
      let back : held (dll.release_receive_packet w' tun.session p) ≡ held w =
        laws.gives w' tun.session p
        ∙ ap (λ n. n - 1) (laws.takes w w' tun.session p taken)
        ∙ omega arith in
      elim (Bool-cases (ltb (length buff - offset) (length p))) [
        | inl large ↦
            let over : length buff - offset < length p = ground (arith, large) in
            rw large (back, too_large w' p taken over)
        | inr fits ↦
            let fits' : length p ≤ length buff - offset = ground (arith, fits) in
            let viewed : ltb 1500 (length p) ≡ false = ground (arith, fits', small) in
            rw (fits, viewed) (back, got w' p taken fits')
      ]

  take_packet-Reads :
      (tun : NativeTun) (buff : Bytes) (offset : ℕ) (w w' : W) (r : Received)
      → length buff - offset ≤ 1500
      → dll.receive_packet w tun.session ≡ (w', r)
      → let t = take_packet dll tun buff offset (w', r) in
        (held t.0.0 ≡ held w) × Reads dll tun.session w buff offset t.0.1 t.1
  unfolding take_packet
  take_packet-Reads tun buff offset w w' no_more_items small taken =
      (laws.takes_nothing w w' tun.session taken, empty_ring w' taken)
  take_packet-Reads tun buff offset w w' (failed_with e) small taken =
      (laws.fails w w' tun.session e taken, refused w' e taken)
  take_packet-Reads tun buff offset w w' (packet p) small taken =
      take_packet-held tun buff offset w w' p small taken

  -- A read into a buffer with at most 1500 bytes behind the offset does not panic, and gives back
  -- every packet that it takes from the ring, whichever way it ends: with an error and the buffer as
  -- it was, when the session is closed, when the driver fails, with its error, or when the packet
  -- that the driver gave is larger than the buffer; with 0 and the buffer as it was, when the ring
  -- is empty; or with the length of the packet that the driver gave, which then stands in the buffer
  -- behind the offset, the rest of the buffer being as it was. The number of packets held is one
  -- more after a packet was received, and one less after one was released.
  pub read-Reads :
      (tun : NativeTun) (buff : Bytes) (offset : ℕ) (w : W)
      → length buff - offset ≤ 1500
      → (held (read dll tun buff offset w).0.0 ≡ held w)
        × Reads dll tun.session w buff offset
            (read dll tun buff offset w).0.1
            (read dll tun buff offset w).1
  unfolding read
  read-Reads tun buff offset w small = elim (Bool-cases (tun.session == 0)) [
    | inl closed ↦
        let none_open : tun.session ≡ 0 = ground (arith, closed) in
        rw closed (refl, no_session none_open)
    | inr open_session ↦
        let r = dll.receive_packet w tun.session in
        rw open_session (take_packet-Reads tun buff offset w r.0 r.1 small refl)
  ]
