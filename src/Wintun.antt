-- ===== src/Wintun.antt =====
-- wintun/wintun.go: the device of wintun.dll. The calls of the DLL are parameters, and a handle is a
-- number that is 0 when there is none. The offsets lie in the buffers, since the callers give 0; the sizes
-- in the message about a packet that is too large are left out.
pub mod Ring
use mynetwork.Common.{
  ℕ, ◌+◌, ◌-◌, ltb, leb, ◌==◌, Bool, true, false, ◌⊎◌, inl, inr, Option, none, some, List, [], ◌∷◌,
  ◌++◌, Bytes, codes, length, take, drop, Outcome, ok, err, panic, if◌then◌else◌,
}

-- What WintunReceivePacket gives.
pub data Received : Type 0 where
  no_more_items : Received
  failed_with : Bytes → Received
  packet : Bytes → Received

-- The calls: W is the state of the driver. A packet that was received is known by its bytes.
pub record Dll (W : Type 0) : Type 0 where
  pub create_adapter : W → Bytes → W × (Bytes ⊎ ℕ)
  pub get_adapter_luid : W → ℕ → Bytes ⊎ ℕ
  pub start_session : W → ℕ → ℕ → W × (Bytes ⊎ ℕ)
  pub get_read_wait_event : W → ℕ → Bytes ⊎ ℕ
  pub close_adapter : W → ℕ → W × Option Bytes
  pub end_session : W → ℕ → W
  pub receive_packet : W → ℕ → W × Received
  pub release_receive_packet : W → ℕ → Bytes → W
  pub allocate_send_packet : W → ℕ → ℕ → W × Option Bytes
  pub send_packet : W → ℕ → Bytes → W

pub record NativeTun : Type 0 where
  pub adapter : ℕ
  pub session : ℕ
  pub read_wait : ℕ
  pub name : Bytes
  pub luid : ℕ

module _ {W : Type 0} (dll : Dll W) where
  -- `CreateTUNWithRequestedGUID`, in its steps; the GUID comes from the name.
  unfoldable pub with_event : Bytes → ℕ → ℕ → W × (Bytes ⊎ ℕ) → W × (Bytes ⊎ NativeTun)
  with_event name adapter luid (w, inl e) = (w, inl (codes "start session failed: " ++ e))
  with_event name adapter luid (w, inr session) = elim (dll.get_read_wait_event w session) [
    | inl e ↦ (w, inl (codes "get read wait event failed: " ++ e))
    | inr event ↦ (
      w,
      inr (record {
        adapter = adapter;
        session = session;
        read_wait = event;
        name = name;
        luid = luid;
      }),
    )
  ]

  -- The ring has 0x800000 bytes.
  unfoldable pub with_session : Bytes → W × (Bytes ⊎ ℕ) → W × (Bytes ⊎ NativeTun)
  unfolding with_event
  with_session name (w, inl e) = (w, inl (codes "create adapter failed: " ++ e))
  with_session name (w, inr adapter) = elim (dll.get_adapter_luid w adapter) [
    | inl e ↦ (w, inl (codes "get adapter LUID failed: " ++ e))
    | inr luid ↦ with_event name adapter luid (dll.start_session w adapter 0x800000)
  ]

  unfoldable pub create_tun : Bytes → W → W × (Bytes ⊎ NativeTun)
  unfolding with_session
  create_tun name w = with_session name (dll.create_adapter w name)

  -- A packet is copied behind the offset and released. One that does not fit is released too; a view
  -- of more than 1500 bytes is a panic.
  unfoldable pub take_packet : NativeTun → Bytes → ℕ → W × Received → (W × Bytes) × Outcome ℕ
  take_packet tun buff offset (w, no_more_items) = ((w, buff), ok 0)
  take_packet tun buff offset (w, failed_with e) = ((w, buff), err e)
  take_packet tun buff offset (w, packet p) =
      let released = dll.release_receive_packet w tun.session p in
      if ltb (length buff - offset) (length p)
      then ((released, buff), err (codes "packet too large"))
      else if ltb 1500 (length p)
      then ((w, buff), panic)
      else ((released, take offset buff ++ (p ++ drop (offset + length p) buff)), ok (length p))

  -- `Read`, with the buffer before and after.
  unfoldable pub read : NativeTun → Bytes → ℕ → W → (W × Bytes) × Outcome ℕ
  unfolding take_packet
  read tun buff offset w =
      if tun.session == 0
      then ((w, buff), err (codes "session closed"))
      else take_packet tun buff offset (dll.receive_packet w tun.session)

  unfoldable pub put_packet : NativeTun → Bytes → ℕ → W × Option Bytes → W × Outcome ℕ
  put_packet tun buff offset (w, some e) = (w, err e)
  put_packet tun buff offset (w, none) =
      if ltb 1500 (length buff - offset)
      then (w, panic)
      else (dll.send_packet w tun.session (drop offset buff), ok (length buff - offset))

  unfoldable pub write : NativeTun → Bytes → ℕ → W → W × Outcome ℕ
  unfolding put_packet
  write tun buff offset w =
      if tun.session == 0
      then (w, err (codes "session closed"))
      else put_packet tun buff offset
          (dll.allocate_send_packet w tun.session (length buff - offset))

  -- `Adapter.Close`.
  unfoldable pub close_adapter_of : NativeTun → W → (NativeTun × W) × Option Bytes
  close_adapter_of tun w =
      let (w', failed) = dll.close_adapter w tun.adapter in
      if tun.adapter == 0 then ((tun, w), none) else ((record tun { adapter = 0 }, w'), failed)

  unfoldable pub close : NativeTun → W → (NativeTun × W) × Option Bytes
  unfolding close_adapter_of
  close tun w =
      if tun.session == 0
      then close_adapter_of tun w
      else close_adapter_of (record tun { session = 0 }) (dll.end_session w tun.session)
