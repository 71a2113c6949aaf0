-- ===== src/Checks/OfWintun.antt =====
-- Instances of the theorems about the device of wintun.dll, on a ring that is a list.
use mynetwork.Common.{
  ℕ, suc, ◌-◌, ◌≡◌, refl, sym, ap, inr, none, List, [], ◌∷◌, Bytes, codes, replicate, ok, arith,
}
use mynetwork.Wintun.{
  Received, no_more_items, failed_with, packet, Dll, NativeTun, read, write, close,
}
use mynetwork.Wintun.Ring.{RingLaws, Reads, read-Reads}

-- The packets that wait, and the number of those that are held.
abbrev Waiting : Type 0
Waiting = List Bytes × ℕ

receive_first : Waiting → Waiting × Received
receive_first ([], n) = (([], n), no_more_items)
receive_first (p ∷ ps, n) = ((ps, suc n), packet p)

abbrev ring : Dll Waiting
ring = record {
  create_adapter = λ w name. (w, inr 1);
  get_adapter_luid = λ w adapter. inr 7;
  start_session = λ w adapter size. (w, inr 2);
  get_read_wait_event = λ w session. inr 3;
  close_adapter = λ w adapter. (w, none);
  end_session = λ w session. w;
  receive_packet = λ w session. receive_first w;
  release_receive_packet = λ w session p. (w.0, w.1 - 1);
  allocate_send_packet = λ w session size. (w, none);
  send_packet = λ w session p. w;
}

abbrev held_in : Waiting → ℕ
held_in w = w.1

ring_takes : (w w' : Waiting) (p : Bytes) → receive_first w ≡ (w', packet p) → w'.1 ≡ suc w.1
unfolding receive_first
ring_takes ([], n) w' p e = absurd (cc e)
ring_takes (q ∷ ps, n) w' p e = ap (λ r. r.0.1) (sym e)

ring_takes_nothing : (w w' : Waiting) → receive_first w ≡ (w', no_more_items) → w'.1 ≡ w.1
unfolding receive_first
ring_takes_nothing ([], n) w' e = ap (λ r. r.0.1) (sym e)
ring_takes_nothing (q ∷ ps, n) w' e = absurd (cc e)

ring_fails : (w w' : Waiting) (m : Bytes) → receive_first w ≡ (w', failed_with m) → w'.1 ≡ w.1
unfolding receive_first
ring_fails ([], n) w' m e = absurd (cc e)
ring_fails (q ∷ ps, n) w' m e = absurd (cc e)

ring-RingLaws : RingLaws ring held_in
ring-RingLaws = record {
  takes = λ w w' session. ring_takes w w';
  takes_nothing = λ w w' session. ring_takes_nothing w w';
  fails = λ w w' session. ring_fails w w';
  gives = λ w session p. refl;
}

abbrev device : NativeTun
device = record { adapter = 1; session = 2; read_wait = 3; name = codes "mynetwork"; luid = 7 }

abbrev buffer : Bytes
buffer = replicate 8 0

abbrev queued : Waiting
queued = ((1 ∷ 2 ∷ 3 ∷ []) ∷ [], 0)

read-Reads_example :
    ((read ring device buffer 0 queued).0.0.1 ≡ 0)
    × Reads ring 2 queued buffer 0 (1 ∷ 2 ∷ 3 ∷ 0 ∷ 0 ∷ 0 ∷ 0 ∷ 0 ∷ []) (ok 3)
unfolding read mynetwork.Wintun.take_packet receive_first
read-Reads_example = read-Reads ring held_in ring-RingLaws device buffer 0 queued (omega arith)
