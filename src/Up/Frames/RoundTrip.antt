-- ===== src/Up/Frames/RoundTrip.antt =====
-- The packets that come out are those that went in.
use mynetwork.Common.{
  ℕ, zero, suc, ◌+◌, ◌-◌, ◌*◌, ◌/◌, ◌%◌, ◌≤◌, ◌<◌, ◌≡◌, ap, ◌∙◌, Bool, true, List, [], ◌∷◌, ◌++◌,
  Bytes, length, length-append, append-nil, append_assoc, ◌≡⟨◌⟩◌, ◌∎, some, All, arith,
}
use mynetwork.Up.Frames.{put_uint16, Pieces, after_last, panicked, read_body, receive}

-- A cut of a text into pieces, none of them empty.
pub data CutOf : Bytes → Pieces → Type 0 where
  whole : CutOf [] []
  cut : {s : Bytes} {ps : Pieces} (c : Bytes) → 1 ≤ length c → CutOf s ps → CutOf (c ++ s) (c ∷ ps)

-- The pieces of a sequence of packets: the size in one piece, and the packet cut in any way.
pub data FramesOf : List Bytes → Pieces → Type 0 where
  no_frame : FramesOf [] []
  frame :
      {packets : List Bytes} {ps : Pieces} (packet : Bytes) (cs : Pieces)
      → length packet ≤ 1420
      → CutOf packet cs
      → FramesOf packets ps
      → FramesOf (packet ∷ packets) (put_uint16 (length packet) ∷ cs ++ ps)

read_body-piece :
    (n : ℕ) (acc c : Bytes) (ps : Pieces)
    → 1 ≤ length c
    → length c ≤ n
    → read_body n acc (c ∷ ps) ≡ read_body (n - length c) (acc ++ c) ps
unfolding read_body
read_body-piece zero acc c ps pos fits = absurd (omega arith)
read_body-piece (suc n) acc c ps pos fits = ground arith

read_body-CutOf :
    (acc : Bytes) {s : Bytes} {cs : Pieces} (rest : Pieces)
    → CutOf s cs
    → read_body (length s) acc (cs ++ rest) ≡ some (acc ++ s, rest)
unfolding read_body
read_body-CutOf acc rest whole = rw (append-nil acc)
read_body-CutOf acc rest (cut {s} {ps} c pos more) =
    let fits : length c ≤ length (c ++ s) = omega (arith, length-append c s) in
    let left : length (c ++ s) - length c ≡ length s = omega (arith, length-append c s) in
    read_body (length (c ++ s)) acc (c ∷ (ps ++ rest))
    ≡⟨ read_body-piece (length (c ++ s)) acc c (ps ++ rest) pos fits ⟩
      read_body (length (c ++ s) - length c) (acc ++ c) (ps ++ rest)
    ≡⟨ ap (λ n. read_body n (acc ++ c) (ps ++ rest)) left ⟩
      read_body (length s) (acc ++ c) (ps ++ rest)
    ≡⟨ read_body-CutOf (acc ++ c) rest more ⟩ some ((acc ++ c) ++ s, rest)
    ≡⟨ ap (λ t. some (t, rest)) (append_assoc acc c s) ⟩ some (acc ++ (c ++ s), rest) ∎

size_back : (n : ℕ) → n ≤ 1420 → n % 256 + 256 * (n / 256 % 256) ≡ n
size_back n h = omega arith

receive-frame :
    (fuel : ℕ) (deadline : Bytes → Bool) (idle : Bool) (buf packet : Bytes) (cs ps : Pieces)
    (out : List Bytes)
    → length packet ≤ 1420
    → CutOf packet cs
    → deadline packet ≡ true
    → receive (suc fuel) deadline idle buf (put_uint16 (length packet) ∷ cs ++ ps) out
      ≡ receive fuel deadline idle (put_uint16 (length packet)) ps (out ++ packet ∷ [])
unfolding receive
receive-frame fuel deadline idle buf packet cs ps out small pieces granted =
    rw (size_back (length packet) small)
      (ground (arith, read_body-CutOf [] ps pieces, granted, small))

receive-nil :
    (fuel : ℕ) (deadline : Bytes → Bool) (idle : Bool) (buf : Bytes) (out : List Bytes)
    → receive (suc fuel) deadline idle buf [] out ≡ (out ++ [], after_last idle)
unfolding receive
receive-nil fuel deadline idle buf out = rw (append-nil out)

pub receive-FramesOf :
    (fuel : ℕ) (deadline : Bytes → Bool) (idle : Bool) (buf : Bytes) {packets : List Bytes}
    {ps : Pieces} (out : List Bytes)
    → FramesOf packets ps
    → All (λ p. deadline p ≡ true) packets
    → length packets < fuel
    → receive fuel deadline idle buf ps out ≡ (out ++ packets, after_last idle)
receive-FramesOf zero deadline idle buf out f h enough = elim enough [ ]
receive-FramesOf (suc fuel) deadline idle buf out no_frame h enough =
    receive-nil fuel deadline idle buf out
receive-FramesOf (suc fuel) deadline idle buf out (frame {packets} {ps} packet cs small pieces more)
      (g, h) enough =
    receive-frame fuel deadline idle buf packet cs ps out small pieces g
    ∙ receive-FramesOf fuel deadline idle (put_uint16 (length packet)) (out ++ packet ∷ []) more h
        (omega arith)
    ∙ ap (λ l. (l, after_last idle)) (append_assoc out (packet ∷ []) packets)

-- A size of more than 1420 bytes ends the daemon by a panic, whatever follows it and whatever was
-- received before.
pub receive-oversize :
    (fuel : ℕ) (deadline : Bytes → Bool) (idle : Bool) (buf : Bytes) (n : ℕ) (ps : Pieces)
    (out : List Bytes)
    → 1420 < n
    → n < 65536
    → receive (suc fuel) deadline idle buf (put_uint16 n ∷ ps) out ≡ (out, panicked)
unfolding receive
receive-oversize fuel deadline idle buf n ps out big word =
    let back : n % 256 + 256 * (n / 256 % 256) ≡ n = omega arith in rw back (ground arith)
