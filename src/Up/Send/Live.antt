-- ===== src/Up/Send/Live.antt =====
-- The map of streams holds live streams, each for one peer.
use mynetwork.Common.{
  ℕ, ◌≡◌, ◌≢◌, refl, sym, subst, ◌⊎◌, Bool, false, List, [], ◌∷◌, ◌++◌, Bytes, bytes_eq_iff, get,
  put, get-put, get-remove, length, none, some, any, ◌==◌, arith, inl, inr, Option-cases,
  Bool-cases,
}
use mynetwork.Config.{PeerId}
use mynetwork.Up.Frames.{put_uint16}
use mynetwork.Up.Send.{Streams, Answers, give_up, reuse_stream, open_stream, send_packet}

abbrev pub is_closed : Streams → ℕ → Bool
is_closed st s = any (λ c. c == s) st.closed

pub record IsLive (st : Streams) : Type 0 where
  pub open_yet : (d : Bytes) (s : ℕ) → get st.active d ≡ some s → is_closed st s ≡ false
  pub distinct : (d e : Bytes) (s : ℕ) → get st.active d ≡ some s → get st.active e ≡ some s → d ≡ e

-- A new stream is none that is active or was closed.
pub record IsFresh (a : Answers) (st : Streams) : Type 0 where
  pub not_closed : (s : ℕ) → a.new_stream ≡ some s → is_closed st s ≡ false
  pub not_active : (s : ℕ) (d : Bytes) → a.new_stream ≡ some s → get st.active d ≢ some s

module _ (st : Streams) (dst : PeerId) (s : ℕ) (live : IsLive st) where
  give_up-IsLive :
      (written : List (ℕ × Bytes)) → get st.active dst ≡ some s → IsLive (give_up st dst s written)
  give_up-IsLive written here = record {
    open_yet = λ d t e. ground (
      arith,
      get-remove st.active dst d,
      live.open_yet d t,
      live.distinct d dst t,
      bytes_eq_iff dst d,
      here,
      e,
    );
    distinct = λ d e t p q.
        ground (arith, get-remove st.active dst d, get-remove st.active dst e, live.distinct d e t);
  }

  put-IsLive :
      (wire : List (ℕ × Bytes))
      → is_closed st s ≡ false
      → ((d : Bytes) → get st.active d ≢ some s)
      → IsLive (record { active = put st.active dst s; closed = st.closed; wire = wire })
  put-IsLive wire unclosed unused = record {
    open_yet = λ d t e. ground (arith, get-put st.active dst d s, live.open_yet d t, unclosed, e);
    distinct = λ d e t p q. ground (
      arith,
      get-put st.active dst d s,
      get-put st.active dst e s,
      live.distinct d e t,
      unused d,
      unused e,
      bytes_eq_iff dst d,
      bytes_eq_iff dst e,
    );
  }

  -- Closing a stream that no map entry names.
  close-IsLive :
      (wire : List (ℕ × Bytes))
      → ((d : Bytes) → get st.active d ≢ some s)
      → IsLive (record { active = st.active; closed = s ∷ st.closed; wire = wire })
  close-IsLive wire unused = record {
    open_yet = λ d t e. ground (arith, live.open_yet d t, unused d, e);
    distinct = live.distinct;
  }

wire-IsLive :
    (st : Streams) (wire : List (ℕ × Bytes)) → IsLive st → IsLive (record st { wire = wire })
wire-IsLive st wire live = record { open_yet = live.open_yet; distinct = live.distinct }

give_up-IsFresh :
    (a : Answers) (st : Streams) (dst : PeerId) (s : ℕ) (written : List (ℕ × Bytes))
    → get st.active dst ≡ some s
    → IsFresh a st
    → IsFresh a (give_up st dst s written)
give_up-IsFresh a st dst s written here fresh = record {
  not_closed = λ t e. ground (arith, fresh.not_closed t e, fresh.not_active t dst e, here);
  not_active = λ t d e p. ground (arith, fresh.not_active t d e, get-remove st.active dst d, p);
}

open_stream-IsLive :
    (a : Answers) (st : Streams) (dst : PeerId) (packet : Bytes)
    → IsLive st
    → IsFresh a st
    → IsLive (open_stream a st dst packet).0
unfolding open_stream
open_stream-IsLive a st dst packet live fresh = elim (Option-cases a.new_stream) [
  | inl failed ↦ rw failed live
  | inr (s, opened) ↦
      let unused : (d : Bytes) → get st.active d ≢ some s = λ d. fresh.not_active s d opened in
      let size : ℕ × Bytes = (s, put_uint16 (length packet)) in
      rw opened (elim (Bool-cases a.new_deadline_set) [
        | inr no_deadline ↦ rw no_deadline (close-IsLive st dst s live st.wire unused)
        | inl deadline ↦ elim (Bool-cases a.new_size_sent) [
          | inr no_size ↦ rw (deadline, no_size) (close-IsLive st dst s live st.wire unused)
          | inl size_sent ↦ elim (Bool-cases a.new_body_sent) [
            | inr no_body ↦
                rw (deadline, size_sent, no_body)
                  (close-IsLive st dst s live (st.wire ++ size ∷ []) unused)
            | inl body_sent ↦
                rw (deadline, size_sent, body_sent)
                  (put-IsLive st dst s live (st.wire ++ size ∷ (s, packet) ∷ [])
                    (fresh.not_closed s opened) unused)
          ]
        ]
      ])
]

-- The attempt either only writes, or gives the stream up.
reuse_stream-cases :
    (a : Answers) (st : Streams) (dst : PeerId) (s : ℕ) (packet : Bytes)
    → ((wire : List (ℕ × Bytes)) × ((reuse_stream a st dst s packet).0 ≡ record st { wire = wire }))
      ⊎ ((written : List (ℕ × Bytes)) × ((reuse_stream a st dst s packet).0
            ≡ give_up st dst s written))
unfolding reuse_stream
reuse_stream-cases a st dst s packet =
    let size : ℕ × Bytes = (s, put_uint16 (length packet)) in
    elim (Bool-cases a.size_sent) [
      | inr no_size ↦ inr ([], rw no_size refl)
      | inl size_sent ↦ elim (Bool-cases a.body_sent) [
        | inr no_body ↦ inr (size ∷ [], rw (size_sent, no_body) refl)
        | inl body_sent ↦ elim (Bool-cases a.deadline_set) [
          | inr no_deadline ↦
              inr (size ∷ (s, packet) ∷ [], rw (size_sent, body_sent, no_deadline) refl)
          | inl deadline ↦
              inl (st.wire ++ size ∷ (s, packet) ∷ [], rw (size_sent, body_sent, deadline) refl)
        ]
      ]
    ]

reuse_stream-IsLive :
    (a : Answers) (st : Streams) (dst : PeerId) (s : ℕ) (packet : Bytes)
    → IsLive st
    → IsFresh a st
    → get st.active dst ≡ some s
    → IsLive (reuse_stream a st dst s packet).0 × IsFresh a (reuse_stream a st dst s packet).0
reuse_stream-IsLive a st dst s packet live fresh here =
    elim (reuse_stream-cases a st dst s packet) [
      | inl (wire, e) ↦
          subst (λ st'. IsLive st' × IsFresh a st') (sym e)
            (
              wire-IsLive st wire live,
              record { not_closed = fresh.not_closed; not_active = fresh.not_active },
            )
      | inr (written, e) ↦
          subst (λ st'. IsLive st' × IsFresh a st') (sym e)
            (
              give_up-IsLive st dst s live written here,
              give_up-IsFresh a st dst s written here fresh,
            )
    ]

-- Sending on a stream that is there: it is used, or given up and a new one opened.
send_packet-reuse :
    (a : Answers) (st : Streams) (dst : PeerId) (packet : Bytes) (s : ℕ)
    → get st.active dst ≡ some s
    → ((send_packet a st dst packet).0 ≡ (reuse_stream a st dst s packet).0)
      ⊎ ((send_packet a st dst packet).0
          ≡ (open_stream a (reuse_stream a st dst s packet).0 dst packet).0)
unfolding send_packet
send_packet-reuse a st dst packet s here = elim (Bool-cases (reuse_stream a st dst s packet).1) [
  | inl sent ↦ inl (ground (arith, here, sent))
  | inr unsent ↦ inr (ground (arith, here, unsent))
]

send_packet-open :
    (a : Answers) (st : Streams) (dst : PeerId) (packet : Bytes)
    → get st.active dst ≡ none
    → send_packet a st dst packet ≡ open_stream a st dst packet
unfolding send_packet
send_packet-open a st dst packet missing = ground (arith, missing)

-- After `sendPacket`, whatever the calls on the streams answered, the map of active streams still
-- names only streams that were not closed, and no stream for two peers, if this held before and a
-- stream that the call opens is none that is active or was closed.
pub send_packet-IsLive :
    (a : Answers) (st : Streams) (dst : PeerId) (packet : Bytes)
    → IsLive st
    → IsFresh a st
    → IsLive (send_packet a st dst packet).0
send_packet-IsLive a st dst packet live fresh = elim (Option-cases (get st.active dst)) [
  | inl missing ↦
      subst (λ r. IsLive r.0) (sym (send_packet-open a st dst packet missing))
        (open_stream-IsLive a st dst packet live fresh)
  | inr (s, here) ↦
      let (still, fresh') = reuse_stream-IsLive a st dst s packet live fresh here in
      elim (send_packet-reuse a st dst packet s here) [
        | inl e ↦ subst IsLive (sym e) still
        | inr e ↦
            subst IsLive (sym e)
              (open_stream-IsLive a (reuse_stream a st dst s packet).0 dst packet still fresh')
      ]
]
