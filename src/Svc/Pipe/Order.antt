-- ===== src/Svc/Pipe/Order.antt =====
-- What `pipe` delivers.
use mynetwork.Common.{
  List-cases, Bool-cases, ◌≡◌, refl, sym, ap, ◌∙◌, List, [], ◌∷◌, ◌++◌, append_assoc, append-nil,
  Option, none, some, All, Bytes, true, false, arith, ◌⊎◌, inl, inr,
}
use mynetwork.Svc.Pipe.{Side, first, second, Piped, written, pipe_round, pipe}

-- What a stream sent is what the other got, in order, and what is still on the way.
pub record IsInOrder (sent1 sent2 : List Bytes) (s : Piped) : Type 0 where
  pub forth : s.to2 ++ s.from1 ≡ sent1
  pub back : s.to1 ++ s.from2 ≡ sent2
  pub ended : s.stopped ≡ true → (s.from1 ≡ []) ⊎ (s.from2 ≡ [])

shift : (xs : List Bytes) (b : Bytes) (ys : List Bytes) → (xs ++ b ∷ []) ++ ys ≡ xs ++ b ∷ ys
shift xs b ys = append_assoc xs (b ∷ []) ys

pipe_round-IsInOrder :
    (sent1 sent2 : List Bytes) (round : Side × Option Bytes) (s : Piped)
    → round.1 ≡ none
    → s.stopped ≡ false
    → IsInOrder sent1 sent2 s
    → IsInOrder sent1 sent2 (pipe_round round s)
unfolding pipe_round written
pipe_round-IsInOrder sent1 sent2 (first, none) s fine go h = elim (List-cases s.from1) [
  | inl drained ↦ ground (arith, drained, h.forth, h.back)
  | inr (b, rest, more) ↦ ground (arith, more, h.forth, h.back, shift s.to2 b rest)
]
pipe_round-IsInOrder sent1 sent2 (first, some part) s broken go h = absurd (cc broken)
pipe_round-IsInOrder sent1 sent2 (second, some part) s broken go h = absurd (cc broken)
pipe_round-IsInOrder sent1 sent2 (second, none) s fine go h = elim (List-cases s.from2) [
  | inl drained ↦ ground (arith, drained, h.forth, h.back)
  | inr (b, rest, more) ↦ ground (arith, more, h.forth, h.back, shift s.to1 b rest)
]

pipe-IsInOrder :
    (sent1 sent2 : List Bytes) (sides : List (Side × Option Bytes)) (s : Piped)
    → All (λ r. r.1 ≡ none) sides
    → IsInOrder sent1 sent2 s
    → IsInOrder sent1 sent2 (pipe sides s)
unfolding pipe
pipe-IsInOrder sent1 sent2 [] s fine h = h
pipe-IsInOrder sent1 sent2 (side ∷ sides) s (whole, fine) h = elim (Bool-cases s.stopped) [
  | inl done ↦ ground (arith, done, h)
  | inr go ↦ ground (
    arith,
    go,
    pipe-IsInOrder sent1 sent2 sides (pipe_round side s) fine
        (pipe_round-IsInOrder sent1 sent2 side s whole go h),
  )
]

-- Nothing written to either stream yet.
abbrev pub unpiped : List Bytes → List Bytes → Piped
unpiped sent1 sent2 = record { from1 = sent1; from2 = sent2; to1 = []; to2 = []; stopped = false }

-- If no write fails, then, whatever the order in which the two channels are served, each stream has been written a beginning
-- of what the other sent, in order and with nothing lost between; and when the pipe stops, one of
-- the two directions has been delivered whole.
pub pipe_delivers :
    (sent1 sent2 : List Bytes) (sides : List (Side × Option Bytes))
    → All (λ r. r.1 ≡ none) sides
    → let s = pipe sides (unpiped sent1 sent2) in
      (s.to2 ++ s.from1 ≡ sent1)
      × (s.to1 ++ s.from2 ≡ sent2)
      × ((s.stopped ≡ false) ⊎ ((s.to2 ≡ sent1) ⊎ (s.to1 ≡ sent2)))
pipe_delivers sent1 sent2 sides fine =
    let h =
      pipe-IsInOrder sent1 sent2 sides (unpiped sent1 sent2) fine
        (record { forth = refl; back = refl; ended = λ e. absurd (cc e) }) in
    (
      h.forth,
      h.back,
      elim (Bool-cases (pipe sides (unpiped sent1 sent2)).stopped) [
        | inr going ↦ inl going
        | inl done ↦ elim (h.ended done) [
          | inl e ↦ inr (
              inl (
                sym (append-nil _)
                ∙ ap (λ l. (pipe sides (unpiped sent1 sent2)).to2 ++ l) (sym e)
                ∙ h.forth))
          | inr e ↦ inr (
              inr (
                sym (append-nil _)
                ∙ ap (λ l. (pipe sides (unpiped sent1 sent2)).to1 ++ l) (sym e)
                ∙ h.back))
        ]
      ],
    )
