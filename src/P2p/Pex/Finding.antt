-- ===== src/P2p/Pex/Finding.antt =====
-- What goes wrong in `RequestPeX`.
use mynetwork.Common.{
  ◌≡◌, refl, ap, ◌∙◌, List, [], ◌∷◌, ◌++◌, Bytes, split, split_free, split-append, split-nonempty,
  IsFree, Option, Outcome, ok, panic,
}
use mynetwork.Config.{PeerId}
use mynetwork.P2p.Pex.{PexHost, parse_line, read_infos, request_pex}

module _ (h : PexHost) where
  parse_line-barless : (line : Bytes) → IsFree b'|' line → parse_line h line ≡ panic
  unfolding parse_line
  parse_line-barless line no_bar = rw (parse_line, split_free b'|' line no_bar) refl

  read_infos-barless :
      (line part : Bytes) (parts : List Bytes) (failure : Option Bytes)
      → IsFree b'|' line
      → read_infos h failure (line ∷ part ∷ parts) [] ≡ panic
  unfolding read_infos
  read_infos-barless line part parts failure no_bar =
      rw (read_infos, parse_line-barless line no_bar) refl

  -- A first line without a bar from the peer that is asked ends the node by a panic, whatever follows it.
  pub request_pex-barless :
      (dial : PeerId → Outcome (Bytes × Option Bytes)) (asked : PeerId) (others : List PeerId)
      (line rest : Bytes) (failure : Option Bytes)
      → IsFree b'|' line
      → IsFree b'\n' line
      → dial asked ≡ ok (line ++ b'\n' ∷ rest, failure)
      → request_pex h dial (asked ∷ others) ≡ panic
  unfolding request_pex read_infos parse_line
  request_pex-barless dial asked others line rest failure no_bar no_end answers =
      let (x, xs, more) = split-nonempty b'\n' rest in
      let parts : split b'\n' (line ++ b'\n' ∷ rest) ≡ line ∷ x ∷ xs =
        split-append b'\n' line rest no_end ∙ ap (λ ps. line ∷ ps) more in
      rw (request_pex, answers)
        (ap (λ ps. read_infos h failure ps []) parts ∙ read_infos-barless line x xs failure no_bar)

  -- Only the first peer is ever asked: what any other peer would answer makes no difference, also when
  -- the first one cannot be reached.
  pub request_pex-first :
      (dial dial' : PeerId → Outcome (Bytes × Option Bytes)) (asked : PeerId)
      (others others' : List PeerId)
      → dial asked ≡ dial' asked
      → request_pex h dial (asked ∷ others) ≡ request_pex h dial' (asked ∷ others')
  unfolding request_pex
  request_pex-first dial dial' asked others others' same = rw (request_pex, same) refl
