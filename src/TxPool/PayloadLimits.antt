-- ===== src/TxPool/PayloadLimits.antt =====
-- What `collect_payload` of crates/txpool/src/lib.rs selects: within the limits, by falling tip, and readable again.

use nbnet.Prelude.{
  ℕ, zero, suc, ◌%◌, ◌≤◌, ◌<◌, ◌≡◌, refl, sym, ap, subst, ◌∙◌, List, [], ◌∷◌, ◌++◌, map, arith,
  none, some, true, if◌then◌else◌, length, length-append, take, drop, All, Option, leb, map_option,
}
use mathlib.Core.List.{append_assoc}
use nbnet.Std.Words.{u32_mod}
use nbnet.Std.Bytes.{
  to_le_bytes, from_le_bytes, from_le-to_le, length-to_le, take_append, drop_append,
}
use nbnet.Types.Tx.{TxEnvelope}
use nbnet.TxPool.Pool.{SenderQueue, PoolInner}
use nbnet.TxPool.Payload.{
  Candidate, Selection, sort_by_tip, frame, candidates, selection, no_selection,
}
use nbnet.TxPool.Picks.{
  frames, Falling, gas_sum, NoWrap, Picks, sort_by_tip-Falling, Falling-sublist, select-Picks,
}

-- A reader of the length-prefixed format: `n` frames, and nothing behind them.
abbrev pub read_frames : ℕ → List ℕ → Option (List (List ℕ))
read_frames zero [] = some []
read_frames zero (b ∷ bs) = none
read_frames (suc n) bytes =
    let size = from_le_bytes (take 4 bytes) in
    let body = drop 4 bytes in
    let rest = read_frames n (drop size body) in
    if leb size (length body) then map_option (◌∷◌ (take size body)) rest else none

abbrev IsShort : Candidate → Type 0
IsShort c = length c.raw < u32_mod

size-frame :
    (raw rest : List ℕ)
    → length raw < u32_mod
    → from_le_bytes (take 4 (frame raw ++ rest)) ≡ length raw
unfolding frame
size-frame raw rest h =
    let size = length raw % u32_mod in
    ap (λ x. from_le_bytes (take 4 x)) (append_assoc (to_le_bytes 4 size) raw rest)
    ∙ ap from_le_bytes (take_append 4 (to_le_bytes 4 size) (raw ++ rest) (length-to_le 4 size))
    ∙ from_le-to_le 4 size (omega arith)
    ∙ omega arith

body-frame : (raw rest : List ℕ) → drop 4 (frame raw ++ rest) ≡ raw ++ rest
unfolding frame
body-frame raw rest =
    let size = length raw % u32_mod in
    ap (drop 4) (append_assoc (to_le_bytes 4 size) raw rest)
    ∙ drop_append 4 (to_le_bytes 4 size) (raw ++ rest) (length-to_le 4 size)

fits-append : (xs ys : List ℕ) → leb (length xs) (length (xs ++ ys)) ≡ true
fits-append xs ys = ground (arith, length-append xs ys)

read_frames-frames :
    (cs : List Candidate)
    → All IsShort cs
    → read_frames (length cs) (frames cs) ≡ some (map (λ c. c.raw) cs)
read_frames-frames [] h = refl
read_frames-frames (c ∷ cs) h = rw (
  size-frame c.raw (frames cs) h.0,
  body-frame c.raw (frames cs),
  take_append (length c.raw) c.raw (frames cs) refl,
  drop_append (length c.raw) c.raw (frames cs) refl,
  fits-append c.raw (frames cs),
  read_frames-frames cs h.1,
)

module _ {E : Type 0} ⦃tx : TxEnvelope E⦄
    (visit : List (ℕ × SenderQueue E) → List (ℕ × SenderQueue E)) (inner : PoolInner E)
    (max_bytes max_gas : ℕ) where
  chosen : Selection
  chosen = selection visit inner max_bytes max_gas

  chosen-Picks :
      Picks inner.senders max_bytes max_gas
        (sort_by_tip (candidates (visit inner.senders)))
        no_selection
        chosen
  unfolding chosen selection
  chosen-Picks = select-Picks inner.senders max_bytes max_gas _ no_selection

  -- The payload is no longer than the byte limit.
  pub selection_bytes : length (selection visit inner max_bytes max_gas).payload ≤ max_bytes
  unfolding chosen
  selection_bytes = chosen-Picks.bytes_fit (omega arith)

  -- Where there is a gas limit, and no transaction's gas limit is so large that a sum wraps, the
  -- gas limits of the selected transactions add up to the gas limit at most.
  pub selection_gas :
      NoWrap inner.senders max_gas
      → 0 < max_gas
      → gas_sum inner.senders (selection visit inner max_bytes max_gas).included ≤ max_gas
  unfolding chosen
  selection_gas n pos =
      let g = chosen-Picks.gas_fits n pos (omega arith) in
      omega (arith, ap (gas_sum inner.senders) chosen-Picks.included)

  -- The selected transactions stand in the order of falling tips.
  pub selection-Falling : Falling (selection visit inner max_bytes max_gas).included
  unfolding chosen
  selection-Falling =
      let p = chosen-Picks in
      subst Falling (sym p.included) (Falling-sublist p.sub (sort_by_tip-Falling _))

  -- The payload is read back, frame by frame, into exactly the bytes of the selected transactions,
  -- as long as each is shorter than 2 ^ 32.
  pub selection_read_back :
      All (λ c. length c.raw < u32_mod) (selection visit inner max_bytes max_gas).included
      → read_frames
          (length (selection visit inner max_bytes max_gas).included)
          (selection visit inner max_bytes max_gas).payload
        ≡ some (map (λ c. c.raw) (selection visit inner max_bytes max_gas).included)
  unfolding chosen
  selection_read_back h =
      let p = chosen-Picks in
      rw p.framed (rw p.included (read_frames-frames p.picked (subst (All IsShort) p.included h)))
