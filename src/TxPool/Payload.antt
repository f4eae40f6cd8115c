-- ===== src/TxPool/Payload.antt =====
-- `collect_payload` of crates/txpool/src/lib.rs. The order in which the hash map of senders is
-- traversed is the argument `visit`.
use nbnet.Prelude.{
  ℕ, ◌+◌, ◌%◌, ◌&&◌, Option, none, some, List, [], ◌∷◌, ◌++◌, length, ltb, if◌then◌else◌, nat_eq,
}
use nbnet.Std.Words.{u32_mod, wrapping_add}
use nbnet.Std.Bytes.{to_le_bytes}
use nbnet.Std.HashMap
use nbnet.Std.HashMap.{HashMap}
use nbnet.Std.BTreeMap
use nbnet.Types.Tx.{TxEnvelope}
use nbnet.TxPool.Pool.{PoolEntry, SenderQueue, PoolInner, EvmTxPool}

-- (sender, nonce, tip, raw)
pub record Candidate : Type 0 where
  pub sender : ℕ
  pub nonce : ℕ
  pub tip : ℕ
  pub raw : List ℕ

-- The stable sort by falling tip: an entry goes behind those of the same tip.
unfoldable pub insert_by_tip : Candidate → List Candidate → List Candidate
insert_by_tip c [] = c ∷ []
insert_by_tip c (d ∷ ds) = if ltb c.tip d.tip then d ∷ insert_by_tip c ds else c ∷ d ∷ ds

unfoldable pub sort_by_tip : List Candidate → List Candidate
sort_by_tip [] = []
sort_by_tip (c ∷ cs) = insert_by_tip c (sort_by_tip cs)

-- The length prefix and the bytes.
unfoldable pub frame : List ℕ → List ℕ
frame raw = to_le_bytes 4 (length raw % u32_mod) ++ raw

-- The variables of the selection loop.
pub record Selection : Type 0 where
  pub payload : List ℕ
  pub total_gas : ℕ
  pub included : List Candidate

abbrev pub no_selection : Selection
no_selection = record { payload = []; total_gas = 0; included = [] }

module _ {E : Type 0} where
  -- The lowest pending transaction of each sender.
  unfoldable pub candidates : List (ℕ × SenderQueue E) → List Candidate
  candidates [] = []
  candidates ((sender, queue) ∷ rest) =
      let others = candidates rest in
      elim (BTreeMap.first queue.pending) [
        | none ↦ others
        | some (nonce, entry) ↦
            record {
              sender = sender;
              nonce = nonce;
              tip = entry.effective_tip;
              raw = entry.verified.raw;
            }
            ∷ others
      ]

  -- The pending entry of a candidate.
  unfoldable pub pending_entry : HashMap ℕ (SenderQueue E) → ℕ → ℕ → Option (PoolEntry E)
  pending_entry senders sender nonce = elim (HashMap.get senders sender) [
    | none ↦ none
    | some queue ↦ BTreeMap.get queue.pending nonce
  ]

  -- Removes the included transactions and forgets their hashes.
  unfoldable pub remove_included : List Candidate → PoolInner E → PoolInner E
  remove_included [] inner = inner
  remove_included (c ∷ cs) inner = remove_included cs (elim (HashMap.get inner.senders c.sender) [
    | none ↦ inner
    | some queue ↦ elim (BTreeMap.get queue.pending c.nonce) [
      | none ↦ inner
      | some entry ↦ record inner {
        senders =
            HashMap.insert inner.senders c.sender
              (record queue { pending = BTreeMap.remove queue.pending c.nonce });
        by_hash = HashMap.remove inner.by_hash entry.verified.tx_hash;
      }
    ]
  ])

module _ {E : Type 0} ⦃tx : TxEnvelope E⦄ where
  unfoldable pub gas_of : HashMap ℕ (SenderQueue E) → Candidate → ℕ
  gas_of senders c = elim (pending_entry senders c.sender c.nonce) [
    | none ↦ 0
    | some entry ↦ tx.gas_limit entry.verified.envelope
  ]

  -- The loop over the sorted candidates: `break` on the byte limit, `continue` on the gas limit.
  unfoldable pub select : HashMap ℕ (SenderQueue E) → ℕ → ℕ → List Candidate → Selection → Selection
  select senders max_bytes max_gas [] s = s
  select senders max_bytes max_gas (c ∷ cs) s =
      let gas = gas_of senders c in
      let too_much = ltb 0 max_gas && ltb max_gas (wrapping_add s.total_gas gas) in
      let rest = select senders max_bytes max_gas cs (
        if too_much then s else record {
          payload = s.payload ++ frame c.raw;
          total_gas = wrapping_add s.total_gas gas;
          included = s.included ++ c ∷ [];
        }) in
      if ltb max_bytes (length s.payload + 4 + length c.raw) then s else rest

  -- What a call selects.
  unfoldable pub selection :
      (List (ℕ × SenderQueue E) → List (ℕ × SenderQueue E)) → PoolInner E → ℕ → ℕ → Selection
  selection visit inner max_bytes max_gas =
      select inner.senders max_bytes max_gas (sort_by_tip (candidates (visit inner.senders)))
        no_selection

  unfoldable pub collect_payload :
      (List (ℕ × SenderQueue E) → List (ℕ × SenderQueue E))
      → EvmTxPool E
      → ℕ
      → ℕ
      → List ℕ × EvmTxPool E
  collect_payload visit pool max_bytes max_gas =
      let chosen = selection visit pool.inner max_bytes max_gas in
      (chosen.payload, record pool { inner = remove_included chosen.included pool.inner })
