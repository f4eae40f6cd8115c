-- ===== src/Node/Opened.antt =====
-- `run_node` of crates/node/src/main.rs: the consensus state that is restored once the storage is open.
use nbnet.Prelude.{◌≡◌, sym, ap, ◌∙◌, ℕ, List, Result, Result-cases, inl, inr, ok, err}
use nbnet.Std.Text.{codes}
use nbnet.Std.Files.{Fault, Files, give, look, context, ◌>>=◌, >>=-ok}
use nbnet.Node.Validator.{Identity}
use nbnet.Node.Start.{Consensus, ConsensusState, EngineState, restore}
use nbnet.Node.Documents.{Hotmint, Loaded}
use nbnet.Node.Run.{open_storage, peers_of, connect, fresh_state, open_network}

pub ok_injective : {A : Type 0} {a b : A} → ◌≡◌ {A = Result A Fault} (ok a) (ok b) → a ≡ b
ok_injective q = cc

pub err≢ok : {A : Type 0} {x : Fault} {a : A} → ◌≡◌ {A = Result A Fault} (err x) (ok a) → ⊥
err≢ok q = cc

module _ {f : Files} {c : Consensus} (hm : Hotmint f c) where
  -- The network is connected with the consensus state that it is given.
  connect-same :
      (home : f.FilePath) (laddr : List ℕ) (l : Loaded hm) (s : ConsensusState c × EngineState c)
      (cn : (ConsensusState c × EngineState c) × hm.Network) (w w' : f.World)
      → connect hm home laddr l s w ≡ (ok cn, w')
      → cn.0 ≡ s
  unfolding connect
  connect-same home laddr l s cn w w' e = elim (Result-cases (peers_of hm l)) [
    | inr (x, p) ↦ absurd (err≢ok (ap (λ x. x.0) (rw (p, connect) at e)))
    | inl (peers, p) ↦
        elim (Result-cases
          (context (codes "invalid p2p listen address") (hm.parse_multiaddr laddr))) [
            | inr (x, q) ↦ absurd (err≢ok (ap (λ x. x.0) (rw (p, q, connect) at e)))
            | inl (addr, q) ↦
                let (network, u, m, k) =
                  >>=-ok
                    (hm.create_network addr
                      (f.join (f.join home (codes "data")) (codes "peer_book.json")) l.node_config
                      peers l.litep2p_keypair l.validator_set s.0)
                    (λ network. give (ok (s, network))) w w' cn (rw (p, q, connect) at e) in
                ap (λ x. x.0) (sym (ok_injective (ap (λ x. x.0) k)))
          ]
  ]

  -- The world in which the storage is open.
  abbrev pub storage : f.FilePath → f.World → f.World
  storage home w = (open_storage hm home w).1

  pub open_network-restore :
      (home : f.FilePath) (laddr : List ℕ) (l : Loaded hm) (i : Identity)
      (cn : (ConsensusState c × EngineState c) × hm.Network) (w w' : f.World)
      → open_network hm home laddr l i w ≡ (ok cn, w')
      → cn.0 ≡ restore (hm.persisted (storage home w)) (fresh_state hm l i)
  unfolding open_network
  open_network-restore home laddr l i cn w w' e =
      let restored = look (λ u. ok (restore (hm.persisted u) (fresh_state hm l i))) in
      let (opened, w1, e1, k1) =
        >>=-ok (open_storage hm home) (λ u. restored >>= connect hm home laddr l) w w' cn e in
      let (s, w2, e2, k2) = >>=-ok restored (connect hm home laddr l) w1 w' cn k1 in
      connect-same home laddr l s cn w2 w' k2
      ∙ sym (ok_injective (ap (λ x. x.0) e2))
      ∙ ap (λ u. restore (hm.persisted u) (fresh_state hm l i)) (sym (ap (λ x. x.1) e1))
