-- ===== src/TxPool/Picks.antt =====
-- The selection loop of `collect_payload` of crates/txpool/src/lib.rs: what it picks of the sorted
-- candidates.
use mathlib.Core.List.{Sublistᴰ}
use nbnet.Prelude.{
  ℕ, ◌+◌, ◌%◌, ◌≤◌, ◌<◌, ◌≡◌, refl, sym, ap, subst, ◌∙◌, List, [], ◌∷◌, ◌++◌, arith, inl, inr,
  Bool-cases, ltb, ◌&&◌, length, length-append, All,
}
use mathlib.Core.List.{append-nil, append_assoc}
use nbnet.Std.Words.{u32_mod, u64_mod, wrapping_add, wrapping_add_exact}
use nbnet.Std.Bytes.{to_le_bytes, length-to_le}
use nbnet.Std.HashMap.{HashMap}
use nbnet.Types.Tx.{TxEnvelope}
use nbnet.TxPool.Pool.{SenderQueue}
use nbnet.TxPool.Payload.{Candidate, Selection, insert_by_tip, sort_by_tip, frame, gas_of, select}

pub length-frame : (raw : List ℕ) → length (frame raw) ≡ 4 + length raw
unfolding frame
length-frame raw = omega (
  arith,
  length-append (to_le_bytes 4 (length raw % u32_mod)) raw,
  length-to_le 4 (length raw % u32_mod),
)

-- The frames of several transactions, one after the other.
abbrev pub frames : List Candidate → List ℕ
frames [] = []
frames (c ∷ cs) = frame c.raw ++ frames cs

-- Tips fall along the list.
abbrev pub Falling : List Candidate → Type 0
Falling [] = Unit
Falling (c ∷ cs) = All (λ d. d.tip ≤ c.tip) cs × Falling cs

pub All-insert_by_tip :
    (P : Candidate → Type 0) (c : Candidate) (cs : List Candidate)
    → P c
    → All P cs
    → All P (insert_by_tip c cs)
unfolding insert_by_tip
All-insert_by_tip P c [] p a = (p, tt)
All-insert_by_tip P c (d ∷ ds) p a = ground (arith, All-insert_by_tip P c ds p a.1)

All-le : (t u : ℕ) (cs : List Candidate) → t ≤ u → All (λ d. d.tip ≤ t) cs → All (λ d. d.tip ≤ u) cs
All-le t u [] h a = tt
All-le t u (c ∷ cs) h a = (omega arith, All-le t u cs h a.1)

insert_by_tip-Falling :
    (c : Candidate) (cs : List Candidate) → Falling cs → Falling (insert_by_tip c cs)
unfolding insert_by_tip
insert_by_tip-Falling c [] f = (tt, tt)
insert_by_tip-Falling c (d ∷ ds) f = elim (Bool-cases (ltb c.tip d.tip)) [
  | inl lower ↦
      rw (lower, insert_by_tip)
        (
          All-insert_by_tip (λ x. x.tip ≤ d.tip) c ds (ground arith) f.0,
          insert_by_tip-Falling c ds f.1,
        )
  | inr higher ↦
      rw (higher, insert_by_tip) ((ground arith, All-le d.tip c.tip ds (ground arith) f.0), f)
]

pub sort_by_tip-Falling : (cs : List Candidate) → Falling (sort_by_tip cs)
unfolding sort_by_tip
sort_by_tip-Falling [] = tt
sort_by_tip-Falling (c ∷ cs) = insert_by_tip-Falling c _ (sort_by_tip-Falling cs)

All-sublist :
    (P : Candidate → Type 0) {xs cs : List Candidate} → Sublistᴰ xs cs → All P cs → All P xs
All-sublist P Sublistᴰ.slnil a = tt
All-sublist P (Sublistᴰ.cons s) a = All-sublist P s a.1
All-sublist P (Sublistᴰ.cons-cons e s) a = (subst P (sym e) a.0, All-sublist P s a.1)

pub Falling-sublist : {xs cs : List Candidate} → Sublistᴰ xs cs → Falling cs → Falling xs
Falling-sublist Sublistᴰ.slnil f = tt
Falling-sublist (Sublistᴰ.cons s) f = Falling-sublist s f.1
Falling-sublist (Sublistᴰ.cons-cons {l₁ = xs} e s) f = (
  subst (λ (t : ℕ). All (λ d. d.tip ≤ t) xs) (ap (λ (c : Candidate). c.tip) (sym e))
      (All-sublist _ s f.0),
  Falling-sublist s f.1,
)

nil-sublist : (cs : List Candidate) → Sublistᴰ [] cs
nil-sublist [] = Sublistᴰ.slnil
nil-sublist (c ∷ cs) = Sublistᴰ.cons (nil-sublist cs)

module _ {E : Type 0} ⦃tx : TxEnvelope E⦄ (senders : HashMap ℕ (SenderQueue E)) where
  -- The gas of several candidates, as an unbounded number.
  abbrev pub gas_sum : List Candidate → ℕ
  gas_sum [] = 0
  gas_sum (c ∷ cs) = gas_of senders c + gas_sum cs

  -- No gas limit is so large that the sum with it could wrap.
  abbrev pub NoWrap : ℕ → Type 0
  NoWrap max_gas = (c : Candidate) → max_gas + gas_of senders c < u64_mod

  -- What the loop has done when it ends: it has appended some of the candidates, in their order.
  pub record Picks (max_bytes max_gas : ℕ) (cs : List Candidate) (s r : Selection) : Type 0 where
    pub picked : List Candidate
    pub included : r.included ≡ s.included ++ picked
    pub framed : r.payload ≡ s.payload ++ frames picked
    pub sub : Sublistᴰ picked cs
    pub bytes_fit : length s.payload ≤ max_bytes → length r.payload ≤ max_bytes
    pub gas_fits :
        NoWrap max_gas
        → 0 < max_gas
        → s.total_gas ≤ max_gas
        → (r.total_gas ≡ s.total_gas + gas_sum picked) × (r.total_gas ≤ max_gas)

  Picks-none : (b g : ℕ) (cs : List Candidate) (s : Selection) → Picks b g cs s s
  Picks-none b g cs s = record {
    picked = [];
    included = sym (append-nil s.included);
    framed = sym (append-nil s.payload);
    sub = nil-sublist cs;
    bytes_fit = λ h. h;
    gas_fits = λ n p h. (omega arith, h);
  }

  Picks-skip :
      (b g : ℕ) (c : Candidate) (cs : List Candidate) (s r : Selection)
      → Picks b g cs s r
      → Picks b g (c ∷ cs) s r
  Picks-skip b g c cs s r p = record {
    picked = p.picked;
    included = p.included;
    framed = p.framed;
    sub = Sublistᴰ.cons p.sub;
    bytes_fit = p.bytes_fit;
    gas_fits = p.gas_fits;
  }

  -- The state after a candidate is taken.
  abbrev pub taken : Selection → Candidate → Selection
  taken s c = record {
    payload = s.payload ++ frame c.raw;
    total_gas = wrapping_add s.total_gas (gas_of senders c);
    included = s.included ++ c ∷ [];
  }

  Picks-take :
      (b g : ℕ) (c : Candidate) (cs : List Candidate) (s r : Selection)
      → length s.payload + 4 + length c.raw ≤ b
      → (0 < g → wrapping_add s.total_gas (gas_of senders c) ≤ g)
      → Picks b g cs (taken s c) r
      → Picks b g (c ∷ cs) s r
  Picks-take b g c cs s r fits cheap p = record {
    picked = c ∷ p.picked;
    included = p.included ∙ append_assoc s.included (c ∷ []) p.picked;
    framed = p.framed ∙ append_assoc s.payload (frame c.raw) (frames p.picked);
    sub = Sublistᴰ.cons-cons refl p.sub;
    bytes_fit =
        λ h. p.bytes_fit (omega (arith, length-append s.payload (frame c.raw), length-frame c.raw));
    gas_fits = λ n pos h.
        let w = wrapping_add_exact s.total_gas (gas_of senders c) (omega (arith, n c)) in
        let rest = p.gas_fits n pos (cheap pos) in (omega (arith, rest.0), rest.1);
  }

  pub select-Picks :
      (b g : ℕ) (cs : List Candidate) (s : Selection) → Picks b g cs s (select senders b g cs s)
  unfolding select
  select-Picks b g [] s = Picks-none b g [] s
  select-Picks b g (c ∷ cs) s = elim (Bool-cases (ltb b (length s.payload + 4 + length c.raw))) [
    | inl full ↦ rw (full, select) (Picks-none b g (c ∷ cs) s)
    | inr room ↦
        elim (Bool-cases (ltb 0 g && ltb g (wrapping_add s.total_gas (gas_of senders c)))) [
          | inl dear ↦ rw (room, dear, select) (Picks-skip b g c cs s _ (select-Picks b g cs s))
          | inr cheap ↦
              rw (room, cheap, select)
                (Picks-take b g c cs s _ (ground arith) (λ pos. ground arith)
                  (select-Picks b g cs (taken s c)))
        ]
  ]
