-- ===== src/TxPool/Index.antt =====
-- The hash index of the pool against its queues: the invariant, and the elementary changes that keep
-- it. Every operation is a sequence of these changes to the queue of one sender.
use nbnet.Prelude.{
  ℕ, ◌+◌, ◌≡◌, Option, none, some, ◌==◌, if◌then◌else◌, arith, nat_eq, ==_iff, Bool-cases, inl, inr,
  subst,
}
use nbnet.Std.HashMap
use nbnet.Std.HashMap.{HashMap}
use nbnet.TxPool.Pool.{SenderQueue, PoolInner, empty_queue}
use nbnet.TxPool.Tally.{tally, hit, IsQueue}

-- 1 if the index gives the sender, and 0 otherwise.
abbrev pub indicator : Option ℕ → ℕ → ℕ
indicator none a = 0
indicator (some b) a = if b == a then 1 else 0

module _ {E : Type 0} where
  -- The queue of a sender, empty where there is none.
  unfoldable pub queue_of : HashMap ℕ (SenderQueue E) → ℕ → SenderQueue E
  queue_of = HashMap.or_default empty_queue

  -- The senders with one queue replaced.
  abbrev pub with_queue : HashMap ℕ (SenderQueue E) → ℕ → SenderQueue E → ℕ → SenderQueue E
  with_queue senders a q b = if a == b then q else queue_of senders b

  pub queue_of-insert :
      (senders : HashMap ℕ (SenderQueue E)) (a b : ℕ) (q : SenderQueue E)
      → queue_of (HashMap.insert senders a q) b ≡ with_queue senders a q b
  unfolding queue_of HashMap.or_default
  queue_of-insert senders a b q = ground (arith, HashMap.get-insert senders a b q)

  -- The queues are well formed, and the hash index names, for each hash, exactly the one sender whose
  -- queue holds it, once. `a` is a sender whose queue is taken to be `q`.
  pub record IsIndexedAt (senders : HashMap ℕ (SenderQueue E)) (a : ℕ) (q : SenderQueue E)
      (by_hash : HashMap ℕ ℕ) : Type 0 where
    pub shape : (b : ℕ) → IsQueue (with_queue senders a q b)
    pub indexed :
        (h b : ℕ) → tally h (with_queue senders a q b) ≡ indicator (HashMap.get by_hash h) b

  pub record IsIndexed (senders : HashMap ℕ (SenderQueue E)) (by_hash : HashMap ℕ ℕ) : Type 0 where
    pub shape : (b : ℕ) → IsQueue (queue_of senders b)
    pub indexed : (h b : ℕ) → tally h (queue_of senders b) ≡ indicator (HashMap.get by_hash h) b

  -- The invariant of the pool's state.
  abbrev pub IsPool : PoolInner E → Type 0
  IsPool inner = IsIndexed inner.senders inner.by_hash

  module _ (senders : HashMap ℕ (SenderQueue E)) (a : ℕ) where
    pub own_queue : (q : SenderQueue E) → with_queue senders a q a ≡ q
    own_queue q = ground arith

    pub own_shape :
        (q : SenderQueue E) (by_hash : HashMap ℕ ℕ) → IsIndexedAt senders a q by_hash → IsQueue q
    own_shape q by_hash i = subst IsQueue (own_queue q) (i.shape a)

    pub focus :
        (by_hash : HashMap ℕ ℕ)
        → IsIndexed senders by_hash
        → IsIndexedAt senders a (queue_of senders a) by_hash
    focus by_hash i = record {
      shape = λ b. same_queue IsQueue b (i.shape b);
      indexed = λ h b.
          same_queue (λ q. tally h q ≡ indicator (HashMap.get by_hash h) b) b (i.indexed h b);
    }
      where
        same_queue :
            (P : SenderQueue E → Type 0) (b : ℕ)
            → P (queue_of senders b)
            → P (with_queue senders a (queue_of senders a) b)
        same_queue P b p = ground (arith, ==_iff a b)

    pub unfocus :
        (q : SenderQueue E) (by_hash : HashMap ℕ ℕ)
        → IsIndexedAt senders a q by_hash
        → IsIndexed (HashMap.insert senders a q) by_hash
    unfocus q by_hash i = record {
      shape = λ b. rw (queue_of-insert senders a b q) (i.shape b);
      indexed = λ h b. rw (queue_of-insert senders a b q) (i.indexed h b);
    }

    module _ (q q' : SenderQueue E) (by_hash : HashMap ℕ ℕ) (i : IsIndexedAt senders a q by_hash)
        (s : IsQueue q') where
      shape_after : (b : ℕ) → IsQueue (with_queue senders a q' b)
      shape_after b = elim (Bool-cases (a == b)) [
        | inl e ↦ rw e s
        | inr e ↦ rw e (rw e at (i.shape b))
      ]

      -- The same hashes in another arrangement.
      pub keep_entries : ((h : ℕ) → tally h q' ≡ tally h q) → IsIndexedAt senders a q' by_hash
      keep_entries e = record {
        shape = shape_after;
        indexed = λ h b. ground (arith, e h, i.indexed h b);
      }

      -- One entry goes, and its hash leaves the index.
      pub drop_entry :
          (x : ℕ)
          → ((h : ℕ) → tally h q' + hit x h ≡ tally h q)
          → IsIndexedAt senders a q' (HashMap.remove by_hash x)
      drop_entry x e = record {
        shape = shape_after;
        indexed = λ h b. ground (
          arith,
          e h,
          e x,
          i.indexed h b,
          i.indexed h a,
          i.indexed x a,
          HashMap.get-remove by_hash x h,
        );
      }

      -- One entry comes, whose hash the index did not know.
      pub add_entry :
          (x : ℕ)
          → HashMap.get by_hash x ≡ none
          → ((h : ℕ) → tally h q' ≡ hit x h + tally h q)
          → IsIndexedAt senders a q' (HashMap.insert by_hash x a)
      add_entry x fresh e = record {
        shape = shape_after;
        indexed = λ h b.
            ground (arith, e h, i.indexed h b, i.indexed h a, HashMap.get-insert by_hash x h a);
      }

  pub get-queue_of :
      (senders : HashMap ℕ (SenderQueue E)) (a : ℕ) (q : SenderQueue E)
      → HashMap.get senders a ≡ some q
      → queue_of senders a ≡ q
  unfolding queue_of HashMap.or_default
  get-queue_of senders a q e = rw e
