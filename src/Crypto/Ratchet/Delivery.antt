-- ===== src/Crypto/Ratchet/Delivery.antt =====
-- Two sessions of packages/crypto/src/signal.rs over a channel that keeps order in each direction.
-- The schedule is free: either side seals or opens at any time.
use free_box.Prelude.{ℕ, suc, ◌+◌, length, ◌≡◌, refl, ap, true, false, List, [], ◌∷◌, ◌++◌}
use free_box.Outcome.{ok}
use free_box.Crypto.Aead.{Aead, Bytes}
use free_box.Crypto.Ratchet.{Kdf, advance, RatchetSession, new, seal, open_message}
use free_box.Crypto.Ratchet.Link.{
  Received, oks, Sealed, IsLane, IsLane-seal, IsLane-open, seal_cases, open_message_keeps,
}

-- `sent_*` are the texts that sealed; `got_*` are the results of opening, in order.
pub record Conversation : Type 0 where
  pub alice : RatchetSession
  pub bob : RatchetSession
  pub to_bob : List Bytes
  pub to_alice : List Bytes
  pub sent_by_alice : List Bytes
  pub sent_by_bob : List Bytes
  pub got_by_bob : List Received
  pub got_by_alice : List Received

module _ (derive_key : Kdf) (aead : Aead) where
  -- `RatchetSession::new` with opposite directions on the two sides
  abbrev pub start : Bytes → Conversation
  start secret = record {
    alice = new derive_key secret true;
    bob = new derive_key secret false;
    to_bob = [];
    to_alice = [];
    sent_by_alice = [];
    sent_by_bob = [];
    got_by_bob = [];
    got_by_alice = [];
  }

  pub data Step (n : Conversation) : Conversation → Type 0 where
    alice_seals :
        (text c : Bytes) (s : RatchetSession)
        → seal derive_key aead n.alice text ≡ (ok c, s)
        → Step n (record n {
          alice = s;
          to_bob = n.to_bob ++ c ∷ [];
          sent_by_alice = n.sent_by_alice ++ text ∷ [];
        })
    bob_seals :
        (text c : Bytes) (s : RatchetSession)
        → seal derive_key aead n.bob text ≡ (ok c, s)
        → Step n (record n {
          bob = s;
          to_alice = n.to_alice ++ c ∷ [];
          sent_by_bob = n.sent_by_bob ++ text ∷ [];
        })
    bob_opens :
        (c : Bytes) (wire : List Bytes)
        → n.to_bob ≡ c ∷ wire
        → Step n (record n {
          bob = (open_message derive_key aead n.bob c).1;
          to_bob = wire;
          got_by_bob = n.got_by_bob ++ (open_message derive_key aead n.bob c).0 ∷ [];
        })
    alice_opens :
        (c : Bytes) (wire : List Bytes)
        → n.to_alice ≡ c ∷ wire
        → Step n (record n {
          alice = (open_message derive_key aead n.alice c).1;
          to_alice = wire;
          got_by_alice = n.got_by_alice ++ (open_message derive_key aead n.alice c).0 ∷ [];
        })

  pub data Reach (n : Conversation) : Conversation → Type 0 where
    here : Reach n n
    next : {m k : Conversation} → Reach n m → Step m k → Reach n k

  pub record IsSynced (n : Conversation) : Type 0 where
    pub forth : IsLane derive_key aead n.alice n.bob n.to_bob n.sent_by_alice n.got_by_bob
    pub back : IsLane derive_key aead n.bob n.alice n.to_alice n.sent_by_bob n.got_by_alice

  -- a lane looks at the sending chain of one session and the receiving chain of the other
  IsLane-frame :
      {s r s' r' : RatchetSession} {wire sent : List Bytes} {got : List Received}
      → (s'.send_chain_key ≡ s.send_chain_key) × (s'.send_count ≡ s.send_count)
      → (r'.recv_chain_key ≡ r.recv_chain_key) × (r'.recv_count ≡ r.recv_count)
      → IsLane derive_key aead s r wire sent got
      → IsLane derive_key aead s' r' wire sent got
  IsLane-frame hs hr lane = record {
    pending = lane.pending;
    link = rw (hs.0, hs.1, hr.0, hr.1) lane.link;
    log = lane.log;
  }

  IsSynced-start : (secret : Bytes) → IsSynced (start secret)
  unfolding new
  IsSynced-start secret = record {
    forth = record { pending = []; link = (refl, refl); log = refl };
    back = record { pending = []; link = (refl, refl); log = refl };
  }

  IsSynced-Step : {n m : Conversation} → Step n m → IsSynced n → IsSynced m
  IsSynced-Step {n} (alice_seals text c s h) i =
      let (_, _, _, _, chain, count) = seal_cases derive_key aead n.alice s text c h in
      record {
        forth = IsLane-seal derive_key aead s text c i.forth h;
        back = IsLane-frame (refl, refl) (chain, count) i.back;
      }
  IsSynced-Step {n} (bob_seals text c s h) i =
      let (_, _, _, _, chain, count) = seal_cases derive_key aead n.bob s text c h in
      record {
        forth = IsLane-frame (refl, refl) (chain, count) i.forth;
        back = IsLane-seal derive_key aead s text c i.back h;
      }
  IsSynced-Step {n} (bob_opens c wire e) i = record {
    forth = IsLane-open derive_key aead (rw e at i.forth);
    back = IsLane-frame (open_message_keeps derive_key aead n.bob c) (refl, refl) i.back;
  }
  IsSynced-Step {n} (alice_opens c wire e) i = record {
    forth = IsLane-frame (open_message_keeps derive_key aead n.alice c) (refl, refl) i.forth;
    back = IsLane-open derive_key aead (rw e at i.back);
  }

  IsSynced-Reach : {n m : Conversation} → Reach n m → IsSynced n → IsSynced m
  IsSynced-Reach here i = i
  IsSynced-Reach (next r st) i = IsSynced-Step st (IsSynced-Reach r i)

  Sealed-length :
      (rc : Bytes) (rn : ℕ) (wire pending : List Bytes) (sc : Bytes) (sn : ℕ)
      → Sealed derive_key aead rc rn wire pending sc sn
      → length pending ≡ length wire
  Sealed-length rc rn [] [] sc sn h = refl
  Sealed-length rc rn [] (t ∷ ts) sc sn h = absurd h
  Sealed-length rc rn (c ∷ cs) [] sc sn h = absurd h
  Sealed-length rc rn (c ∷ cs) (t ∷ ts) sc sn h =
      ap suc (Sealed-length (advance derive_key rc) (rn + 1) cs ts sc sn h.2)

  -- Whatever the schedule, from two fresh sessions of one secret: every message that was opened, in
  -- either direction, opened to the text that was sealed, in the order of sealing, and the texts
  -- not yet opened are as many as the messages on their way.
  pub messages_arrive :
      (secret : Bytes) {n : Conversation}
      → Reach (start secret) n
      → (p q : List Bytes) × (oks n.sent_by_alice ≡ n.got_by_bob ++ oks p)
        × (length p ≡ length n.to_bob)
        × (oks n.sent_by_bob ≡ n.got_by_alice ++ oks q)
        × (length q ≡ length n.to_alice)
  messages_arrive secret {n} r =
      let i = IsSynced-Reach r (IsSynced-start secret) in
      (
        i.forth.pending,
        i.back.pending,
        i.forth.log,
        Sealed-length _ _ n.to_bob i.forth.pending _ _ i.forth.link,
        i.back.log,
        Sealed-length _ _ n.to_alice i.back.pending _ _ i.back.link,
      )
