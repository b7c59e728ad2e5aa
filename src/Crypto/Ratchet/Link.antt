-- ===== src/Crypto/Ratchet/Link.antt =====
-- One direction of a ratchet conversation of packages/crypto/src/signal.rs: the sending chain of one
-- session, the receiving chain of the other, and the sealed messages on their way.
use free_box.Prelude.{
  ℕ, ◌+◌, ◌<◌, ◌≡◌, refl, sym, ◌∙◌, ap, List, [], ◌∷◌, ◌++◌, some, arith, append_assoc,
}
use free_box.Outcome.{Result, ok}
use free_box.Crypto.Aead.{Aead, Bytes}
use free_box.Crypto.Ratchet.{
  Kdf, RatchetSession, RatchetError, max_chain_length, zero_nonce, message_key, advance, seal,
  open_message,
}

abbrev pub Received : Type 0
Received = Result RatchetError Bytes

abbrev pub oks : List Bytes → List Received
oks [] = []
oks (t ∷ ts) = ok t ∷ oks ts

oks-append : (xs ys : List Bytes) → oks (xs ++ ys) ≡ oks xs ++ oks ys
oks-append [] ys = refl
oks-append (x ∷ xs) ys = ap (◌∷◌ (ok x)) (oks-append xs ys)

module _ (derive_key : Kdf) (aead : Aead) where
  -- `wire` holds the texts `pending`, sealed in order from the chain `(rc, rn)` up to `(sc, sn)`.
  abbrev pub Sealed : Bytes → ℕ → List Bytes → List Bytes → Bytes → ℕ → Type 0
  Sealed rc rn [] [] sc sn = (rc ≡ sc) × (rn ≡ sn)
  Sealed rc rn [] (t ∷ ts) sc sn = ⊥
  Sealed rc rn (c ∷ cs) [] sc sn = ⊥
  Sealed rc rn (c ∷ cs) (t ∷ ts) sc sn =
      (rn < max_chain_length)
      × (aead.encrypt (message_key derive_key rc rn) zero_nonce t ≡ some c)
      × Sealed (advance derive_key rc) (rn + 1) cs ts sc sn

  Sealed-concat :
      (rc : Bytes) (rn : ℕ) (wire pending : List Bytes) (sc : Bytes) (sn : ℕ) (c t : Bytes)
      → Sealed rc rn wire pending sc sn
      → sn < max_chain_length
      → aead.encrypt (message_key derive_key sc sn) zero_nonce t ≡ some c
      → Sealed rc rn (wire ++ c ∷ []) (pending ++ t ∷ []) (advance derive_key sc) (sn + 1)
  Sealed-concat rc rn [] [] sc sn c t h lt e =
      (omega arith, rw (h.0, h.1) e, (ap (advance derive_key) h.0, ap (λ (n : ℕ). n + 1) h.1))
  Sealed-concat rc rn [] (u ∷ us) sc sn c t h lt e = absurd h
  Sealed-concat rc rn (d ∷ ds) [] sc sn c t h lt e = absurd h
  Sealed-concat rc rn (d ∷ ds) (u ∷ us) sc sn c t h lt e =
      (h.0, h.1, Sealed-concat (advance derive_key rc) (rn + 1) ds us sc sn c t h.2 lt e)

  -- What one side has sealed is what the other has opened, in order, and what is on its way.
  pub record IsLane (sender receiver : RatchetSession) (wire sent : List Bytes)
      (got : List Received) : Type 0 where
    pub pending : List Bytes
    pub link :
        Sealed receiver.recv_chain_key receiver.recv_count wire pending sender.send_chain_key
          sender.send_count
    pub log : oks sent ≡ got ++ oks pending

  pub seal_cases :
      (s s' : RatchetSession) (text c : Bytes)
      → seal derive_key aead s text ≡ (ok c, s')
      → (s.send_count < max_chain_length)
        × (aead.encrypt (message_key derive_key s.send_chain_key s.send_count) zero_nonce text
            ≡ some c)
        × (s'.send_chain_key ≡ advance derive_key s.send_chain_key)
        × (s'.send_count ≡ s.send_count + 1)
        × (s'.recv_chain_key ≡ s.recv_chain_key)
        × (s'.recv_count ≡ s.recv_count)
  unfolding seal
  seal_cases s s' text c h = ground arith

  pub open_message_lem :
      (s : RatchetSession) (t c : Bytes)
      → s.recv_count < max_chain_length
      → aead.encrypt (message_key derive_key s.recv_chain_key s.recv_count) zero_nonce t ≡ some c
      → open_message derive_key aead s c ≡ (
        ok t,
        record s {
          recv_chain_key = advance derive_key s.recv_chain_key;
          recv_count = s.recv_count + 1;
        },
      )
  unfolding open_message
  open_message_lem s t c lt e =
      let k = message_key derive_key s.recv_chain_key s.recv_count in
      ground (arith, aead.decrypt-encrypt k zero_nonce t c e)

  -- Opening touches the receiving chain alone.
  pub open_message_keeps :
      (s : RatchetSession) (c : Bytes)
      → ((open_message derive_key aead s c).1.send_chain_key ≡ s.send_chain_key)
        × ((open_message derive_key aead s c).1.send_count ≡ s.send_count)
  unfolding open_message
  open_message_keeps s c = ground arith

  -- A message that seals goes to the end of the lane.
  pub IsLane-seal :
      {s r : RatchetSession} {wire sent : List Bytes} {got : List Received} (s' : RatchetSession)
      (text c : Bytes)
      → IsLane s r wire sent got
      → seal derive_key aead s text ≡ (ok c, s')
      → IsLane s' r (wire ++ c ∷ []) (sent ++ text ∷ []) got
  IsLane-seal {s} {r} {wire} {sent} {got} s' text c lane h =
      let (lt, e, chain, count, _, _) = seal_cases s s' text c h in
      record {
        pending = lane.pending ++ text ∷ [];
        link =
            rw (chain, count)
              (Sealed-concat r.recv_chain_key r.recv_count wire lane.pending s.send_chain_key
                s.send_count c text lane.link lt e);
        log =
            oks-append sent (text ∷ [])
            ∙ ap (λ (l : List Received). l ++ ok text ∷ []) lane.log
            ∙ append_assoc got (oks lane.pending) (ok text ∷ [])
            ∙ ap (◌++◌ got) (sym (oks-append lane.pending (text ∷ [])));
      }

  open_pending :
      (s r : RatchetSession) (c : Bytes) (wire sent : List Bytes) (got : List Received)
      (pending : List Bytes)
      → Sealed r.recv_chain_key r.recv_count (c ∷ wire) pending s.send_chain_key s.send_count
      → oks sent ≡ got ++ oks pending
      → IsLane s
          (open_message derive_key aead r c).1
          wire
          sent
          (got ++ (open_message derive_key aead r c).0 ∷ [])
  open_pending s r c wire sent got [] link log = absurd link
  open_pending s r c wire sent got (t ∷ ts) link log =
      rw (open_message_lem r t c link.0 link.1) (record {
        pending = ts;
        link = link.2;
        log = log ∙ sym (append_assoc got (ok t ∷ []) (oks ts));
      })

  -- The message at the front of the lane opens to the text that was sealed.
  pub IsLane-open :
      {s r : RatchetSession} {c : Bytes} {wire sent : List Bytes} {got : List Received}
      → IsLane s r (c ∷ wire) sent got
      → IsLane s
          (open_message derive_key aead r c).1
          wire
          sent
          (got ++ (open_message derive_key aead r c).0 ∷ [])
  IsLane-open {s} {r} {c} {wire} {sent} {got} lane =
      open_pending s r c wire sent got lane.pending lane.link lane.log
