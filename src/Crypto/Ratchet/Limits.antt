-- ===== src/Crypto/Ratchet/Limits.antt =====
-- packages/crypto/src/signal.rs: the bound on a chain, and what a call does to the session.
use free_box.Prelude.{
  ℕ, ◌+◌, ◌≤◌, ◌<◌, ◌≡◌, refl, sym, ap, ◌∙◌, none, some, List, [], ◌∷◌, All, map, length, arith,
}
use free_box.Outcome.{Result, ok, err}
use free_box.Crypto.Aead.{Aead, Bytes, max_plaintext}
use free_box.Crypto.Ratchet.Link.{Received, oks, seal_cases, open_message_lem}
use free_box.Crypto.Ratchet.{
  RatchetError, Kdf, RatchetSession, send_chain_exhausted, receive_chain_exhausted, open_failed,
  max_chain_length, zero_nonce, message_key, advance, seal, open_message,
}

pub record IsBounded (s : RatchetSession) : Type 0 where
  pub sends : s.send_count ≤ max_chain_length
  pub receives : s.recv_count ≤ max_chain_length

module _ (derive_key : Kdf) (aead : Aead) where
  -- No call takes a counter past the chain limit.
  pub seal-open-IsBounded :
      (s : RatchetSession) (text : Bytes)
      → IsBounded s
      → IsBounded (seal derive_key aead s text).1
        × IsBounded (open_message derive_key aead s text).1
  unfolding seal open_message
  seal-open-IsBounded s text b = (ground arith, ground arith)

  -- An exhausted chain refuses and leaves the session as it was, in each direction and whatever the
  -- other chain's count.
  pub exhausted_refuses :
      (sender receiver : RatchetSession) (text : Bytes)
      → max_chain_length ≤ sender.send_count
      → max_chain_length ≤ receiver.recv_count
      → (seal derive_key aead sender text ≡ (err send_chain_exhausted, sender))
        × (open_message derive_key aead receiver text ≡ (err receive_chain_exhausted, receiver))
  unfolding seal open_message
  exhausted_refuses s r text h k = (ground arith, ground arith)

  -- Below the limit a text of the cipher's size always seals.
  pub seal_total :
      (s : RatchetSession) (text : Bytes)
      → s.send_count < max_chain_length
      → length text ≤ max_plaintext
      → (c : Bytes) × (s' : RatchetSession) × (seal derive_key aead s text ≡ (ok c, s'))
        × (s'.send_count ≡ s.send_count + 1)
  unfolding seal
  seal_total s text lt fits =
      let k = message_key derive_key s.send_chain_key s.send_count in
      let (c, e) = aead.encrypt_total k zero_nonce text fits in
      (
        c,
        record s {
          send_chain_key = advance derive_key s.send_chain_key;
          send_count = s.send_count + 1;
        },
        ground (arith, e),
        refl,
      )

  open_fails :
      (r : RatchetSession) (c : Bytes)
      → r.recv_count < max_chain_length
      → aead.decrypt (message_key derive_key r.recv_chain_key r.recv_count) zero_nonce c ≡ none
      → (open_message derive_key aead r c).0 ≡ err open_failed
  unfolding open_message
  open_fails r c lt e = ground (arith, e)

  -- `open` moves the receiving chain on whatever the ciphertext is.
  open_moves :
      (r : RatchetSession) (c : Bytes)
      → r.recv_count < max_chain_length
      → ((open_message derive_key aead r c).1.recv_chain_key ≡ advance derive_key r.recv_chain_key)
        × ((open_message derive_key aead r c).1.recv_count ≡ r.recv_count + 1)
  unfolding open_message
  open_moves r c lt = ground arith

  abbrev open_sealed : RatchetSession → Result RatchetError Bytes → Received × RatchetSession
  open_sealed r (ok c) = open_message derive_key aead r c
  open_sealed r (err e) = (err e, r)

  -- What the receiver makes of texts that are sealed and opened one after the other.
  abbrev pub delivered : RatchetSession → RatchetSession → List Bytes → List Received
  delivered s r [] = []
  delivered s r (t ∷ ts) =
      let sealed = seal derive_key aead s t in
      let opened = open_sealed r sealed.0 in opened.0 ∷ delivered sealed.1 opened.1 ts

  delivered-level :
      (s r : RatchetSession) (texts : List Bytes)
      → r.recv_chain_key ≡ s.send_chain_key
      → r.recv_count ≡ s.send_count
      → s.send_count + length texts < max_chain_length
      → All (λ t. length t ≤ max_plaintext) texts
      → delivered s r texts ≡ oks texts
  delivered-level s r [] chain count room fit = refl
  delivered-level s r (t ∷ ts) chain count room fit =
      let (c, s', sealed, _) = seal_total s t (omega arith) fit.0 in
      let (lt, e, chain', count', _, _) = seal_cases derive_key aead s s' t c sealed in
      let opened = open_message_lem derive_key aead r t c (omega arith) (cc (chain, count, e)) in
      let moved = open_moves r c (omega arith) in
      rw sealed (
        ap (λ (x : Received). x ∷ delivered s' (open_message derive_key aead r c).1 ts)
          (ap (λ x. x.0) opened)
        ∙ ap (λ (l : List Received). ok t ∷ l)
            (delivered-level s' (open_message derive_key aead r c).1 ts
              (moved.0 ∙ ap (advance derive_key) chain ∙ sym chain')
              (moved.1 ∙ ap (λ (n : ℕ). n + 1) count ∙ sym count') (omega arith) fit.1))

  module _
      (apart : (chain : Bytes) (n : ℕ) (text c : Bytes)
        → aead.encrypt (message_key derive_key chain n) zero_nonce text ≡ some c
        → aead.decrypt (message_key derive_key (advance derive_key chain) (n + 1)) zero_nonce c
          ≡ none) where
    delivered-ahead :
        (s r : RatchetSession) (texts : List Bytes)
        → r.recv_chain_key ≡ advance derive_key s.send_chain_key
        → r.recv_count ≡ s.send_count + 1
        → s.send_count + length texts < max_chain_length
        → All (λ t. length t ≤ max_plaintext) texts
        → delivered s r texts ≡ map (λ t. err open_failed) texts
    delivered-ahead s r [] chain count room fit = refl
    delivered-ahead s r (t ∷ ts) chain count room fit =
        let (c, s', sealed, _) = seal_total s t (omega arith) fit.0 in
        let (lt, e, chain', count', _, _) = seal_cases derive_key aead s s' t c sealed in
        let refused : aead.decrypt (message_key derive_key r.recv_chain_key r.recv_count) zero_nonce
              c
            ≡ none =
          cc (chain, count, apart s.send_chain_key s.send_count t c e) in
        let moved = open_moves r c (omega arith) in
        rw sealed (
          ap (λ (x : Received). x ∷ delivered s' (open_message derive_key aead r c).1 ts)
            (open_fails r c (omega arith) refused)
          ∙ ap (λ (l : List Received). err open_failed ∷ l)
              (delivered-ahead s' (open_message derive_key aead r c).1 ts
                (moved.0 ∙ ap (advance derive_key) (chain ∙ sym chain'))
                (moved.1 ∙ ap (λ (n : ℕ). n + 1) (count ∙ sym count')) (omega arith) fit.1))

    -- Take a sender and a receiver whose chains are level, texts of the cipher's size that the chain has room
    -- for, and a cipher for which what one key of the chain has sealed does not authenticate under the
    -- next key. Opened one after the other, the texts arrive as they were sealed; but once the receiver
    -- has tried to open one other ciphertext before them, of any bytes, all of them fail to open.
    pub forged_message_desyncs :
        (s r : RatchetSession) (forged : Bytes) (texts : List Bytes)
        → r.recv_chain_key ≡ s.send_chain_key
        → r.recv_count ≡ s.send_count
        → s.send_count + length texts < max_chain_length
        → All (λ t. length t ≤ max_plaintext) texts
        → (delivered s r texts ≡ oks texts)
          × (delivered s (open_message derive_key aead r forged).1 texts
              ≡ map (λ t. err open_failed) texts)
    forged_message_desyncs s r forged texts chain count room fit =
        let moved = open_moves r forged (omega arith) in
        (
          delivered-level s r texts chain count room fit,
          delivered-ahead s (open_message derive_key aead r forged).1 texts
              (moved.0 ∙ ap (advance derive_key) chain) (moved.1 ∙ ap (λ (n : ℕ). n + 1) count) room
              fit,
        )
