-- ===== src/Crypto/Ratchet.antt =====
-- packages/crypto/src/signal.rs: the symmetric-key ratchet. A method on `&mut self` returns the
-- session after it beside its result, on the error paths too. BLAKE3's `derive_key` and the cipher
-- are parameters.
pub mod Link
pub mod Delivery
pub mod Limits
mod Tests
use Prim.Native.String.{String}
use free_box.Prelude.{ℕ, ◌+◌, Bool, List, [], ◌∷◌, ◌++◌, replicate, ltb, if◌then◌else◌}
use free_box.Prelude.Digits.{digits_be}
use free_box.Outcome.{Result, ok, err, ok_or}
use free_box.Crypto.Aead.{Aead, Bytes}

-- Context string and key material.
abbrev pub Kdf : Type 0
Kdf = String → Bytes → Bytes

-- `mod domains`
abbrev pub x3dh_domain : String
x3dh_domain = "freebox x3dh v1"

abbrev pub ratchet_root : String
ratchet_root = "freebox ratchet root v1"

abbrev pub ratchet_send : String
ratchet_send = "freebox ratchet send v1"

abbrev pub ratchet_recv : String
ratchet_recv = "freebox ratchet recv v1"

abbrev pub msg_key : String
msg_key = "freebox msg key v1"

abbrev pub chain_advance : String
chain_advance = "freebox chain advance v1"

abbrev pub max_chain_length : ℕ
max_chain_length = 1000000

pub record RatchetSession : Type 0 where
  pub root_key : Bytes
  pub send_chain_key : Bytes
  pub recv_chain_key : Bytes
  pub send_count : ℕ
  pub recv_count : ℕ

pub data RatchetError : Type 0 where
  send_chain_exhausted receive_chain_exhausted seal_failed open_failed : RatchetError

-- The nonce of every message: its key is used once.
abbrev pub zero_nonce : Bytes
zero_nonce = replicate 12 0

module _ (derive_key : Kdf) where
  unfoldable pub new : Bytes → Bool → RatchetSession
  new shared_secret is_initiator =
      let chain_a = derive_key ratchet_send shared_secret in
      let chain_b = derive_key ratchet_recv shared_secret in
      record {
        root_key = derive_key ratchet_root shared_secret;
        send_chain_key = if is_initiator then chain_a else chain_b;
        recv_chain_key = if is_initiator then chain_b else chain_a;
        send_count = 0;
        recv_count = 0;
      }

  -- the key of message `count` on a chain
  unfoldable pub message_key : Bytes → ℕ → Bytes
  message_key chain count = derive_key msg_key (chain ++ digits_be 256 4 count)

  unfoldable pub advance : Bytes → Bytes
  advance chain = derive_key chain_advance chain

  unfoldable pub next_send_key : RatchetSession → Result RatchetError Bytes × RatchetSession
  next_send_key s =
      if ltb s.send_count max_chain_length
      then (
        ok (message_key s.send_chain_key s.send_count),
        record s { send_chain_key = advance s.send_chain_key; send_count = s.send_count + 1 },
      )
      else (err send_chain_exhausted, s)

  unfoldable pub next_recv_key : RatchetSession → Result RatchetError Bytes × RatchetSession
  next_recv_key s =
      if ltb s.recv_count max_chain_length
      then (
        ok (message_key s.recv_chain_key s.recv_count),
        record s { recv_chain_key = advance s.recv_chain_key; recv_count = s.recv_count + 1 },
      )
      else (err receive_chain_exhausted, s)

abbrev seal_with : Aead → Bytes → Result RatchetError Bytes → Result RatchetError Bytes
seal_with aead text (ok key) = ok_or (aead.encrypt key zero_nonce text) seal_failed
seal_with aead text (err e) = err e

abbrev open_with : Aead → Bytes → Result RatchetError Bytes → Result RatchetError Bytes
open_with aead ciphertext (ok key) = ok_or (aead.decrypt key zero_nonce ciphertext) open_failed
open_with aead ciphertext (err e) = err e

module _ (derive_key : Kdf) (aead : Aead) where
  unfoldable pub seal : RatchetSession → Bytes → Result RatchetError Bytes × RatchetSession
  unfolding next_send_key
  seal s plaintext =
      let (key, s') = next_send_key derive_key s in (seal_with aead plaintext key, s')

  unfoldable pub open_message : RatchetSession → Bytes → Result RatchetError Bytes × RatchetSession
  unfolding next_recv_key
  open_message s ciphertext =
      let (key, s') = next_recv_key derive_key s in (open_with aead ciphertext key, s')
