-- ===== src/Crypto/Ratchet/Tests.antt =====
-- The ratchet of packages/crypto/src/signal.rs at concrete inputs, with the toy key derivation and
-- the toy cipher.
use free_box.Prelude.{
  ℕ, none, some, length-append, ◌+◌, ◌≡◌, refl, true, false, List, [], ◌∷◌, ◌++◌, length, arith,
}
use free_box.Prelude.Digits.{digits_be, length-digits_be}
use free_box.Outcome.{err}
use free_box.Crypto.Aead.{Aead, Bytes}
use free_box.Crypto.Toy.{toy, toy_kdf, total, toy_open, toy_open-tag, toy_open_sound}
use free_box.Crypto.Ratchet.{
  RatchetSession, open_failed, new, seal, open_message, message_key, advance, zero_nonce,
}
use free_box.Crypto.Ratchet.Link.{oks}
use free_box.Crypto.Ratchet.Delivery.{
  Conversation, start, Reach, here, next, alice_seals, bob_opens, messages_arrive,
}
use free_box.Crypto.Ratchet.Limits.{delivered, forged_message_desyncs}

abbrev secret : Bytes
secret = 42 ∷ []

abbrev alice : RatchetSession
alice = new toy_kdf secret true

abbrev sealed : Bytes
sealed = total (message_key toy_kdf alice.send_chain_key 0) ∷ 5 ∷ []

abbrev after_seal : RatchetSession
after_seal = record alice { send_chain_key = advance toy_kdf alice.send_chain_key; send_count = 1 }

abbrev one_sent : Conversation
one_sent = record (start toy_kdf toy secret) {
  alice = after_seal;
  to_bob = sealed ∷ [];
  sent_by_alice = (5 ∷ []) ∷ [];
}

abbrev one_opened : Conversation
one_opened = record one_sent {
  bob = (open_message toy_kdf toy one_sent.bob sealed).1;
  to_bob = [];
  got_by_bob = (open_message toy_kdf toy one_sent.bob sealed).0 ∷ [];
}

run : Reach toy_kdf toy (start toy_kdf toy secret) one_opened
unfolding seal new message_key digits_be
run = next (next here (alice_seals (5 ∷ []) sealed after_seal refl)) (bob_opens sealed [] refl)

messages_arrive_example :
    (p q : List Bytes) × (oks one_opened.sent_by_alice ≡ one_opened.got_by_bob ++ oks p)
    × (length p ≡ length one_opened.to_bob)
    × (oks one_opened.sent_by_bob ≡ one_opened.got_by_alice ++ oks q)
    × (length q ≡ length one_opened.to_alice)
messages_arrive_example = messages_arrive toy_kdf toy secret run

abbrev spent_sender : RatchetSession
spent_sender = record alice { send_count = 1000000 }

abbrev spent_receiver : RatchetSession
spent_receiver = record alice { recv_count = 1000000 }

abbrev bob : RatchetSession
bob = new toy_kdf secret false

-- A cipher whose tag is the length of the key: here each key of a chain is longer than the one before.
abbrev by_length : Aead
by_length = record {
  encrypt = λ k n p. some (length k ∷ p);
  decrypt = λ k n c. toy_open (length k) c;
  encrypt_total = λ k n p h. (length k ∷ p, refl);
  decrypt-encrypt = λ k n p c. toy_open-tag (length k) p c;
  decrypt_sound = λ k n c p. toy_open_sound (length k) c p;
}

longer :
    (chain : Bytes) (n : ℕ) (text c : Bytes)
    → by_length.encrypt (message_key toy_kdf chain n) zero_nonce text ≡ some c
    → by_length.decrypt (message_key toy_kdf (advance toy_kdf chain) (n + 1)) zero_nonce c ≡ none
unfolding message_key advance
longer chain n text [] h = cc
longer chain n text (tag ∷ p) h = ground (
  arith,
  length-append chain (digits_be 256 4 n),
  length-append (advance toy_kdf chain) (digits_be 256 4 (n + 1)),
  length-digits_be 256 4 n,
  length-digits_be 256 4 (n + 1),
)

forged_message_desyncs_example :
    (delivered toy_kdf by_length alice bob ((5 ∷ []) ∷ (6 ∷ []) ∷ [])
      ≡ oks ((5 ∷ []) ∷ (6 ∷ []) ∷ []))
    × (delivered toy_kdf by_length alice
          (open_message toy_kdf by_length bob (9 ∷ [])).1
          ((5 ∷ []) ∷ (6 ∷ []) ∷ [])
        ≡ err open_failed ∷ err open_failed ∷ [])
unfolding new
forged_message_desyncs_example =
    forged_message_desyncs toy_kdf by_length longer alice bob (9 ∷ []) ((5 ∷ []) ∷ (6 ∷ []) ∷ [])
      refl refl (omega arith) (omega arith, (omega arith, tt))
