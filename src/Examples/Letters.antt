-- ===== src/Examples/Letters.antt =====
-- Toy ciphers in the place of X25519, ML-KEM-768, ChaCha20-Poly1305 and hexadecimal text, an address and
-- an encrypted note under them.
use unknown.Base.{
  ℕ, ◌-◌, ◌≡◌, refl, ap, arith, some, ok, [], ◌∷◌, ◌++◌, length, length-append, length-replicate,
  replicate, take, take_append,
}
use unknown.Base.Bytes.{Bytes}
use unknown.Primitives.{length-hash_parts, addr_tag_context}
use unknown.Notes.{Note}
use unknown.Notes.Binding.{IsNote}
use unknown.Keys.{
  Ciphers, SpendingKey, PaymentAddress, address, ask, addr_tag, incoming_viewing_key, encode,
  decode, mlkem_pk_len, mlkem_ct_len,
}
use unknown.Keys.Address.{decode-encode_address}
use unknown.Encryption.{EncryptedOutput, encrypt_note, try_decrypt, enc_output_len}
use unknown.Encryption.Delivery.{try_decrypt-encrypt_note}
use unknown.Examples.{toy, filled}

pub untagged :
    (text : Bytes) → take (length (text ++ replicate 16 0) - 16) (text ++ replicate 16 0) ≡ text
untagged text =
    take_append (length (text ++ replicate 16 0) - 16) text (replicate 16 0)
      (omega (arith, length-append text (replicate 16 0)))

-- A tag of sixteen zeros, and constants for the keys and the shared secrets.
instance abbrev pub toy_ciphers : Ciphers
toy_ciphers = record {
  x25519_public = λ s. filled 1;
  diffie_hellman = λ s p. filled 2;
  encapsulation_key = λ seed. replicate mlkem_pk_len 3;
  encapsulate = λ pk m. some (replicate mlkem_ct_len 4, filled 5);
  decapsulate = λ seed ct. filled 5;
  aead_encrypt = λ key nonce text. text ++ replicate 16 0;
  aead_decrypt = λ key nonce ct. some (take (length ct - 16) ct);
  hex_encode = λ bytes. bytes;
  hex_decode = λ bytes. some bytes;
  dh_agree = λ s t. refl;
  length-public = λ s. refl;
  length-key = λ seed. length-replicate {A = ℕ} mlkem_pk_len 3;
  kem_agree = λ seed m.
      (replicate mlkem_ct_len 4, filled 5, refl, refl, length-replicate {A = ℕ} mlkem_ct_len 4);
  aead_agree = λ key nonce text. ap some (untagged text);
  length-aead = λ key nonce text. length-append text (replicate 16 0);
  hex_agree = λ bytes. refl;
}

abbrev holder : SpendingKey
holder = record { sk = filled 8 }

abbrev gift : Note
gift = record { value = 42; addr_tag = addr_tag holder; rho = filled 5; rseed = filled 6 }

gift-IsNote : IsNote gift
unfolding addr_tag
gift-IsNote = record {
  value = omega arith;
  addr_tag = length-hash_parts addr_tag_context (ask holder ∷ []);
  rho = refl;
  rseed = refl;
}

try_decrypt-encrypt_note_example :
    (out : EncryptedOutput) × (encrypt_note gift (address holder) (replicate 64 9) (filled 11)
      ≡ some out)
    × (length out.bytes ≡ enc_output_len)
    × (try_decrypt out (incoming_viewing_key holder) ≡ some gift)
try_decrypt-encrypt_note_example =
    try_decrypt-encrypt_note holder gift (replicate 64 9) (filled 11) gift-IsNote refl refl

abbrev pub somewhere : PaymentAddress
somewhere = record { x25519_pk = filled 1; kem_pk = replicate mlkem_pk_len 3; addr_tag = filled 2 }

decode-encode_address_example : decode (encode somewhere) ≡ ok somewhere
decode-encode_address_example =
    decode-encode_address somewhere refl (length-replicate {A = ℕ} mlkem_pk_len 3) refl
