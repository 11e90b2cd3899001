-- ===== src/Encryption/Delivery.antt =====
-- An encrypted note and its recipient.
use unknown.Base.{
  suc, ◌+◌, ◌≡◌, refl, ap, sym, ◌∙◌, arith, some, [], ◌∷◌, ◌++◌, length, length-append, take, drop,
  take_append, drop_append, drop-drop, ==_iff,
}
use unknown.Base.Bytes.{Bytes, le_bytes, from_le_bytes, from_le_bytes-le_bytes}
use unknown.Primitives.{Blake3, hash_parts, kem_seed_context, x25519_context}
use unknown.Interfaces.Encoding.{Is32}
use unknown.Notes.{Note, memo_len}
use unknown.Notes.Binding.{IsNote}
use unknown.Keys.{
  Ciphers, SpendingKey, IncomingViewingKey, dh, decapsulate, address, incoming_viewing_key,
  addr_tag, x25519_secret, kem_seed, mlkem_ct_len,
}
use unknown.Encryption.{
  EncryptedOutput, encode_plaintext, open_plaintext, open_text, open_shared, seal_note,
  encrypt_note, try_decrypt, derive_aead, plaintext_len, enc_output_len, epk, mlkem_ct, aead_ct,
}

length-encode_plaintext :
    (n : Note) (memo : Bytes)
    → IsNote n
    → length memo ≡ memo_len
    → length (encode_plaintext n memo) ≡ plaintext_len
unfolding encode_plaintext
length-encode_plaintext n memo h m =
    omega
      (arith, length-append n.rho (n.rseed ++ memo), length-append n.rseed memo, h.rho, h.rseed, m)

-- Opening the plaintext of a note gives the note, for the address tag that it was made for.
pub open_plaintext-encode_plaintext :
    (n : Note) (memo : Bytes)
    → IsNote n
    → length memo ≡ memo_len
    → open_plaintext n.addr_tag (encode_plaintext n memo) ≡ some n
unfolding open_plaintext encode_plaintext
open_plaintext-encode_plaintext n memo h m =
    let tail : Bytes = n.rseed ++ memo in
    let value : from_le_bytes (le_bytes 8 n.value) ≡ n.value =
      from_le_bytes-le_bytes 8 n.value h.value in
    let size : suc (length (le_bytes 8 n.value ++ (n.rho ++ tail))) ≡ plaintext_len =
      length-encode_plaintext n memo h m in
    let seed : drop 32 (n.rho ++ tail) ≡ tail = drop_append 32 n.rho tail h.rho in
    rw
      (
        (==_iff (suc (length (le_bytes 8 n.value ++ (n.rho ++ tail)))) plaintext_len).1 size,
        value,
        take_append 32 n.rho tail h.rho,
        seed,
        take_append 32 n.rseed memo h.rseed,
      )
      refl

module _ ⦃b : Blake3⦄ ⦃c : Ciphers⦄ where
  -- The three parts of an output, in their places.
  parts_of :
      (e ct text : Bytes)
      → Is32 e
      → length ct ≡ mlkem_ct_len
      → (take 32 (e ++ (ct ++ text)) ≡ e)
        × (take mlkem_ct_len (drop 32 (e ++ (ct ++ text))) ≡ ct)
        × (drop (32 + mlkem_ct_len) (e ++ (ct ++ text)) ≡ text)
  parts_of e ct text he hc = (
    take_append 32 e (ct ++ text) he,
    ap (take mlkem_ct_len) (drop_append 32 e (ct ++ text) he) ∙ take_append mlkem_ct_len ct text hc,
    sym (drop-drop 32 mlkem_ct_len (e ++ (ct ++ text)))
        ∙ (ap (drop mlkem_ct_len) (drop_append 32 e (ct ++ text) he)
            ∙ drop_append mlkem_ct_len ct text hc),
  )

  -- Decrypting an output whose parts, keys and plaintext are known.
  decrypts :
      (out : EncryptedOutput) (ivk : IncomingViewingKey) (e ct text ss pt : Bytes) (n : Note)
      → length out.bytes ≡ enc_output_len
      → epk out ≡ e
      → mlkem_ct out ≡ ct
      → aead_ct out ≡ text
      → length ct ≡ mlkem_ct_len
      → c.decapsulate ivk.kem_dk ct ≡ ss
      → c.aead_decrypt
          (derive_aead (dh ivk e) ss e ct ivk.addr_tag).0
          (derive_aead (dh ivk e) ss e ct ivk.addr_tag).1
          text
        ≡ some pt
      → open_plaintext ivk.addr_tag pt ≡ some n
      → try_decrypt out ivk ≡ some n
  unfolding try_decrypt open_shared open_text
  decrypts out ivk e ct text ss pt n whole pe pc ptext size caps decr opened =
      let capsule : decapsulate ivk (mlkem_ct out) ≡ some ss =
        ap (decapsulate ivk) pc ∙ (rw ((==_iff (length ct) mlkem_ct_len).1 size) (ap some caps)) in
      rw ((==_iff (length out.bytes) enc_output_len).1 whole) (
        ap (open_shared out ivk) capsule
        ∙ ((λ i. open_text ivk.addr_tag (
              c.aead_decrypt (derive_aead (dh ivk (pe i)) ss (pe i) (pc i) ivk.addr_tag).0
                (derive_aead (dh ivk (pe i)) ss (pe i) (pc i) ivk.addr_tag).1 (ptext i)))
            ∙ (ap (open_text ivk.addr_tag) decr ∙ opened)))

  -- A note of the address's own tag that is encrypted to the address of a spending key gives an
  -- output of the fixed size, and the key's viewing key decrypts it to the note.
  pub try_decrypt-encrypt_note :
      (k : SpendingKey) (note : Note) (memo ephemeral_seed : Bytes)
      → IsNote note
      → note.addr_tag ≡ addr_tag k
      → length memo ≡ memo_len
      → (out : EncryptedOutput) × (encrypt_note note (address k) memo ephemeral_seed ≡ some out)
        × (length out.bytes ≡ enc_output_len)
        × (try_decrypt out (incoming_viewing_key k) ≡ some note)
  unfolding encrypt_note seal_note address incoming_viewing_key
  try_decrypt-encrypt_note k note memo ephemeral_seed h own m =
      let eph : Bytes = hash_parts x25519_context (ephemeral_seed ∷ []) in
      let kem_m : Bytes = hash_parts kem_seed_context (ephemeral_seed ∷ []) in
      let (ct, ss, capsule, opened, size) = c.kem_agree (kem_seed k) kem_m in
      let e : Bytes = c.x25519_public eph in
      let shared : Bytes = c.diffie_hellman eph (c.x25519_public (x25519_secret k)) in
      let (key, nonce) = derive_aead shared ss e ct (addr_tag k) in
      let text : Bytes = c.aead_encrypt key nonce (encode_plaintext note memo) in
      let out : EncryptedOutput = record { bytes = e ++ (ct ++ text) } in
      let (first, second, third) = parts_of e ct text (c.length-public eph) size in
      let whole : length (e ++ (ct ++ text)) ≡ enc_output_len = omega (
        arith,
        length-append e (ct ++ text),
        length-append ct text,
        c.length-public eph,
        size,
        c.length-aead key nonce (encode_plaintext note memo),
        length-encode_plaintext note memo h m,
      ) in
      (
        out,
        rw capsule refl,
        whole,
        decrypts out (incoming_viewing_key k) e ct text ss (encode_plaintext note memo) note whole
            first second third size opened
            ((λ i.
                c.aead_decrypt
                  (derive_aead (c.dh_agree (x25519_secret k) eph i) ss e ct (addr_tag k)).0
                  (derive_aead (c.dh_agree (x25519_secret k) eph i) ss e ct (addr_tag k)).1 text)
              ∙ c.aead_agree key nonce (encode_plaintext note memo))
            (rw (← own) (open_plaintext-encode_plaintext note memo h m)),
      )
