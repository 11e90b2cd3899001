-- ===== src/Encryption.antt =====
-- crates/encryption/src/lib.rs: the encrypted outputs that transactions carry. A slice is `take` and
-- `drop`; encrypting to an address whose ML-KEM key is malformed stops the code, which is `none`.
pub mod Delivery
use unknown.Base.{
  ℕ, suc, ◌+◌, Bool, true, false, not, ◌||◌, Option, none, some, List, [], ◌∷◌, ◌++◌, length, take,
  drop, get_or, ◌==◌, if◌then◌else◌,
}
use unknown.Base.Bytes.{Bytes, le_bytes, from_le_bytes}
use unknown.Primitives.{Blake3, hash_parts, kem_seed_context, x25519_context, note_aead_context}
use unknown.Notes.{Note, memo_len}
use unknown.Keys.{
  Ciphers, PaymentAddress, IncomingViewingKey, mlkem_ct_len, dh, decapsulate, kem_encapsulate,
}

abbrev pub plaintext_len : ℕ
plaintext_len = 1 + 8 + 32 + 32 + memo_len

abbrev pub aead_tag_len : ℕ
aead_tag_len = 16

abbrev pub enc_output_len : ℕ
enc_output_len = 32 + mlkem_ct_len + plaintext_len + aead_tag_len

abbrev pub note_version : ℕ
note_version = 0

pub record EncryptedOutput : Type 0 where
  pub bytes : Bytes

abbrev pub epk : EncryptedOutput → Bytes
epk out = take 32 out.bytes

abbrev pub mlkem_ct : EncryptedOutput → Bytes
mlkem_ct out = take mlkem_ct_len (drop 32 out.bytes)

abbrev pub aead_ct : EncryptedOutput → Bytes
aead_ct out = drop (32 + mlkem_ct_len) out.bytes

unfoldable pub encode_plaintext : Note → Bytes → Bytes
encode_plaintext note memo =
    note_version ∷ (le_bytes 8 note.value ++ (note.rho ++ (note.rseed ++ memo)))

-- The checks and the slices of `try_decrypt` after the AEAD.
unfoldable pub open_plaintext : Bytes → Bytes → Option Note
open_plaintext addr_tag pt =
    if not (length pt == plaintext_len) || not (get_or pt 0 0 == note_version)
    then none
    else some (record {
      value = from_le_bytes (take 8 (drop 1 pt));
      addr_tag = addr_tag;
      rho = take 32 (drop 9 pt);
      rseed = take 32 (drop 41 pt);
    })

module _ ⦃b : Blake3⦄ where
  -- The key and the nonce.
  unfoldable pub derive_aead : Bytes → Bytes → Bytes → Bytes → Bytes → Bytes × Bytes
  derive_aead x25519_ss mlkem_ss epk mlkem_ct memo_tag =
      let k =
        hash_parts note_aead_context (x25519_ss ∷ mlkem_ss ∷ epk ∷ mlkem_ct ∷ memo_tag ∷ []) in
      (k, take 12 (hash_parts "unknown.v0.enc.nonce" (k ∷ [])))

  module _ ⦃c : Ciphers⦄ where
    -- The rest of `encrypt_note`, after the encapsulation.
    unfoldable pub seal_note :
        Note → PaymentAddress → Bytes → Bytes → Option (Bytes × Bytes) → Option EncryptedOutput
    unfolding derive_aead encode_plaintext
    seal_note note recipient memo eph_secret none = none
    seal_note note recipient memo eph_secret (some (ct, mlkem_ss)) =
        let epk = c.x25519_public eph_secret in
        let x25519_ss = c.diffie_hellman eph_secret recipient.x25519_pk in
        let (key, nonce) = derive_aead x25519_ss mlkem_ss epk ct recipient.addr_tag in
        some
          (record { bytes = epk ++ (ct ++ c.aead_encrypt key nonce (encode_plaintext note memo)) })

    unfoldable pub encrypt_note : Note → PaymentAddress → Bytes → Bytes → Option EncryptedOutput
    unfolding seal_note
    encrypt_note note recipient memo ephemeral_seed =
        seal_note note recipient memo (hash_parts x25519_context (ephemeral_seed ∷ []))
          (kem_encapsulate recipient (hash_parts kem_seed_context (ephemeral_seed ∷ [])))

    -- `try_decrypt` with the answer of the decapsulation, and then of the AEAD.
    unfoldable pub open_text : Bytes → Option Bytes → Option Note
    open_text addr_tag none = none
    open_text addr_tag (some pt) = open_plaintext addr_tag pt

    unfoldable pub open_shared : EncryptedOutput → IncomingViewingKey → Option Bytes → Option Note
    unfolding derive_aead open_text
    open_shared out ivk none = none
    open_shared out ivk (some mlkem_ss) =
        let (key, nonce) =
          derive_aead (dh ivk (epk out)) mlkem_ss (epk out) (mlkem_ct out) ivk.addr_tag in
        open_text ivk.addr_tag (c.aead_decrypt key nonce (aead_ct out))

    unfoldable pub try_decrypt : EncryptedOutput → IncomingViewingKey → Option Note
    unfolding open_shared
    try_decrypt out ivk =
        if not (length out.bytes == enc_output_len)
        then none
        else open_shared out ivk (decapsulate ivk (mlkem_ct out))

    -- What `filter_map` keeps of an output at index `i`.
    abbrev pub found : ℕ → Option Note → List (ℕ × Note) → List (ℕ × Note)
    found i none rest = rest
    found i (some n) rest = (i, n) ∷ rest

    unfoldable pub scan_from : ℕ → List EncryptedOutput → IncomingViewingKey → List (ℕ × Note)
    unfolding try_decrypt
    scan_from i [] ivk = []
    scan_from i (out ∷ outs) ivk = found i (try_decrypt out ivk) (scan_from (i + 1) outs ivk)

    unfoldable pub scan : List EncryptedOutput → IncomingViewingKey → List (ℕ × Note)
    unfolding scan_from
    scan outputs ivk = scan_from 0 outputs ivk
