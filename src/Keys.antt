-- ===== src/Keys.antt =====
-- crates/keys/src/lib.rs: the key hierarchy and addresses. X25519, ML-KEM-768, ChaCha20-Poly1305
-- and hexadecimal text are third-party code and a parameter. A text is the list of its bytes.
pub mod Address
pub mod Binding
use unknown.Base.{
  ℕ, ◌+◌, Bool, true, false, not, ◌||◌, Option, none, some, Result, ok, err, ◌>>=◌, ◌>>◌, fail_if,
  List, [], ◌∷◌, ◌++◌, ◌≡◌, length, take, drop, get_or, ◌==◌, if◌then◌else◌,
}
use unknown.Base.Bytes
use unknown.Base.Bytes.{Bytes}
use unknown.Primitives.{
  Blake3, hash_parts, derive_key, sk_context, ask_context, nk_context, addr_tag_context,
  kem_seed_context, x25519_context,
}

abbrev pub mlkem_pk_len : ℕ
mlkem_pk_len = 1184

abbrev pub mlkem_ct_len : ℕ
mlkem_ct_len = 1088

-- What is asked of the cryptographic crates and of `hex`. A decapsulation key is the seed of 64 bytes that
-- it is generated from. The laws are the agreement of both sides and the sizes.
pub record Ciphers : Type 0 where
  pub x25519_public : Bytes → Bytes
  pub diffie_hellman : Bytes → Bytes → Bytes
  pub encapsulation_key : Bytes → Bytes
  pub encapsulate : Bytes → Bytes → Option (Bytes × Bytes)
  pub decapsulate : Bytes → Bytes → Bytes
  pub aead_encrypt : Bytes → Bytes → Bytes → Bytes
  pub aead_decrypt : Bytes → Bytes → Bytes → Option Bytes
  pub hex_encode : Bytes → Bytes
  pub hex_decode : Bytes → Option Bytes
  pub dh_agree :
      (s t : Bytes) → diffie_hellman s (x25519_public t) ≡ diffie_hellman t (x25519_public s)
  pub length-public : (s : Bytes) → length (x25519_public s) ≡ 32
  pub length-key : (seed : Bytes) → length (encapsulation_key seed) ≡ mlkem_pk_len
  pub kem_agree :
      (seed m : Bytes)
      → (ct : Bytes) × (ss : Bytes) × (encapsulate (encapsulation_key seed) m ≡ some (ct, ss))
        × (decapsulate seed ct ≡ ss)
        × (length ct ≡ mlkem_ct_len)
  pub aead_agree :
      (key nonce text : Bytes) → aead_decrypt key nonce (aead_encrypt key nonce text) ≡ some text
  pub length-aead :
      (key nonce text : Bytes) → length (aead_encrypt key nonce text) ≡ length text + 16
  pub hex_agree : (bytes : Bytes) → hex_decode (hex_encode bytes) ≡ some bytes

pub record SpendingKey : Type 0 where
  pub sk : Bytes

pub record IncomingViewingKey : Type 0 where
  pub x25519_sk : Bytes
  pub kem_dk : Bytes
  pub addr_tag : Bytes

pub record FullViewingKey : Type 0 where
  pub ivk : IncomingViewingKey
  pub nk : Bytes

pub record PaymentAddress : Type 0 where
  pub x25519_pk : Bytes
  pub kem_pk : Bytes
  pub addr_tag : Bytes

pub data AddressError : Type 0 where
  malformed wrong_hrp : AddressError

abbrev pub address_version : ℕ
address_version = 0

abbrev pub address_body_len : ℕ
address_body_len = 1 + 32 + mlkem_pk_len + 32

abbrev pub address_checksum_len : ℕ
address_checksum_len = 4

-- The text `unk1`.
abbrev pub prefix : Bytes
prefix = 117 ∷ 110 ∷ 107 ∷ 49 ∷ []

module _ ⦃b : Blake3⦄ where
  unfoldable pub from_seed : Bytes → SpendingKey
  from_seed seed = record { sk = derive_key sk_context seed }

  unfoldable pub ask : SpendingKey → Bytes
  ask k = derive_key ask_context k.sk

  unfoldable pub nk : SpendingKey → Bytes
  nk k = derive_key nk_context k.sk

  unfoldable pub addr_tag : SpendingKey → Bytes
  addr_tag k = hash_parts addr_tag_context (ask k ∷ [])

  unfoldable pub x25519_secret : SpendingKey → Bytes
  x25519_secret k = derive_key x25519_context k.sk

  -- The seed of `kem_keypair`.
  unfoldable pub kem_seed : SpendingKey → Bytes
  kem_seed k = derive_key kem_seed_context k.sk ++ derive_key "unknown.v0.key.kemseed2" k.sk

  unfoldable pub incoming_viewing_key : SpendingKey → IncomingViewingKey
  incoming_viewing_key k = record {
    x25519_sk = x25519_secret k;
    kem_dk = kem_seed k;
    addr_tag = addr_tag k;
  }

  unfoldable pub full_viewing_key : SpendingKey → FullViewingKey
  full_viewing_key k = record { ivk = incoming_viewing_key k; nk = nk k }

  -- The first four bytes of a hash.
  unfoldable pub checksum : Bytes → Bytes
  checksum data_ = take address_checksum_len (derive_key "unknown.v0.addr.checksum" data_)

  module _ ⦃c : Ciphers⦄ where
    unfoldable pub address : SpendingKey → PaymentAddress
    address k = record {
      x25519_pk = c.x25519_public (x25519_secret k);
      kem_pk = c.encapsulation_key (kem_seed k);
      addr_tag = addr_tag k;
    }

    -- `IncomingViewingKey::dh` and `IncomingViewingKey::decapsulate`.
    abbrev pub dh : IncomingViewingKey → Bytes → Bytes
    dh ivk ephemeral_pk = c.diffie_hellman ivk.x25519_sk ephemeral_pk

    abbrev pub decapsulate : IncomingViewingKey → Bytes → Option Bytes
    decapsulate ivk ct =
        if length ct == mlkem_ct_len then some (c.decapsulate ivk.kem_dk ct) else none

    abbrev pub kem_encapsulate : PaymentAddress → Bytes → Option (Bytes × Bytes)
    kem_encapsulate a m_seed = c.encapsulate a.kem_pk m_seed

    unfoldable pub encode : PaymentAddress → Bytes
    encode a =
        let payload = address_version ∷ (a.x25519_pk ++ (a.kem_pk ++ a.addr_tag)) in
        prefix ++ c.hex_encode (payload ++ checksum payload)

    -- The answer to the decoded bytes.
    unfoldable pub decode_data : Option Bytes → Result PaymentAddress AddressError
    decode_data none = err malformed
    decode_data (some bytes) = do
      fail_if
          (not (length bytes == address_body_len + address_checksum_len)
            || not (get_or bytes 0 0 == address_version))
          malformed
      fail_if
          (not (Bytes.eq (drop address_body_len bytes) (checksum (take address_body_len bytes))))
          malformed
      ok (record {
        x25519_pk = take 32 (drop 1 (take address_body_len bytes));
        kem_pk = take mlkem_pk_len (drop 33 (take address_body_len bytes));
        addr_tag = drop (33 + mlkem_pk_len) (take address_body_len bytes);
      })

    unfoldable pub decode : Bytes → Result PaymentAddress AddressError
    unfolding decode_data
    decode s =
        if Bytes.eq (take 4 s) prefix then decode_data (c.hex_decode (drop 4 s)) else err wrong_hrp
