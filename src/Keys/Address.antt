-- ===== src/Keys/Address.antt =====
-- Decoding the text of an address.
use unknown.Base.{
  ◌+◌, ◌≡◌, refl, ap, ◌∙◌, arith, ok, ◌∷◌, ◌++◌, length, length-append, drop, take_append,
  drop_append, drop-drop, ==_iff, length-take, sym,
}
use unknown.Base.Bytes.{Bytes, eq_refl}
use unknown.Primitives.{Blake3, derive_key}
use unknown.Interfaces.Encoding.{Is32}
use unknown.Keys.{
  Ciphers, PaymentAddress, encode, decode, decode_data, checksum, address_version, address_body_len,
  address_checksum_len, mlkem_pk_len,
}

module _ ⦃b : Blake3⦄ ⦃c : Ciphers⦄ where
  length-checksum : (payload : Bytes) → length (checksum payload) ≡ 4
  unfolding checksum derive_key
  length-checksum payload = omega (
    arith,
    length-take 4 (derive_key "unknown.v0.addr.checksum" payload),
    b.length-digest "unknown.v0.addr.checksum" payload,
  )

  -- Decoding the text of an address of the right sizes gives the address back.
  pub decode-encode_address :
      (a : PaymentAddress)
      → Is32 a.x25519_pk
      → length a.kem_pk ≡ mlkem_pk_len
      → Is32 a.addr_tag
      → decode (encode a) ≡ ok a
  unfolding encode decode decode_data
  decode-encode_address a x k t =
      let rest : Bytes = a.kem_pk ++ a.addr_tag in
      let payload : Bytes = address_version ∷ (a.x25519_pk ++ rest) in
      let body : length payload ≡ address_body_len =
        omega (arith, length-append a.x25519_pk rest, length-append a.kem_pk a.addr_tag, x, k, t) in
      let whole : length (payload ++ checksum payload) ≡ address_body_len + address_checksum_len =
        omega (arith, length-append payload (checksum payload), body, length-checksum payload) in
      let last : drop 1216 (a.x25519_pk ++ rest) ≡ a.addr_tag =
        sym (drop-drop 32 mlkem_pk_len (a.x25519_pk ++ rest))
        ∙ (ap (drop mlkem_pk_len) (drop_append 32 a.x25519_pk rest x)
            ∙ drop_append mlkem_pk_len a.kem_pk a.addr_tag k) in
      rw
        (
          c.hex_agree (payload ++ checksum payload),
          (==_iff (length (payload ++ checksum payload))
                (address_body_len + address_checksum_len)).1
              whole,
          take_append address_body_len payload (checksum payload) body,
          drop_append address_body_len payload (checksum payload) body,
          eq_refl (checksum payload),
          take_append 32 a.x25519_pk rest x,
          drop_append 32 a.x25519_pk rest x,
          take_append mlkem_pk_len a.kem_pk a.addr_tag k,
          last,
        )
        refl
