-- ===== src/Node/Settlement.antt =====
-- An accepted output in the wallet of its recipient.
use unknown.Base.{
  ℕ, zero, suc, ◌+◌, ◌<◌, ◌≡◌, refl, ◌∙◌, arith, Option, none, some, Bool-cases, inl, inr, List, [],
  ◌∷◌, ◌++◌, get_elem?, ltb, lt→ltb,
}
use mathlib.Core.List.{Memᴰ}
use unknown.Primitives.{Blake3}
use unknown.Keys.{Ciphers, incoming_viewing_key}
use unknown.Notes.{Note}
use unknown.Encryption.{EncryptedOutput, try_decrypt}
use unknown.Wallet.{Wallet, NoteRecord, receive, try_receive}
use unknown.Node.Delivery.{receive_all}

Memᴰ-append_left : {A : Type 0} {a : A} (xs ys : List A) → Memᴰ a xs → Memᴰ a (xs ++ ys)
Memᴰ-append_left [] ys m = elim m [ ]
Memᴰ-append_left (x ∷ xs) ys (Memᴰ.head e) = Memᴰ.head e
Memᴰ-append_left (x ∷ xs) ys (Memᴰ.tail m) = Memᴰ.tail (Memᴰ-append_left xs ys m)

Memᴰ-append_last : {A : Type 0} {a : A} (xs : List A) → Memᴰ a (xs ++ a ∷ [])
Memᴰ-append_last [] = Memᴰ.head refl
Memᴰ-append_last (x ∷ xs) = Memᴰ.tail (Memᴰ-append_last xs)

module _ ⦃b : Blake3⦄ ⦃c : Ciphers⦄ where
  -- Trying an output keeps the key and the notes.
  receive_keeps :
      (w : Wallet) (position : ℕ) (o : Option Note)
      → ((receive w position o).0.sk ≡ w.sk)
        × ((r : NoteRecord) → Memᴰ r w.unspent → Memᴰ r (receive w position o).0.unspent)
  unfolding receive
  receive_keeps w position none = (refl, λ r m. m)
  receive_keeps w position (some n) = elim (Bool-cases (ltb 0 n.value)) [
    | inl worth ↦ rw worth ((refl, λ r m. Memᴰ-append_left w.unspent _ m))
    | inr empty ↦ rw empty ((refl, λ r m. m))
  ]

  try_receive_keeps :
      (w : Wallet) (out : EncryptedOutput) (position : ℕ)
      → ((try_receive w out position).0.sk ≡ w.sk)
        × ((r : NoteRecord) → Memᴰ r w.unspent → Memᴰ r (try_receive w out position).0.unspent)
  unfolding try_receive
  try_receive_keeps w out position =
      receive_keeps w position (try_decrypt out (incoming_viewing_key w.sk))

  receive_all_keeps :
      (w : Wallet) (outs : List EncryptedOutput) (position : ℕ) (r : NoteRecord)
      → Memᴰ r w.unspent
      → Memᴰ r (receive_all w outs position).unspent
  receive_all_keeps w [] position r m = m
  receive_all_keeps w (out ∷ outs) position r m =
      receive_all_keeps (try_receive w out position).0 outs (position + 1) r
        ((try_receive_keeps w out position).1 r m)

  try_receive_adds :
      (w : Wallet) (out : EncryptedOutput) (position : ℕ) (n : Note)
      → try_decrypt out (incoming_viewing_key w.sk) ≡ some n
      → 0 < n.value
      → Memᴰ (record { note = n; position = position }) (try_receive w out position).0.unspent
  unfolding try_receive receive
  try_receive_adds w out position n opens h =
      rw (opens, lt→ltb 0 n.value h) (Memᴰ-append_last w.unspent)

  -- A wallet that opens one of the outputs has its note, at the output's position.
  pub receive_all_adds :
      (w : Wallet) (outs : List EncryptedOutput) (base j : ℕ) (out : EncryptedOutput) (n : Note)
      → get_elem? outs j ≡ some out
      → try_decrypt out (incoming_viewing_key w.sk) ≡ some n
      → 0 < n.value
      → Memᴰ (record { note = n; position = base + j }) (receive_all w outs base).unspent
  receive_all_adds w [] base j out n e opens h = cc
  receive_all_adds w (o ∷ outs) base zero out n e opens h =
      let same : o ≡ out = cc e in
      let place : base + 0 ≡ base = omega arith in
      rw place (
        receive_all_keeps (try_receive w o base).0 outs (base + 1)
          (record { note = n; position = base }) (try_receive_adds w o base n (rw same opens) h))
  receive_all_adds w (o ∷ outs) base (suc j) out n e opens h =
      let place : base + suc j ≡ base + 1 + j = omega arith in
      rw place (
        receive_all_adds (try_receive w o base).0 outs (base + 1) j out n e
          (rw ((try_receive_keeps w o base).0) opens) h)

  pub receive_all-sk :
      (w : Wallet) (outs : List EncryptedOutput) (position : ℕ)
      → (receive_all w outs position).sk ≡ w.sk
  receive_all-sk w [] position = refl
  receive_all-sk w (out ∷ outs) position =
      receive_all-sk (try_receive w out position).0 outs (position + 1)
      ∙ (try_receive_keeps w out position).0
