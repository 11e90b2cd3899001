-- ===== src/ProverDev/Proving.antt =====
-- What the development prover emits, and what a development proof is bound to.
use unknown.Base.{
  ℕ, suc, zero, ◌≡◌, ◌⊎◌, inl, inr, refl, sym, ◌∙◌, arith, false, not, Bool-cases, Result, ok, err,
  >>=-eq-ok, guard_iff, List, [], ◌∷◌, ◌++◌, length, length-append, take, drop, take_append,
  drop_append, replicate, any, All, ◌==◌, ==_iff, if◌then◌else◌,
}
use mathlib.Core.List.{map, Permᴰ}
use unknown.Base.Bytes.{lt_asym, Bytes, lt, lt_trans, lt_total, eq, eq_iff, eq_refl}
use unknown.Primitives.{Blake3, frame, hash_parts, length-hash_parts, dev_proof}
use unknown.Primitives.Binding.{Collides, hash_parts_binding}
use unknown.Base.Words.{IsU64}
use unknown.Interfaces.{
  SpendPublicInputs, Anchor, VerifyError, encode, proof_bucket, invalid, malformed,
}
use unknown.Interfaces.Encoding.{IsWellSized, encode-injective}
use unknown.Notes.{nullifier}
use unknown.ProverDev.{
  InputWitness, SpendWitness, insert_sorted, sort_inputs, canonicalize, public_inputs,
  check_spend_statement, dev_tag, prove, dev_verify,
}
use unknown.ProverDev.Statement.{IsSpend, check_spend_statement_iff}

-- No byte string is followed by a smaller one.
abbrev pub AreAscending : List Bytes → Type 0
AreAscending [] = Unit
AreAscending (x ∷ xs) = All (λ y. lt y x ≡ false) xs × AreAscending xs

le_trans : (x y z : Bytes) → lt y x ≡ false → lt z y ≡ false → lt z x ≡ false
le_trans x y z h k = elim (Bool-cases (lt z x)) [
  | inl l ↦ elim (Bool-cases (lt y z)) [
    | inl m ↦ absurd (cc (lt_trans y z x m l, h))
    | inr m ↦ absurd (cc (lt_total y z m k, l, h))
  ]
  | inr l ↦ l
]

perm_refl {ℓ} : {A : Type ℓ} (xs : List A) → Permᴰ xs xs
perm_refl [] = Permᴰ.nil
perm_refl (x ∷ xs) = Permᴰ.cons refl (perm_refl xs)

module _ ⦃b : Blake3⦄ (nk : Bytes) where
  abbrev pub nf : InputWitness → Bytes
  nf i = nullifier i.note nk

  insert_sorted-Perm :
      (i : InputWitness) (js : List InputWitness) → Permᴰ (i ∷ js) (insert_sorted nk i js)
  unfolding insert_sorted
  insert_sorted-Perm i [] = perm_refl (i ∷ [])
  insert_sorted-Perm i (j ∷ js) = elim (Bool-cases (lt (nf j) (nf i))) [
    | inl h ↦ rw h (Permᴰ.trans (Permᴰ.swap refl refl) (Permᴰ.cons refl (insert_sorted-Perm i js)))
    | inr h ↦ rw h (perm_refl (i ∷ j ∷ js))
  ]

  All-insert :
      (P : Bytes → Type 0) (i : InputWitness) (js : List InputWitness)
      → P (nf i)
      → All P (map nf js)
      → All P (map nf (insert_sorted nk i js))
  unfolding insert_sorted
  All-insert P i [] h hs = (h, tt)
  All-insert P i (j ∷ js) h hs = elim (Bool-cases (lt (nf j) (nf i))) [
    | inl l ↦ rw l ((hs.0, All-insert P i js h hs.1))
    | inr l ↦ rw l ((h, hs))
  ]

  All-weaken :
      (x y : Bytes) (zs : List Bytes)
      → lt y x ≡ false
      → All (λ z. lt z y ≡ false) zs
      → All (λ z. lt z x ≡ false) zs
  All-weaken x y [] h hs = tt
  All-weaken x y (z ∷ zs) h hs = (le_trans x y z h hs.0, All-weaken x y zs h hs.1)

  insert_sorted-AreAscending :
      (i : InputWitness) (js : List InputWitness)
      → AreAscending (map nf js)
      → AreAscending (map nf (insert_sorted nk i js))
  unfolding insert_sorted
  insert_sorted-AreAscending i [] h = (tt, tt)
  insert_sorted-AreAscending i (j ∷ js) h = elim (Bool-cases (lt (nf j) (nf i))) [
    | inl l ↦ rw l (
        (
          All-insert (λ y. lt y (nf j) ≡ false) i js (lt_asym (nf j) (nf i) l) h.0,
          insert_sorted-AreAscending i js h.1,
        ))
    | inr l ↦ rw l (((l, All-weaken (nf i) (nf j) (map nf js) l h.0), h))
  ]

  pub sort_inputs-Perm : (is : List InputWitness) → Permᴰ is (sort_inputs nk is)
  unfolding sort_inputs
  sort_inputs-Perm [] = Permᴰ.nil
  sort_inputs-Perm (i ∷ is) =
      Permᴰ.trans (Permᴰ.cons refl (sort_inputs-Perm is)) (insert_sorted-Perm i (sort_inputs nk is))

  sort_inputs-AreAscending : (is : List InputWitness) → AreAscending (map nf (sort_inputs nk is))
  unfolding sort_inputs
  sort_inputs-AreAscending [] = tt
  sort_inputs-AreAscending (i ∷ is) =
      insert_sorted-AreAscending i (sort_inputs nk is) (sort_inputs-AreAscending is)

no_padding : (n : ℕ) → any (λ x. not (x == 0)) (replicate n 0) ≡ false
no_padding zero = refl
no_padding (suc n) = no_padding n

module _ ⦃b : Blake3⦄ where
  -- Canonicalizing a witness permutes its inputs, so that the nullifiers of its public inputs
  -- ascend.
  pub canonicalize-sorts :
      (w : SpendWitness) (anchor : Anchor)
      → Permᴰ w.inputs (canonicalize w).inputs
        × AreAscending (public_inputs (canonicalize w) anchor).nullifiers
  unfolding canonicalize public_inputs
  canonicalize-sorts w anchor =
      (sort_inputs-Perm w.spender_nk w.inputs, sort_inputs-AreAscending w.spender_nk w.inputs)

  pub tag_verifies :
      (pi : SpendPublicInputs) → dev_verify pi (dev_tag pi ++ replicate 160 0) ≡ ok tt
  unfolding dev_verify dev_tag
  tag_verifies pi =
      let tag : Bytes = hash_parts dev_proof (encode pi ∷ []) in
      let short : length tag ≡ 32 = length-hash_parts dev_proof (encode pi ∷ []) in
      let whole : length (tag ++ replicate 160 0) ≡ 192 =
        omega (arith, length-append tag (replicate 160 0), short) in
      rw
        (
          (==_iff (length (tag ++ replicate 160 0)) proof_bucket).1 whole,
          drop_append 32 tag (replicate 160 0) short,
          take_append 32 tag (replicate 160 0) short,
          eq_refl tag,
        )
        refl

  -- Where the prover answers, the canonical form of the witness satisfies the spend statement, the
  -- answer is its public inputs, with the nullifiers in ascending order, and the proof is one that
  -- the development verifier accepts for them.
  pub prove-verifies :
      (w : SpendWitness) (anchor : Anchor) (pi : SpendPublicInputs) (proof : Bytes)
      → prove w anchor ≡ ok (pi, proof)
      → IsSpend (canonicalize w) pi
        × (pi ≡ public_inputs (canonicalize w) anchor)
        × AreAscending pi.nullifiers
        × (dev_verify pi proof ≡ ok tt)
  unfolding prove
  prove-verifies w anchor pi proof e =
      let pi' : SpendPublicInputs = public_inputs (canonicalize w) anchor in
      let (u, f, k) = >>=-eq-ok (check_spend_statement (canonicalize w) pi') _ e in
      let same : pi' ≡ pi = cc k in
      let proofs : dev_tag pi' ++ replicate 160 0 ≡ proof = cc k in
      rw (← same, ← proofs)
        ((
          (check_spend_statement_iff (canonicalize w) pi').0 f,
          refl,
          (canonicalize-sorts w anchor).1,
          tag_verifies pi',
        ))

  -- The prover answers for every witness whose canonical form satisfies the spend statement.
  pub prove_complete :
      (w : SpendWitness) (anchor : Anchor)
      → IsSpend (canonicalize w) (public_inputs (canonicalize w) anchor)
      → prove w anchor
        ≡ ok (
          public_inputs (canonicalize w) anchor,
          dev_tag (public_inputs (canonicalize w) anchor) ++ replicate 160 0,
        )
  unfolding prove
  prove_complete w anchor h =
      rw ((check_spend_statement_iff (canonicalize w) (public_inputs (canonicalize w) anchor)).1 h)
        refl

  verified_tag :
      (pi : SpendPublicInputs) (proof : Bytes)
      → dev_verify pi proof ≡ ok tt
      → take 32 proof ≡ dev_tag pi
  unfolding dev_verify
  verified_tag pi proof e =
      let compare : Result (Unit {0}) VerifyError =
        if eq (take 32 proof) (dev_tag pi) then ok tt else err invalid in
      let sized = (guard_iff (not (length proof == proof_bucket)) malformed _ tt).0 e in
      let k =
        (guard_iff (any (λ x. not (x == 0)) (drop 32 proof)) malformed compare tt).0 sized.1 in
      elim (Bool-cases (eq (take 32 proof) (dev_tag pi))) [
        | inl same ↦ (eq_iff (take 32 proof) (dev_tag pi)).0 same
        | inr other ↦ absurd (cc (rw other at k.1))
      ]

  -- A proof that the development verifier accepts for two well-sized public inputs, with encodings
  -- whose length a u64 holds, shows that they are equal, or else their encodings, framed, are two
  -- inputs of BLAKE3 with one digest.
  pub dev_verify_binding :
      (pi pi' : SpendPublicInputs) (proof : Bytes)
      → IsWellSized pi
      → IsWellSized pi'
      → IsU64 (length (encode pi))
      → IsU64 (length (encode pi'))
      → dev_verify pi proof ≡ ok tt
      → dev_verify pi' proof ≡ ok tt
      → (pi ≡ pi') ⊎ Collides dev_proof (frame (encode pi ∷ [])) (frame (encode pi' ∷ []))
  unfolding dev_tag
  dev_verify_binding pi pi' proof h h' l l' e e' =
      elim (hash_parts_binding dev_proof (encode pi ∷ []) (encode pi' ∷ []) (l, tt) (l', tt)
        (sym (verified_tag pi proof e) ∙ verified_tag pi' proof e')) [
          | inl same ↦ inl (encode-injective pi pi' h h' (cc same))
          | inr c ↦ inr c
        ]
