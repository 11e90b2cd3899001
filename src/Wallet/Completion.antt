-- ===== src/Wallet/Completion.antt =====
-- The proof and the puzzle of a transfer: what a completed transaction satisfies.
use unknown.Base.{
  ◌≡◌, inl, inr, refl, ap, sym, ◌∙◌, arith, false, Bool-cases, ok, >>=-eq-ok, List, [], ◌∷◌, get_or,
  length, replicate,
}
use mathlib.Core.List.{map}
use unknown.Base.Bytes.{Bytes, lt}
use unknown.Primitives.{Blake3}
use unknown.Interfaces.{Anchor, Nullifier, SpendPublicInputs, proof_bucket}
use unknown.Encryption.{EncryptedOutput}
use unknown.Notes.{Note, nullifier, commitment}
use unknown.Keys.{SpendingKey, addr_tag, nk}
use unknown.ProverDev.{
  InputWitness, SpendWitness, insert_sorted, sort_inputs, canonicalize, public_inputs, prove,
  dev_verify,
}
use unknown.ProverDev.Proving.{AreAscending, prove-verifies}
use unknown.Pow
use unknown.Pow.{PowSolution}
use unknown.Tx.{TxV1, pow, binding_digest, to_public_inputs}
use unknown.Wallet.Transfer.{proved, expect, insert_nullifier, nullifiers_of, finish, complete}
use unknown.Wallet.Building.{proved-eq-ok}

module _ ⦃b : Blake3⦄ where
  map-insert :
      (nk : Bytes) (i : InputWitness) (js : List InputWitness)
      → map (λ (i : InputWitness). nullifier i.note nk) (insert_sorted nk i js)
        ≡ insert_nullifier
            (nullifier i.note nk)
            (map (λ (i : InputWitness). nullifier i.note nk) js)
  unfolding insert_sorted
  map-insert nk i [] = refl
  map-insert nk i (j ∷ js) = elim (Bool-cases (lt (nullifier j.note nk) (nullifier i.note nk))) [
    | inl below ↦ rw below (ap (◌∷◌ (nullifier j.note nk)) (map-insert nk i js))
    | inr above ↦ rw above refl
  ]

  -- The prover's order of the inputs is the wallet's order of their nullifiers.
  pub map-sort :
      (k : SpendingKey) (is : List InputWitness)
      → map (λ (i : InputWitness). nullifier i.note (nk k)) (sort_inputs (nk k) is)
        ≡ nullifiers_of k is
  unfolding sort_inputs
  map-sort k [] = refl
  map-sort k (i ∷ is) =
      map-insert (nk k) i (sort_inputs (nk k) is)
      ∙ ap (insert_nullifier (nullifier i.note (nk k))) (map-sort k is)

  -- The transaction before its proof.
  abbrev pub unproved :
      Anchor → List Nullifier → Note → Note → EncryptedOutput → EncryptedOutput → TxV1
  unproved anchor nfs o o' enc0 enc1 = record {
    anchor = anchor;
    nullifiers = (get_or nfs 0 [], get_or nfs 1 []);
    commitments = (commitment o, commitment o');
    enc_outputs = (enc0, enc1);
    antispam = pow (record { nonce = 0 });
    proof = replicate proof_bucket 0;
  }

  -- What a completed transfer is: the transaction with a proof of the wallet's witness.
  pub record IsCompleted (sk : SpendingKey) (anchor : Anchor) (inputs : List InputWitness)
      (o o' : Note) (enc0 enc1 : EncryptedOutput) (tx : TxV1) : Type 0 where
    pub sol : PowSolution
    pub same :
        record (unproved anchor (nullifiers_of sk inputs) o o' enc0 enc1) {
          antispam = pow sol;
          proof = tx.proof;
        }
        ≡ tx
    pub verifies : dev_verify (to_public_inputs tx) tx.proof ≡ ok tt
    pub ascending : lt tx.nullifiers.1 tx.nullifiers.0 ≡ false

  two_of : (xs : List Nullifier) → length xs ≡ 2 → xs ≡ get_or xs 0 [] ∷ get_or xs 1 [] ∷ []
  two_of [] h = absurd (omega arith)
  two_of (x ∷ []) h = absurd (omega arith)
  two_of (x ∷ y ∷ []) h = refl
  two_of (x ∷ y ∷ z ∷ zs) h = absurd (omega arith)

  abbrev pub witness_of :
      SpendingKey
      → Anchor
      → List InputWitness
      → Note
      → Note
      → EncryptedOutput
      → EncryptedOutput
      → SpendWitness
  witness_of sk anchor inputs o o' enc0 enc1 = record {
    spender_nk = nk sk;
    spender_addr_tag = addr_tag sk;
    inputs = inputs;
    outputs = o ∷ o' ∷ [];
    mint_value = 0;
    binding_digest = binding_digest (unproved anchor (nullifiers_of sk inputs) o o' enc0 enc1);
  }

  ascending_of :
      (pi : SpendPublicInputs) (tx : TxV1)
      → pi ≡ to_public_inputs tx
      → AreAscending pi.nullifiers
      → lt tx.nullifiers.1 tx.nullifiers.0 ≡ false
  unfolding to_public_inputs
  ascending_of pi tx same h = (rw same at h).0.0

  module _ (sk : SpendingKey) (anchor : Anchor) (inputs : List InputWitness) (o o' : Note)
      (enc0 enc1 : EncryptedOutput) where
    abbrev witness : SpendWitness
    witness = witness_of sk anchor inputs o o' enc0 enc1

    abbrev shown : PowSolution → Bytes → TxV1
    shown sol proof = record (unproved anchor (nullifiers_of sk inputs) o o' enc0 enc1) {
      antispam = pow sol;
      proof = proof;
    }

    -- The public inputs that the prover computed are those of the transaction.
    same_inputs :
        (sol : PowSolution) (proof : Bytes)
        → length (public_inputs (canonicalize witness) anchor).nullifiers ≡ 2
        → public_inputs (canonicalize witness) anchor ≡ to_public_inputs (shown sol proof)
    unfolding public_inputs canonicalize to_public_inputs binding_digest
    same_inputs sol proof two =
        let nfs = nullifiers_of sk inputs in
        let sorted : map (λ (i : InputWitness). nullifier i.note (nk sk))
              (sort_inputs (nk sk) inputs)
            ≡ nfs =
          map-sort sk inputs in
        let pair : nfs ≡ get_or nfs 0 [] ∷ get_or nfs 1 [] ∷ [] =
          two_of nfs (ap length (sym sorted) ∙ two) in
        λ i. record (to_public_inputs (shown sol proof)) { nullifiers = (sorted ∙ pair) i }

    pub complete-IsCompleted :
        {tx : TxV1}
        → complete sk anchor inputs (nullifiers_of sk inputs) o o' enc0 enc1 ≡ ok tx
        → IsCompleted sk anchor inputs o o' enc0 enc1 tx
    unfolding complete finish
    complete-IsCompleted {tx} e =
        let (pair, f1, k1) = >>=-eq-ok (proved (prove witness anchor)) _ e in
        let (sol, f2, k2) = >>=-eq-ok (expect (Pow.solve witness.binding_digest 0)) _ k1 in
        let made : shown sol pair.1 ≡ tx = cc k2 in
        let (spend, pub_, ascends, verifies) =
          prove-verifies witness anchor pair.0 pair.1 (proved-eq-ok (prove witness anchor) f1) in
        let same : pair.0 ≡ to_public_inputs (shown sol pair.1) =
          pub_
          ∙ same_inputs sol pair.1 (
              ap (λ (p : SpendPublicInputs). length p.nullifiers) (sym pub_)
              ∙ spend.two_nullifiers) in
        rw (← made) (record {
          sol = sol;
          same = refl;
          verifies = rw (← same) verifies;
          ascending = ascending_of pair.0 (shown sol pair.1) same ascends;
        })
