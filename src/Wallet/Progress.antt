-- ===== src/Wallet/Progress.antt =====
-- The statement that a transfer of spendable notes proves.
use unknown.Base.{
  ℕ, zero, suc, ◌+◌, ◌<◌, ◌≡◌, refl, arith, true, false, Bool-cases, inl, inr, Option, some, ok,
  List, [], ◌∷◌, ◌++◌, get_or, length, All,
}
use mathlib.Core.List.{map}
use unknown.Base.Bytes.{Bytes, lt}
use unknown.Primitives.{Blake3}
use unknown.Interfaces.{Anchor, MerklePath, max_money}
use unknown.Keys.{SpendingKey, nk, addr_tag}
use unknown.Notes.{Note, commitment, dummy, nullifier, rho_transfer}
use unknown.Tree.{verify_path}
use unknown.ProverDev.{InputWitness, SpendWitness, insert_sorted, sort_inputs, public_inputs}
use unknown.ProverDev.Statement.{IsSpend, total_in}
use unknown.Wallet.{NoteRecord}
use unknown.Wallet.Transfer.{with_paths, dummies}
use unknown.Wallet.Selection.{worth}

module _ ⦃b : Blake3⦄ (sk : SpendingKey) (anchor : Anchor) where
  abbrev nf : InputWitness → Bytes
  nf i = nullifier i.note (nk sk)

  -- A note that the wallet can spend under the anchor.
  pub record IsSpendable (witness_for : ℕ → Option MerklePath) (r : NoteRecord) : Type 0 where
    pub in_range : r.note.value < max_money
    pub owned : r.note.addr_tag ≡ addr_tag sk
    pub path : MerklePath
    pub found : witness_for r.position ≡ some path
    pub member : verify_path (commitment r.note) path anchor.root ≡ true

  -- An input that the statement accepts at any index.
  pub record IsReady (i : InputWitness) : Type 0 where
    pub dummy_empty : i.is_dummy ≡ true → i.note.value ≡ 0
    pub in_range : i.note.value < max_money
    pub member : i.is_dummy ≡ false → verify_path (commitment i.note) i.path anchor.root ≡ true
    pub owned : i.is_dummy ≡ false → i.note.addr_tag ≡ addr_tag sk

  -- The paths of spendable notes are found.
  pub with_paths_total :
      (witness_for : ℕ → Option MerklePath) (rs : List NoteRecord)
      → All (IsSpendable witness_for) rs
      → (inputs : List InputWitness) × (with_paths witness_for rs ≡ ok inputs)
        × All IsReady inputs
        × (total_in inputs ≡ worth rs)
        × (length inputs ≡ length rs)
  unfolding with_paths
  with_paths_total witness_for [] h = ([], refl, tt, refl, refl)
  with_paths_total witness_for (r ∷ rs) h =
      let (rest, found, ready, total, size) = with_paths_total witness_for rs h.1 in
      (
        record { note = r.note; path = h.0.path; is_dummy = false } ∷ rest,
        rw (h.0.found, found) refl,
        (
          record {
            dummy_empty = λ d. absurd (cc);
            in_range = h.0.in_range;
            member = λ d. h.0.member;
            owned = λ d. h.0.owned;
          },
          ready,
        ),
        omega (arith, total),
        omega (arith, size),
      )

  pub dummies-IsReady :
      (n ctr : ℕ)
      → All IsReady (dummies n ctr) × (total_in (dummies n ctr) ≡ 0) × (length (dummies n ctr) ≡ n)
  unfolding dummies dummy
  dummies-IsReady zero ctr = (tt, refl, refl)
  dummies-IsReady (suc n) ctr =
      let (ready, total, size) = dummies-IsReady n (ctr + 1) in
      (
        (
          record {
            dummy_empty = λ d. refl;
            in_range = omega arith;
            member = λ d. absurd (cc);
            owned = λ d. absurd (cc);
          },
          ready,
        ),
        omega (arith, total),
        omega (arith, size),
      )

  pub total_in-append :
      (is js : List InputWitness) → total_in (is ++ js) ≡ total_in is + total_in js
  total_in-append [] js = omega arith
  total_in-append (i ∷ is) js = omega (arith, total_in-append is js)

  -- Sorting keeps what holds of every input, their values and their number.
  insert-keeps :
      (i : InputWitness) (js : List InputWitness)
      → IsReady i
      → All IsReady js
      → All IsReady (insert_sorted (nk sk) i js)
        × (total_in (insert_sorted (nk sk) i js) ≡ i.note.value + total_in js)
        × (length (insert_sorted (nk sk) i js) ≡ suc (length js))
  unfolding insert_sorted
  insert-keeps i [] h hs = ((h, tt), refl, refl)
  insert-keeps i (j ∷ js) h hs = elim (Bool-cases (lt (nf j) (nf i))) [
    | inl below ↦
        let (ready, total, size) = insert-keeps i js h hs.1 in
        rw below (((hs.0, ready), omega (arith, total), omega (arith, size)))
    | inr above ↦ rw above (((h, hs), refl, refl))
  ]

  pub sort-keeps :
      (is : List InputWitness)
      → All IsReady is
      → All IsReady (sort_inputs (nk sk) is)
        × (total_in (sort_inputs (nk sk) is) ≡ total_in is)
        × (length (sort_inputs (nk sk) is) ≡ length is)
  unfolding sort_inputs
  sort-keeps [] h = (tt, refl, refl)
  sort-keeps (i ∷ is) h =
      let (ready, total, size) = sort-keeps is h.1 in
      let (ready', total', size') = insert-keeps i (sort_inputs (nk sk) is) h.0 ready in
      (ready', omega (arith, total, total'), omega (arith, size, size'))

  abbrev pub spend_of : List InputWitness → Note → Note → Bytes → SpendWitness
  spend_of is o o' digest = record {
    spender_nk = nk sk;
    spender_addr_tag = addr_tag sk;
    inputs = is;
    outputs = o ∷ o' ∷ [];
    mint_value = 0;
    binding_digest = digest;
  }

  pub spend_of-IsSpend :
      (is : List InputWitness) (o o' : Note) (digest : Bytes)
      → length is ≡ 2
      → All IsReady is
      → total_in is ≡ o.value + o'.value
      → o.value < max_money
      → o'.value < max_money
      → o.rho ≡ rho_transfer (get_or (map nf is) 0 []) 0
      → o'.rho ≡ rho_transfer (get_or (map nf is) 0 []) 1
      → IsSpend (spend_of is o o' digest) (public_inputs (spend_of is o o' digest) anchor)
  unfolding public_inputs
  spend_of-IsSpend (a ∷ c ∷ []) o o' digest two ready total small small' rho rho' = record {
    two_inputs = refl;
    two_outputs = refl;
    two_nullifiers = refl;
    two_commitments = refl;
    bound = refl;
    inputs = (
      record {
        dummy_empty = ready.0.dummy_empty;
        in_range = ready.0.in_range;
        member = ready.0.member;
        owned = ready.0.owned;
        derived = refl;
      },
      (
        record {
          dummy_empty = ready.1.0.dummy_empty;
          in_range = ready.1.0.in_range;
          member = ready.1.0.member;
          owned = ready.1.0.owned;
          derived = refl;
        },
        tt,
      ),
    );
    outputs = (
      record { in_range = small; committed = refl; rho_bound = λ z. rho },
      (record { in_range = small'; committed = refl; rho_bound = λ z. rho' }, tt),
    );
    mint_in_range = omega arith;
    balance = omega (arith, total);
  }
  spend_of-IsSpend [] o o' digest two ready total small small' rho rho' = absurd (omega arith)
  spend_of-IsSpend (a ∷ []) o o' digest two ready total small small' rho rho' = absurd (omega arith)
  spend_of-IsSpend (a ∷ c ∷ d ∷ is) o o' digest two ready total small small' rho rho' =
      absurd (omega arith)
