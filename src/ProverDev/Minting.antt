-- ===== src/ProverDev/Minting.antt =====
-- What the spend statement does not ask: that the minted value is the public one.
use unknown.Base.{◌+◌, ◌<◌, ◌≡◌, true, refl, arith, ok, [], ◌∷◌, All}
use unknown.Base.Bytes.{Bytes}
use unknown.Primitives.{Blake3}
use unknown.Interfaces.{MerklePath, Anchor, max_money}
use unknown.Notes.{Note, commitment, dummy}
use unknown.ProverDev.{check_spend_statement, SpendWitness, public_inputs}
use unknown.ProverDev.Statement.{check_spend_statement_iff}

abbrev no_path : MerklePath
no_path = record { position = 0; siblings = [] }

module _ ⦃b : Blake3⦄ where
  -- A witness without real inputs that mints its outputs.
  abbrev pub minting : Bytes → Bytes → Bytes → Note → Note → SpendWitness
  minting nk tag digest o p = record {
    spender_nk = nk;
    spender_addr_tag = tag;
    inputs =
        record { note = dummy nk; path = no_path; is_dummy = true }
        ∷ record { note = dummy tag; path = no_path; is_dummy = true }
        ∷ [];
    outputs = o ∷ p ∷ [];
    mint_value = o.value + p.value;
    binding_digest = digest;
  }

  -- The check accepts notes out of nothing: for any two notes of which one has value, worth less
  -- than 2^62 together, there is a witness with these outputs and dummy inputs only that the check
  -- accepts for public inputs whose mint value is zero, since it reads the mint value of the witness.
  pub free_mint :
      (o p : Note) (nk tag digest : Bytes) (anchor : Anchor)
      → 0 < o.value + p.value
      → o.value + p.value < max_money
      → let w = minting nk tag digest o p in
        let pi = record (public_inputs w anchor) { mint_value = 0 } in
        (check_spend_statement w pi ≡ ok tt)
        × (All (λ i. i.is_dummy ≡ true) w.inputs)
        × (pi.commitments ≡ commitment o ∷ commitment p ∷ [])
  unfolding public_inputs dummy
  free_mint o p nk tag digest anchor some small =
      let w = minting nk tag digest o p in
      let pi = record (public_inputs w anchor) { mint_value = 0 } in
      (
        (check_spend_statement_iff w pi).1 (record {
          two_inputs = refl;
          two_outputs = refl;
          two_nullifiers = refl;
          two_commitments = refl;
          bound = refl;
          inputs = (
            record {
              dummy_empty = λ d. refl;
              in_range = omega arith;
              member = λ r. cc r;
              owned = λ r. cc r;
              derived = refl;
            },
            (
              record {
                dummy_empty = λ d. refl;
                in_range = omega arith;
                member = λ r. cc r;
                owned = λ r. cc r;
                derived = refl;
              },
              tt,
            ),
          );
          outputs = (
            record {
              in_range = omega (arith, small);
              committed = refl;
              rho_bound = λ z. absurd (omega (arith, z, some));
            },
            (
              record {
                in_range = omega (arith, small);
                committed = refl;
                rho_bound = λ z. absurd (omega (arith, z, some));
              },
              tt,
            ),
          );
          mint_in_range = small;
          balance = omega arith;
        }),
        (refl, (refl, tt)),
        refl,
      )
