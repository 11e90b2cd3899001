-- ===== src/Knockout/Run.antt =====
-- The run of the battery, from its baseline.
use unknown.Knockout.Transfers.{IsByte-commitment}
use unknown.Base.{
  ◌+◌, ◌≡◌, ◌≢◌, ◌⊎◌, inl, inr, refl, sym, ap, ◌∙◌, arith, some, true, false, Bool-cases, List, ◌∷◌,
  All,
}
use unknown.Base.Bytes.{Bytes, eq, eq→≡, eq_refl}
use unknown.Primitives.{Blake3}
use unknown.Tree.Soundness.{PathsCollide}
use unknown.Interfaces.{Anchor, MerklePath}
use unknown.Interfaces.Encoding.{Is32}
use unknown.Keys.{from_seed, addr_tag, nk}
use unknown.Keys.Binding.{TagsCollide, addr_tag_binding}
use unknown.Notes.{dummy, commitment, nullifier, rho_transfer}
use unknown.Tree.{append, new, seal, witness, verify_path, path_root}
use unknown.ProverDev.{public_inputs}
use unknown.Knockout.{bytes_of, flip_first, modify, input_note, baseline_of, baseline}
use unknown.Knockout.Mutations.{corrupt_path, battery, run_knockouts}
use unknown.Knockout.Paths.{path_root-flip}
use unknown.Knockout.Battery.{all_rejected, battery_lem}
use unknown.Knockout.Baseline.{
  sk, real_input, padding, first_of, valid, baseline_of-orders, real_fine, padding_fine,
  valid-IsSpend, other, sealed_root, spent_path, sealed, Is32-commitment,
}

module _ ⦃b : Blake3⦄ where
  foreign_tag :
      (addr_tag sk ≢ addr_tag (from_seed (bytes_of 99))) ⊎ TagsCollide (bytes_of 1) (bytes_of 99)
  foreign_tag = elim (Bool-cases (eq (addr_tag sk) (addr_tag (from_seed (bytes_of 99))))) [
    | inl same ↦ elim (addr_tag_binding (bytes_of 1) (bytes_of 99) (eq→≡ _ _ same)) [
      | inl seeds ↦ absurd (cc seeds)
      | inr c ↦ inr c
    ]
    | inr differ ↦ inl (λ e. cc (ap (eq (addr_tag sk)) e, eq_refl (addr_tag sk), differ))
  ]

  corrupted :
      (path : MerklePath) (rest : List Bytes)
      → path.siblings ≡ commitment other ∷ rest
      → All Is32 rest
      → verify_path (commitment (input_note sk)) path sealed_root ≡ true
      → (verify_path (commitment (input_note sk)) (corrupt_path (real_input path)).path sealed_root
          ≡ false)
        ⊎ PathsCollide
            (commitment (input_note sk))
            (commitment (input_note sk))
            path.position
            (modify 0 flip_first path.siblings)
            path.siblings
  unfolding verify_path
  corrupted path rest siblings fine ok =
      let leaf = commitment (input_note sk) in
      let s = commitment other in
      let place = path.position in
      elim (Bool-cases (verify_path leaf (corrupt_path (real_input path)).path sealed_root)) [
        | inl still ↦ inr (
            rw siblings (
              path_root-flip leaf s rest place (Is32-commitment (input_note sk))
                (Is32-commitment other) (omega (arith, Is32-commitment other))
                (IsByte-commitment other) fine
                (ap (λ (l : List Bytes). path_root leaf place (modify 0 flip_first l))
                    (sym siblings)
                  ∙ (eq→≡ _ _ still ∙ (sym (eq→≡ _ _ ok) ∙ ap (path_root leaf place) siblings)))))
        | inr lost ↦ inl lost
      ]

  abbrev pub real_nullifier : Bytes
  real_nullifier = nullifier (input_note sk) (nk sk)

  values :
      (path : MerklePath)
      → ((real_input path).note.value + padding.note.value ≡ 100)
        × (padding.note.value + (real_input path).note.value ≡ 100)
  unfolding input_note dummy
  values path = (refl, refl)

  -- The battery on the baseline, in either order of its inputs.
  from_baseline :
      (anchor : Anchor) (path : MerklePath)
      → verify_path (commitment (input_note sk)) path anchor.root ≡ true
      → verify_path (commitment (input_note sk)) (corrupt_path (real_input path)).path anchor.root
        ≡ false
      → anchor.root ≢ bytes_of 0xAB
      → addr_tag sk ≢ addr_tag (from_seed (bytes_of 99))
      → rho_transfer real_nullifier 0 ≢ bytes_of 0x42
      → rho_transfer (first_of padding) 0 ≢ bytes_of 0x42
      → battery (baseline_of sk (input_note sk) anchor path) ≡ some all_rejected
  unfolding public_inputs
  from_baseline anchor path good bad unforged tag rho rho' =
      let a = real_input path in
      let first = valid a padding in
      let second = valid padding a in
      elim (baseline_of-orders anchor path) [
        | inl kept ↦ rw kept (
            battery_lem (nk sk) (addr_tag sk) (bytes_of 3) a padding _ _ anchor
              (valid-IsSpend a padding anchor
                (real_fine first (public_inputs first anchor) 0 path refl refl good refl)
                (padding_fine first (public_inputs first anchor) 1 refl refl) (values path).0)
              (inl (refl, refl)) (omega arith) (omega arith) (omega arith) (λ d. bad)
              (λ d. absurd (cc)) unforged tag rho)
        | inr swapped ↦ rw swapped (
            battery_lem (nk sk) (addr_tag sk) (bytes_of 3) padding a _ _ anchor
              (valid-IsSpend padding a anchor
                (padding_fine second (public_inputs second anchor) 0 refl refl)
                (real_fine second (public_inputs second anchor) 1 path refl refl good refl)
                (values path).1)
              (inr (refl, refl)) (omega arith) (omega arith) (omega arith) (λ d. absurd (cc))
              (λ d. bad) unforged tag rho')
      ]

  -- Two inputs of BLAKE3 with one digest among those that the battery hashes: the seeds of the two
  -- owner tags and what is derived of them, or a level of the path of the spent note and of the path
  -- that the mutation changes.
  abbrev pub BatteryCollides : Type 0
  BatteryCollides =
      TagsCollide (bytes_of 1) (bytes_of 99)
      ⊎ ((path : MerklePath) × (witness sealed 0 ≡ some path)
          × PathsCollide (commitment (input_note sk)) (commitment (input_note sk)) path.position
              (modify 0 flip_first path.siblings) path.siblings)

  -- If the root of the battery's tree is not the forged root and no nullifier of the baseline gives
  -- the false rho, the harness reports that its baseline is valid and that each of its twelve
  -- mutations is rejected with the error of the constraint that it violates; or else two inputs of
  -- BLAKE3 collide among the seeds of the two owner tags, what is derived of them, and the nodes on
  -- the spent note's path and on the changed path.
  pub run_knockouts_lem :
      sealed_root ≢ bytes_of 0xAB
      → rho_transfer real_nullifier 0 ≢ bytes_of 0x42
      → rho_transfer (first_of padding) 0 ≢ bytes_of 0x42
      → (run_knockouts ≡ some all_rejected) ⊎ BatteryCollides
  unfolding run_knockouts baseline seal append new
  run_knockouts_lem unforged rho rho' =
      let (path, rest, found, place, siblings, fine, good) = spent_path in
      elim foreign_tag [
        | inr c ↦ inr (inl c)
        | inl tag ↦ elim (corrupted path rest siblings fine good) [
          | inr c ↦ inr (inr (path, found, c))
          | inl bad ↦ inl (
              rw found (
                from_baseline (record { height = 0; root = sealed_root }) path good bad unforged tag
                  rho rho'))
        ]
      ]
