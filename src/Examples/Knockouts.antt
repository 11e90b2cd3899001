-- ===== src/Examples/Knockouts.antt =====
-- The battery of mutations under the toy hash.
use unknown.Base.{◌≡◌, ◌≢◌, ◌⊎◌, inl, refl, ap, arith, false, true, some}
use unknown.Base.Bytes.{Bytes, eq, eq_refl}
use unknown.Primitives.{hash_parts, frame, derive_key}
use unknown.Interfaces.{Anchor, MerklePath}
use unknown.Keys.{nk, addr_tag, ask, from_seed}
use unknown.Notes.{commitment, nullifier, dummy, rho_transfer}
use unknown.Tree.{
  append, new, root, verify_path, path_root, climb, next_level, node_hash, empty_roots, empty_from,
  siblings_from, sibling_at, seal,
}
use unknown.ProverDev.{InputWitness, public_inputs}
use unknown.ProverDev.Statement.{IsSpend}
use unknown.Knockout.{bytes_of, input_note, baseline_tree}
use unknown.Knockout.Mutations.{corrupt_path, battery, run_knockouts}
use unknown.Knockout.Battery.{all_rejected, battery_lem}
use unknown.Knockout.Baseline.{
  sk, real_input, padding, paid, change, first_of, valid, real_fine, padding_fine, valid-IsSpend,
  sealed, sealed_root,
}
use unknown.Knockout.Run.{BatteryCollides, real_nullifier, run_knockouts_lem}
use unknown.Examples.{toy}

differ : (s t : Bytes) → eq s t ≡ false → s ≢ t
differ s t other e = cc (ap (eq s) e, eq_refl s, other)

root_unforged : eq sealed_root (bytes_of 0xAB) ≡ false
unfolding root baseline_tree append new climb next_level node_hash empty_roots empty_from commitment
    hash_parts frame input_note addr_tag ask derive_key from_seed dummy
root_unforged = refl

rho_unforged : eq (rho_transfer real_nullifier 0) (bytes_of 0x42) ≡ false
unfolding nullifier rho_transfer hash_parts frame input_note nk derive_key from_seed
rho_unforged = refl

padding_unforged : eq (rho_transfer (first_of padding) 0) (bytes_of 0x42) ≡ false
unfolding nullifier rho_transfer hash_parts frame dummy nk derive_key from_seed
padding_unforged = refl

tag_unforged : eq (addr_tag sk) (addr_tag (from_seed (bytes_of 99))) ≡ false
unfolding addr_tag ask hash_parts frame derive_key from_seed
tag_unforged = refl

run_knockouts_lem_example : (run_knockouts ≡ some all_rejected) ⊎ BatteryCollides
run_knockouts_lem_example =
    run_knockouts_lem (differ sealed_root (bytes_of 0xAB) root_unforged)
      (differ (rho_transfer real_nullifier 0) (bytes_of 0x42) rho_unforged)
      (differ (rho_transfer (first_of padding) 0) (bytes_of 0x42) padding_unforged)

abbrev path : MerklePath
path = record { position = 0; siblings = siblings_from 32 0 sealed.empty sealed.leaves 0 }

abbrev anchor : Anchor
anchor = record { height = 0; root = sealed_root }

abbrev real : InputWitness
real = real_input path

path_verifies : verify_path (commitment (input_note sk)) path sealed_root ≡ true
unfolding verify_path path_root siblings_from sibling_at root seal baseline_tree append new climb
    next_level node_hash empty_roots empty_from commitment hash_parts frame input_note addr_tag ask
    derive_key from_seed dummy
path_verifies = refl

path_lost : verify_path (commitment real.note) (corrupt_path real).path anchor.root ≡ false
unfolding verify_path path_root siblings_from sibling_at root seal baseline_tree append new climb
    next_level node_hash empty_roots empty_from commitment hash_parts frame input_note addr_tag ask
    derive_key from_seed dummy
path_lost = refl

valid-IsSpend_baseline : IsSpend (valid real padding) (public_inputs (valid real padding) anchor)
unfolding public_inputs input_note dummy
valid-IsSpend_baseline =
    valid-IsSpend real padding anchor
      (real_fine (valid real padding) (public_inputs (valid real padding) anchor) 0 path refl refl
        path_verifies refl)
      (padding_fine (valid real padding) (public_inputs (valid real padding) anchor) 1 refl refl)
      refl

battery_lem_example :
    battery (valid real padding, public_inputs (valid real padding) anchor, anchor)
    ≡ some all_rejected
battery_lem_example =
    battery_lem (nk sk) (addr_tag sk) (bytes_of 3) real padding (paid real_nullifier)
      (change real_nullifier) anchor valid-IsSpend_baseline (inl (refl, refl)) (omega arith)
      (omega arith) (omega arith) (λ d. path_lost) (λ d. absurd (cc))
      (differ sealed_root (bytes_of 0xAB) root_unforged)
      (differ (addr_tag sk) (addr_tag (from_seed (bytes_of 99))) tag_unforged)
      (differ (rho_transfer real_nullifier 0) (bytes_of 0x42) rho_unforged)
