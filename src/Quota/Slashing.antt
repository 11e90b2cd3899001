-- ===== src/Quota/Slashing.antt =====
-- Two messages in one slot, and the staker's secret.
use unknown.Base.{
  ℕ, ◌<◌, ◌≡◌, ◌≢◌, refl, ap, ◌∙◌, arith, ok, leb, Bool-cases, inl, inr, List, ◌∷◌, none,
}
use unknown.Base.Bytes.{Bytes}
use unknown.Primitives.{Blake3}
use unknown.Quota.{
  p, reduce, add, sub, mul, inv, field_from, QuotaNote, RateProof, quota, signal, secret, slope,
  message_x, rate_nullifier, recover, admit, admitted, slash, find, slot_of, QuotaRegistry,
}
use unknown.Quota.Registry.{share_of, admit_free, admit_reused, find_latest}
use unknown.Quota.Laws.{mul_assoc_lem, mul-one, sub-add, sub-line, reduced_mul}

-- Two points of the line `s + m x` at places whose difference has an inverse give back `s`.
recover-line :
    (s m x x' : ℕ)
    → s < p
    → m < p
    → x < p
    → x' < p
    → mul (sub x x') (inv (sub x x')) ≡ 1
    → sub
        (add s (mul m x'))
        (mul (mul (sub (add s (mul m x)) (add s (mul m x'))) (inv (sub x x'))) x')
      ≡ s
recover-line s m x x' hs hm hx hx' unit =
    let slope_found : mul (sub (add s (mul m x)) (add s (mul m x'))) (inv (sub x x')) ≡ m =
      ap (λ d. mul d (inv (sub x x'))) (sub-line s m x x' hx hx')
      ∙ (mul_assoc_lem m (sub x x') (inv (sub x x')) ∙ (ap (mul m) unit ∙ mul-one m hm)) in
    ap (λ a1. sub (add s (mul m x')) (mul a1 x')) slope_found
    ∙ sub-add s (mul m x') hs (reduced_mul m x')

module _ ⦃b : Blake3⦄ where
  field_from-lt : (context : _) (parts : List Bytes) → field_from context parts < p
  unfolding field_from reduce
  field_from-lt context parts = omega arith

  -- The proof that `signal` makes of a message.
  abbrev pub line_proof : QuotaNote → ℕ → ℕ → Bytes → RateProof
  line_proof n epoch k message = record {
    epoch = epoch;
    rate_nullifier = rate_nullifier n epoch k;
    x = message_x message;
    y = add (secret n) (mul (slope n epoch) (message_x message));
  }

  signal-eq-ok :
      (n : QuotaNote) (epoch k : ℕ) (message : Bytes) {proof : RateProof}
      → signal n epoch k message ≡ ok proof
      → proof ≡ line_proof n epoch k message
  unfolding signal
  signal-eq-ok n epoch k message h = elim (Bool-cases (leb (quota n) k)) [
    | inl over ↦ absurd (cc (rw over at h))
    | inr within ↦ cc (rw within at h)
  ]

  caught :
      (r : QuotaRegistry) (n : QuotaNote) (epoch k : ℕ) (m m' : Bytes)
      → find (slot_of (line_proof n epoch k m)) r.seen ≡ none
      → message_x m ≢ message_x m'
      → mul (sub (message_x m') (message_x m)) (inv (sub (message_x m') (message_x m))) ≡ 1
      → let first = line_proof n epoch k m in
        ((admit r first).1 ≡ admitted)
        × (admit (admit r first).0 (line_proof n epoch k m')
            ≡ ((admit r first).0, slash (secret n)))
  unfolding recover
  caught r n epoch k m m' free ne unit =
      let first = line_proof n epoch k m in
      let second = line_proof n epoch k m' in
      let fresh = admit_free r first free in
      let used = find_latest (slot_of first) (share_of first) r.seen in
      rw fresh (
        refl,
        admit_reused (record r { seen = (slot_of first, share_of first) ∷ r.seen }) second
              (share_of first) used ne
            ∙ ap (λ s. (record r { seen = (slot_of first, share_of first) ∷ r.seen }, slash s))
                (recover-line (secret n) (slope n epoch) (message_x m') (message_x m)
                  (unfold secret in field_from-lt _ _) (unfold slope in field_from-lt _ _)
                  (unfold message_x in field_from-lt _ _) (unfold message_x in field_from-lt _ _)
                  unit),
      )

  -- A staker who signals two messages with different x-coordinates in one slot is caught: the first
  -- proof is admitted into a free slot, and the second makes the registry, unchanged by it, return
  -- the staker's secret. The last hypothesis is Fermat's theorem at the one difference.
  pub admit-slash :
      (r : QuotaRegistry) (n : QuotaNote) (epoch k : ℕ) (m m' : Bytes) {first second : RateProof}
      → signal n epoch k m ≡ ok first
      → signal n epoch k m' ≡ ok second
      → find (slot_of first) r.seen ≡ none
      → message_x m ≢ message_x m'
      → mul (sub (message_x m') (message_x m)) (inv (sub (message_x m') (message_x m))) ≡ 1
      → ((admit r first).1 ≡ admitted)
        × (admit (admit r first).0 second ≡ ((admit r first).0, slash (secret n)))
  admit-slash r n epoch k m m' {first} {second} s s' free ne unit =
      let e = signal-eq-ok n epoch k m s in
      let e' = signal-eq-ok n epoch k m' s' in
      rw (e, e') (caught r n epoch k m m' (rw e at free) ne unit)
