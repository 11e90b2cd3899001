-- ===== src/Quota/Registry.antt =====
-- Every branch of `admit`, and runs of proofs.
use unknown.Base.{
  ◌≡◌, ◌≢◌, ap, ◌∙◌, arith, true, false, ◌==◌, Bool-cases, Option-cases, inl, inr, List, [], ◌∷◌,
  some, none, All,
}
use unknown.Base.Bytes.{eq_refl, eq→≡}
use unknown.Quota.{
  RateProof, Slot, Share, QuotaRegistry, Admit, admitted, duplicate, slash, slot_of, slot_eq, find,
  recover, admit_seen, admit,
}

abbrev pub share_of : RateProof → Share
share_of rp = record { x = rp.x; y = rp.y }

slot_eq_refl : (s : Slot) → slot_eq s s ≡ true
slot_eq_refl s = ground (arith, eq_refl s.rate_nullifier)

slot_eq→≡ : (s t : Slot) → slot_eq s t ≡ true → s ≡ t
slot_eq→≡ s t h = ground (arith, eq→≡ s.rate_nullifier t.rate_nullifier)

pub find_latest :
    (slot : Slot) (share : Share) (rest : List (Slot × Share))
    → find slot ((slot, share) ∷ rest) ≡ some share
unfolding find
find_latest slot share rest = rw (slot_eq_refl slot)

module _ (r : QuotaRegistry) (proof : RateProof) where
  pub admit_free :
      find (slot_of proof) r.seen ≡ none
      → admit r proof ≡ (record r { seen = (slot_of proof, share_of proof) ∷ r.seen }, admitted)
  unfolding admit admit_seen
  admit_free e = ap (admit_seen r proof) e

  pub admit_reused :
      (first : Share)
      → find (slot_of proof) r.seen ≡ some first
      → first.x ≢ proof.x
      → admit r proof ≡ (r, slash (recover first proof))
  unfolding admit admit_seen
  admit_reused first e ne =
      ap (admit_seen r proof) e
      ∙ (let other : first.x == proof.x ≡ false = ground arith in rw other)

  pub admit_repeated :
      (first : Share)
      → find (slot_of proof) r.seen ≡ some first
      → first.x ≡ proof.x
      → admit r proof ≡ (r, duplicate)
  unfolding admit admit_seen
  admit_repeated first e same =
      ap (admit_seen r proof) e ∙ (let this : first.x == proof.x ≡ true = ground arith in rw this)

abbrev pub keep : Admit → Slot → List Slot → List Slot
keep admitted slot slots = slot ∷ slots
keep duplicate slot slots = slots
keep (slash secret) slot slots = slots

-- The slots that a run of proofs is admitted for, in order.
abbrev pub admitted_slots : QuotaRegistry → List RateProof → List Slot
admitted_slots r [] = []
admitted_slots r (proof ∷ proofs) =
    keep (admit r proof).1 (slot_of proof) (admitted_slots (admit r proof).0 proofs)

admitted_slots-step :
    (r r' : QuotaRegistry) (a : Admit) (proof : RateProof) (proofs : List RateProof)
    → admit r proof ≡ (r', a)
    → admitted_slots r (proof ∷ proofs) ≡ keep a (slot_of proof) (admitted_slots r' proofs)
admitted_slots-step r r' a proof proofs e =
    ap (λ (q : QuotaRegistry × Admit). keep q.1 (slot_of proof) (admitted_slots q.0 proofs)) e

abbrev pub IsFree : QuotaRegistry → Slot → Type 0
IsFree r s = find s r.seen ≡ none

abbrev pub AreDistinct : List Slot → Type 0
AreDistinct [] = Unit
AreDistinct (s ∷ ss) = All (λ t. s ≢ t) ss × AreDistinct ss

-- A slot that is free beside one more entry is another slot, and was free before.
free_beside :
    (s t : Slot) (share : Share) (seen : List (Slot × Share))
    → find t ((s, share) ∷ seen) ≡ none
    → (s ≢ t) × (find t seen ≡ none)
unfolding find
free_beside s t share seen h = elim (Bool-cases (slot_eq s t)) [
  | inl same ↦ absurd (cc (rw same at h))
  | inr other ↦ ((λ e. cc (ap (slot_eq s) e, slot_eq_refl s, other)), rw other at h)
]

IsFree-beside_all :
    (r : QuotaRegistry) (s : Slot) (share : Share) (ss : List Slot)
    → All (IsFree (record r { seen = (s, share) ∷ r.seen })) ss
    → All (λ t. s ≢ t) ss × All (IsFree r) ss
IsFree-beside_all r s share [] h = (tt, tt)
IsFree-beside_all r s share (t ∷ ss) h =
    let here = free_beside s t share r.seen h.0 in
    let rest = IsFree-beside_all r s share ss h.1 in ((here.0, rest.0), (here.1, rest.1))

-- From any registry and for any run of proofs, the admitted slots were free at the start and are
-- pairwise different: no slot is ever admitted twice.
pub admitted_once :
    (r : QuotaRegistry) (proofs : List RateProof)
    → All (IsFree r) (admitted_slots r proofs) × AreDistinct (admitted_slots r proofs)
admitted_once r [] = (tt, tt)
admitted_once r (proof ∷ proofs) = elim (Option-cases (find (slot_of proof) r.seen)) [
  | inl free ↦
      let share = share_of proof in
      let next : QuotaRegistry = record r { seen = (slot_of proof, share) ∷ r.seen } in
      let ih = admitted_once next proofs in
      let apart = IsFree-beside_all r (slot_of proof) share (admitted_slots next proofs) ih.0 in
      rw (admitted_slots-step r next admitted proof proofs (admit_free r proof free))
        ((free, apart.1), (apart.0, ih.1))
  | inr (first, used) ↦ elim (Bool-cases (first.x == proof.x)) [
    | inl same ↦
        rw
          (admitted_slots-step r r duplicate proof proofs
            (admit_repeated r proof first used (ground arith)))
          (admitted_once r proofs)
    | inr other ↦
        rw
          (admitted_slots-step r r (slash (recover first proof)) proof proofs
            (admit_reused r proof first used (ground arith)))
          (admitted_once r proofs)
  ]
]
