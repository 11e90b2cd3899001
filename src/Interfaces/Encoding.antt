-- ===== src/Interfaces/Encoding.antt =====
-- `SpendPublicInputs::encode` and the public inputs that it came from.
use unknown.Base.{
  ℕ, List, [], ◌∷◌, ◌++◌, ◌≡◌, refl, ap₂, sym, ◌∙◌, length, All, append_cancel, arith, ◌<◌,
}
use unknown.Base.Bytes.{Bytes, le_bytes}
use unknown.Base.Words.{IsU64, u64_bytes-injective}
use mathlib.Core.List.{append_assoc}
use unknown.Interfaces.{SpendPublicInputs, concat, encode}

-- A `[u8; 32]`.
abbrev pub Is32 : Bytes → Type 0
Is32 bs = length bs ≡ 32

-- What Rust's types guarantee of public inputs, with fewer than 256 nullifiers and commitments.
pub record IsWellSized (pi : SpendPublicInputs) : Type 0 where
  pub height : IsU64 pi.anchor.height
  pub root : Is32 pi.anchor.root
  pub nullifiers : All Is32 pi.nullifiers
  pub few_nullifiers : length pi.nullifiers < 256
  pub commitments : All Is32 pi.commitments
  pub few_commitments : length pi.commitments < 256
  pub binding : Is32 pi.binding_digest
  pub mint : IsU64 pi.mint_value

∷-parts : {x y : ℕ} {xs ys : Bytes} → x ∷ xs ≡ y ∷ ys → (x ≡ y) × (xs ≡ ys)
∷-parts e = (cc, cc)

-- As many chunks of 32 bytes, followed by anything, agree chunk by chunk.
concat_cancel :
    (xs ys : List Bytes) {us vs : Bytes}
    → All Is32 xs
    → All Is32 ys
    → length xs ≡ length ys
    → concat xs ++ us ≡ concat ys ++ vs
    → (xs ≡ ys) × (us ≡ vs)
concat_cancel [] [] hx hy n e = (refl, e)
concat_cancel [] (y ∷ ys) hx hy n e = absurd (omega arith)
concat_cancel (x ∷ xs) [] hx hy n e = absurd (omega arith)
concat_cancel (x ∷ xs) (y ∷ ys) {us} {vs} hx hy n e =
    let heads =
      append_cancel x y (omega (arith, hx.0, hy.0))
        (sym (append_assoc x (concat xs) us) ∙ (e ∙ append_assoc y (concat ys) vs)) in
    let tails = concat_cancel xs ys hx.1 hy.1 (omega arith) heads.1 in
    (ap₂ ◌∷◌ heads.0 tails.0, tails.1)

-- Two well-sized public inputs with one encoding are equal: the tag of a proof fixes them all.
pub encode-injective :
    (p q : SpendPublicInputs) → IsWellSized p → IsWellSized q → encode p ≡ encode q → p ≡ q
unfolding encode
encode-injective p q hp hq e =
    let heights = append_cancel (le_bytes 8 p.anchor.height) (le_bytes 8 q.anchor.height) refl e in
    let same_height : p.anchor.height ≡ q.anchor.height =
      u64_bytes-injective p.anchor.height q.anchor.height hp.height hq.height heights.0 in
    let roots = append_cancel p.anchor.root q.anchor.root (hp.root ∙ sym hq.root) heights.1 in
    let counts = ∷-parts roots.1 in
    let nfs =
      concat_cancel p.nullifiers q.nullifiers hp.nullifiers hq.nullifiers
        (omega (arith, counts.0, hp.few_nullifiers, hq.few_nullifiers)) counts.1 in
    let counts' = ∷-parts nfs.1 in
    let cms =
      concat_cancel p.commitments q.commitments hp.commitments hq.commitments
        (omega (arith, counts'.0, hp.few_commitments, hq.few_commitments)) counts'.1 in
    let digests =
      append_cancel p.binding_digest q.binding_digest (hp.binding ∙ sym hq.binding) cms.1 in
    let mints = u64_bytes-injective p.mint_value q.mint_value hp.mint hq.mint digests.1 in
    cc (same_height, roots.0, nfs.0, cms.0, digests.0, mints)
