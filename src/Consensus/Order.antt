-- ===== src/Consensus/Order.antt =====
-- The commit order of a round: its digests, its members, and the order of submission.
use unknown.Base.{◌≡◌, refl, sym, ap, ap₂, ◌∙◌, true, List, [], ◌∷◌, any, All}
use mathlib.Core.List.{map, Permᴰ}
use mathlib.Core.Path.{subst}
use unknown.Base.Bytes.{Bytes, lt, eq}
use unknown.Primitives.{Blake3}
use unknown.Tx.{TxV1, binding_digest}
use unknown.Consensus.{or_insert, gather, commit_order}
use unknown.Consensus.Entries.{
  Entry, or_insert-swap, All-or_insert, AreOrdered, or_insert-AreOrdered, has, or_insert-has,
  or_insert-keeps,
}

All-perm {ℓ κ} : {A : Type ℓ} (P : A → Type κ) {xs ys : List A} → Permᴰ xs ys → All P xs → All P ys
All-perm P Permᴰ.nil h = tt
All-perm P (Permᴰ.cons e p) h = (subst P e h.0, All-perm P p h.1)
All-perm P (Permᴰ.swap e e') h = (subst P e' h.1.0, (subst P e h.0, h.1.1))
All-perm P (Permᴰ.trans p q) h = All-perm P q (All-perm P p h)

All-map {ℓ κ μ} :
    {A : Type ℓ} {P : A → Type κ} {Q : A → Type μ} (xs : List A)
    → ((x : A) → P x → Q x)
    → All P xs
    → All Q xs
All-map [] f h = tt
All-map (x ∷ xs) f h = (f x h.0, All-map xs f h.1)

module _ ⦃b : Blake3⦄ where
  -- Transactions of one digest are equal.
  abbrev pub AreConsistent : List TxV1 → Type 0
  AreConsistent txs =
      All (λ tx. All (λ tx'. binding_digest tx ≡ binding_digest tx' → tx ≡ tx') txs) txs

  consistent_perm : {xs ys : List TxV1} → Permᴰ xs ys → AreConsistent xs → AreConsistent ys
  consistent_perm {xs} {ys} p h = All-perm _ p (All-map xs (λ tx k. All-perm _ p k) h)

  consistent_tail : (tx : TxV1) (txs : List TxV1) → AreConsistent (tx ∷ txs) → AreConsistent txs
  consistent_tail tx txs h = All-map txs (λ t k. k.1) h.1

  gather-perm :
      {xs ys : List TxV1} (seen : List Entry)
      → Permᴰ xs ys
      → AreConsistent xs
      → gather xs seen ≡ gather ys seen
  unfolding gather
  gather-perm seen Permᴰ.nil h = refl
  gather-perm seen (Permᴰ.cons {a = x} {b = y} {l₁ = l} {l₂ = l'} e p) h =
      gather-perm (or_insert (binding_digest x) x seen) p (consistent_tail x l h)
      ∙ ap (λ t. gather l' (or_insert (binding_digest t) t seen)) e
  gather-perm seen (Permᴰ.swap {a = x} {b = y} {a' = x'} {b' = y'} {l = l} e e') h =
      ap (gather l)
        (or_insert-swap (binding_digest y) (binding_digest x) y x seen (λ k. sym (h.0.1.0 (sym k))))
      ∙ ap₂ (λ s t. gather l (or_insert (binding_digest s) s (or_insert (binding_digest t) t seen)))
          e e'
  gather-perm seen (Permᴰ.trans {l₂ = m} p q) h =
      gather-perm seen p h ∙ gather-perm seen q (consistent_perm p h)

  -- Validators that are given the same transactions in any two orders commit the same order, if no
  -- two different transactions of them have one binding digest.
  pub commit_order-perm :
      (xs ys : List TxV1) → Permᴰ xs ys → AreConsistent xs → commit_order xs ≡ commit_order ys
  unfolding commit_order
  commit_order-perm xs ys p h = ap (map (λ (e : Entry). e.1)) (gather-perm [] p h)

  -- Each entry stands under the digest of its transaction.
  abbrev pub IsKeyed : List Entry → Type 0
  IsKeyed = All (λ (e : Entry). e.0 ≡ binding_digest e.1)

  pub gather-IsKeyed :
      (txs : List TxV1) (seen : List Entry) → IsKeyed seen → IsKeyed (gather txs seen)
  unfolding gather
  gather-IsKeyed [] seen h = h
  gather-IsKeyed (tx ∷ txs) seen h =
      gather-IsKeyed txs (or_insert (binding_digest tx) tx seen)
        (All-or_insert (λ (e : Entry). e.0 ≡ binding_digest e.1) (binding_digest tx) tx seen refl h)

  pub gather-AreOrdered :
      (txs : List TxV1) (seen : List Entry) → AreOrdered seen → AreOrdered (gather txs seen)
  unfolding gather
  gather-AreOrdered [] seen h = h
  gather-AreOrdered (tx ∷ txs) seen h =
      gather-AreOrdered txs (or_insert (binding_digest tx) tx seen)
        (or_insert-AreOrdered (binding_digest tx) tx seen h)

  gather-All :
      (P : TxV1 → Type 0) (txs : List TxV1) (seen : List Entry)
      → All P txs
      → All (λ (e : Entry). P e.1) seen
      → All (λ (e : Entry). P e.1) (gather txs seen)
  unfolding gather
  gather-All P [] seen h hs = hs
  gather-All P (tx ∷ txs) seen h hs =
      gather-All P txs (or_insert (binding_digest tx) tx seen) h.1
        (All-or_insert (λ e. P e.1) (binding_digest tx) tx seen h.0 hs)

  gather-keeps :
      (txs : List TxV1) (seen : List Entry) (key : Bytes)
      → has seen key ≡ true
      → has (gather txs seen) key ≡ true
  unfolding gather
  gather-keeps [] seen key h = h
  gather-keeps (tx ∷ txs) seen key h =
      gather-keeps txs (or_insert (binding_digest tx) tx seen) key
        (or_insert-keeps (binding_digest tx) tx seen key h)

  gather-has :
      (txs : List TxV1) (seen : List Entry)
      → All (λ tx. has (gather txs seen) (binding_digest tx) ≡ true) txs
  unfolding gather
  gather-has [] seen = tt
  gather-has (tx ∷ txs) seen = (
    gather-keeps txs (or_insert (binding_digest tx) tx seen) (binding_digest tx)
        (or_insert-has (binding_digest tx) tx seen),
    gather-has txs (or_insert (binding_digest tx) tx seen),
  )

  -- The digests ascend strictly, so that none occurs twice.
  abbrev pub AreAscending : List TxV1 → Type 0
  AreAscending [] = Unit
  AreAscending (tx ∷ txs) =
      All (λ tx'. lt (binding_digest tx) (binding_digest tx') ≡ true) txs × AreAscending txs

  abbrev pub txs_of : List Entry → List TxV1
  txs_of = map (λ (e : Entry). e.1)

  All-txs :
      (P : TxV1 → Type 0) (seen : List Entry)
      → All (λ (e : Entry). P e.1) seen
      → All P (txs_of seen)
  All-txs P [] h = tt
  All-txs P (e ∷ seen) h = (h.0, All-txs P seen h.1)

  above_digest :
      (k : Bytes) (tx : TxV1) (seen : List Entry)
      → k ≡ binding_digest tx
      → All (λ (e : Entry). lt k e.0 ≡ true) seen
      → IsKeyed seen
      → All (λ (e : Entry). lt (binding_digest tx) (binding_digest e.1) ≡ true) seen
  above_digest k tx [] e h ks = tt
  above_digest k tx (x ∷ seen) e h ks = (rw (← e, ← ks.0) h.0, above_digest k tx seen e h.1 ks.1)

  ordered_txs : (seen : List Entry) → AreOrdered seen → IsKeyed seen → AreAscending (txs_of seen)
  ordered_txs [] h ks = tt
  ordered_txs ((k, tx) ∷ seen) h ks = (
    All-txs (λ tx'. lt (binding_digest tx) (binding_digest tx') ≡ true) seen
        (above_digest k tx seen ks.0 h.0 ks.1),
    ordered_txs seen h.1 ks.1,
  )

  has_txs :
      (seen : List Entry) (key : Bytes)
      → IsKeyed seen
      → has seen key ≡ any (λ tx. eq (binding_digest tx) key) (txs_of seen)
  has_txs [] key ks = refl
  has_txs ((k, tx) ∷ seen) key ks = rw (ks.0, has_txs seen key ks.1) refl

  -- The committed transactions ascend strictly in their binding digests, so that no digest occurs
  -- twice, and every digest that was submitted is committed.
  pub commit_order-ascends :
      (submitted : List TxV1)
      → AreAscending (commit_order submitted)
        × All
            (λ tx.
              any (λ tx'. eq (binding_digest tx') (binding_digest tx)) (commit_order submitted)
              ≡ true)
            submitted
  unfolding commit_order
  commit_order-ascends submitted =
      let keyed = gather-IsKeyed submitted [] tt in
      (
        ordered_txs (gather submitted []) (gather-AreOrdered submitted [] tt) keyed,
        All-map submitted
            (λ tx h. sym (has_txs (gather submitted []) (binding_digest tx) keyed) ∙ h)
            (gather-has submitted []),
      )

  -- Only submitted transactions are committed: what all of them satisfy, all committed ones do.
  pub All-commit_order :
      (P : TxV1 → Type 0) (submitted : List TxV1) → All P submitted → All P (commit_order submitted)
  unfolding commit_order
  All-commit_order P submitted h = All-txs P (gather submitted []) (gather-All P submitted [] h tt)
