-- ===== src/Tx/Reading.antt =====
-- What the reads of decode find, one after another.
use unknown.Base.{
  ℕ, List, ◌≡◌, refl, ap, ◌∙◌, Bool, true, false, Result, ok, ◌>>=◌, ◌>>◌, fail_if, [], ◌∷◌, ◌++◌,
  length, take, drop, All, ltb, length-take, take-append-drop, All-take, All-drop, Bool-cases, inl,
  inr, tests,
}
use unknown.Base.Bytes.{Bytes, IsByte}
use unknown.Tx.{TxV1, TxError, malformed, read}

-- What the success of a block that begins with a read says: the bytes are a part of the size asked
-- for and a rest, on which the block goes on.
pub record Found (n : ℕ) (bytes : Bytes) (f : Bytes × Bytes → Result TxV1 TxError) (tx : TxV1)
    : Type 0 where
  pub part : Bytes
  pub rest : Bytes
  pub size : length part ≡ n
  pub part_bytes : All IsByte part
  pub rest_bytes : All IsByte rest
  pub whole : part ++ rest ≡ bytes
  pub next : f (part, rest) ≡ ok tx

pub read_ok :
    (n : ℕ) (bytes : Bytes) (f : Bytes × Bytes → Result TxV1 TxError) {tx : TxV1}
    → All IsByte bytes
    → (read n bytes >>= f) ≡ ok tx
    → Found n bytes f tx
unfolding read
read_ok n bytes f h e = elim (Bool-cases (ltb (length bytes) n)) [
  | inl short ↦ absurd (cc (rw short at e))
  | inr enough ↦ record {
    part = take n bytes;
    rest = drop n bytes;
    size = omega (tests, enough, length-take n bytes);
    part_bytes = All-take IsByte n bytes h;
    rest_bytes = All-drop IsByte n bytes h;
    whole = take-append-drop n bytes;
    next = rw enough at e;
  }
]

pub fail_then :
    (b : Bool) (f : Result TxV1 TxError) {tx : TxV1}
    → (fail_if b malformed >> f) ≡ ok tx
    → (b ≡ false) × (f ≡ ok tx)
fail_then true f e = absurd (cc e)
fail_then false f e = (refl, e)

-- Reads in a row: the parts, one for each size.
abbrev pub Parts : List ℕ → Type 0
Parts [] = Unit {0}
Parts (n ∷ ns) = Bytes × Parts ns

abbrev pub AreSized : (ns : List ℕ) → Parts ns → Type 0
AreSized [] ps = Unit {0}
AreSized (n ∷ ns) (part, ps) = (length part ≡ n) × All IsByte part × AreSized ns ps

abbrev pub joined : (ns : List ℕ) → Parts ns → Bytes → Bytes
joined [] ps rest = rest
joined (n ∷ ns) (part, ps) rest = part ++ joined ns ps rest

abbrev pub reads :
    (ns : List ℕ) → (Parts ns → Bytes → Result TxV1 TxError) → Bytes → Result TxV1 TxError
reads [] f bytes = f tt bytes
reads (n ∷ ns) f bytes = read n bytes >>= λ found. reads ns (λ ps. f (found.0, ps)) found.1

pub reads_ok :
    (ns : List ℕ) (f : Parts ns → Bytes → Result TxV1 TxError) (bytes : Bytes) {tx : TxV1}
    → All IsByte bytes
    → reads ns f bytes ≡ ok tx
    → (ps : Parts ns) × (rest : Bytes) × AreSized ns ps
      × All IsByte rest
      × (joined ns ps rest ≡ bytes)
      × (f ps rest ≡ ok tx)
reads_ok [] f bytes h e = (tt, bytes, tt, h, refl, e)
reads_ok (n ∷ ns) f bytes h e =
    let first = read_ok n bytes _ h e in
    let (ps, rest, sized, rest_bytes, whole, next) =
      reads_ok ns (λ ps. f (first.part, ps)) first.rest first.rest_bytes first.next in
    (
      (first.part, ps),
      rest,
      (first.size, first.part_bytes, sized),
      rest_bytes,
      ap (λ t. first.part ++ t) whole ∙ first.whole,
      next,
    )
