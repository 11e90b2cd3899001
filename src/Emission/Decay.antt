-- ===== src/Emission/Decay.antt =====
-- The decay factor over the heights.
use native.Mathlib.Nat.{
  div-div-eq-div-mul, pow-suc, mul-div-mul_right, mul-le-mul_left, div-add-mod, mod-lt,
  div-lt_iff_lt-mul, mul-div_cancel, mul-mod_left, zero-div,
}
use unknown.Base.{
  ℕ, zero, suc, ◌+◌, ◌-◌, ◌*◌, ◌/◌, ◌%◌, ◌^◌, ◌≤◌, ◌<◌, ◌≡◌, refl, ap, sym, ◌∙◌, true, false, ◌⊎◌,
  inl, inr, arith, leb, leb→le, leb-false→lt, if◌then◌else◌, Bool-cases, tests,
}
use unknown.Base.Division.{div_mono}
use unknown.Emission.{EmissionParams, halvings, decay_factor, scale}

halvings-suc : (q : ℕ) → halvings (suc q) ≡ halvings q / 2
halvings-suc q = ap (λ (m : ℕ). scale / m) (pow-suc 2 q) ∙ sym (div-div-eq-div-mul scale (2 ^ q) 2)

pub halvings-le_add : (d q : ℕ) → halvings (d + q) ≤ halvings q
halvings-le_add zero q = let e : 0 + q ≡ q = omega arith in rw e (omega arith)
halvings-le_add (suc d) q =
    let e : suc d + q ≡ suc (d + q) = omega arith in
    rw e (omega (arith, halvings-suc (d + q), halvings-le_add d q))

pub halvings-le_scale : (q : ℕ) → halvings q ≤ scale
halvings-le_scale q =
    let e : q + 0 ≡ q = omega arith in
    let at_zero : halvings 0 ≡ scale = refl in
    omega (arith, ap halvings e, at_zero, halvings-le_add q 0)

-- What a period has lost at remainder `r` is at most one half.
drop-le : (h r n : ℕ) → r < n → h * r / (2 * n) ≤ h / 2
drop-le h r n lt =
    let grow : h * r ≤ h * n = mul-le-mul_left h (omega arith) in
    omega
      (arith, div_mono (2 * n) (h * r) (h * n) grow, mul-div-mul_right {m = n} h 2 (omega arith))

drop_mono : (h r r' n : ℕ) → r ≤ r' → h * r / (2 * n) ≤ h * r' / (2 * n)
drop_mono h r r' n le = div_mono (2 * n) (h * r) (h * r') (mul-le-mul_left h le)

-- The factor in period `q` at remainder `r`.
abbrev pub factor : ℕ → ℕ → ℕ → ℕ
factor n q r = if leb 64 q then 0 else halvings q - halvings q * r / (2 * n)

factor_later : (n q d r r' : ℕ) → r < n → factor n (suc (d + q)) r' ≤ factor n q r
factor_later n q d r r' lt = elim (Bool-cases (leb 64 q)) [
  | inl done ↦
      let later : leb 64 (suc (d + q)) ≡ true = ground arith in rw (later, done) (omega arith)
  | inr running ↦ rw running (
      first (Bool-cases (leb 64 (suc (d + q))))
        (omega (arith, drop-le (halvings q) r n lt, halvings-suc (d + q), halvings-le_add d q)))
]
  where
    first :
        {low : ℕ}
        → (leb 64 (suc (d + q)) ≡ true) ⊎ (leb 64 (suc (d + q)) ≡ false)
        → halvings (suc (d + q)) ≤ low
        → factor n (suc (d + q)) r' ≤ low
    first (inl done) h = rw done (omega arith)
    first (inr running) h = rw running (omega (arith, h))

factor_same : (n q r r' : ℕ) → r ≤ r' → factor n q r' ≤ factor n q r
factor_same n q r r' le = elim (Bool-cases (leb 64 q)) [
  | inl done ↦ rw done (omega arith)
  | inr running ↦ rw running (omega (arith, drop_mono (halvings q) r r' n le))
]

decay_factor-factor :
    (p : EmissionParams) (h : ℕ)
    → decay_factor p h ≡ factor p.half_life (h / p.half_life) (h % p.half_life)
unfolding decay_factor
decay_factor-factor p h = refl

-- With a positive half-life, the factor at a later height is never larger.
pub decay_factor-antitone :
    (p : EmissionParams) (h h' : ℕ)
    → 0 < p.half_life
    → h ≤ h'
    → decay_factor p h' ≤ decay_factor p h
decay_factor-antitone p h h' pos le =
    rw (decay_factor-factor p h, decay_factor-factor p h')
      (by_period (h / n) (h' / n) (div_mono n h h' le) refl refl)
  where
    n : ℕ
    n = p.half_life

    by_period :
        (q q' : ℕ) → q ≤ q' → h / n ≡ q → h' / n ≡ q' → factor n q' (h' % n) ≤ factor n q (h % n)
    by_period q q' le' e e' = elim (Bool-cases (leb (suc q) q')) [
      | inl later ↦
          let far : q' ≡ suc (q' - suc q + q) = omega tests in
          rw far (factor_later n q (q' - suc q) (h % n) (h' % n) (mod-lt h pos))
      | inr same ↦
          let near : q' ≡ q = omega tests in
          rw near (
            factor_same n q (h % n) (h' % n) (
              omega (
                arith,
                div-add-mod h n,
                div-add-mod h' n,
                ap (λ (t : ℕ). n * t) e,
                ap (λ (t : ℕ). n * t) (e' ∙ near),
              )))
    ]

pub decay_factor-le_scale : (p : EmissionParams) (h : ℕ) → decay_factor p h ≤ scale
decay_factor-le_scale p h =
    rw (decay_factor-factor p h) (elim (Bool-cases (leb 64 (h / p.half_life))) [
      | inl done ↦ rw done (omega arith)
      | inr running ↦ rw running (omega (arith, halvings-le_scale (h / p.half_life)))
    ])

-- From height 33 half-lives on, the factor is zero.
pub decay_factor_end :
    (p : EmissionParams) (h : ℕ) → 0 < p.half_life → 33 * p.half_life ≤ h → decay_factor p h ≡ 0
decay_factor_end p h pos late =
    rw (decay_factor-factor p h) (elim (Bool-cases (leb 64 (h / p.half_life))) [
      | inl done ↦ rw done
      | inr running ↦ rw running (omega (arith, vanished))
    ])
  where
    q : ℕ
    q = h / p.half_life

    periods : 33 ≤ q
    periods = elim (Bool-cases (leb 33 q)) [
      | inl enough ↦ leb→le 33 q enough
      | inr few ↦
          let short : h < 33 * p.half_life = (div-lt_iff_lt-mul pos).0 (leb-false→lt 33 q few) in
          absurd (omega arith)
    ]

    vanished : halvings q ≤ 0
    vanished =
        let e : q - 33 + 33 ≡ q = omega (arith, periods) in
        let none_left : halvings 33 ≡ 0 = refl in
        rw (← e) (omega (arith, none_left, halvings-le_add (q - 33) 33))

-- After exactly q half-lives, q < 64, the factor is 2^-q of its scale.
pub decay_factor_at_halving :
    (p : EmissionParams) (q : ℕ)
    → 0 < p.half_life
    → q < 64
    → decay_factor p (q * p.half_life) ≡ halvings q
decay_factor_at_halving p q pos small =
    let n : ℕ = p.half_life in
    let period : q * n / n ≡ q = mul-div_cancel q pos in
    let start : q * n % n ≡ 0 = mul-mod_left q n in
    let running : leb 64 q ≡ false = ground arith in
    rw (decay_factor-factor p (q * n), period, start, running)
      (let e : halvings q * 0 ≡ 0 = omega arith in rw (e, zero-div (2 * n)) (omega arith))
