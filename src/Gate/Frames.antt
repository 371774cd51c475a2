-- ===== src/Gate/Frames.antt =====
-- skynet/service-src/service_gate.c: how a stream with two-byte lengths reads as packages.
use skynet_athena.Base.{
  List, [], ap, ap₂, arith, dec_lt, drop, drop-append_short, if◌then◌else◌, inl, inr, leb, length,
  length-append, length-drop, refl, subst, suc, sym, take, take-append_short, zero, ℕ, ℕ_discrete,
  ◌*◌, ◌++◌, ◌+◌, ◌<◌, ◌==◌, ◌^◌, ◌∙◌, ◌∷◌, ◌≡◌, ◌≢◌, ◌≤◌, ◌⊎◌,
}

-- The packages that are complete, an empty one left out, and what is behind them.
unfoldable pub frames : ℕ → List ℕ → List (List ℕ) × List ℕ
frames zero s = ([], s)
frames (suc fuel) [] = ([], [])
frames (suc fuel) (x ∷ []) = ([], x ∷ [])
frames (suc fuel) (hi ∷ lo ∷ rest) =
    let n = hi * 2 ^ 8 + lo in
    let behind = frames fuel (drop n rest) in
    if n == 0
    then behind
    else if leb n (length rest)
    then (take n rest ∷ behind.0, behind.1)
    else ([], hi ∷ lo ∷ rest)

module _ (fuel hi lo : ℕ) (rest : List ℕ) where
  abbrev size : ℕ
  size = hi * 2 ^ 8 + lo

  pub frames_empty : size ≡ 0 → frames (suc fuel) (hi ∷ lo ∷ rest) ≡ frames fuel rest
  unfolding frames
  frames_empty e = rw e refl

  pub frames_full :
      size ≢ 0
      → size ≤ length rest
      → frames (suc fuel) (hi ∷ lo ∷ rest)
        ≡ (take size rest ∷ (frames fuel (drop size rest)).0, (frames fuel (drop size rest)).1)
  unfolding frames
  frames_full ne h = ground arith

  pub frames_short : length rest < size → frames (suc fuel) (hi ∷ lo ∷ rest) ≡ ([], hi ∷ lo ∷ rest)
  unfolding frames
  frames_short h = ground arith

  -- A length is 0, or the package is there, or it is not.
  pub sizes : (size ≡ 0) ⊎ (((size ≢ 0) × (size ≤ length rest)) ⊎ (length rest < size))
  sizes = elim (ℕ_discrete size 0) [
    | yes e ↦ inl e
    | no ne ↦ elim (dec_lt (length rest) size) [
      | yes h ↦ inr (inr h)
      | no h ↦ inr (inl (ne, omega arith))
    ]
  ]

  behind-length : size ≤ length rest → length (drop size rest) + size ≡ length rest
  behind-length h = omega (arith, length-drop size rest)

-- Enough fuel gives the same packages.
pub frames_fuel : (m n : ℕ) (s : List ℕ) → length s < m → length s < n → frames m s ≡ frames n s
unfolding frames
frames_fuel zero n s h k = absurd (omega arith)
frames_fuel (suc m) zero s h k = absurd (omega arith)
frames_fuel (suc m) (suc n) [] h k = refl
frames_fuel (suc m) (suc n) (x ∷ []) h k = refl
frames_fuel (suc m) (suc n) (hi ∷ lo ∷ rest) h k = elim (sizes m hi lo rest) [
  | inl e ↦
      frames_empty m hi lo rest e
      ∙ frames_fuel m n rest (omega arith) (omega arith)
      ∙ sym (frames_empty n hi lo rest e)
  | inr (inl (ne, i)) ↦
      let l = behind-length m hi lo rest i in
      frames_full m hi lo rest ne i
      ∙ ap (λ (b : List (List ℕ) × List ℕ). (take (hi * 2 ^ 8 + lo) rest ∷ b.0, b.1))
          (frames_fuel m n (drop (hi * 2 ^ 8 + lo) rest) (omega (arith, l)) (omega (arith, l)))
      ∙ sym (frames_full n hi lo rest ne i)
  | inr (inr o) ↦ frames_short m hi lo rest o ∙ sym (frames_short n hi lo rest o)
]

abbrev pub then_behind : List (List ℕ) → List (List ℕ) × List ℕ → List (List ℕ) × List ℕ
then_behind ps b = (ps ++ b.0, b.1)

-- The packages of two pieces: those of the first, then those of what it leaves with the second.
pub frames-append :
    (n m k : ℕ) (s t : List ℕ)
    → length s < n
    → length s + length t < m
    → length s + length t < k
    → frames m (s ++ t) ≡ then_behind (frames n s).0 (frames k ((frames n s).1 ++ t))
unfolding frames
frames-append zero m k s t h i j = absurd (omega arith)
frames-append (suc n) m k [] t h i j = frames_fuel m k t (omega arith) (omega arith)
frames-append (suc n) m k (x ∷ []) t h i j = frames_fuel m k (x ∷ t) (omega arith) (omega arith)
frames-append (suc n) zero k (hi ∷ lo ∷ rest) t h i j = absurd (omega arith)
frames-append (suc n) (suc m) k (hi ∷ lo ∷ rest) t h i j = elim (sizes n hi lo rest) [
  | inl e ↦
      frames_empty m hi lo (rest ++ t) e
      ∙ frames-append n m k rest t (omega arith) (omega arith) (omega arith)
      ∙ ap (λ (b : List (List ℕ) × List ℕ). then_behind b.0 (frames k (b.1 ++ t)))
          (sym (frames_empty n hi lo rest e))
  | inr (inl (ne, o)) ↦
      let l = hi * 2 ^ 8 + lo in
      let b = behind-length n hi lo rest o in
      frames_full m hi lo (rest ++ t) ne (omega (arith, length-append rest t))
      ∙ ap₂ (λ (p b : List ℕ). (p ∷ (frames m b).0, (frames m b).1)) (take-append_short l rest t o)
          (drop-append_short l rest t o)
      ∙ ap (λ (p : List (List ℕ) × List ℕ). (take l rest ∷ p.0, p.1))
          (frames-append n m k (drop l rest) t (omega (arith, b)) (omega (arith, b))
            (omega (arith, b)))
      ∙ ap (λ (b : List (List ℕ) × List ℕ). then_behind b.0 (frames k (b.1 ++ t)))
          (sym (frames_full n hi lo rest ne o))
  | inr (inr o) ↦
      frames_fuel (suc m) k (hi ∷ lo ∷ rest ++ t) (omega (arith, length-append rest t))
        (omega (arith, length-append rest t))
      ∙ ap (λ (b : List (List ℕ) × List ℕ). then_behind b.0 (frames k (b.1 ++ t)))
          (sym (frames_short n hi lo rest o))
]

-- The packages of a stream and what is behind them.
unfoldable pub packages : List ℕ → List (List ℕ) × List ℕ
packages s = frames (suc (length s)) s

behind_shorter : (n : ℕ) (s : List ℕ) → length (frames n s).1 ≤ length s
unfolding frames
behind_shorter zero s = omega arith
behind_shorter (suc n) [] = omega arith
behind_shorter (suc n) (x ∷ []) = omega arith
behind_shorter (suc n) (hi ∷ lo ∷ rest) = elim (sizes n hi lo rest) [
  | inl e ↦ omega (
    arith,
    ap (λ (b : List (List ℕ) × List ℕ). length b.1) (frames_empty n hi lo rest e),
    behind_shorter n rest,
  )
  | inr (inl (ne, o)) ↦ omega (
    arith,
    ap (λ (b : List (List ℕ) × List ℕ). length b.1) (frames_full n hi lo rest ne o),
    behind_shorter n (drop (hi * 2 ^ 8 + lo) rest),
    behind-length n hi lo rest o,
  )
  | inr (inr o) ↦
      omega (arith, ap (λ (b : List (List ℕ) × List ℕ). length b.1) (frames_short n hi lo rest o))
]

-- What is behind the packages is not a package.
behind_none :
    (n k : ℕ) (s : List ℕ)
    → length s < n
    → length s < k
    → frames k (frames n s).1 ≡ ([], (frames n s).1)
unfolding frames
behind_none zero k s h i = absurd (omega arith)
behind_none (suc n) zero s h i = absurd (omega arith)
behind_none (suc n) (suc k) [] h i = refl
behind_none (suc n) (suc k) (x ∷ []) h i = refl
behind_none (suc n) (suc k) (hi ∷ lo ∷ rest) h i =
    let Done : List (List ℕ) × List ℕ → Type 0 = λ b. frames (suc k) b.1 ≡ ([], b.1) in
    elim (sizes n hi lo rest) [
      | inl e ↦
          subst Done (sym (frames_empty n hi lo rest e))
            (behind_none n (suc k) rest (omega arith) (omega arith))
      | inr (inl (ne, o)) ↦
          let l = behind-length n hi lo rest o in
          subst Done (sym (frames_full n hi lo rest ne o)) (
            behind_none n (suc k) (drop (hi * 2 ^ 8 + lo) rest) (omega (arith, l))
              (omega (arith, l)))
      | inr (inr o) ↦ subst Done (sym (frames_short n hi lo rest o)) (frames_short k hi lo rest o)
    ]

pub packages-frames : (n : ℕ) (s : List ℕ) → length s < n → frames n s ≡ packages s
unfolding packages
packages-frames n s h = frames_fuel n (suc (length s)) s h (omega arith)

pub packages_settled : (s : List ℕ) → packages (packages s).1 ≡ ([], (packages s).1)
unfolding packages
packages_settled s =
    let l = behind_shorter (suc (length s)) s in
    frames_fuel (suc (length (packages s).1)) (suc (length s)) (packages s).1 (omega arith)
      (omega (arith, l))
    ∙ behind_none (suc (length s)) (suc (length s)) s (omega arith) (omega arith)

pub packages-append :
    (s t : List ℕ) → packages (s ++ t) ≡ then_behind (packages s).0 (packages ((packages s).1 ++ t))
unfolding packages
packages-append s t =
    let m = suc (length s + length t) in
    let l = behind_shorter (suc (length s)) s in
    let r = (packages s).1 in
    frames-append (suc (length s)) (suc (length (s ++ t))) m s t (omega arith)
      (omega (arith, length-append s t)) (omega arith)
    ∙ ap (then_behind (packages s).0) (
        frames_fuel m (suc (length (r ++ t))) (r ++ t) (omega (arith, l, length-append r t))
          (omega arith))
