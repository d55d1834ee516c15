-- ===== src/Updater/Semver/Order.antt =====
-- packages/updater/src/manifest.ts: `compareSemver` is an order, but for numeric identifiers that differ as texts
-- and parse to one double.
use forgetbase.Prelude.{
  all, ◌++◌, ℕ, Bool, true, false, not, List, [], ◌∷◌, ◌≡◌, ◌≢◌, refl, ap, arith, if◌then◌else◌,
  ◌⊎◌, Bool-cases, inl, inr, All, All-map,
}
use forgetbase.Updater.Semver.{
  is_label, number_sign, text_eq, Sign, below, same, above, Semver, is_numeric, parse_int,
  label_sign, labels_sign, prerelease_sign, semver_sign,
}

abbrev pub flip : Sign → Sign
flip below = above
flip same = same
flip above = below

pub text_eq_refl : (l : List ℕ) → text_eq l l ≡ true
text_eq_refl [] = refl
text_eq_refl (c ∷ cs) = ground (arith, text_eq_refl cs)

pub text_eq-eq : (l r : List ℕ) → text_eq l r ≡ true → l ≡ r
text_eq-eq [] [] e = refl
text_eq-eq [] (d ∷ ds) e = cc
text_eq-eq (c ∷ cs) [] e = cc
text_eq-eq (c ∷ cs) (d ∷ ds) e = ground (arith, text_eq-eq cs ds)

text_eq_swap : (l r : List ℕ) → text_eq l r ≡ true → text_eq r l ≡ true
text_eq_swap l r e = rw (text_eq-eq l r e) (text_eq_refl r)

ne_of_text_eq : (l r : List ℕ) → text_eq l r ≡ false → l ≢ r
ne_of_text_eq l r e q = let clash : text_eq r r ≡ false = rw q at e in cc (text_eq_refl r)

text_eq_ne : (l r : List ℕ) → text_eq l r ≡ false → text_eq r l ≡ false
text_eq_ne l r e = elim (Bool-cases (text_eq r l)) [
  | inl t ↦ cc (e, text_eq_swap r l t)
  | inr f ↦ f
]

-- an identifier of letters, digits, dots and dashes
abbrev pub IsLabel : List ℕ → Type 0
IsLabel l = all is_label l ≡ true

-- the pre-release identifiers of a version that parses are labels
abbrev pub AreLabels : List (List ℕ) → Type 0
AreLabels = All IsLabel

-- What the order needs of `localeCompare`: it is a strict order, and it tells labels apart. Texts with
-- other characters may compare as 0, such as those that are canonically equivalent.
pub record IsLocaleOrder (locale_gt : List ℕ → List ℕ → Bool) : Type 0 where
  pub irrefl : (l : List ℕ) → locale_gt l l ≡ false
  pub total : (l r : List ℕ) → IsLabel l → IsLabel r → l ≢ r → locale_gt l r ≡ not (locale_gt r l)
  pub trans : (l m r : List ℕ) → locale_gt m l ≡ true → locale_gt r m ≡ true → locale_gt r l ≡ true

-- Two numeric identifiers that parse to one double are one text, as without leading zeros and below 2 ^ 53.
abbrev pub IsOneText : List ℕ → List ℕ → Type 0
IsOneText l r = is_numeric l ≡ true → is_numeric r ≡ true → parse_int l ≡ parse_int r → l ≡ r

abbrev pub IsUnambiguous : List (List ℕ) → List (List ℕ) → Type 0
IsUnambiguous ls rs = All (λ l. All (IsOneText l) rs) ls

IsUnambiguous-tail :
    (l : List ℕ) (ls : List (List ℕ)) (r : List ℕ) (rs : List (List ℕ))
    → IsUnambiguous (l ∷ ls) (r ∷ rs)
    → IsUnambiguous ls rs
IsUnambiguous-tail l ls r rs u = All-map (λ k a. a.1) ls u.1

module _ (gt : List ℕ → List ℕ → Bool) (locale : IsLocaleOrder gt) where
  label_sign-flip :
      (l r : List ℕ)
      → IsLabel l
      → IsLabel r
      → l ≢ r
      → IsOneText l r
      → label_sign gt l r ≡ flip (label_sign gt r l)
  unfolding label_sign
  label_sign-flip l r x y ne one = ground (arith, locale.total l r x y ne)

  labels_sign-flip :
      (ls rs : List (List ℕ))
      → AreLabels ls
      → AreLabels rs
      → IsUnambiguous ls rs
      → labels_sign gt ls rs ≡ flip (labels_sign gt rs ls)
  unfolding labels_sign
  labels_sign-flip [] [] x y u = refl
  labels_sign-flip [] (r ∷ rs) x y u = refl
  labels_sign-flip (l ∷ ls) [] x y u = refl
  labels_sign-flip (l ∷ ls) (r ∷ rs) x y u = elim (Bool-cases (text_eq l r)) [
    | inl e ↦
        let eq = text_eq-eq l r e in
        rw (e, text_eq_swap l r e) (labels_sign-flip ls rs x.1 y.1 (IsUnambiguous-tail l ls r rs u))
    | inr e ↦ rw (e, text_eq_ne l r e) (label_sign-flip l r x.0 y.0 (ne_of_text_eq l r e) u.0.0)
  ]

  label_sign_trans :
      (l m r : List ℕ)
      → IsLabel l
      → IsLabel m
      → IsLabel r
      → l ≢ m
      → m ≢ r
      → IsOneText l m
      → IsOneText m r
      → label_sign gt l m ≡ below
      → label_sign gt m r ≡ below
      → label_sign gt l r ≡ below
  unfolding label_sign
  label_sign_trans l m r x y z p q one two a b =
      ground (arith, locale.total l m x y p, locale.total m r y z q, locale.trans l m r, order l r)
    where
      order : (l r : List ℕ) → gt r l ≡ true → gt l r ≡ false
      order l r h = elim (Bool-cases (gt l r)) [
        | inl k ↦ cc (locale.trans l r l h k, locale.irrefl l)
        | inr k ↦ k
      ]

  label_sign-differ :
      (l m r : List ℕ)
      → IsLabel l
      → IsLabel m
      → l ≢ m
      → IsOneText l m
      → label_sign gt l m ≡ below
      → label_sign gt m r ≡ below
      → text_eq l r ≡ false
  label_sign-differ l m r x y p one a b = elim (Bool-cases (text_eq l r)) [
    | inl e ↦
        let back : label_sign gt m l ≡ below = rw (text_eq-eq l r e) b in
        cc (label_sign-flip l m x y p one, a, ap flip back)
    | inr e ↦ e
  ]

  labels_sign_trans :
      (ls ms rs : List (List ℕ))
      → AreLabels ls
      → AreLabels ms
      → AreLabels rs
      → IsUnambiguous ls ms
      → IsUnambiguous ms rs
      → labels_sign gt ls ms ≡ below
      → labels_sign gt ms rs ≡ below
      → labels_sign gt ls rs ≡ below
  unfolding labels_sign
  labels_sign_trans [] [] rs x y z u v a b = cc
  labels_sign_trans [] (m ∷ ms) [] x y z u v a b = cc
  labels_sign_trans [] (m ∷ ms) (r ∷ rs) x y z u v a b = refl
  labels_sign_trans (l ∷ ls) [] rs x y z u v a b = cc
  labels_sign_trans (l ∷ ls) (m ∷ ms) [] x y z u v a b = cc
  labels_sign_trans (l ∷ ls) (m ∷ ms) (r ∷ rs) x y z u v a b =
      split (Bool-cases (text_eq l m)) (Bool-cases (text_eq m r)) (
        labels_sign_trans ls ms rs x.1 y.1 z.1 (IsUnambiguous-tail l ls m ms u)
          (IsUnambiguous-tail m ms r rs v))
    where
      split :
          (text_eq l m ≡ true) ⊎ (text_eq l m ≡ false)
          → (text_eq m r ≡ true) ⊎ (text_eq m r ≡ false)
          → (labels_sign gt ls ms ≡ below
              → labels_sign gt ms rs ≡ below
              → labels_sign gt ls rs ≡ below)
          → (if text_eq l r then labels_sign gt ls rs else label_sign gt l r) ≡ below
      split (inl e) (inl f) ih =
          let t : text_eq l r ≡ true = rw (text_eq-eq l m e) f in
          rw t (ih (ground arith) (ground arith))
      split (inl e) (inr f) ih =
          let t : text_eq l r ≡ false = rw (text_eq-eq l m e) f in
          let s : label_sign gt m r ≡ below = ground arith in rw t (rw (text_eq-eq l m e) s)
      split (inr e) (inl f) ih =
          let t : text_eq l r ≡ false = rw (← text_eq-eq m r f) e in
          let s : label_sign gt l m ≡ below = ground arith in rw t (rw (← text_eq-eq m r f) s)
      split (inr e) (inr f) ih =
          let s : label_sign gt l m ≡ below = ground arith in
          let t : label_sign gt m r ≡ below = ground arith in
          rw (label_sign-differ l m r x.0 y.0 (ne_of_text_eq l m e) u.0.0 s t) (
            label_sign_trans l m r x.0 y.0 z.0 (ne_of_text_eq l m e) (ne_of_text_eq m r f) u.0.0
              v.0.0 s t)

  prerelease_sign-flip :
      (ls rs : List (List ℕ))
      → AreLabels ls
      → AreLabels rs
      → IsUnambiguous ls rs
      → prerelease_sign gt ls rs ≡ flip (prerelease_sign gt rs ls)
  unfolding prerelease_sign
  prerelease_sign-flip [] [] x y u = refl
  prerelease_sign-flip [] (r ∷ rs) x y u = refl
  prerelease_sign-flip (l ∷ ls) [] x y u = refl
  prerelease_sign-flip (l ∷ ls) (r ∷ rs) x y u = labels_sign-flip (l ∷ ls) (r ∷ rs) x y u

  prerelease_sign_trans :
      (ls ms rs : List (List ℕ))
      → AreLabels ls
      → AreLabels ms
      → AreLabels rs
      → IsUnambiguous ls ms
      → IsUnambiguous ms rs
      → prerelease_sign gt ls ms ≡ below
      → prerelease_sign gt ms rs ≡ below
      → prerelease_sign gt ls rs ≡ below
  unfolding prerelease_sign
  prerelease_sign_trans [] [] rs x y z u v a b = cc
  prerelease_sign_trans [] (m ∷ ms) rs x y z u v a b = cc
  prerelease_sign_trans (l ∷ ls) [] [] x y z u v a b = refl
  prerelease_sign_trans (l ∷ ls) [] (r ∷ rs) x y z u v a b = cc
  prerelease_sign_trans (l ∷ ls) (m ∷ ms) [] x y z u v a b = refl
  prerelease_sign_trans (l ∷ ls) (m ∷ ms) (r ∷ rs) x y z u v a b =
      labels_sign_trans (l ∷ ls) (m ∷ ms) (r ∷ rs) x y z u v a b

  labels_sign_refl : (ls : List (List ℕ)) → labels_sign gt ls ls ≡ same
  unfolding labels_sign
  labels_sign_refl [] = refl
  labels_sign_refl (l ∷ ls) = rw (text_eq_refl l) (labels_sign_refl ls)

  prerelease_sign_refl : (ls : List (List ℕ)) → prerelease_sign gt ls ls ≡ same
  unfolding prerelease_sign
  prerelease_sign_refl [] = refl
  prerelease_sign_refl (l ∷ ls) = labels_sign_refl (l ∷ ls)

  -- Exchanging the two versions turns the sign round, and a version has the sign 0 against itself. The
  -- pre-release identifiers are labels, as of versions that parse, and numeric identifiers of the two that
  -- parse to one double are one text; `localeCompare` is a strict order that tells labels apart.
  pub semver_sign-flip :
      (a b : Semver)
      → AreLabels a.prerelease
      → AreLabels b.prerelease
      → IsUnambiguous a.prerelease b.prerelease
      → (semver_sign gt a b ≡ flip (semver_sign gt b a)) × (semver_sign gt a a ≡ same)
  unfolding semver_sign
  semver_sign-flip a b x y u = (
    ground (arith, prerelease_sign-flip a.prerelease b.prerelease x y u),
    ground (arith, prerelease_sign_refl a.prerelease),
  )

  -- A version below a second one, which is below a third one, is below the third one. The pre-release
  -- identifiers are labels, as of versions that parse, and numeric identifiers of the first and the second,
  -- and of the second and the third, that parse to one double are one text; `localeCompare` is a strict
  -- order that tells labels apart.
  pub semver_sign_trans :
      (a b c : Semver)
      → AreLabels a.prerelease
      → AreLabels b.prerelease
      → AreLabels c.prerelease
      → IsUnambiguous a.prerelease b.prerelease
      → IsUnambiguous b.prerelease c.prerelease
      → semver_sign gt a b ≡ below
      → semver_sign gt b c ≡ below
      → semver_sign gt a c ≡ below
  unfolding semver_sign
  semver_sign_trans a b c x y z u v p q =
      ground (arith, prerelease_sign_trans a.prerelease b.prerelease c.prerelease x y z u v)

module _ (gt : List ℕ → List ℕ → Bool) where
  labels_sign-append :
      (ps ls rs : List (List ℕ)) → labels_sign gt (ps ++ ls) (ps ++ rs) ≡ labels_sign gt ls rs
  unfolding labels_sign
  labels_sign-append [] ls rs = refl
  labels_sign-append (p ∷ ps) ls rs = rw (text_eq_refl p) (labels_sign-append ps ls rs)

  prerelease_sign-append :
      (ps : List (List ℕ)) (l : List ℕ) (ls : List (List ℕ)) (r : List ℕ) (rs : List (List ℕ))
      → prerelease_sign gt (ps ++ l ∷ ls) (ps ++ r ∷ rs) ≡ labels_sign gt (l ∷ ls) (r ∷ rs)
  unfolding prerelease_sign
  prerelease_sign-append [] l ls r rs = refl
  prerelease_sign-append (p ∷ ps) l ls r rs = labels_sign-append (p ∷ ps) (l ∷ ls) (r ∷ rs)

  number_sign_refl : (n : ℕ) (s : Sign) → number_sign n n s ≡ s
  number_sign_refl n s = ground arith

  prefixed_sign :
      (v : Semver) (ps : List (List ℕ)) (l : List ℕ) (ls : List (List ℕ)) (r : List ℕ)
      (rs : List (List ℕ))
      → semver_sign gt
          (record v { prerelease = ps ++ l ∷ ls })
          (record v { prerelease = ps ++ r ∷ rs })
        ≡ labels_sign gt (l ∷ ls) (r ∷ rs)
  unfolding semver_sign
  prefixed_sign v ps l ls r rs = simp (number_sign_refl, prerelease_sign-append)

  -- The comparison is no order on all versions: of two that have the same numbers and the same identifiers up to
  -- one that is numeric in both, where the two identifiers parse to one double and are different texts (`01`
  -- and `1`), each comes out below the other.
  pub leading_zeros_below :
      (v : Semver) (ps : List (List ℕ)) (l : List ℕ) (ls : List (List ℕ)) (r : List ℕ)
      (rs : List (List ℕ))
      → l ≢ r
      → is_numeric l ≡ true
      → is_numeric r ≡ true
      → parse_int l ≡ parse_int r
      → (semver_sign gt
            (record v { prerelease = ps ++ l ∷ ls })
            (record v { prerelease = ps ++ r ∷ rs })
          ≡ below)
        × (semver_sign gt
              (record v { prerelease = ps ++ r ∷ rs })
              (record v { prerelease = ps ++ l ∷ ls })
            ≡ below)
  unfolding labels_sign label_sign
  leading_zeros_below v ps l ls r rs ne p q e = elim (Bool-cases (text_eq l r)) [
    | inl t ↦ absurd (ne (text_eq-eq l r t))
    | inr f ↦
        rw (prefixed_sign v ps l ls r rs, prefixed_sign v ps r rs l ls, f, text_eq_ne l r f, p, q)
          (ground arith, ground arith)
  ]
