-- ===== src/Updater/Semver/Labels.antt =====
-- packages/updater/src/manifest.ts: the pre-release identifiers of a version that parses are labels.
use forgetbase.Prelude.{
  subst, ◌≡◌, refl, inl, inr, ℕ, Bool, true, some, List, [], ◌∷◌, all, span, nat_eq, if◌then◌else◌,
  if-eq-some, Bool-cases, Option-cases, ok, ok_equal, arith,
}
use forgetbase.Updater.Semver.{
  Semver, is_label, is_empty, split_dot, number_at, expect, build_ok, finish, suffix, match_semver,
  parse_semver,
}
use forgetbase.Updater.Semver.Order.{AreLabels}

all-span : (p : ℕ → Bool) (cs : List ℕ) → all p (span p cs).0 ≡ true
all-span p [] = refl
all-span p (c ∷ cs) = elim (Bool-cases (p c)) [
  | inl h ↦ let rest = all-span p cs in rw h (ground (arith, h, rest))
  | inr h ↦ rw h refl
]

split_dot-AreLabels : (cs : List ℕ) → all is_label cs ≡ true → AreLabels (split_dot cs)
unfolding split_dot
split_dot-AreLabels [] h = (refl, tt)
split_dot-AreLabels (c ∷ cs) h =
    by_parts (split_dot cs) (split_dot-AreLabels cs (ground (arith, h)))
  where
    by_parts :
        (parts : List (List ℕ))
        → AreLabels parts
        → AreLabels (elim parts [
          | [] ↦ (c ∷ []) ∷ []
          | part ∷ rest ↦ if nat_eq c b'.' then [] ∷ part ∷ rest else (c ∷ part) ∷ rest
        ])
    by_parts [] a = (ground (arith, h), tt)
    by_parts (part ∷ rest) a = elim (Bool-cases (nat_eq c b'.')) [
      | inl dot ↦ rw dot (refl, a)
      | inr more ↦ rw more (let own = a.0 in ground (arith, h, own), a.1)
    ]

finish-prerelease :
    (allowed : Bool) (x y z : ℕ) (labels : List (List ℕ)) (rest : List ℕ) (v : Semver)
    → finish allowed x y z labels rest ≡ some v
    → AreLabels labels
    → AreLabels v.prerelease
finish-prerelease allowed x y z labels rest v h a =
    subst (λ (w : Semver). AreLabels w.prerelease) (if-eq-some (build_ok allowed rest) _ h).1 a

suffix-AreLabels :
    (allowed : Bool) (x y z : ℕ) (cs : List ℕ) (v : Semver)
    → suffix allowed x y z cs ≡ some v
    → AreLabels v.prerelease
suffix-AreLabels allowed x y z [] v h = finish-prerelease allowed x y z [] [] v h tt
suffix-AreLabels allowed x y z (c ∷ cs) v h = elim (Bool-cases (nat_eq c b'-')) [
  | inr plain ↦ finish-prerelease allowed x y z [] (c ∷ cs) v (rw plain at h) tt
  | inl dash ↦ elim (Bool-cases (is_empty (span is_label cs).0)) [
    | inl bare ↦ absurd (ground (arith, dash, bare, h))
    | inr filled ↦
        finish-prerelease allowed x y z (split_dot (span is_label cs).0) (span is_label cs).1 v
          (rw (dash, filled) at h) (split_dot-AreLabels (span is_label cs).0 (all-span is_label cs))
  ]
]

match_semver-AreLabels :
    (allowed : Bool) (cs : List ℕ) (v : Semver)
    → match_semver allowed cs ≡ some v
    → AreLabels v.prerelease
unfolding match_semver
match_semver-AreLabels allowed cs v h = elim (Option-cases (number_at cs)) [
  | inl n ↦ absurd (ground (arith, n, h))
  | inr ((x, r), e1) ↦ elim (Option-cases (expect b'.' r)) [
    | inl n ↦ absurd (ground (arith, e1, n, h))
    | inr (s, e2) ↦ elim (Option-cases (number_at s)) [
      | inl n ↦ absurd (ground (arith, e1, e2, n, h))
      | inr ((y, t), e3) ↦ elim (Option-cases (expect b'.' t)) [
        | inl n ↦ absurd (ground (arith, e1, e2, e3, n, h))
        | inr (u, e4) ↦ elim (Option-cases (number_at u)) [
          | inl n ↦ absurd (ground (arith, e1, e2, e3, e4, n, h))
          | inr ((z, w), e5) ↦
              suffix-AreLabels allowed x y z w v (rw (match_semver, e1, e2, e3, e4, e5) at h)
        ]
      ]
    ]
  ]
]

-- The order of the versions applies to those that parse.
pub parse_semver-AreLabels :
    (cs : List ℕ) (v : Semver) → parse_semver cs ≡ ok v → AreLabels v.prerelease
unfolding parse_semver
parse_semver-AreLabels cs v h = elim (Option-cases (match_semver true cs)) [
  | inl refused ↦ absurd (ground (arith, refused, h))
  | inr (w, e) ↦
      subst (λ (x : Semver). AreLabels x.prerelease) (ok_equal (rw (parse_semver, e) at h))
        (match_semver-AreLabels true cs w e)
]
