-- ===== src/Portfolio/Ledger/Matches.antt =====
-- The records that match an economic identity and its aliases, after they were booked
-- (`Ledger.apply` of src/quantdesk/portfolio/ledger.py).
use rs_quant.Base.{
  ℕ, ◌≡◌, refl, sym, ap, ◌∙◌, Bool, true, false, not, ◌||◌, List, [], ◌∷◌, ◌++◌, map, arith, All,
  keep, any, inl, inr, Bool-cases, ==_refl, All-map,
}
use mathlib.Core.Path.{subst}
use rs_quant.Core.Types.{Ident}
use rs_quant.Portfolio.State.{EconomicIdentity, AppliedIdentity}
use rs_quant.Portfolio.Ledger.Facts.{same_key}
use rs_quant.Portfolio.Ledger.Evidence.{economic_key}
use rs_quant.Portfolio.Ledger.Known.{names, matches_any, is_recorded, applied, all_agree}

module _ {A : Type 0} (p : A → Bool) where
  pub any-append : (xs ys : List A) → any p (xs ++ ys) ≡ (any p xs || any p ys)
  any-append [] ys = refl
  any-append (x ∷ xs) ys = ground (arith, any-append xs ys)

  pub keep-append : (xs ys : List A) → keep p (xs ++ ys) ≡ keep p xs ++ keep p ys
  keep-append [] ys = refl
  keep-append (x ∷ xs) ys = elim (Bool-cases (p x)) [
    | inl yes' ↦ rw yes' (ap (λ zs. x ∷ zs) (keep-append xs ys))
    | inr no' ↦ rw no' (keep-append xs ys)
  ]

  pub keep_each : (xs : List A) → All (λ x. p x ≡ true) xs → keep p xs ≡ xs
  keep_each [] h = refl
  keep_each (x ∷ xs) h = rw h.0 (ap (λ zs. x ∷ zs) (keep_each xs h.1))

  pub keep_none : (xs : List A) → All (λ x. p x ≡ false) xs → keep p xs ≡ []
  keep_none [] h = refl
  keep_none (x ∷ xs) h = rw h.0 (keep_none xs h.1)

  pub All-keep : (P : A → Type 0) (xs : List A) → All P xs → All P (keep p xs)
  All-keep P [] h = tt
  All-keep P (x ∷ xs) h = elim (Bool-cases (p x)) [
    | inl yes' ↦ rw yes' (h.0, All-keep P xs h.1)
    | inr no' ↦ rw no' (All-keep P xs h.1)
  ]

same_key_refl : (xs : List ℕ) → same_key xs xs ≡ true
same_key_refl [] = refl
same_key_refl (x ∷ xs) = rw (==_refl x) (same_key_refl xs)

names_self : (i : EconomicIdentity) → names i i ≡ true
names_self i = same_key_refl (economic_key i)

named_later :
    (x : EconomicIdentity) (xs ys : List EconomicIdentity)
    → All (λ i. any (names i) xs ≡ true) ys
    → All (λ i. any (names i) (x ∷ xs) ≡ true) ys
named_later x xs ys h = All-map (λ i e. ground (arith, e)) ys h

each_named : (ids : List EconomicIdentity) → All (λ i. any (names i) ids ≡ true) ids
each_named [] = tt
each_named (i ∷ ids) = (rw (names_self i) refl, named_later i ids ids (each_named ids))

module _ (fingerprint tid : Ident) where
  -- New records for identities that have none.
  abbrev pub additions : List AppliedIdentity → List EconomicIdentity → List EconomicIdentity
  additions rs ids = keep (λ i. not (is_recorded rs i)) ids

  abbrev pub extended : List AppliedIdentity → List EconomicIdentity → List AppliedIdentity
  extended rs ids = rs ++ map (applied fingerprint tid) (additions rs ids)

  applied-All :
      (ids xs : List EconomicIdentity)
      → All (λ i. any (names i) ids ≡ true) xs
      → All (λ r. matches_any ids r ≡ true) (map (applied fingerprint tid) xs)
  applied-All ids [] h = tt
  applied-All ids (x ∷ xs) h = (h.0, applied-All ids xs h.1)

  -- All of them match.
  pub keep-extended :
      (stored : List AppliedIdentity) (ids : List EconomicIdentity)
      → (let rs = keep (matches_any ids) stored in
          keep (matches_any ids) (stored ++ map (applied fingerprint tid) (additions rs ids))
          ≡ extended rs ids)
  keep-extended stored ids =
      let rs = keep (matches_any ids) stored in
      let new = map (applied fingerprint tid) (additions rs ids) in
      keep-append (matches_any ids) stored new
      ∙ ap (λ zs. rs ++ zs)
          (keep_each (matches_any ids) new (
            applied-All ids (additions rs ids) (
              All-keep (λ i. not (is_recorded rs i)) (λ i. any (names i) ids ≡ true) ids
                (each_named ids))))

  recorded_more :
      (rs zs : List AppliedIdentity) (j : EconomicIdentity) (ids : List EconomicIdentity)
      → All (λ i. is_recorded (rs ++ zs) i ≡ true) ids
      → All (λ i. is_recorded (rs ++ (applied fingerprint tid j ∷ zs)) i ≡ true) ids
  recorded_more rs zs j ids h =
      All-map
        (λ i e. ground (
          arith,
          any-append (λ r. names r.identity i) rs zs,
          any-append (λ r. names r.identity i) rs (applied fingerprint tid j ∷ zs),
          e,
        ))
        ids h

  -- Then every identity is recorded.
  pub each_recorded :
      (rs : List AppliedIdentity) (ids : List EconomicIdentity)
      → All (λ i. is_recorded (extended rs ids) i ≡ true) ids
  each_recorded rs [] = tt
  each_recorded rs (i ∷ ids) =
      let zs = map (applied fingerprint tid) (additions rs ids) in
      let Good : List AppliedIdentity → Type 0 =
        λ R. (is_recorded R i ≡ true) × All (λ j. is_recorded R j ≡ true) ids in
      elim (Bool-cases (is_recorded rs i)) [
        | inl yes' ↦
            let same : extended rs (i ∷ ids) ≡ rs ++ zs = rw yes' refl in
            subst Good (sym same)
              (any-append (λ r. names r.identity i) rs zs ∙ rw yes' refl, each_recorded rs ids)
        | inr no' ↦
            let same : extended rs (i ∷ ids) ≡ rs ++ (applied fingerprint tid i ∷ zs) =
              rw no' refl in
            subst Good (sym same) (
              any-append (λ r. names r.identity i) rs (applied fingerprint tid i ∷ zs)
                  ∙ rw no' (rw (names_self i) refl),
              recorded_more rs zs i ids (each_recorded rs ids),
            )
      ]

  applied-agree :
      (xs : List EconomicIdentity)
      → all_agree fingerprint tid (map (applied fingerprint tid) xs) ≡ true
  applied-agree [] = refl
  applied-agree (x ∷ xs) = ground (arith, applied-agree xs)

  agree-append :
      (rs zs : List AppliedIdentity)
      → all_agree fingerprint tid rs ≡ true
      → all_agree fingerprint tid zs ≡ true
      → all_agree fingerprint tid (rs ++ zs) ≡ true
  agree-append [] zs h k = k
  agree-append (r ∷ rs) zs h k = ground (arith, agree-append rs zs)

  pub extended-agree :
      (rs : List AppliedIdentity) (ids : List EconomicIdentity)
      → all_agree fingerprint tid rs ≡ true
      → all_agree fingerprint tid (extended rs ids) ≡ true
  extended-agree rs ids h =
      agree-append rs (map (applied fingerprint tid) (additions rs ids)) h
        (applied-agree (additions rs ids))
