-- ===== src/Agent/Tunnel/Exact.antt =====
-- Exactly which roots the policy lets in.
use mathlib.Core.List.{Memᴰ}
use pcos.Prelude.{
  ◌≡◌, ◌≢◌, ◌↔◌, ◌⊎◌, inl, inr, refl, sym, ◌∙◌, arith, List, [], ◌∷◌, ◌++◌, append-nil, Bool, true,
  false, not, ◌||◌, any, Text, text_eq, text_eq_iff, starts_with, starts_with-append,
  starts_with_split, Bool-cases,
}
use pcos.Prelude.Members.{any_of_mem}
use pcos.Agent.Tunnel.{clean, matches_allowed, matches_excluded, is_default, is_forbidden}

-- A text goes on from another.
abbrev pub GoesOn : Text → Text → Type 0
GoesOn t front = (rest : Text) × (t ≡ front ++ rest)

GoesOn-iff : (t front : Text) → ((text_eq t front || starts_with t front) ≡ true) ↔ GoesOn t front
GoesOn-iff t front = (
  λ h. elim (Bool-cases (text_eq t front)) [
    | inl e ↦ ([], (text_eq_iff t front).0 e ∙ sym (append-nil front))
    | inr e ↦ starts_with_split t front (rw e at h)
  ],
  λ (rest, e). elim (Bool-cases (text_eq t front)) [
    | inl f ↦ rw f refl
    | inr f ↦ rw f (rw e (starts_with-append front rest))
  ],
)

any_iff :
    (p : Text → Bool) (ts : List Text) → (any p ts ≡ true) ↔ ((t : Text) × Memᴰ t ts × (p t ≡ true))
any_iff p [] = ((λ h. absurd (ground arith)), (λ (t, m, h). elim m [ ]))
any_iff p (t ∷ ts) = (
  λ h. elim (Bool-cases (p t)) [
    | inl e ↦ (t, Memᴰ.head refl, e)
    | inr e ↦ let (u, m, g) = (any_iff p ts).0 (rw (e, any) at h) in (u, Memᴰ.tail m, g)
  ],
  λ (u, m, g). any_of_mem p m g,
)

or_left : (a b c : Bool) → (a || b) ≡ true → (a || b || c) ≡ true
or_left a b c h = ground arith

or_right : (a b c : Bool) → c ≡ true → (a || b || c) ≡ true
or_right a b c h = ground arith

true_not_false : true ≢ false
true_not_false h = ground arith

not_true : (b : Bool) → b ≢ true → b ≡ false
not_true true h = absurd (h refl)
not_true false h = refl

lets_in_iff :
    (a d x : Bool) → ((not (a || d) || x) ≡ false) ↔ (((d ≡ true) ⊎ (a ≡ true)) × (x ≡ false))
lets_in_iff true true true = ((λ h. absurd (true_not_false h)), (λ h. h.1))
lets_in_iff true true false = ((λ h. (inl refl, refl)), (λ h. refl))
lets_in_iff true false true = ((λ h. absurd (true_not_false h)), (λ h. h.1))
lets_in_iff true false false = ((λ h. (inr refl, refl)), (λ h. refl))
lets_in_iff false true true = ((λ h. absurd (true_not_false h)), (λ h. h.1))
lets_in_iff false true false = ((λ h. (inl refl, refl)), (λ h. refl))
lets_in_iff false false x =
    ((λ h. absurd (true_not_false h)), (λ h. elim h.0 [ inl e ↦ sym e | inr e ↦ sym e ]))

module _ (to_lowercase : Text → Text) where
  -- Some entry matches; an entry of the allowlist also where it goes on from the root.
  abbrev pub IsAllowed : Text → List Text → Type 0
  IsAllowed root allowed =
      (al : Text) × Memᴰ al allowed
      × (GoesOn root (clean to_lowercase al) ⊎ GoesOn (clean to_lowercase al) root)

  abbrev pub IsExcluded : Text → List Text → Type 0
  IsExcluded root excluded = (ex : Text) × Memᴰ ex excluded × GoesOn root (clean to_lowercase ex)

  allowed_iff :
      (root al : Text)
      → (matches_allowed to_lowercase root al ≡ true)
        ↔ (GoesOn root (clean to_lowercase al) ⊎ GoesOn (clean to_lowercase al) root)
  allowed_iff root al = (
    λ h. elim (Bool-cases (text_eq root (clean to_lowercase al))) [
      | inl e ↦ inl ((GoesOn-iff root (clean to_lowercase al)).0 (rw e refl))
      | inr e ↦ elim (Bool-cases (starts_with root (clean to_lowercase al))) [
        | inl f ↦ inl ((GoesOn-iff root (clean to_lowercase al)).0 (rw (e, f) refl))
        | inr f ↦ inr (starts_with_split (clean to_lowercase al) root (rw (e, f) at h))
      ]
    ],
    λ h. elim h [
      | inl below ↦
          let b = (GoesOn-iff root (clean to_lowercase al)).1 below in
          or_left (text_eq root (clean to_lowercase al)) _ _ b
      | inr (rest, e) ↦
          let s : starts_with (clean to_lowercase al) root ≡ true =
            rw e (starts_with-append root rest) in
          or_right (text_eq root (clean to_lowercase al)) _ _ s
    ],
  )

  any-IsAllowed_iff :
      (root : Text) (allowed : List Text)
      → (any (matches_allowed to_lowercase root) allowed ≡ true) ↔ IsAllowed root allowed
  any-IsAllowed_iff root allowed =
      let each = any_iff (matches_allowed to_lowercase root) allowed in
      (
        λ h. let (al, m, g) = each.0 h in (al, m, (allowed_iff root al).0 g),
        λ (al, m, g). each.1 (al, m, (allowed_iff root al).1 g),
      )

  any-IsExcluded_iff :
      (root : Text) (excluded : List Text)
      → (any (matches_excluded to_lowercase root) excluded ≡ true) ↔ IsExcluded root excluded
  any-IsExcluded_iff root excluded =
      let each = any_iff (matches_excluded to_lowercase root) excluded in
      (
        λ h. let (ex, m, g) = each.0 h in (ex, m, (GoesOn-iff root (clean to_lowercase ex)).0 g),
        λ (ex, m, g). each.1 (ex, m, (GoesOn-iff root (clean to_lowercase ex)).1 g),
      )

  -- The three tests of the policy.
  is_forbidden-tests :
      (default_root root : Text) (allowed excluded : List Text)
      → is_forbidden to_lowercase default_root root allowed excluded ≡ (
          not (
            any (matches_allowed to_lowercase (clean to_lowercase root)) allowed
            || is_default to_lowercase (clean to_lowercase root) default_root)
          || any (matches_excluded to_lowercase (clean to_lowercase root)) excluded)
  unfolding is_forbidden
  is_forbidden-tests default_root root [] excluded =
      elim (Bool-cases (is_default to_lowercase (clean to_lowercase root) default_root)) [
        | inl e ↦ rw e refl
        | inr e ↦ rw e refl
      ]
  is_forbidden-tests default_root root (al ∷ allowed) excluded = refl

  -- A root is let in exactly where its cleaned text goes on from that of the default root or of an entry of the
  -- allowlist, or that of an entry goes on from it, and it goes on from that of no excluded entry.
  -- Without an allowlist only what goes on from the default root is let in.
  pub is_forbidden_lem :
      (default_root root : Text) (allowed excluded : List Text)
      → (is_forbidden to_lowercase default_root root allowed excluded ≡ false) ↔ (
          (GoesOn (clean to_lowercase root) (clean to_lowercase default_root)
            ⊎ IsAllowed (clean to_lowercase root) allowed)
          × ¬ IsExcluded (clean to_lowercase root) excluded)
  is_forbidden_lem default_root root allowed excluded =
      let text = clean to_lowercase root in
      let here = GoesOn-iff text (clean to_lowercase default_root) in
      let some_allowed = any-IsAllowed_iff text allowed in
      let some_excluded = any-IsExcluded_iff text excluded in
      let lets =
        lets_in_iff (any (matches_allowed to_lowercase text) allowed)
          (is_default to_lowercase text default_root)
          (any (matches_excluded to_lowercase text) excluded) in
      rw (is_forbidden-tests default_root root allowed excluded) (
        λ h.
            let (inside, out) = lets.0 h in
            (
              elim inside [ inl d ↦ inl (here.0 d) | inr a ↦ inr (some_allowed.0 a) ],
              λ x. true_not_false (sym (some_excluded.1 x) ∙ out),
            ),
        λ (inside, out). lets.1 (
          elim inside [ inl d ↦ inl (here.1 d) | inr a ↦ inr (some_allowed.1 a) ],
          not_true _ (λ e. out (some_excluded.0 e)),
        ),
      )
