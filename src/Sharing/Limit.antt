-- ===== src/Sharing/Limit.antt =====
-- The limit on downloads, of requests one after the other and of requests that overlap.
use mathlib.Core.Path.{subst}
use pcos.Prelude.{
  ℕ, suc, ◌+◌, ◌-◌, ◌^◌, ◌≤◌, ◌<◌, ◌≡◌, ◌≢◌, refl, sym, ap, ◌∙◌, List, [], ◌∷◌, Option, none, some,
  Bool, true, false, arith, any, any_skip, All, Text, ◌==◌, ==_iff, leb, if◌then◌else◌, ℤ, pos,
  negsuc, Bool-cases, inl, inr,
}
use pcos.Common.Error.{AppError, not_found, forbidden}
use pcos.Common.Result.{AppResult, ok, err, ◌>>=◌, ◌>>◌, reject_if, bind_ok, ok_injective}
use pcos.Sharing.{
  ShareLink, SharedFile, Shares, find_link, update_link, is_exhausted, is_full, counted,
  is_download, is_expired, ok_or,
}
use pcos.Sharing.Handlers.{Download, answer, shared_contents, admitted_link, admit}

-- Within the limit; a link with a negative limit was never downloaded.
abbrev pub WithinLimit : Option ℤ → ℕ → Type 0
WithinLimit none count = Unit
WithinLimit (some (pos max)) count = count ≤ max
WithinLimit (some (negsuc max)) count = count ≡ 0

abbrev pub IsWithin : ShareLink → Type 0
IsWithin l = WithinLimit l.max_downloads l.download_count

abbrev pub HasOtherId : ℕ → ShareLink → Type 0
HasOtherId id l = l.id ≢ id

unfoldable pub HasUniqueIds : List ShareLink → Type 0
HasUniqueIds [] = Unit
HasUniqueIds (l ∷ ls) = All (HasOtherId l.id) ls × HasUniqueIds ls

-- The count of the link with an identifier.
abbrev pub link_count : ℕ → List ShareLink → ℕ
link_count id [] = 0
link_count id (l ∷ ls) = if l.id == id then l.download_count else link_count id ls

WithinLimit-suc :
    (max : Option ℤ) (count : ℕ) → is_exhausted max count ≡ false → WithinLimit max (suc count)
WithinLimit-suc none count h = tt
WithinLimit-suc (some (pos max)) count h = ground arith
WithinLimit-suc (some (negsuc max)) count h = ground arith

update_link-HasOtherId :
    (id : ℕ) (f : ShareLink → ShareLink) (ls : List ShareLink)
    → All (HasOtherId id) ls
    → update_link id f ls ≡ ls
unfolding update_link
update_link-HasOtherId id f [] h = refl
update_link-HasOtherId id f (l ∷ ls) h = ground (arith, update_link-HasOtherId id f ls h.1)

find_link-All {κ} :
    (P : ShareLink → Type κ) (p : ShareLink → Bool) (ls : List ShareLink) (l : ShareLink)
    → find_link p ls ≡ some l
    → All P ls
    → P l
unfolding find_link
find_link-All P p [] l h a = absurd (ground arith)
find_link-All P p (k ∷ ls) l h a = elim (Bool-cases (p k)) [
  | inl e ↦ let h' = rw e at h in subst P (let same : k ≡ l = cc in same) a.0
  | inr e ↦ find_link-All P p ls l (rw e at h) a.1
]

counted-HasOtherId :
    (i id : ℕ) (ls : List ShareLink)
    → All (HasOtherId i) ls
    → All (HasOtherId i) (update_link id counted ls)
unfolding update_link
counted-HasOtherId i id [] h = tt
counted-HasOtherId i id (l ∷ ls) h = elim (Bool-cases (l.id == id)) [
  | inl e ↦ rw e (h.0, counted-HasOtherId i id ls h.1)
  | inr e ↦ rw e (h.0, counted-HasOtherId i id ls h.1)
]

pub counted-HasUniqueIds :
    (id : ℕ) (ls : List ShareLink) → HasUniqueIds ls → HasUniqueIds (update_link id counted ls)
unfolding update_link HasUniqueIds
counted-HasUniqueIds id [] h = tt
counted-HasUniqueIds id (l ∷ ls) h = elim (Bool-cases (l.id == id)) [
  | inl e ↦ rw e (counted-HasOtherId l.id id ls h.0, counted-HasUniqueIds id ls h.1)
  | inr e ↦ rw e (counted-HasOtherId l.id id ls h.0, counted-HasUniqueIds id ls h.1)
]

link_count_other :
    (i id : ℕ) (ls : List ShareLink)
    → id ≢ i
    → link_count i (update_link id counted ls) ≡ link_count i ls
unfolding update_link
link_count_other i id [] h = refl
link_count_other i id (k ∷ ls) h = elim (Bool-cases (k.id == id)) [
  | inl e ↦ rw e (ground (arith, link_count_other i id ls h))
  | inr e ↦ rw e (ground (arith, link_count_other i id ls h))
]

pub link_count-counted :
    (i id : ℕ) (p : ShareLink → Bool) (ls : List ShareLink) (l : ShareLink)
    → find_link p ls ≡ some l
    → l.id ≡ id
    → link_count i (update_link id counted ls) ≡ link_count i ls + (if id == i then 1 else 0)
unfolding find_link update_link
link_count-counted i id p [] l h e = absurd (ground arith)
link_count-counted i id p (k ∷ ls) l h e =
    let tail = link_count-counted i id p ls l in
    elim (Bool-cases (k.id == id)) [
      | inl q ↦ rw q (ground (arith, link_count_other i id ls))
      | inr q ↦
          let rest : p k ≡ false = elim (Bool-cases (p k)) [
            | inl e1 ↦ let h' = rw e1 at h in let same : k ≡ l = cc in absurd (ground arith)
            | inr e2 ↦ e2
          ] in
          rw q (ground (arith, link_count-counted i id p ls l (rw rest at h) e))
    ]

pub counted-IsWithin :
    (p : ShareLink → Bool) (ls : List ShareLink) (l : ShareLink)
    → find_link p ls ≡ some l
    → is_exhausted l.max_downloads l.download_count ≡ false
    → HasUniqueIds ls
    → All IsWithin ls
    → All IsWithin (update_link l.id counted ls)
unfolding find_link update_link HasUniqueIds
counted-IsWithin p [] l h room u a = tt
counted-IsWithin p (k ∷ ls) l h room u a = elim (Bool-cases (p k)) [
  | inl e ↦
      let h' = rw e at h in
      let same : k ≡ l = cc in
      subst
        (λ (x : ShareLink).
          All IsWithin ((if k.id == x.id then counted k else k) ∷ update_link x.id counted ls))
        same
        (rw ((==_iff k.id k.id).1 refl, update_link-HasOtherId k.id counted ls u.0)
          (
            WithinLimit-suc k.max_downloads k.download_count (
                subst (λ (x : ShareLink). is_exhausted x.max_downloads x.download_count ≡ false)
                  (sym same) room),
            a.1,
          ))
  | inr e ↦
      let h' = rw e at h in
      let other : l.id ≢ k.id = find_link-All (HasOtherId k.id) p ls l h' u.0 in
      let test : (k.id == l.id) ≡ false = ground arith in
      rw test (a.0, counted-IsWithin p ls l h' room u.1 a.1)
]

passed :
    (b c : Bool) (e e' : AppError) (l k : ShareLink)
    → (reject_if b e >> (reject_if c e' >> ok l)) ≡ ok k
    → (c ≡ false) × (l ≡ k)
passed true c e e' l k h = absurd (ground arith)
passed false true e e' l k h = absurd (ground arith)
passed false false e e' l k h = (refl, ok_injective h)

found_below :
    (now : ℕ) (o : Option ShareLink) (e e1 e2 : AppError) (k : ShareLink)
    → (ok_or e o >>= λ l.
        reject_if (is_expired now l.expires_at) e1
        >> (reject_if (is_exhausted l.max_downloads l.download_count) e2 >> ok l))
      ≡ ok k
    → (o ≡ some k) × (is_exhausted k.max_downloads k.download_count ≡ false)
found_below now none e e1 e2 k h = absurd (ground arith)
found_below now (some l) e e1 e2 k h =
    let (room, same) = passed _ _ e1 e2 l k h in
    (
      ap some same,
      subst (λ (x : ShareLink). is_exhausted x.max_downloads x.download_count ≡ false) same room,
    )

-- What `admit` has established when it succeeds.
module _ (verify_password : Text → Text → Option Bool) (read_file : Text → Option (List ℕ)) where
  answered :
      (o : AppResult (SharedFile × List ℕ)) (l : ShareLink) (d : Download)
      → (o >>= λ found. ok (answer verify_password read_file l found)) ≡ ok d
      → l ≡ d.link
  answered (err e) l d h = absurd (ground arith)
  answered (ok found) l d h = ap (λ (x : Download). x.link) (ok_injective h)

  pub admit-found :
      (now : ℕ) (token : Text) (query header : Option Text) (s : Shares) (d : Download)
      → admit verify_password read_file now token query header s ≡ ok d
      → (find_link (is_download token) s.links ≡ some d.link)
        × (is_exhausted d.link.max_downloads d.link.download_count ≡ false)
  unfolding admit admitted_link
  admit-found now token query header s d h =
      let (l, linked, rest) =
        bind_ok (admitted_link verify_password read_file now token s)
          (λ l. shared_contents verify_password read_file query header s l >>= λ found.
            ok (answer verify_password read_file l found))
          d h in
      let same = answered (shared_contents verify_password read_file query header s l) l d rest in
      found_below now (find_link (is_download token) s.links)
        (not_found "Share not found or no download permission") (forbidden "Share link expired")
        (forbidden "Download limit reached") d.link (linked ∙ ap ok same)

-- After it is counted a link is found where it was.
pub find_link-counted :
    (token : Text) (ls : List ShareLink) (l : ShareLink) (id : ℕ)
    → find_link (is_download token) ls ≡ some l
    → l.id ≡ id
    → find_link (is_download token) (update_link id counted ls) ≡ some (counted l)
unfolding find_link update_link
find_link-counted token [] l id h e = absurd (ground arith)
find_link-counted token (k ∷ ls) l id h e = elim (Bool-cases (is_download token k)) [
  | inl q ↦
      let h' = rw q at h in
      let same : k ≡ l = cc in
      let t : (k.id == id) ≡ true = (==_iff k.id id).1 (ap (λ (x : ShareLink). x.id) same ∙ e) in
      rw t (rw q (ap (λ x. some (counted x)) same))
  | inr q ↦
      let rest = find_link-counted token ls l id (rw q at h) e in
      elim (Bool-cases (k.id == id)) [ inl t ↦ rw t (rw q rest) | inr t ↦ rw t (rw q rest) ]
]

-- Room for some more downloads through each link before the database refuses.
abbrev pub HasRoom : ℕ → ShareLink → Type 0
HasRoom n l = l.download_count + n < 2 ^ 31

pub is_full-HasRoom :
    (id n : ℕ) (ls : List ShareLink) → All (HasRoom (suc n)) ls → any (is_full id) ls ≡ false
is_full-HasRoom id n [] h = refl
is_full-HasRoom id n (l ∷ ls) h =
    let room : leb (2 ^ 31 - 1) l.download_count ≡ false = ground (arith, h.0) in
    any_skip (is_full id) l ls (ground arith) ∙ is_full-HasRoom id n ls h.1

pub counted-HasRoom :
    (id n : ℕ) (ls : List ShareLink)
    → All (HasRoom (suc n)) ls
    → All (HasRoom n) (update_link id counted ls)
unfolding update_link
counted-HasRoom id n [] h = tt
counted-HasRoom id n (l ∷ ls) h = elim (Bool-cases (l.id == id)) [
  | inl e ↦ rw e (omega (arith, h.0), counted-HasRoom id n ls h.1)
  | inr e ↦ rw e (omega (arith, h.0), counted-HasRoom id n ls h.1)
]
