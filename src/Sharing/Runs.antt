-- ===== src/Sharing/Runs.antt =====
-- Requests for downloads one after the other, and requests that overlap.
use native.Mathlib.Nat.{add-zero}
use pcos.Prelude.{
  ℕ, zero, suc, ◌+◌, ◌≡◌, refl, sym, List, [], ◌∷◌, Option, some, Bool, arith, any, All, Text, ◌==◌,
  if◌then◌else◌, Bool-cases, inl, inr,
}
use pcos.Common.Result.{AppResult, ok, err, ◌>>=◌}
use pcos.Sharing.{
  ShareLink, Shares, find_link, update_link, is_full, counted, count_download, is_download,
}
use pcos.Sharing.Handlers.{Download, admit, download_shared}
use pcos.Sharing.Limit.{
  IsWithin, HasUniqueIds, link_count, counted-HasUniqueIds, counted-IsWithin, link_count-counted,
  admit-found, find_link-counted, HasRoom, is_full-HasRoom, counted-HasRoom,
}

pub record IsValid (s : Shares) : Type 0 where
  pub unique : HasUniqueIds s.links
  pub within : All IsWithin s.links

module _ (verify_password : Text → Text → Option Bool) (read_file : Text → Option (List ℕ)) where
  -- The number of downloads through a link that a result stands for.
  abbrev pub successes : ℕ → AppResult Download → ℕ
  successes id (ok d) = if d.link.id == id then 1 else 0
  successes id (err e) = 0

  abbrev pub Counts : Shares → AppResult Download × Shares → Type 0
  Counts s (r, s') =
      IsValid s' × ((id : ℕ) → link_count id s'.links ≡ link_count id s.links + successes id r)

  count_download-Counts :
      (now : ℕ) (token : Text) (query header : Option Text) (s : Shares) (d : Download)
      → admit verify_password read_file now token query header s ≡ ok d
      → IsValid s
      → let (r, s') = count_download d.link.id s in Counts s (r >>= λ _. ok d, s')
  unfolding count_download
  count_download-Counts now token query header s d h v =
      let (found, room) = admit-found verify_password read_file now token query header s d h in
      elim (Bool-cases (any (is_full d.link.id) s.links)) [
        | inl e ↦ rw e (v, λ id. sym (add-zero (link_count id s.links)))
        | inr e ↦ rw e (
          record {
            unique = counted-HasUniqueIds d.link.id s.links v.unique;
            within =
                counted-IsWithin (is_download token) s.links d.link found room v.unique v.within;
          },
          λ id. link_count-counted id d.link.id (is_download token) s.links d.link found refl,
        )
      ]

  download_shared-Counts :
      (now : ℕ) (token : Text) (query header : Option Text) (s : Shares)
      → IsValid s
      → Counts s (download_shared verify_password read_file now token query header s)
  unfolding download_shared
  download_shared-Counts now token query header s v =
      go (admit verify_password read_file now token query header s) refl
    where
      go :
          (o : AppResult Download)
          → admit verify_password read_file now token query header s ≡ o
          → Counts s (elim o [
            | err e ↦ (err e, s)
            | ok d ↦ let (r, s') = count_download d.link.id s in (r >>= λ _. ok d, s')
          ])
      go (err e) h = (v, λ id. sym (add-zero (link_count id s.links)))
      go (ok d) h = count_download-Counts now token query header s d h v

  pub record Request : Type 0 where
    pub now : ℕ
    pub token : Text
    pub query : Option Text
    pub header : Option Text

  -- Requests that are served one after the other: the results, and the state after them.
  abbrev pub serve : List Request → Shares → List (AppResult Download) × Shares
  serve [] s = ([], s)
  serve (q ∷ qs) s =
      let (r, s') = download_shared verify_password read_file q.now q.token q.query q.header s in
      let (rs, s'') = serve qs s' in (r ∷ rs, s'')

  abbrev pub total : ℕ → List (AppResult Download) → ℕ
  total id [] = 0
  total id (r ∷ rs) = successes id r + total id rs

  -- A limit holds of requests that are served one after the other. Where the links have different
  -- identifiers and none is over its limit, after any requests to `download_shared` each link's count
  -- has grown by the number of downloads that were answered through it, and none is over its limit.
  pub serve_lem :
      (qs : List Request) (s : Shares)
      → IsValid s
      → let (rs, s') = serve qs s in
        All IsWithin s'.links
        × ((id : ℕ) → link_count id s'.links ≡ link_count id s.links + total id rs)
  serve_lem [] s v = (v.within, λ id. sym (add-zero (link_count id s.links)))
  serve_lem (q ∷ qs) s v =
      let (v', one) = download_shared-Counts q.now q.token q.query q.header s v in
      let (within, more) = serve_lem qs _ v' in
      (within, λ id. let a = one id in let b = more id in omega (arith, a, b))

  -- Requests that overlap: what is served, and the identifiers of the links of the downloads that are
  -- admitted and not yet counted.
  pub record Running : Type 0 where
    pub shares : Shares
    pub admitted : List ℕ

  pub data Step : Running → Running → Type 0 where
    admits :
        (now : ℕ) (token : Text) (query header : Option Text) (s : Shares) (ids : List ℕ)
        (d : Download)
        → admit verify_password read_file now token query header s ≡ ok d
        → Step
            (record { shares = s; admitted = ids })
            (record { shares = s; admitted = d.link.id ∷ ids })
    counts :
        (id : ℕ) (ids : List ℕ) (s s' : Shares)
        → count_download id s ≡ (ok tt, s')
        → Step (record { shares = s; admitted = id ∷ ids }) (record { shares = s'; admitted = ids })

  pub data Steps : Running → Running → Type 0 where
    done : (a : Running) → Steps a a
    step : {a b c : Running} → Step a b → Steps b c → Steps a c

  -- `n` admissions, the last one first.
  abbrev pub repeated : ℕ → ℕ → List ℕ → List ℕ
  repeated id zero ids = ids
  repeated id (suc n) ids = id ∷ repeated id n ids

  Steps-append : {a b c : Running} → Steps a b → Steps b c → Steps a c
  Steps-append (done a) q = q
  Steps-append (step x p) q = step x (Steps-append p q)

  admits_many :
      (n now : ℕ) (token : Text) (query header : Option Text) (s : Shares) (d : Download)
      → admit verify_password read_file now token query header s ≡ ok d
      → Steps
          (record { shares = s; admitted = [] })
          (record { shares = s; admitted = repeated d.link.id n [] })
  admits_many zero now token query header s d h = done _
  admits_many (suc n) now token query header s d h =
      Steps-append (admits_many n now token query header s d h)
        (step (admits now token query header s (repeated d.link.id n []) d h) (done _))

  counts_many :
      (n id : ℕ) (token : Text) (s : Shares) (l : ShareLink)
      → find_link (is_download token) s.links ≡ some l
      → l.id ≡ id
      → All (HasRoom n) s.links
      → (s' : Shares) × Steps
          (record { shares = s; admitted = repeated id n [] })
          (record { shares = s'; admitted = [] })
        × (link_count id s'.links ≡ link_count id s.links + n)
  unfolding count_download
  counts_many zero id token s l found e room = (s, done _, sym (add-zero (link_count id s.links)))
  counts_many (suc n) id token s l found e room =
      let s1 : Shares = record s { links = update_link id counted s.links } in
      let (s', steps, count) =
        counts_many n id token s1 (counted l) (find_link-counted token s.links l id found e) e
          (counted-HasRoom id n s.links room) in
      let one = link_count-counted id id (is_download token) s.links l found e in
      let self : ◌≡◌ {A = ℕ} (if id == id then 1 else 0) 1 = ground arith in
      (
        s',
        step (counts id (repeated id n []) s s1 (rw (is_full-HasRoom id n s.links room) refl))
            steps,
        omega (arith, one, count, self),
      )

  -- A limit does not hold of requests that overlap. Where a request is admitted, any number of requests
  -- can be admitted and counted so that the count of the link grows by their number, whatever the
  -- link's limit, as long as no count leaves the 32-bit integers.
  pub overlap_exceeds :
      (n now : ℕ) (token : Text) (query header : Option Text) (s : Shares) (d : Download)
      → admit verify_password read_file now token query header s ≡ ok d
      → All (HasRoom n) s.links
      → (s' : Shares) × Steps
          (record { shares = s; admitted = [] })
          (record { shares = s'; admitted = [] })
        × (link_count d.link.id s'.links ≡ link_count d.link.id s.links + n)
  overlap_exceeds n now token query header s d h room =
      let found = (admit-found verify_password read_file now token query header s d h).0 in
      let (s', steps, count) = counts_many n d.link.id token s d.link found refl room in
      (s', Steps-append (admits_many n now token query header s d h) steps, count)
