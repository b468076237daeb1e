-- ===== src/Upgrade/Fetch/Verified.antt =====
-- internal/upgrade/fetch.go: what is known of the archive of a binary.
use omnistat.Prelude.{
  Bytes, bytes_eq, bytes_eq_iff, Option, none, some, ◌≡◌, refl, inl, inr, Bool-cases, Option-cases,
  arith,
}
use omnistat.Settle.{ok, Result-cases}
use omnistat.Upgrade.Http.{Body, ReadError, get}
use omnistat.Upgrade.Release.{Release}
use omnistat.Upgrade.Machine.{Machine}
use omnistat.Upgrade.Fetch.{archive_limit, check_sum, copied, download, fetch_binary, save}

module _ {S E : Type 0} (m : Machine S E) where
  -- The body of the archive: it came to its end, and has the release's hash.
  abbrev pub Whole : Release → Body (ReadError E) → Type 0
  Whole rel body = (body.failure ≡ none) × (m.sha256_hex body.content ≡ rel.sha256)

  check_sum-none :
      (rel : Release) (c : Bytes) → check_sum m rel c ≡ none → m.sha256_hex c ≡ rel.sha256
  unfolding check_sum
  check_sum-none rel c h = elim (Bool-cases (bytes_eq (m.sha256_hex c) rel.sha256)) [
    | inl e ↦ (bytes_eq_iff (m.sha256_hex c) rel.sha256).0 e
    | inr e ↦ absurd (ground (arith, e, h))
  ]

  copied-none : (w : Option E) (f : Option (ReadError E)) → copied m w f ≡ none → f ≡ none
  unfolding copied
  copied-none none none h = refl
  copied-none none (some e) h = cc
  copied-none (some e) f h = cc

  save-Whole :
      (rel : Release) (path : Bytes) (body : Body (ReadError E)) (s : S)
      → (save m rel path body s).0 ≡ none
      → Whole rel body
  unfolding save
  save-Whole rel path body s h =
      let (opened, s1) = m.create path s in
      let (written, s2) = m.write path body.content s1 in
      elim (Option-cases opened) [
        | inr (x, e) ↦ absurd (ground (arith, e, h))
        | inl e ↦ elim (Option-cases (copied m written body.failure)) [
          | inr (x, c) ↦ absurd (ground (arith, e, c, h))
          | inl c ↦ (
            copied-none written body.failure c,
            check_sum-none rel body.content (ground (arith, e, c, h)),
          )
        ]
      ]

  download-Whole :
      (rel : Release) (path : Bytes) (s : S)
      → (download m rel path s).0 ≡ none
      → (body : Body (ReadError E)) × ((get m.fetch rel.archive_url archive_limit s).0 ≡ ok body)
        × Whole rel body
  unfolding download
  download-Whole rel path s h =
      let (r, s') = get m.fetch rel.archive_url archive_limit s in
      elim (Result-cases r) [
        | inl (x, e) ↦ absurd (ground (arith, e, h))
        | inr (body, e) ↦ (body, e, save-Whole rel path body s' (ground (arith, e, h)))
      ]

  -- A binary is unpacked only from an archive that was downloaded to its end, within the limit,
  -- and whose SHA-256 is the release's.
  pub fetch_binary-Whole :
      (rel : Release) (dir goos bin : Bytes) (s : S)
      → (fetch_binary m rel dir goos s).0 ≡ ok bin
      → (body : Body (ReadError E)) × ((get m.fetch rel.archive_url archive_limit s).0 ≡ ok body)
        × Whole rel body
  unfolding fetch_binary
  fetch_binary-Whole rel dir goos bin s h =
      let archive = m.join dir rel.asset in
      elim (Option-cases (download m rel archive s).0) [
        | inr (x, e) ↦ absurd (ground (arith, e, h))
        | inl e ↦ download-Whole rel archive s e
      ]
