-- ===== src/Upgrade/Fetch/Quiet.antt =====
-- internal/upgrade/fetch.go and stage.go: what the steps of a download change.
use omnistat.Prelude.{
  ℕ, suc, Bool, Bytes, bytes_eq, codes, List, [], ◌∷◌, ◌++◌, none, some, ◌≡◌, refl, ◌∙◌, inl, inr,
  Bool-cases, Option-cases, take,
}
use omnistat.Settle.{Result, ok, err, Result-cases}
use omnistat.Upgrade.Http.{Body, ReadError, get}
use omnistat.Upgrade.Release.{Release, checksums_url, checksums_limit, resolve, resolve_pinned}
use omnistat.Upgrade.Version.{parse_version}
use omnistat.Upgrade.Machine.{Machine, Leaves, Entry, Archive}
use omnistat.Upgrade.Fetch.{
  archive_limit, binary_limit, binary_name, copied, download, extract, fetch_binary, find,
  remove_each, save, stage, stage_prefix, unpack, write_binary,
}

module _ {S E V : Type 0} (m : Machine S E) (view : S → V) (l : Leaves m view) where
  get-view : (url : Bytes) (limit : ℕ) (s : S) → view (get m.fetch url limit s).1 ≡ view s
  unfolding get
  get-view url limit s = elim (Result-cases (m.fetch url s).0) [
    | inl (x, e) ↦ rw (e, get) (l.fetch url s)
    | inr (r, e) ↦ rw (e, get) (l.fetch url s)
  ]

  save-view :
      (rel : Release) (path : Bytes) (body : Body (ReadError E)) (s : S)
      → view (save m rel path body s).1 ≡ view s
  unfolding save
  save-view rel path body s =
      let (opened, s1) = m.create path s in
      let here = l.create path s in
      let (written, s2) = m.write path body.content s1 in
      let there = l.write path body.content s1 ∙ here in
      elim (Option-cases opened) [
        | inr (x, e) ↦ rw (e, save) here
        | inl e ↦ elim (Option-cases (copied m written body.failure)) [
          | inr (x, c) ↦ rw (e, c, save) there
          | inl c ↦ rw (e, c, save) there
        ]
      ]

  download-view : (rel : Release) (path : Bytes) (s : S) → view (download m rel path s).1 ≡ view s
  unfolding download
  download-view rel path s =
      let (r, s') = get m.fetch rel.archive_url archive_limit s in
      let here = get-view rel.archive_url archive_limit s in
      elim (Result-cases r) [
        | inl (x, e) ↦ rw (e, download) here
        | inr (body, e) ↦ rw (e, download) (save-view rel path body s' ∙ here)
      ]

  write_binary-view : (dst : Bytes) (b : Body E) (s : S) → view (write_binary m dst b s).1 ≡ view s
  unfolding write_binary
  write_binary-view dst b s =
      let (opened, s1) = m.create dst s in
      let here = l.create dst s in
      let content = take (suc binary_limit) b.content in
      let there = l.write dst content s1 ∙ here in
      elim (Option-cases opened) [
        | inr (x, e) ↦ rw (e, write_binary) here
        | inl e ↦ elim (Option-cases (m.write dst content s1).0) [
          | inr (x, w) ↦ rw (e, w, write_binary) there
          | inl w ↦ rw (e, w, write_binary) there
        ]
      ]

  extract-view :
      (wanted : Entry E → Bool) (r : Result E (Archive E)) (dst : Bytes) (s : S)
      → view (extract m wanted r dst s).1 ≡ view s
  unfolding extract
  extract-view wanted (err x) dst s = refl
  extract-view wanted (ok a) dst s = elim (Option-cases (find m wanted a.entries)) [
    | inl n ↦ rw (n, extract) refl
    | inr (x, f) ↦ elim (Option-cases x.open_error) [
      | inr (y, o) ↦ rw (f, o, extract) refl
      | inl o ↦ rw (f, o, extract) (write_binary-view dst x.body s)
    ]
  ]

  unpack-view : (goos archive dst : Bytes) (s : S) → view (unpack m goos archive dst s).1 ≡ view s
  unfolding unpack
  unpack-view goos archive dst s =
      let (r, s') = m.read_file archive s in
      let here = l.read_file archive s in
      elim (Result-cases r) [
        | inl (x, e) ↦ rw (e, unpack) here
        | inr (bytes, e) ↦ elim (Bool-cases (bytes_eq goos (codes "windows"))) [
          | inl w ↦ rw (e, w, unpack) (extract-view _ (m.read_zip bytes) dst s' ∙ here)
          | inr w ↦ rw (e, w, unpack) (extract-view _ (m.read_tar bytes) dst s' ∙ here)
        ]
      ]

  pub fetch_binary-view :
      (rel : Release) (dir goos : Bytes) (s : S) → view (fetch_binary m rel dir goos s).1 ≡ view s
  unfolding fetch_binary
  fetch_binary-view rel dir goos s =
      let archive = m.join dir rel.asset in
      let bin = m.join dir (binary_name goos) in
      let (d, s1) = download m rel archive s in
      let here = download-view rel archive s in
      let (u, s2) = unpack m goos archive bin s1 in
      let there = unpack-view goos archive bin s1 ∙ here in
      elim (Option-cases d) [
        | inr (x, e) ↦ rw (e, fetch_binary) (l.remove archive s1 ∙ here)
        | inl e ↦ elim (Option-cases u) [
          | inr (x, f) ↦
              rw (e, f, fetch_binary)
                (l.remove archive (m.remove bin s2) ∙ (l.remove bin s2 ∙ there))
          | inl f ↦ rw (e, f, fetch_binary) (l.remove archive s2 ∙ there)
        ]
      ]

  remove_each-view : (ps : List Bytes) (s : S) → view (remove_each m ps s) ≡ view s
  unfolding remove_each
  remove_each-view [] s = refl
  remove_each-view (p ∷ ps) s = remove_each-view ps (m.remove_all p s) ∙ l.remove_all p s

  pub stage-view : (dir : Bytes) (s : S) → view (stage m dir s).1 ≡ view s
  unfolding stage
  stage-view dir s =
      let pattern = m.join dir (stage_prefix ++ b'*' ∷ []) in
      let (old, s1) = m.glob pattern s in
      l.make_temp dir stage_prefix (remove_each m old s1)
      ∙ (remove_each-view old s1 ∙ l.glob pattern s)

  pub resolve-view :
      (base want goos goarch : Bytes) (s : S)
      → view (resolve m.fetch base want goos goarch s).1 ≡ view s
  unfolding resolve resolve_pinned
  resolve-view base [] goos goarch s = get-view (checksums_url base none) checksums_limit s
  resolve-view base (w ∷ want) goos goarch s = elim (Option-cases (parse_version (w ∷ want))) [
    | inl n ↦ rw (n, resolve) refl
    | inr (v, e) ↦ rw (e, resolve) (get-view (checksums_url base (some v)) checksums_limit s)
  ]
