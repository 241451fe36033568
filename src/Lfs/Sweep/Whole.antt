-- ===== src/Lfs/Sweep/Whole.antt =====
-- internal/lfs/lfs.go: FetchAll without an error leaves nothing out.
use git_backup.Base.{
  Bytes, All, Bool-cases, List, Option, Option-cases, [], arith, inl, inr, length, ltb, none, refl,
  some, ◌∷◌, ◌≡◌, All-map, subst, sym, ap, ◌∙◌,
}
use git_backup.Base.Result.{Result, err, ok}
use git_backup.Lfs.Batch.{LfsLog}
use git_backup.Lfs.Download.Events.{InStore}
use git_backup.Lfs.Fetch.{Chunk}
use git_backup.Lfs.Fetch.Chunks.{DescribesAll}
use git_backup.Lfs.Pointer.{Pointer}
use git_backup.Lfs.Probe.{ProbeError}
use git_backup.Lfs.Select.{EndpointCandidate, select_endpoint}
use git_backup.Lfs.Sweep.{
  Mirror, PointerScan, choose_endpoint, fetch_all, fetch_batches, fetch_from, fetch_pointers,
  read_scan, report_sweep, Fetched, parse_remote, repository_unopened,
}
use git_backup.Lfs.Sweep.Holding.{fetch_batches-InStore}
use git_backup.Paths.Url.{Url, parse_http_url}

-- The object is in the store, by what the store or the server of some endpoint has answered.
abbrev pub IsStored : {E : Type 0} → Mirror E → LfsLog → Pointer → Type 0
IsStored mirror log p = (endpoint : Bytes) × InStore (mirror.remote endpoint) log p.oid

-- Each pointer of the scan, which could read everything, has its object.
abbrev pub ScanHeld : {E : Type 0} → Mirror E → LfsLog → Result E PointerScan → Type 0
ScanHeld mirror log (err e) = ⊥
ScanHeld mirror log (ok scan) = (length scan.unread ≡ 0) × All (IsStored mirror log) scan.pointers

module _ {E : Type 0} (wide : Bytes → Bytes) (parse : Bytes → Option Url) (mirror : Mirror E) where
  fetch_from-holds :
      ((endpoint : Bytes) → DescribesAll wide (mirror.remote endpoint))
      → (pointers : List Pointer) (chosen : Result (ProbeError E) Bytes)
      → (fetch_from wide parse mirror pointers chosen).1 ≡ none
      → All (IsStored mirror (fetch_from wide parse mirror pointers chosen).0) pointers
  fetch_from-holds describes pointers (err e) done = absurd (cc done)
  fetch_from-holds describes pointers (ok endpoint) done =
      report (fetch_batches wide (mirror.remote endpoint) pointers)
        (λ fine.
          All-map (λ p stored. (endpoint, stored)) pointers
            (fetch_batches-InStore wide (mirror.remote endpoint) (describes endpoint) pointers
              fine).1)
        done
    where
      report :
          (c : Chunk E)
          → (c.2 ≡ none → All (IsStored mirror c.0) pointers)
          → (report_sweep wide parse mirror (length pointers) c).1 ≡ none
          → All (IsStored mirror (report_sweep wide parse mirror (length pointers) c).0) pointers
      report (log, o, some e) held h = absurd (cc h)
      report (log, o, none) held h = elim (Bool-cases (ltb 0 o.unavailable)) [
        | inl several ↦ absurd (cc (h, several))
        | inr nothing ↦ rw (report_sweep, nothing) (held refl)
      ]

  fetch_pointers-holds :
      ((endpoint : Bytes) → DescribesAll wide (mirror.remote endpoint))
      → (url : Url) (pointers : List Pointer)
      → (fetch_pointers wide parse mirror url pointers).1 ≡ none
      → All (IsStored mirror (fetch_pointers wide parse mirror url pointers).0) pointers
  fetch_pointers-holds describes url [] done = tt
  fetch_pointers-holds describes url (p ∷ pointers) done = choose (mirror.candidates url) done
    where
      choose :
          (candidates : Result E (List EndpointCandidate))
          → (choose_endpoint wide parse mirror (p ∷ pointers) p candidates).1 ≡ none
          → All
              (IsStored mirror (choose_endpoint wide parse mirror (p ∷ pointers) p candidates).0)
              (p ∷ pointers)
      choose (err e) h = absurd (cc h)
      choose (ok candidates) h =
          fetch_from-holds describes (p ∷ pointers)
            (select_endpoint wide (mirror.probe_reply p) candidates) h

  read_scan-ScanHeld :
      ((endpoint : Bytes) → DescribesAll wide (mirror.remote endpoint))
      → (url : Url) (scan : Result E PointerScan) → (read_scan wide parse mirror url scan).1 ≡ none
      → ScanHeld mirror (read_scan wide parse mirror url scan).0 scan
  read_scan-ScanHeld describes url (err e) done = absurd (cc done)
  read_scan-ScanHeld describes url (ok scan) done = elim (Bool-cases (ltb 0 (length scan.unread))) [
    | inl several ↦ absurd (cc (done, several))
    | inr nothing ↦
        rw (read_scan, nothing)
          (
            ground (arith, nothing),
            fetch_pointers-holds describes url scan.pointers (cc (done, nothing)),
          )
  ]

  -- Where FetchAll returns no error, the scan has read everything and each of its pointers has its object in the store, if each accepted batch response of an endpoint describes the objects of its request: the store had a file of that name, or a download ended with status 200 and a digest equal to the name and was moved into place.
  pub fetch_all-ScanHeld :
      ((endpoint : Bytes) → DescribesAll wide (mirror.remote endpoint))
      → (remote_url : Bytes) → (fetch_all wide parse mirror remote_url).1 ≡ none
      → ScanHeld mirror (fetch_all wide parse mirror remote_url).0 mirror.scan
  fetch_all-ScanHeld describes remote_url done = elim (Option-cases mirror.open_error) [
    | inr (e, unopened) ↦
        let failing : fetch_all wide parse mirror remote_url ≡ ([], some (repository_unopened e)) =
          unfold fetch_all in rw (fetch_all, unopened) refl in
        absurd (cc (ap (λ (r : Fetched E). r.1) failing, done))
    | inl opened ↦
        let fetched : fetch_all wide parse mirror remote_url
            ≡ parse_remote wide parse mirror (parse_http_url parse remote_url) =
          unfold fetch_all in rw (fetch_all, opened) refl in
        subst (λ (r : Fetched E). ScanHeld mirror r.0 mirror.scan) (sym fetched)
          (parsed (parse_http_url parse remote_url)
            (sym (ap (λ (r : Fetched E). r.1) fetched) ∙ done))
  ]
    where
      parsed :
          (u : Option Url)
          → (parse_remote wide parse mirror u).1 ≡ none
          → ScanHeld mirror (parse_remote wide parse mirror u).0 mirror.scan
      parsed none h = absurd (cc h)
      parsed (some url) h = read_scan-ScanHeld describes url mirror.scan h
