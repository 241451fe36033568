-- ===== src/Store/Multipart/Truncation.antt =====
-- internal/store/upload.go: a stream that its reader cuts short with `io.ErrUnexpectedEOF`, as a response body does that is shorter than its declared length.
use git_backup.Base.{
  Bytes, All, List, Option, [], ap, arith, false, length, none, refl, some, suc, take, take-all, ℕ,
  ◌<◌, ◌==◌, ◌∙◌, ◌∷◌, ◌≡◌, ◌≤◌,
}
use git_backup.Store.Multipart.{
  MultipartState, Part, completed, created, multipart_upload, produce_parts, sort_parts, truncated,
  work, finish_upload, Production,
}
use git_backup.Store.Multipart.Finishing.{IsSchedule, Succeeded, uploaded, work-Succeeded}
use git_backup.Store.Multipart.Sorting.{sort_parts_restores}

module _ {E : Type 0} (signal : ℕ → Option E) (size : ℕ) where
  -- One round, of which the read fills some of the buffer.
  truncated_production :
      (fuel number : ℕ) (content : Bytes)
      → 1 ≤ length content
      → length content < size
      → signal number ≡ none
      → produce_parts signal size
          (suc fuel)
          number
          (record { content = content; ending = some truncated })
        ≡ record { parts = record { number = number; content = content } ∷ []; error = none }
  unfolding produce_parts
  truncated_production fuel number content low high ready =
      let all : take size content ≡ content = take-all size content (omega (arith, high)) in
      let some_bytes : (length content == 0) ≡ false = ground arith in
      let part : (length content == size) ≡ false = ground arith in
      rw (produce_parts, all, some_bytes, ready, all, part) refl

module _ {E : Type 0} (uploads : List Part → List (Part × Option E)) (schedule : IsSchedule uploads)
    (signal : ℕ → Option E) (size : ℕ) where
  -- A stream that its reader cuts short behind at least one byte and before the first part is full is stored as a complete object, with no error, if the upload is created and completed without error, the run is not cancelled before the first part, and the workers, in any schedule, upload every part.
  pub multipart_upload-truncated :
      (content : Bytes)
      → 1 ≤ length content
      → length content < size
      → signal 1 ≡ none
      → ((parts : List Part) → All Succeeded (uploads parts))
      → multipart_upload none none uploads signal size
          (record { content = content; ending = some truncated })
        ≡ record {
          calls = created ∷ completed (record { number = 1; content = content } ∷ []) ∷ [];
          error = none;
        }
  unfolding multipart_upload
  multipart_upload-truncated content low high ready fine =
      let parts : List Part = record { number = 1; content = content } ∷ [] in
      let start : MultipartState E = record { results = []; first_err = none } in
      let (fine_state, results) = work-Succeeded [] (uploads parts) (fine parts) in
      let restored : sort_parts (work start (uploads parts)).results ≡ parts =
        ap sort_parts results
        ∙ sort_parts_restores 1 parts (uploaded (uploads parts)) (refl, tt)
            (schedule parts (fine parts)) in
      ap
        (λ (p : Production E).
          finish_upload none none uploads signal size p (work start (uploads p.parts)))
        (truncated_production signal size (length content) 1 content low high ready)
      ∙ rw (finish_upload, fine_state, restored) refl
