-- ===== src/Store/Multipart/Finishing.antt =====
-- internal/store/upload.go: what `multipartUpload` leaves in the storage.
use git_backup.Base.{
  All, List, Option, Option-cases, [], ap, append-nil, append_assoc, arith, inl, inr, length, none,
  refl, some, suc, sym, ℕ, ◌++◌, ◌∙◌, ◌∷◌, ◌≡◌, ◌≤◌,
}
use git_backup.Store.Multipart.{
  Call, Part, Production, Stream, UploadError, aborted, complete, completed, created,
  initiate_failed, multipart_upload, produce_parts, sort_parts, work, finish_upload,
}
use git_backup.Store.Multipart.Chunks.{Cuts, Sized, contents, produce_parts-Cuts, IsUnbroken}
use git_backup.Store.Multipart.Sorting.{Numbered, Reordering, sort_parts_restores}

module _ {E : Type 0} where
  abbrev pub uploaded : List (Part × Option E) → List Part
  uploaded [] = []
  uploaded ((part, o) ∷ uploads) = part ∷ uploaded uploads

  abbrev pub Succeeded : Part × Option E → Type 0
  Succeeded (part, o) = o ≡ none

  -- The workers take parts until one fails: if none fails, they upload each queued part once.
  abbrev pub IsSchedule : (List Part → List (Part × Option E)) → Type 0
  IsSchedule uploads =
      (parts : List Part)
      → All Succeeded (uploads parts)
      → Reordering parts (uploaded (uploads parts))

  work-failed :
      (e : E) (results : List Part) (uploads : List (Part × Option E))
      → (work (record { results = results; first_err = some e }) uploads).first_err ≡ some e
  unfolding work
  work-failed e results [] = refl
  work-failed e results ((part, none) ∷ uploads) = work-failed e (results ++ part ∷ []) uploads
  work-failed e results ((part, some f) ∷ uploads) = work-failed e results uploads

  work_lem :
      (results : List Part) (uploads : List (Part × Option E))
      → (work (record { results = results; first_err = none }) uploads).first_err ≡ none
      → All Succeeded uploads
        × ((work (record { results = results; first_err = none }) uploads).results
            ≡ results ++ uploaded uploads)
  unfolding work
  work_lem results [] h = (tt, sym (append-nil results))
  work_lem results ((part, none) ∷ uploads) h =
      let (fine, same) = work_lem (results ++ part ∷ []) uploads h in
      ((refl, fine), same ∙ append_assoc results (part ∷ []) (uploaded uploads))
  work_lem results ((part, some e) ∷ uploads) h =
      absurd (some_none (sym (work-failed e results uploads) ∙ h))
    where
      some_none : {e : E} → some e ≡ none → ⊥
      some_none p = cc

  pub work-Succeeded :
      (results : List Part) (uploads : List (Part × Option E))
      → All Succeeded uploads
      → ((work (record { results = results; first_err = none }) uploads).first_err ≡ none)
        × ((work (record { results = results; first_err = none }) uploads).results
            ≡ results ++ uploaded uploads)
  unfolding work
  work-Succeeded results [] h = (refl, sym (append-nil results))
  work-Succeeded results ((part, none) ∷ uploads) h =
      let (fine, same) = work-Succeeded (results ++ part ∷ []) uploads h.1 in
      (fine, same ∙ append_assoc results (part ∷ []) (uploaded uploads))
  work-Succeeded results ((part, some e) ∷ uploads) h = absurd (some_none h.0)
    where
      some_none : {e : E} → some e ≡ none → ⊥
      some_none p = cc

  -- The completed parts are the stream, cut into numbered parts of the right sizes.
  abbrev pub Holds : ℕ → Stream E → List Part → Type 0
  Holds size body parts =
      (contents parts ≡ body.content) × IsUnbroken body.ending × Numbered 1 parts × Sized size parts

  -- An upload without an error is completed with the stream; one that was created and fails is aborted at the end.
  abbrev pub Finishes : ℕ → Stream E → List Call → Option (UploadError E) → Type 0
  Finishes size body calls none =
      (parts : List Part) × (calls ≡ created ∷ completed parts ∷ []) × Holds size body parts
  Finishes size body calls (some (initiate_failed e)) = calls ≡ []
  Finishes size body calls (some e) =
      (before : List Call) × (calls ≡ created ∷ before ++ aborted ∷ [])

module _ {E : Type 0} (create_error complete_error : Option E)
    (uploads : List Part → List (Part × Option E)) (schedule : IsSchedule uploads)
    (signal : ℕ → Option E) (size : ℕ) where
  complete-Finishes :
      (body : Stream E) (parts : List Part) (o : Option E)
      → Holds size body parts
      → Finishes size body
          (complete create_error o uploads signal size parts).calls
          (complete create_error o uploads signal size parts).error
  complete-Finishes body parts none h = (parts, refl, h)
  complete-Finishes body parts (some e) h = (completed parts ∷ [], refl)

  -- The parts of a production with no error, sorted after the workers are done.
  production-Holds :
      (body : Stream E) (p : Production E)
      → Cuts size 1 body p
      → p.error ≡ none
      → (work (record { results = []; first_err = none }) (uploads p.parts)).first_err ≡ none
      → Holds size body
          (sort_parts (work (record { results = []; first_err = none }) (uploads p.parts)).results)
  production-Holds body p ((rest, same, done), order, sizes) no_failure fine =
      let (all, results) = work_lem [] (uploads p.parts) fine in
      let (nothing, ended) = done no_failure in
      let restored : sort_parts
            (work (record { results = []; first_err = none }) (uploads p.parts)).results
          ≡ p.parts =
        ap sort_parts results
        ∙ sort_parts_restores 1 p.parts (uploaded (uploads p.parts)) order (schedule p.parts all) in
      rw restored (sym (same ∙ rw nothing (append-nil (contents p.parts))), ended, order, sizes)

  finish_upload-Finishes :
      (body : Stream E) (p : Production E)
      → Cuts size 1 body p
      → let u =
          finish_upload create_error complete_error uploads signal size p
            (work (record { results = []; first_err = none }) (uploads p.parts)) in
        Finishes size body u.calls u.error
  finish_upload-Finishes body p cuts =
      let state = work (record { results = []; first_err = none }) (uploads p.parts) in
      elim (Option-cases state.first_err) [
        | inr (e, wrong) ↦ rw (finish_upload, wrong) ([], refl)
        | inl fine ↦ elim (Option-cases p.error) [
          | inr (e, broke) ↦ rw (finish_upload, fine, broke) ([], refl)
          | inl no_failure ↦
              rw (finish_upload, fine, no_failure)
                (complete-Finishes body (sort_parts state.results) complete_error
                  (production-Holds body p cuts no_failure fine))
        ]
      ]

  -- Without an error the upload was completed, its parts in order are exactly the bytes of the stream, which ended or which its reader cut short with io.ErrUnexpectedEOF, and all but the last have the part size; an upload that could not be created sends nothing more, and any other error ends with an abort, if the part size is positive and the workers upload each queued part once unless one fails.
  pub multipart_upload-Finishes :
      (body : Stream E)
      → 1 ≤ size
      → Finishes size body
          (multipart_upload create_error complete_error uploads signal size body).calls
          (multipart_upload create_error complete_error uploads signal size body).error
  unfolding multipart_upload
  multipart_upload-Finishes body low = elim (Option-cases create_error) [
    | inr (e, wrong) ↦ rw (multipart_upload, wrong) refl
    | inl fine ↦
        rw (multipart_upload, fine)
          (finish_upload-Finishes body
            (produce_parts signal size (suc (length body.content)) 1 body)
            (produce_parts-Cuts signal size (suc (length body.content)) 1 body low (omega arith)))
  ]
