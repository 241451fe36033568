-- ===== src/Lfs/Download/Answers.antt =====
-- internal/lfs/batch.go: what a download without an error and a cached object rest on.
use git_backup.Base.{
  Bool-cases, Bytes, Option, Option-cases, ap, arith, inl, inr, none, refl, some, text_eq,
  text_eq_sound, true, ℕ, ◌==◌, ◌≡◌,
}
use git_backup.Base.Int.{negsuc, pos, ℤ}
use git_backup.Base.Result.{Result, err, ok}
use git_backup.Lfs.Batch.{Remote, Transfer, transferred, unreachable}
use git_backup.Lfs.Download.{check_hash_of, download_object, is_cached}

module _ {E : Type 0} (wide : Bytes → Bytes) (remote : Remote E) where
  -- A download without an error.
  pub download_object-none :
      (oid : Bytes) (t : Transfer E)
      → download_object wide remote oid t ≡ none
      → t ≡ transferred 200 (ok oid) none
  unfolding download_object
  download_object-none oid (unreachable e) h = absurd (cc h)
  download_object-none oid (transferred status copied moved) h = elim (Bool-cases (status == 200)) [
    | inr other ↦ absurd (cc (h, other))
    | inl fine ↦
        let checked : check_hash_of wide remote oid copied moved ≡ none = cc (h, fine) in
        let (hashed, in_place) = placed copied moved checked in
        let status_ok : status ≡ 200 = ground (arith, fine) in cc (status_ok, hashed, in_place)
  ]
    where
      placed :
          (copied : Result E Bytes) (moved : Option E)
          → check_hash_of wide remote oid copied moved ≡ none
          → (copied ≡ ok oid) × (moved ≡ none)
      placed (err e) moved g = absurd (cc g)
      placed (ok digest) moved g = elim (Bool-cases (text_eq digest oid)) [
        | inr differs ↦ absurd (cc (g, differs))
        | inl same ↦ elim (Option-cases moved) [
          | inl in_place ↦ (ap ok (text_eq_sound digest oid same), in_place)
          | inr (e, misplaced) ↦ absurd (cc (g, same, misplaced))
        ]
      ]

  pub is_cached-some :
      (size : ℤ) (stored : Option ℕ)
      → is_cached wide remote size stored ≡ true
      → (actual : ℕ) × (stored ≡ some actual)
  is_cached-some (pos size) none h = absurd (cc h)
  is_cached-some (negsuc n) none h = absurd (cc h)
  is_cached-some size (some actual) h = (actual, refl)
