-- ===== src/Lfs/Tests.antt =====
-- The LFS theorems at small inputs.
use git_backup.Base.{
  Bytes, [], bytes, false, if◌then◌else◌, none, refl, some, true, ℕ, ◌∷◌, ◌≡◌, text_eq, ◌++◌,
  Bool-cases, List, Option, any, inl, inr, subst,
}
use git_backup.Base.Int.{pos}
use git_backup.Base.Result.{err, ok}
use git_backup.Lfs.Batch.{
  BatchReply, BatchResponseObject, Remote, replied, request_lost, transferred,
}
use git_backup.Lfs.Download.Events.{shows}
use git_backup.Lfs.Fetch.Chunks.{DescribesAll}
use git_backup.Lfs.Pointer.{
  IsPointer, is_sha256_hex, parse_pointer, parse_pointer-IsPointer, read_lines, Pointer,
}
use git_backup.Lfs.Probe.{
  Means, Reply, do_probe, do_probe-Means, failed_status, looks_like_html, responded,
}
use git_backup.Lfs.Select.{
  EndpointCandidate, decision, first_answering, select_endpoint, select_endpoint-decision,
  select_from,
}
use git_backup.Lfs.Sweep.{Mirror, fetch_all, fetch_batches}
use git_backup.Lfs.Sweep.Whole.{ScanHeld, fetch_all-ScanHeld}
use git_backup.Paths.Url.{Url, is_http_or_https}
use git_backup.Text.Case.{is_ascii, lower_byte, to_lower, equal_fold}
use git_backup.Text.Decimal.{parse_int}
use git_backup.Text.Index.{index}
use git_backup.Text.Search.{has_prefix}
use git_backup.Text.Split.{split}
use git_backup.Text.Trim.{trim_space}

abbrev unchanged : Bytes → Bytes
unchanged s = s

abbrev with_suffix : EndpointCandidate
with_suffix = record { url = bytes "https://h/r.git/info/lfs"; derived = true }

abbrev plain : EndpointCandidate
plain = record { url = bytes "https://h/r/info/lfs"; derived = false }

-- The derived path says that LFS is off, the configured path asks for credentials.
abbrev off_or_unauthorized : EndpointCandidate → Reply ℕ
off_or_unauthorized candidate =
    if candidate.derived then responded 403 (some (bytes "{}")) else responded 401 none

not_disabled :
    select_endpoint unchanged off_or_unauthorized (with_suffix ∷ plain ∷ [])
    ≡ err (failed_status 401)
unfolding select_endpoint select_from do_probe looks_like_html to_lower trim_space has_prefix
    is_ascii lower_byte
not_disabled = refl

do_probe-Means_example :
    Means {E = ℕ} unchanged
      (responded 403 (some (bytes " <HTML>")))
      (do_probe unchanged (responded 403 (some (bytes " <HTML>"))))
do_probe-Means_example = do_probe-Means ℕ unchanged (responded 403 (some (bytes " <HTML>")))

select_endpoint-decision_example :
    select_endpoint unchanged off_or_unauthorized (with_suffix ∷ plain ∷ [])
    ≡ decision unchanged off_or_unauthorized
        (first_answering unchanged off_or_unauthorized (with_suffix ∷ plain ∷ []))
        (with_suffix ∷ plain ∷ [])
select_endpoint-decision_example =
    select_endpoint-decision unchanged off_or_unauthorized (with_suffix ∷ plain ∷ [])

abbrev object_id : Bytes
object_id = bytes "4D7A214614AB2935C943F9E0FF69D22EADBB8F32B1258DAAA5E2CA24D17E2393"

abbrev pointer_file : Bytes
pointer_file =
    bytes "version https://git-lfs.github.com/spec/v1"
    ++ b'\n' ∷ (bytes "oid sha256:" ++ (object_id ++ b'\n' ∷ (bytes "size 12345" ++ b'\n' ∷ [])))

pointer_read :
    parse_pointer pointer_file
    ≡ some (record {
      oid = bytes "4d7a214614ab2935c943f9e0ff69d22eadbb8f32b1258daaa5e2ca24d17e2393";
      size = pos 12345;
    })
unfolding parse_pointer read_lines split is_sha256_hex has_prefix lower_byte trim_space index
    text_eq parse_int
pointer_read = refl

parse_pointer-IsPointer_example : IsPointer (parse_pointer pointer_file)
parse_pointer-IsPointer_example = parse_pointer-IsPointer pointer_file

abbrev small_id : Bytes
small_id = bytes "4d7a214614ab2935c943f9e0ff69d22eadbb8f32b1258daaa5e2ca24d17e2393"

abbrev one_pointer : Pointer
one_pointer = record { oid = small_id; size = pos 12345 }

-- The endpoint spells the digest in capitals.
abbrev one_object : BatchResponseObject
one_object = record {
  oid = object_id;
  size = pos 12345;
  download =
      some
        (record { href = bytes "https://cdn/o"; header = []; expires_in = pos 0; expires_at = [] });
  error = none;
}

abbrev respond_to : List Pointer → BatchReply ℕ
respond_to [] = request_lost 1
respond_to (p ∷ q ∷ pointers) = request_lost 1
respond_to (p ∷ []) =
    if text_eq p.oid small_id then replied 200 (some (one_object ∷ [])) else request_lost 1

abbrev endpoint : Remote ℕ
endpoint = record {
  ctx_err = λ log. none;
  respond = λ log pointers. respond_to pointers;
  transfer = λ log oid action. transferred 200 (ok oid) none;
  stored_size = λ log oid. none;
  parse_time = λ s. none;
  now = λ log. pos 0;
}

small_of_large : to_lower unchanged object_id ≡ small_id
unfolding to_lower is_ascii lower_byte
small_of_large = refl

endpoint-DescribesAll : DescribesAll unchanged endpoint
endpoint-DescribesAll log [] objects h = tt
endpoint-DescribesAll log (p ∷ q ∷ pointers) objects h = absurd (cc h)
endpoint-DescribesAll log (p ∷ []) objects h = elim (Bool-cases (text_eq p.oid small_id)) [
  | inr other ↦ absurd (cc (h, other))
  | inl same ↦ (
    subst
        (λ (os : List BatchResponseObject).
          any (λ (o : BatchResponseObject). text_eq p.oid (to_lower unchanged o.oid)) os ≡ true)
        {x = one_object ∷ []} {y = objects} (cc (h, same)) (rw (small_of_large, same) refl),
    tt,
  )
]

abbrev https_url : Bytes → Option Url
https_url s = some (record {
  scheme = bytes "https";
  host = bytes "h";
  hostname = bytes "h";
  escaped_path = bytes "/r";
})

abbrev one_mirror : Mirror ℕ
one_mirror = record {
  open_error = none;
  scan = ok (record { pointers = one_pointer ∷ []; unread = [] });
  candidates = λ url. ok (plain ∷ []);
  probe_reply = λ p candidate. responded 200 none;
  remote = λ url. endpoint;
}

one_fetch : (fetch_all unchanged https_url one_mirror (bytes "https://h/r")).1 ≡ none
unfolding fetch_all text_eq is_http_or_https equal_fold
one_fetch = refl

fetch_all-ScanHeld_example :
    ScanHeld one_mirror
      (fetch_all unchanged https_url one_mirror (bytes "https://h/r")).0
      one_mirror.scan
fetch_all-ScanHeld_example =
    fetch_all-ScanHeld unchanged https_url one_mirror (λ url. endpoint-DescribesAll)
      (bytes "https://h/r") one_fetch

-- An endpoint that describes one object twice and leaves the other one out.
abbrev doubling : Remote ℕ
doubling = record {
  ctx_err = λ log. none;
  respond = λ log pointers. replied 200 (some (one_object ∷ one_object ∷ []));
  transfer = λ log oid action. transferred 200 (ok oid) none;
  stored_size = λ log oid. none;
  parse_time = λ s. none;
  now = λ log. pos 0;
}

abbrev two_pointers : List Pointer
two_pointers = one_pointer ∷ record { oid = bytes "left out"; size = pos 1 } ∷ []

left_out_silently :
    ((fetch_batches unchanged doubling two_pointers).2 ≡ none)
    × (any (shows (bytes "left out")) (fetch_batches unchanged doubling two_pointers).0 ≡ false)
unfolding fetch_batches text_eq is_ascii lower_byte
left_out_silently = (refl, refl)
