-- ===== src/Paths/Keys.antt =====
-- internal/paths/keys.go: the storage roots and the keys built below them.
pub mod Shape
use git_backup.Base.{Bytes, [], bytes, false, ◌++◌, ◌∷◌}
use git_backup.Paths.Parser.{PathInfo, hierarchy}
use git_backup.Paths.Segment.{normalize_storage_segment, unknown}
use git_backup.Text.Case.{to_lower}
use git_backup.Text.Split.{join}
use git_backup.Text.Trim.{is_slash, trim, trim_space}

abbrev pub repositories_root : Bytes
repositories_root = bytes "repositories"

abbrev pub snippets_root : Bytes
snippets_root = bytes "snippets"

abbrev pub repositories_prefix : Bytes
repositories_prefix = bytes "repositories/"

abbrev pub snippets_prefix : Bytes
snippets_prefix = bytes "snippets/"

abbrev pub issues_collection_segment : Bytes
issues_collection_segment = bytes "issues"

abbrev pub merge_requests_collection_segment : Bytes
merge_requests_collection_segment = bytes "merge-requests"

abbrev pub releases_collection_segment : Bytes
releases_collection_segment = bytes "releases"

abbrev pub attachments_collection_segment : Bytes
attachments_collection_segment = bytes "attachments"

abbrev pub collection_manifest_object_name : Bytes
collection_manifest_object_name = bytes "index.json"

abbrev pub repository_metadata_object_name : Bytes
repository_metadata_object_name = bytes "metadata.json"

module _ (wide : Bytes → Bytes) where
  abbrev pub provider_segment : Bytes → Bytes
  provider_segment provider = to_lower wide (trim_space provider)

  unfoldable pub build_provider_repository_prefix : Bytes → PathInfo → Bytes
  build_provider_repository_prefix provider repository =
      join b'/'
        (repositories_root ∷ bytes "provider" ∷ provider_segment provider ∷ hierarchy repository)

  unfoldable pub sanitize_identifier : Bytes → Bytes
  sanitize_identifier identifier = normalize_storage_segment wide identifier unknown false

  unfoldable pub build_snippet_resource_prefix : Bytes → Bytes → Bytes
  unfolding sanitize_identifier
  build_snippet_resource_prefix provider identifier = join b'/' (
      snippets_root
      ∷ bytes "provider"
      ∷ provider_segment provider
      ∷ sanitize_identifier identifier
      ∷ [])

  unfoldable pub build_nested_snippet_prefix : Bytes → Bytes → Bytes
  unfolding sanitize_identifier
  build_nested_snippet_prefix repository_prefix identifier =
      trim is_slash repository_prefix ++ bytes "/snippets/" ++ sanitize_identifier identifier

unfoldable pub build_url_repository_prefix : PathInfo → Bytes
build_url_repository_prefix repository =
    join b'/' (repositories_root ∷ bytes "url" ∷ repository.full_domain ∷ hierarchy repository)

unfoldable pub build_repository_metadata_object_key : Bytes → Bytes
build_repository_metadata_object_key repository_prefix =
    trim is_slash repository_prefix ++ b'/' ∷ repository_metadata_object_name

unfoldable pub build_collection_prefix : Bytes → Bytes → Bytes
build_collection_prefix repository_prefix segment =
    trim is_slash repository_prefix ++ b'/' ∷ segment

unfoldable pub build_document_object_key : Bytes → Bytes → Bytes
build_document_object_key collection_prefix identifier =
    collection_prefix ++ b'/' ∷ (identifier ++ bytes ".json")

unfoldable pub build_manifest_object_key : Bytes → Bytes
build_manifest_object_key collection_prefix =
    collection_prefix ++ b'/' ∷ collection_manifest_object_name

unfoldable pub build_attachment_object_key : Bytes → Bytes → Bytes → Bytes
build_attachment_object_key collection_prefix identifier file_name =
    collection_prefix
    ++ b'/' ∷ (attachments_collection_segment ++ b'/' ∷ (identifier ++ b'/' ∷ file_name))

unfoldable pub build_issues_collection_prefix : Bytes → Bytes
build_issues_collection_prefix p = build_collection_prefix p issues_collection_segment

unfoldable pub build_issue_object_key : Bytes → Bytes → Bytes
build_issue_object_key p identifier =
    build_document_object_key (build_issues_collection_prefix p) identifier

unfoldable pub build_issues_manifest_object_key : Bytes → Bytes
build_issues_manifest_object_key p = build_manifest_object_key (build_issues_collection_prefix p)

unfoldable pub build_issue_attachment_object_key : Bytes → Bytes → Bytes → Bytes
build_issue_attachment_object_key p identifier file_name =
    build_attachment_object_key (build_issues_collection_prefix p) identifier file_name

unfoldable pub build_merge_requests_collection_prefix : Bytes → Bytes
build_merge_requests_collection_prefix p =
    build_collection_prefix p merge_requests_collection_segment

unfoldable pub build_merge_request_object_key : Bytes → Bytes → Bytes
build_merge_request_object_key p identifier =
    build_document_object_key (build_merge_requests_collection_prefix p) identifier

unfoldable pub build_merge_requests_manifest_object_key : Bytes → Bytes
build_merge_requests_manifest_object_key p =
    build_manifest_object_key (build_merge_requests_collection_prefix p)

unfoldable pub build_merge_request_attachment_object_key : Bytes → Bytes → Bytes → Bytes
build_merge_request_attachment_object_key p identifier file_name =
    build_attachment_object_key (build_merge_requests_collection_prefix p) identifier file_name

unfoldable pub build_releases_collection_prefix : Bytes → Bytes
build_releases_collection_prefix p = build_collection_prefix p releases_collection_segment

unfoldable pub build_release_object_key : Bytes → Bytes → Bytes
build_release_object_key p identifier =
    build_document_object_key (build_releases_collection_prefix p) identifier

unfoldable pub build_releases_manifest_object_key : Bytes → Bytes
build_releases_manifest_object_key p =
    build_manifest_object_key (build_releases_collection_prefix p)

unfoldable pub build_release_attachment_object_key : Bytes → Bytes → Bytes → Bytes
build_release_attachment_object_key p identifier file_name =
    build_attachment_object_key (build_releases_collection_prefix p) identifier file_name
