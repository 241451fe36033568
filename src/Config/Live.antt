-- ===== src/Config/Live.antt =====
-- internal/config/live.go: the settings in use while their file changes. `S` is a settings value; the level of logging and the writing of logs are left out.
use git_backup.Base.{
  Bytes, Bool, Bool-cases, List, Option, [], append-nil, false, if◌then◌else◌, inl, inr, none, refl,
  some, sym, text_eq, true, ◌++◌, ◌∷◌, ◌≡◌, ap, append_assoc, text_eq_sound, ◌∙◌,
}
use git_backup.Paths.Parser.{last}

-- `on_reload` calls are recorded in order.
pub record LiveSettings (S : Type 0) : Type 0 where
  pub current : S
  pub last_hash : Option Bytes
  pub reloads : List S

-- What one poll meets: the hash of the file, if it can be read, and what loading it gives, if it is loaded.
pub record Poll (S : Type 0) : Type 0 where
  pub content_hash : Option Bytes
  pub load_result : Option S

abbrev pub same_hash : Option Bytes → Bytes → Bool
same_hash none hash = false
same_hash (some kept) hash = text_eq hash kept

abbrev pub next_hash : Option Bytes → Option Bytes → Option Bytes
next_hash kept none = kept
next_hash kept (some hash) = some hash

same_hash_sound : (o : Option Bytes) (hash : Bytes) → same_hash o hash ≡ true → o ≡ some hash
same_hash_sound none hash h = cc
same_hash_sound (some kept) hash h = ap some (sym (text_eq_sound hash kept h))

module _ {S : Type 0} where
  abbrev pub reload : Option S → LiveSettings S → LiveSettings S
  reload none l = l
  reload (some settings) l = record l { current = settings; reloads = l.reloads ++ settings ∷ [] }

  abbrev pub check_hash : Option Bytes → Option S → LiveSettings S → LiveSettings S
  check_hash none loaded l = l
  check_hash (some hash) loaded l =
      if same_hash l.last_hash hash
      then l
      else (let seen : LiveSettings S = record l { last_hash = some hash } in reload loaded seen)

  abbrev pub check_for_change : Poll S → LiveSettings S → LiveSettings S
  check_for_change poll l = check_hash poll.content_hash poll.load_result l

  unfoldable pub after_polls : List (Poll S) → LiveSettings S → LiveSettings S
  after_polls [] l = l
  after_polls (poll ∷ polls) l = after_polls polls (check_for_change poll l)

  -- What a poll adds to the settings that were taken over, given the hash before it.
  abbrev taken : Option Bytes → Option Bytes → Option S → List S
  taken last none loaded = []
  taken last (some hash) none = []
  taken last (some hash) (some settings) = if same_hash last hash then [] else settings ∷ []

  -- The settings that were loaded at each change of the readable content, without those that did not load.
  unfoldable pub changes : Option Bytes → List (Poll S) → List S
  changes last [] = []
  changes last (poll ∷ polls) =
      taken last poll.content_hash poll.load_result
      ++ changes (next_hash last poll.content_hash) polls

  abbrev pub last_of : S → List S → S
  last_of s [] = s
  last_of s (t ∷ ts) = last_of t ts

  -- The settings in use are the last that were taken over, and each was announced once.
  abbrev pub Follows : S → List S → List S → LiveSettings S → Type 0
  Follows start before new l = (l.current ≡ last_of start new) × (l.reloads ≡ before ++ new)

  last_of-append : (s : S) (ts us : List S) → last_of s (ts ++ us) ≡ last_of (last_of s ts) us
  last_of-append s [] us = refl
  last_of-append s (t ∷ ts) us = last_of-append t ts us

  check_hash-Follows :
      (hash : Option Bytes) (loaded : Option S) (l : LiveSettings S)
      → Follows l.current l.reloads (taken l.last_hash hash loaded) (check_hash hash loaded l)
        × ((check_hash hash loaded l).last_hash ≡ next_hash l.last_hash hash)
  check_hash-Follows none loaded l = ((refl, sym (append-nil l.reloads)), refl)
  check_hash-Follows (some hash) loaded l = elim (Bool-cases (same_hash l.last_hash hash)) [
    | inl same ↦ unchanged loaded same
    | inr new ↦ changed loaded new
  ]
    where
      unchanged :
          (o : Option S)
          → same_hash l.last_hash hash ≡ true
          → Follows l.current l.reloads
              (taken l.last_hash (some hash) o)
              (check_hash (some hash) o l)
            × ((check_hash (some hash) o l).last_hash ≡ some hash)
      unchanged none same =
          rw same ((refl, sym (append-nil l.reloads)), same_hash_sound l.last_hash hash same)
      unchanged (some s) same =
          rw same ((refl, sym (append-nil l.reloads)), same_hash_sound l.last_hash hash same)

      changed :
          (o : Option S)
          → same_hash l.last_hash hash ≡ false
          → Follows l.current l.reloads
              (taken l.last_hash (some hash) o)
              (check_hash (some hash) o l)
            × ((check_hash (some hash) o l).last_hash ≡ some hash)
      changed none new = rw new ((refl, sym (append-nil l.reloads)), refl)
      changed (some s) new = rw new ((refl, refl), refl)

  -- After any polls the settings in use are the last ones that loaded at a change of the readable content, or the ones before if there were none; a failed load keeps them, and each value that is taken over is announced once, in order.
  pub after_polls-Follows :
      (polls : List (Poll S)) (l : LiveSettings S)
      → Follows l.current l.reloads (changes l.last_hash polls) (after_polls polls l)
  unfolding after_polls changes
  after_polls-Follows [] l = (refl, sym (append-nil l.reloads))
  after_polls-Follows (poll ∷ polls) l =
      let next = check_for_change poll l in
      let first = taken l.last_hash poll.content_hash poll.load_result in
      let ((now, told), hash) = check_hash-Follows poll.content_hash poll.load_result l in
      let (later_now, later_told) = after_polls-Follows polls next in
      let later = changes next.last_hash polls in
      rw (← hash) (
        later_now ∙ ap (λ s. last_of s later) now ∙ sym (last_of-append l.current first later),
        later_told ∙ ap (λ r. r ++ later) told ∙ append_assoc l.reloads first later,
      )
