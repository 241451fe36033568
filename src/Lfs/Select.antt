-- ===== src/Lfs/Select.antt =====
-- internal/lfs/endpoint.go: which endpoint serves the repository.
use git_backup.Base.{
  Bytes, Bool, List, Option, [], false, if◌then◌else◌, none, some, true, ◌++◌, ◌∷◌, Option-cases,
  inl, inr, refl, ◌∙◌, ◌≡◌, ap,
}
use git_backup.Base.Result.{Result, err, ok}
use git_backup.Lfs.Probe.{
  ProbeError, Reply, do_probe, err_no_endpoint, err_disabled, failed_status, failed_transport,
}

pub record EndpointCandidate : Type 0 where
  pub url : Bytes
  pub derived : Bool

-- `configured` and `derived` of the loop.
pub record Verdicts (E : Type 0) : Type 0 where
  pub configured : Option (ProbeError E)
  pub guessed : Option (ProbeError E)

module _ {E : Type 0} (wide : Bytes → Bytes) (reply : EndpointCandidate → Reply E) where
  abbrev pub keep_verdict : Option (ProbeError E) → ProbeError E → Option (ProbeError E)
  keep_verdict none e = some e
  keep_verdict (some first) e = some first

  abbrev pub record_verdict : EndpointCandidate → ProbeError E → Verdicts E → Verdicts E
  record_verdict candidate e verdicts =
      if candidate.derived
      then record { configured = verdicts.configured; guessed = keep_verdict verdicts.guessed e }
      else record { configured = keep_verdict verdicts.configured e; guessed = verdicts.guessed }

  abbrev pub after_probe : EndpointCandidate → ProbeError E → Verdicts E → Verdicts E
  after_probe candidate err_no_endpoint verdicts = verdicts
  after_probe candidate e verdicts = record_verdict candidate e verdicts

  abbrev pub settle : Verdicts E → ProbeError E
  settle verdicts = elim verdicts.configured [
    | some e ↦ e
    | none ↦ elim verdicts.guessed [ some e ↦ e | none ↦ err_disabled ]
  ]

  unfoldable pub select_from : Verdicts E → List EndpointCandidate → Result (ProbeError E) Bytes
  unfolding do_probe
  select_from verdicts [] = err (settle verdicts)
  select_from verdicts (candidate ∷ candidates) = elim (do_probe wide (reply candidate)) [
    | none ↦ ok candidate.url
    | some e ↦ select_from (after_probe candidate e verdicts) candidates
  ]

  unfoldable pub select_endpoint : List EndpointCandidate → Result (ProbeError E) Bytes
  unfolding select_from
  select_endpoint candidates = select_from (record { configured = none; guessed = none }) candidates

  -- The same decision from the table of all the answers.
  unfoldable pub first_answering : List EndpointCandidate → Option EndpointCandidate
  first_answering [] = none
  first_answering (c ∷ cs) = elim (do_probe wide (reply c)) [
    | none ↦ some c
    | some e ↦ first_answering cs
  ]

  abbrev says_something : Option (ProbeError E) → List (ProbeError E)
  says_something none = []
  says_something (some err_no_endpoint) = []
  says_something (some e) = e ∷ []

  -- The verdicts of the candidates of one kind, in order; that a path is not the API is none.
  unfoldable pub verdicts_of : Bool → List EndpointCandidate → List (ProbeError E)
  verdicts_of guess [] = []
  verdicts_of guess (c ∷ cs) =
      let rest = verdicts_of guess cs in
      if c.derived
      then (if guess then says_something (do_probe wide (reply c)) ++ rest else rest)
      else (if guess then rest else says_something (do_probe wide (reply c)) ++ rest)

  abbrev pub first_or : ProbeError E → List (ProbeError E) → ProbeError E
  first_or e [] = e
  first_or e (v ∷ vs) = v

  abbrev pub decision :
      Option EndpointCandidate → List EndpointCandidate → Result (ProbeError E) Bytes
  decision (some c) cs = ok c.url
  decision none cs =
      err (first_or (first_or err_disabled (verdicts_of true cs)) (verdicts_of false cs))

  abbrev first_of : Option (ProbeError E) → ProbeError E → ProbeError E
  first_of none e = e
  first_of (some v) e = v

  -- The decision from a round on.
  abbrev onward :
      Option (ProbeError E)
      → Option (ProbeError E)
      → Option EndpointCandidate
      → List EndpointCandidate
      → Result (ProbeError E) Bytes
  onward configured guessed (some c) cs = ok c.url
  onward configured guessed none cs = err (
      first_of configured (
        first_or (first_of guessed (first_or err_disabled (verdicts_of true cs)))
          (verdicts_of false cs)))

  abbrev settled :
      Option (ProbeError E)
      → Option (ProbeError E)
      → List (ProbeError E)
      → List (ProbeError E)
      → ProbeError E
  settled a b guesses own = first_of a (first_or (first_of b (first_or err_disabled guesses)) own)

  recorded :
      (d : Bool) (url : Bytes) (a b : Option (ProbeError E)) (e : ProbeError E)
      (guesses own : List (ProbeError E))
      → (let w =
            record_verdict
              (record { url = url; derived = d })
              e
              (record { configured = a; guessed = b }) in
          settled w.configured w.guessed guesses own)
        ≡ settled a b (if d then e ∷ guesses else guesses) (if d then own else e ∷ own)
  recorded true url a none e guesses own = refl
  recorded true url a (some f) e guesses own = refl
  recorded false url none b e guesses own = refl
  recorded false url (some f) b e guesses own = refl

  -- One round keeps what is settled in the end.
  kept :
      (d : Bool) (url : Bytes) (a b : Option (ProbeError E)) (e : ProbeError E)
      (guesses own : List (ProbeError E))
      → (let w =
            after_probe
              (record { url = url; derived = d })
              e
              (record { configured = a; guessed = b }) in
          settled w.configured w.guessed guesses own)
        ≡ settled a b
            (if d then says_something (some e) ++ guesses else guesses)
            (if d then own else says_something (some e) ++ own)
  kept true url a b err_no_endpoint guesses own = refl
  kept false url a b err_no_endpoint guesses own = refl
  kept d url a b err_disabled guesses own = recorded d url a b err_disabled guesses own
  kept d url a b (failed_status n) guesses own = recorded d url a b (failed_status n) guesses own
  kept d url a b (failed_transport t) guesses own =
      recorded d url a b (failed_transport t) guesses own

  round :
      (v : Verdicts E) (c : EndpointCandidate) (e : ProbeError E) (o : Option EndpointCandidate)
      (cs : List EndpointCandidate)
      → do_probe wide (reply c) ≡ some e
      → (let w = after_probe c e v in onward w.configured w.guessed o cs)
        ≡ onward v.configured v.guessed o (c ∷ cs)
  unfolding verdicts_of
  round v c e (some d) cs h = refl
  round v c e none cs h =
      rw (verdicts_of, h)
        (ap err (
          kept c.derived c.url v.configured v.guessed e (verdicts_of true cs)
            (verdicts_of false cs)))

  select_from_lem :
      (v : Verdicts E) (cs : List EndpointCandidate)
      → select_from v cs ≡ onward v.configured v.guessed (first_answering cs) cs
  unfolding select_from first_answering verdicts_of
  select_from_lem v [] = settle_lem v.configured v.guessed
    where
      settle_lem :
          (a b : Option (ProbeError E))
          → err (settle (record { configured = a; guessed = b })) ≡ onward a b none []
      settle_lem none none = refl
      settle_lem none (some e) = refl
      settle_lem (some e) b = refl
  select_from_lem v (c ∷ cs) = elim (Option-cases (do_probe wide (reply c))) [
    | inl answers ↦ rw (select_from, first_answering, answers) refl
    | inr (e, h) ↦
        rw (select_from, first_answering, h)
          (select_from_lem (after_probe c e v) cs ∙ round v c e (first_answering cs) cs h)
  ]

  -- The loop chooses the first candidate that answers; where none does, the first verdict of a configured path decides, then the first of a derived one, and LFS counts as disabled if no path had one.
  pub select_endpoint-decision :
      (candidates : List EndpointCandidate)
      → select_endpoint candidates ≡ decision (first_answering candidates) candidates
  unfolding select_endpoint
  select_endpoint-decision candidates =
      select_from_lem (record { configured = none; guessed = none }) candidates
      ∙ from_nothing (first_answering candidates)
    where
      from_nothing :
          (o : Option EndpointCandidate) → onward none none o candidates ≡ decision o candidates
      from_nothing none = refl
      from_nothing (some c) = refl
