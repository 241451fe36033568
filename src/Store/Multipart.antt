-- ===== src/Store/Multipart.antt =====
-- internal/store/upload.go: the multipart upload of a stream. A stream is what can be read of it, and the error it ends with, if any.
pub mod Sorting
pub mod Chunks
pub mod Finishing
pub mod Truncation
use git_backup.Base.{
  Bytes, List, Option, [], drop, if◌then◌else◌, length, ltb, none, some, suc, take, zero, ℕ, ◌==◌,
  ◌∷◌, ◌++◌,
}

-- `truncated` is the reader's own `io.ErrUnexpectedEOF`, as of a response body shorter than it was declared.
pub data StreamError (E : Type 0) : Type 0 where
  truncated : StreamError E
  broken_off : E → StreamError E

pub record Stream (E : Type 0) : Type 0 where
  pub content : Bytes
  pub ending : Option (StreamError E)

-- The errors of `io.ReadFull`.
pub data ReadError (E : Type 0) : Type 0 where
  no_error : ReadError E
  eof : ReadError E
  unexpected_eof : ReadError E
  broken : E → ReadError E

-- A `multipartJob`; also a part of the completed upload.
pub record Part : Type 0 where
  pub number : ℕ
  pub content : Bytes

-- `produceParts` returns a read error, or the error for which it stopped.
pub data ProduceError (E : Type 0) : Type 0 where
  read_stream : ReadError E → ProduceError E
  stopped : E → ProduceError E

-- The parts that were queued, and the error.
pub record Production (E : Type 0) : Type 0 where
  pub parts : List Part
  pub error : Option (ProduceError E)

module _ {E : Type 0} where
  abbrev pub ending_error : Option (StreamError E) → ℕ → ReadError E
  ending_error (some truncated) n = unexpected_eof
  ending_error (some (broken_off e)) n = broken e
  ending_error none n = if n == 0 then eof else unexpected_eof

  -- The error of `io.ReadFull` for a buffer of `size` bytes, of which `n` are filled.
  abbrev pub read_error : ℕ → Option (StreamError E) → ℕ → ReadError E
  read_error size ending n = if n == size then no_error else ending_error ending n

  abbrev pub queue : Part → Production E → Production E
  queue part p = record { parts = part ∷ p.parts; error = p.error }

  -- `signal` is the select for a part: nothing if the queue takes it, else the error of the workers or the context.
  module _ (signal : ℕ → Option E) (size : ℕ) where
    -- The round behind an empty read.
    abbrev pub empty_read : ReadError E → Production E → Production E
    empty_read eof next = record { parts = []; error = none }
    empty_read no_error next = next
    empty_read e next = record { parts = []; error = some (read_stream e) }

    -- The round behind a read that filled something, once the part is queued.
    abbrev pub queued_read : ReadError E → Production E → Production E
    queued_read no_error next = next
    queued_read unexpected_eof next = record { parts = []; error = none }
    queued_read eof next = record { parts = []; error = none }
    queued_read (broken e) next = record { parts = []; error = some (read_stream (broken e)) }

    unfoldable pub produce_parts : ℕ → ℕ → Stream E → Production E
    produce_parts zero number body = record { parts = []; error = none }
    produce_parts (suc fuel) number body =
        let chunk = take size body.content in
        let next =
          produce_parts fuel (suc number)
            (record { content = drop size body.content; ending = body.ending }) in
        let read = read_error size body.ending (length chunk) in
        let part : Part = record { number = number; content = chunk } in
        if length chunk == 0 then empty_read read next else elim (signal number) [
          | some e ↦ record { parts = []; error = some (stopped e) }
          | none ↦ queue part (queued_read read next)
        ]

-- `parts()`: the completed parts by number.
abbrev pub insert_part : Part → List Part → List Part
insert_part part [] = part ∷ []
insert_part part (other ∷ parts) =
    let rest = insert_part part parts in
    if ltb other.number part.number then other ∷ rest else part ∷ other ∷ parts

unfoldable pub sort_parts : List Part → List Part
sort_parts [] = []
sort_parts (part ∷ parts) = insert_part part (sort_parts parts)

-- The requests of an upload that create, complete or abort it.
pub data Call : Type 0 where
  created : Call
  completed : List Part → Call
  aborted : Call

pub data UploadError (E : Type 0) : Type 0 where
  initiate_failed : E → UploadError E
  upload_part_failed : E → UploadError E
  produce_failed : ProduceError E → UploadError E
  complete_failed : E → UploadError E

pub record Upload (E : Type 0) : Type 0 where
  pub calls : List Call
  pub error : Option (UploadError E)

-- What the workers leave in the `multipartState`: the results in the order in which they came in, and the first error.
pub record MultipartState (E : Type 0) : Type 0 where
  pub results : List Part
  pub first_err : Option E

module _ {E : Type 0} where
  abbrev pub add : Part → MultipartState E → MultipartState E
  add part state = record { results = state.results ++ part ∷ []; first_err = state.first_err }

  -- Only the first error is kept.
  abbrev pub keep_first : E → Option E → Option E
  keep_first e none = some e
  keep_first e (some first) = some first

  abbrev pub fail : E → MultipartState E → MultipartState E
  fail e state = record { results = state.results; first_err = keep_first e state.first_err }

  -- The workers' uploads in the order in which they end, each with its error.
  abbrev pub after_upload : Part × Option E → MultipartState E → MultipartState E
  after_upload (part, none) state = add part state
  after_upload (part, some e) state = fail e state

  unfoldable pub work : MultipartState E → List (Part × Option E) → MultipartState E
  work state [] = state
  work state (upload ∷ uploads) = work (after_upload upload state) uploads

-- `uploads` is the order in which the workers end the uploads of the queued parts.
module _ {E : Type 0} (create_error complete_error : Option E)
    (uploads : List Part → List (Part × Option E)) (signal : ℕ → Option E) (size : ℕ) where
  abbrev pub complete : List Part → Upload E
  complete parts = elim complete_error [
    | some e ↦ record {
      calls = created ∷ completed parts ∷ aborted ∷ [];
      error = some (complete_failed e);
    }
    | none ↦ record { calls = created ∷ completed parts ∷ []; error = none }
  ]

  abbrev pub finish_upload : Production E → MultipartState E → Upload E
  finish_upload production state = elim state.first_err [
    | some e ↦ record { calls = created ∷ aborted ∷ []; error = some (upload_part_failed e) }
    | none ↦ elim production.error [
      | some e ↦ record { calls = created ∷ aborted ∷ []; error = some (produce_failed e) }
      | none ↦ complete (sort_parts state.results)
    ]
  ]

  unfoldable pub multipart_upload : Stream E → Upload E
  unfolding produce_parts sort_parts work
  multipart_upload body = elim create_error [
    | some e ↦ record { calls = []; error = some (initiate_failed e) }
    | none ↦
        let production = produce_parts signal size (suc (length body.content)) 1 body in
        finish_upload production
          (work (record { results = []; first_err = none }) (uploads production.parts))
  ]
