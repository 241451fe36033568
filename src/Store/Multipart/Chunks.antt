-- ===== src/Store/Multipart/Chunks.antt =====
-- internal/store/upload.go: the parts that `produceParts` cuts a stream into.
use git_backup.Base.{
  Bytes, List, Option, [], ap, append-nil, append_assoc, arith, drop, length, length-take, none,
  refl, some, suc, sym, take, take-append-drop, zero, ℕ, ◌++◌, ◌∙◌, ◌∷◌, ◌≡◌, ◌≢◌, ◌≤◌, Bool-cases,
  Option-cases, false, inl, inr, length-drop, ◌<◌, ◌==◌,
}
use git_backup.Store.Multipart.{
  Part, ProduceError, Production, Stream, queue, broken, empty_read, ending_error, produce_parts,
  queued_read, read_stream, stopped, StreamError, broken_off, truncated, unexpected_eof,
}
use git_backup.Store.Multipart.Sorting.{Numbered}

abbrev pub contents : List Part → Bytes
contents [] = []
contents (p ∷ ps) = p.content ++ contents ps

-- No part is empty or longer than `size`, and all but the last are as long.
abbrev pub Sized : ℕ → List Part → Type 0
Sized size [] = Unit
Sized size (p ∷ []) = (1 ≤ length p.content) × (length p.content ≤ size)
Sized size (p ∷ q ∷ ps) = (length p.content ≡ size) × Sized size (q ∷ ps)

Sized-one_more :
    (size : ℕ) (p : Part) (ps : List Part)
    → 1 ≤ size
    → length p.content ≡ size
    → Sized size ps
    → Sized size (p ∷ ps)
Sized-one_more size p [] low full h = (omega (arith, full, low), omega (arith, full))
Sized-one_more size p (q ∷ ps) low full h = (full, h)

short : (size : ℕ) (s : Bytes) → length (take size s) ≢ size → drop size s ≡ []
short zero s h = absurd (h refl)
short (suc size) [] h = refl
short (suc size) (c ∷ s) h = short size s (λ e. h (ap suc e))

whole : (size : ℕ) (s : Bytes) → length (take size s) ≢ size → s ≡ take size s ++ []
whole size s h = sym (take-append-drop size s) ∙ ap (λ r. take size s ++ r) (short size s h)

empty : (size : ℕ) (s : Bytes) → 1 ≤ size → length (take size s) ≡ 0 → s ≡ []
empty size [] low h = refl
empty zero (c ∷ s) low h = absurd (omega (arith, low))
empty (suc size) (c ∷ s) low h = absurd (omega (arith, h))

module _ {E : Type 0} where
  -- The stream ended, or the reader itself said `io.ErrUnexpectedEOF`.
  abbrev pub IsUnbroken : Option (StreamError E) → Type 0
  IsUnbroken none = Unit
  IsUnbroken (some truncated) = Unit
  IsUnbroken (some (broken_off e)) = ⊥

  -- The parts hold the first of the content; all of it where no error is returned, and then the stream is unbroken.
  abbrev pub Cuts : ℕ → ℕ → Stream E → Production E → Type 0
  Cuts size number body p =
      ((rest : Bytes) × (body.content ≡ contents p.parts ++ rest)
        × (p.error ≡ none → (rest ≡ []) × IsUnbroken body.ending))
      × Numbered number p.parts
      × Sized size p.parts

  nothing-Cuts :
      (size number : ℕ) (body : Stream E) (e : ProduceError E)
      → Cuts size number body (record { parts = []; error = some e })
  nothing-Cuts size number body e = ((body.content, refl, λ no_error. cc), tt, tt)

  -- A full part, and then what the rest is cut into.
  full-Cuts :
      (size number : ℕ) (body : Stream E) (p : Production E)
      → 1 ≤ size
      → length (take size body.content) ≡ size
      → Cuts size (suc number) (record { content = drop size body.content; ending = body.ending }) p
      → Cuts size number body
          (queue (record { number = number; content = take size body.content }) p)
  full-Cuts size number body p low full ((rest, same, done), order, sizes) = (
    (
      rest,
      sym (take-append-drop size body.content)
          ∙ rw same (sym (append_assoc (take size body.content) (contents p.parts) rest)),
      done,
    ),
    (refl, order),
    Sized-one_more size (record { number = number; content = take size body.content }) p.parts low
        full sizes,
  )

  -- The last part, which is not full.
  last-Cuts :
      (size number : ℕ) (body : Stream E) (o : Option (ProduceError E))
      → length (take size body.content) ≢ size
      → length (take size body.content) ≢ 0
      → (o ≡ none → IsUnbroken body.ending)
      → Cuts size number body (
          queue
            (record { number = number; content = take size body.content })
            (record { parts = []; error = o }))
  last-Cuts size number body o part filled h = (
    (
      [],
      whole size body.content part ∙ sym (append-nil (take size body.content ++ [])),
      λ no_error. (refl, h no_error),
    ),
    (refl, tt),
    (omega (arith, filled), omega (arith, length-take size body.content)),
  )

  -- The round behind an empty read.
  empty_read-Cuts :
      (signal : ℕ → Option E) (size number : ℕ) (content : Bytes) (ending : Option (StreamError E))
      (next : Production E)
      → 1 ≤ size
      → length (take size content) ≡ 0
      → Cuts size number
          (record { content = content; ending = ending })
          (empty_read signal size (ending_error ending 0) next)
  empty_read-Cuts signal size number content (some truncated) next low h =
      nothing-Cuts size number (record { content = content; ending = some truncated })
        (read_stream unexpected_eof)
  empty_read-Cuts signal size number content (some (broken_off e)) next low h =
      nothing-Cuts size number (record { content = content; ending = some (broken_off e) })
        (read_stream (broken e))
  empty_read-Cuts signal size number content none next low h =
      ((content, refl, λ no_error. (empty size content low h, tt)), tt, tt)

  -- The round behind a part that is not full.
  short_read-Cuts :
      (signal : ℕ → Option E) (size number : ℕ) (content : Bytes) (ending : Option (StreamError E))
      (next : Production E)
      → length (take size content) ≢ size
      → length (take size content) ≢ 0
      → Cuts size number
          (record { content = content; ending = ending })
          (queue
            (record { number = number; content = take size content })
            (queued_read signal size (ending_error ending (length (take size content))) next))
  short_read-Cuts signal size number content (some truncated) next part filled =
      last-Cuts size number (record { content = content; ending = some truncated }) none part filled
        (λ unbroken. tt)
  short_read-Cuts signal size number content (some (broken_off e)) next part filled =
      last-Cuts size number (record { content = content; ending = some (broken_off e) })
        (some (read_stream (broken e))) part filled (λ no_error. cc)
  short_read-Cuts signal size number content none next part filled =
      let some_bytes : (length (take size content) == 0) ≡ false = ground arith in
      rw some_bytes (
        last-Cuts size number (record { content = content; ending = none }) none part filled
          (λ no_error. tt))

  -- With fuel for the whole stream.
  pub produce_parts-Cuts :
      (signal : ℕ → Option E) (size fuel number : ℕ) (body : Stream E)
      → 1 ≤ size
      → length body.content < fuel
      → Cuts size number body (produce_parts signal size fuel number body)
  unfolding produce_parts
  produce_parts-Cuts signal size zero number body low h = absurd (omega (arith, h))
  produce_parts-Cuts signal size (suc fuel) number body low h =
      let n = length (take size body.content) in
      let rest : Stream E = record { content = drop size body.content; ending = body.ending } in
      let next = produce_parts signal size fuel (suc number) rest in
      elim (Bool-cases (n == 0)) [
        | inl nothing ↦
            let none_read : n ≡ 0 = ground arith in
            let not_full : (0 == size) ≡ false = ground arith in
            rw (produce_parts, none_read, not_full)
              (empty_read-Cuts signal size number body.content body.ending next low none_read)
        | inr filled ↦
            let some_bytes : n ≢ 0 = ground arith in
            elim (Option-cases (signal number)) [
              | inr (e, stop) ↦
                  rw (produce_parts, filled, stop) (nothing-Cuts size number body (stopped e))
              | inl ready ↦ elim (Bool-cases (n == size)) [
                | inl full ↦
                    let same : n ≡ size = ground arith in
                    let less : length (drop size body.content) < fuel = omega (
                      arith,
                      length-drop size body.content,
                      length-take size body.content,
                      some_bytes,
                      h,
                    ) in
                    rw (produce_parts, filled, ready, full)
                      (full-Cuts size number body next low same
                        (produce_parts-Cuts signal size fuel (suc number) rest low less))
                | inr part ↦
                    let differs : n ≢ size = ground arith in
                    rw (produce_parts, filled, ready, part)
                      (short_read-Cuts signal size number body.content body.ending next differs
                        some_bytes)
              ]
            ]
      ]
