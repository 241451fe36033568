-- ===== src/Lfs/Download/Events.antt =====
-- internal/lfs: the events of a fetch, and the objects that they show in the store.
use git_backup.Base.{
  Bytes, Bool, List, [], any, any-append, ap, append-nil, append_assoc, arith, false, map, refl,
  sym, text_eq, true, ◌++◌, ◌∙◌, ◌∷◌, ◌≡◌, Bool-cases, inl, inr, none, some, subst, text_eq_sound,
  ℕ, ◌⊎◌,
}
use git_backup.Base.Result.{ok}
use git_backup.Lfs.Batch.{
  LfsEvent, LfsLog, found_in_store, not_downloaded, put_in_store, requested, BatchAction, Remote,
  transferred,
}
use git_backup.Lfs.Pointer.{Pointer}

-- The event shows that the object is in the store.
abbrev pub shows : Bytes → LfsEvent → Bool
shows oid (found_in_store other) = text_eq oid other
shows oid (put_in_store other) = text_eq oid other
shows oid (requested pointers) = false
shows oid (not_downloaded other) = false

abbrev pub IsHeld : LfsLog → Bytes → Type 0
IsHeld log oid = any (shows oid) log ≡ true

-- What the store or the server has answered before an event that shows an object: a file is there, or the download ended with status 200, a digest equal to the name, and the move into place.
abbrev pub Evidence : {E : Type 0} → Remote E → LfsLog → LfsEvent → Type 0
Evidence remote before (found_in_store oid) =
    (actual : ℕ) × (remote.stored_size before oid ≡ some actual)
Evidence remote before (put_in_store oid) =
    (action : BatchAction) × (remote.transfer before oid action ≡ transferred 200 (ok oid) none)
Evidence remote before (requested pointers) = Unit
Evidence remote before (not_downloaded oid) = Unit

-- The store holds the object: at some point of the fetch its file was there, or a download put it there.
abbrev pub InStore : {E : Type 0} → Remote E → LfsLog → Bytes → Type 0
InStore remote log oid =
    (before : LfsLog) × (after : LfsLog) × (before ++ after ≡ log)
    × (((actual : ℕ) × (remote.stored_size before oid ≡ some actual))
        ⊎ ((action : BatchAction) × (remote.transfer before oid action
              ≡ transferred 200 (ok oid) none)))

-- Each of the events behind `before` has its evidence.
abbrev pub Honest : {E : Type 0} → Remote E → LfsLog → LfsLog → Type 0
Honest remote before [] = Unit
Honest remote before (event ∷ more) =
    Evidence remote before event × Honest remote (before ++ event ∷ []) more

Honest-append :
    {E : Type 0} (remote : Remote E) (before more rest : LfsLog)
    → Honest remote before more
    → Honest remote (before ++ more) rest
    → Honest remote before (more ++ rest)
Honest-append remote before [] rest h g = subst (λ l. Honest remote l rest) (append-nil before) g
Honest-append remote before (event ∷ more) rest (e, h) g = (
  e,
  Honest-append remote (before ++ event ∷ []) more rest h
      (subst (λ l. Honest remote l rest) (sym (append_assoc before (event ∷ []) more)) g),
)

-- Later in the fetch.
pub record IsLater {E : Type 0} (remote : Remote E) (log later : LfsLog) : Type 0 where
  pub more : LfsLog
  pub same : log ++ more ≡ later
  pub honest : Honest remote log more

module _ {E : Type 0} {remote : Remote E} where
  pub IsLater-refl : (log : LfsLog) → IsLater remote log log
  IsLater-refl log = record { more = []; same = append-nil log; honest = tt }

  pub IsLater-trans :
      {a b c : LfsLog} → IsLater remote a b → IsLater remote b c → IsLater remote a c
  IsLater-trans {a} f g = record {
    more = f.more ++ g.more;
    same = sym (append_assoc a f.more g.more) ∙ ap (λ l. l ++ g.more) f.same ∙ g.same;
    honest =
        Honest-append remote a f.more g.more f.honest
          (subst (λ l. Honest remote l g.more) (sym f.same) g.honest);
  }

  pub IsLater-step :
      (log : LfsLog) (event : LfsEvent)
      → Evidence remote log event
      → IsLater remote log (log ++ event ∷ [])
  IsLater-step log event e = record { more = event ∷ []; same = refl; honest = (e, tt) }

  pub IsHeld-stays :
      (oid : Bytes) {log later : LfsLog}
      → IsLater remote log later
      → IsHeld log oid
      → IsHeld later oid
  IsHeld-stays oid {log} l h =
      ap (any (shows oid)) (sym l.same) ∙ any-append (shows oid) log l.more ∙ ground (arith, h)

module _ {E : Type 0} (remote : Remote E) where
  shown-InStore :
      (oid : Bytes) (before : LfsLog) (event : LfsEvent) (after : LfsLog)
      → shows oid event ≡ true
      → Evidence remote before event
      → InStore remote (before ++ event ∷ after) oid
  shown-InStore oid before (found_in_store other) after h e = (
    before,
    found_in_store other ∷ after,
    refl,
    inl (e.0, ap (remote.stored_size before) (text_eq_sound oid other h) ∙ e.1),
  )
  shown-InStore oid before (put_in_store other) after h e =
      let same = text_eq_sound oid other h in
      (
        before,
        put_in_store other ∷ after,
        refl,
        inr (
            subst
              (λ o.
                (action : BatchAction) × (remote.transfer before o action
                  ≡ transferred 200 (ok o) none))
              (sym same) e),
      )
  shown-InStore oid before (requested pointers) after h e = absurd (cc)
  shown-InStore oid before (not_downloaded other) after h e = absurd (cc)

  IsHeld-InStore :
      (oid : Bytes) (before more : LfsLog)
      → Honest remote before more
      → IsHeld more oid
      → InStore remote (before ++ more) oid
  IsHeld-InStore oid before [] h held = absurd (cc)
  IsHeld-InStore oid before (event ∷ more) (e, h) held = elim (Bool-cases (shows oid event)) [
    | inl shown ↦ shown-InStore oid before event more shown e
    | inr other ↦
        subst (λ l. InStore remote l oid) (append_assoc before (event ∷ []) more)
          (IsHeld-InStore oid (before ++ event ∷ []) more h (ground (arith, other, held)))
  ]

  pub stored_since :
      (log : LfsLog)
      → IsLater remote [] log
      → (oid : Bytes) → IsHeld log oid
      → InStore remote log oid
  stored_since log l oid held =
      subst (λ x. InStore remote x oid) l.same
        (IsHeld-InStore oid [] l.more l.honest (ap (any (shows oid)) l.same ∙ held))

pub just_shown :
    (oid : Bytes) (log : LfsLog) (event : LfsEvent)
    → shows oid event ≡ true
    → IsHeld (log ++ event ∷ []) oid
just_shown oid log event h = any-append (shows oid) log (event ∷ []) ∙ ground (arith, h)

abbrev pub oids : List Pointer → List Bytes
oids = map (λ (p : Pointer). p.oid)
