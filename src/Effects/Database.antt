-- ===== src/Effects/Database.antt =====
-- The tables of tool effects with their constraints and triggers (storage/004_tool_effects.sql).
use pg_agmemory.Prelude.{
  ℕ, ◌+◌, Bool, true, false, not, ◌&&◌, ◌||◌, Option, none, some, List, ◌∷◌, any, find, select,
  update, length, leb, ltb, ◌==◌, if◌then◌else◌,
}
use pg_agmemory.Text.{Text}
use pg_agmemory.Store.Tables.{
  Store, EffectStatus, planned, dispatched, unknown, confirmed, failed, ReceiptSource, Origin, api,
  checkpoint_restore, Run, ToolEffect, EffectRevision, EffectReference, EffectIdentity,
}
use pg_agmemory.Store.Exec.{
  Exec, database_error, serialization_failure, gets, or_raise, require, modify, ◌>>=◌, ◌>>◌,
}
use pg_agmemory.Store.Visibility.{Session, visible}
use pg_agmemory.Effects.Status.{status_eq, adoptable}

abbrev pub effect_row : Store → ℕ → Option ToolEffect
effect_row s id = find (λ (e : ToolEffect). e.id == id) s.effects

-- All revisions of an effect, the newest first.
abbrev pub history_rows : Store → ℕ → List EffectRevision
history_rows s id = select (λ (r : EffectRevision). r.effect_id == id) s.effect_revisions

abbrev pub revision_row : Store → ℕ → ℕ → Option EffectRevision
revision_row s id revision =
    find (λ (r : EffectRevision). r.revision == revision) (history_rows s id)

abbrev pub run_row : Store → ℕ → ℕ → Option Run
run_row s scope_id run_id = find (λ (r : Run). r.scope_id == scope_id && r.run_id == run_id) s.runs

-- The references whose source the policy source_read shows.
abbrev pub effect_references_of : Session → Store → ℕ → List EffectReference
effect_references_of env s id =
    select (λ (r : EffectReference). r.effect_id == id && visible env s r.source_id)
      s.effect_references

-- `effects_invalidated` of a run; a run that is missing counts as invalidated, as the trigger's
-- SELECT INTO STRICT fails on it.
abbrev invalidated : Option Run → Bool
invalidated none = true
invalidated (some run) = run.effects_invalidated

abbrev pub in_run : ℕ → ℕ → ToolEffect → Bool
in_run scope_id run_id e = e.scope_id == scope_id && e.run_id == run_id

-- length(...) BETWEEN 1 AND 256
abbrev pub fits_256 : Text → Bool
fits_256 t = leb 1 (length t) && leb (length t) 256

-- INSERT INTO memory.tool_effect, with its keys, the lengths and counts of its columns and the trigger
-- guard_tool_effect.
unfoldable pub insert_effect : ToolEffect → Exec (Unit {0})
insert_effect e = do
  run ← gets (λ s. run_row s e.scope_id e.run_id)
  require (not (invalidated run)) database_error
  total ← gets (λ s. length (select (in_run e.scope_id e.run_id) s.effects))
  require (ltb total 100 && e.current_revision == 1) database_error
  require (fits_256 e.tool_name && leb e.reference_count 100) database_error
  taken ← gets (λ s.
      any
        (λ (o : ToolEffect).
          o.id == e.id || (in_run e.scope_id e.run_id o && o.operation_id == e.operation_id))
        s.effects)
  require (not taken) database_error
  modify (λ s. record s { effects = e ∷ s.effects })

unfoldable pub insert_reference : EffectReference → Exec (Unit {0})
insert_reference r = do
  taken ← gets (λ s.
      any
        (λ (o : EffectReference).
          o.effect_id == r.effect_id
          && (o.source_id == r.source_id && o.source_revision == r.source_revision))
        s.effect_references)
  require (not taken) database_error
  modify (λ s. record s { effect_references = r ∷ s.effect_references })

unfoldable pub insert_identity : EffectIdentity → Exec (Unit {0})
insert_identity i = do
  taken ← gets (λ s.
      any
        (λ (o : EffectIdentity).
          o.scope_id == i.scope_id && (o.run_id == i.run_id && o.operation_id == i.operation_id))
        s.effect_identities)
  require (not taken) database_error
  modify (λ s. record s { effect_identities = i ∷ s.effect_identities })

-- The CHECK of memory.tool_effect_revision: an outcome comes with a receipt, nothing else does.
unfoldable pub receipts_valid : EffectStatus → Option Text → Option ReceiptSource → Bool
receipts_valid confirmed (some reference) (some source) = fits_256 reference
receipts_valid failed (some reference) (some source) = fits_256 reference
receipts_valid planned none none = true
receipts_valid dispatched none none = true
receipts_valid unknown none none = true
receipts_valid _ _ _ = false

abbrev from_api : Origin → Bool
from_api api = true
from_api checkpoint_restore = false

-- The two cases of memory.adopt_tool_effect_revision after it has read the head.
unfoldable pub adopt : EffectRevision → ToolEffect → Exec (Unit {0})
unfolding adoptable
adopt r e =
    if r.revision == 1
    then require (e.current_revision == 1 && (status_eq r.status planned && from_api r.origin))
        database_error
    else do
      row ← gets (λ s. revision_row s r.effect_id e.current_revision)
      previous ← or_raise row database_error
      require
          (r.revision == e.current_revision + 1
            && (adoptable previous.status r.status
                && (from_api r.origin
                    || (status_eq previous.status dispatched && status_eq r.status unknown))))
          database_error
      require (ltb previous.recorded_at r.recorded_at) serialization_failure
      modify (λ s. record s {
        effects =
            update (λ (o : ToolEffect). o.id == r.effect_id)
              (λ (o : ToolEffect). record o { current_revision = r.revision }) s.effects;
      })

-- INSERT INTO memory.tool_effect_revision, with its constraints and its trigger.
unfoldable pub insert_revision : EffectRevision → Exec (Unit {0})
unfolding adopt receipts_valid
insert_revision r = do
  head ← gets (λ s. effect_row s r.effect_id)
  e ← or_raise head database_error
  run ← gets (λ s. run_row s e.scope_id e.run_id)
  require (not (status_eq r.status dispatched && invalidated run)) database_error
  adopt r e
  taken ←
      gets
        (λ s. any (λ (o : EffectRevision). o.revision == r.revision) (history_rows s r.effect_id))
  require
      (leb 1 r.revision
        && (leb r.revision 4
            && (fits_256 r.reason
                && (receipts_valid r.status r.receipt_reference r.receipt_source && not taken))))
      database_error
  modify (λ s. record s { effect_revisions = r ∷ s.effect_revisions })
