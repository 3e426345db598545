-- ===== src/Paging.antt =====
-- The listings that come in pages, the newest first: query_episodes of src/pg_agmemory/service.py and
-- Jobs.query of src/pg_agmemory/jobs.py.
pub mod Pages
mod Tests
use pg_agmemory.Prelude.{
  ℕ, suc, ◌+◌, Bool, true, false, not, ◌&&◌, ◌||◌, Option, none, some, List, [], ◌∷◌, any, find,
  select, take, length, leb, ltb, ◌==◌, if◌then◌else◌,
}
use pg_agmemory.Store.Tables.{Store, Object, Episode, JobState, Job}
use pg_agmemory.Store.Exec.{Exec, pure, gets, ◌>>=◌, ◌>>◌}
use pg_agmemory.Store.Visibility.{Session, visible}
use pg_agmemory.Service.{order_by}
use pg_agmemory.Jobs.Database.{state_eq}
use pg_agmemory.Jobs
use pg_agmemory.Jobs.Models.{LoadedJob}

-- EpisodeCursor, JobCursor: the time and the id of the last row of a page.
pub record Cursor : Type 0 where
  pub at : ℕ
  pub id : ℕ

-- (a.at, a.id) < (b.at, b.id)
abbrev pub cursor_before : Cursor → Cursor → Bool
cursor_before a b = ltb a.at b.at || (a.at == b.at && ltb a.id b.id)

-- The rows before a cursor; all without one.
abbrev pub continues : Option Cursor → Cursor → Bool
continues none row = true
continues (some cursor) row = cursor_before row cursor

-- ORDER BY created_at DESC, id DESC
abbrev pub newer : Cursor → Cursor → Bool
newer a b = cursor_before b a

pub record Page : Type 0 where
  pub rows : List Cursor
  pub next_cursor : Option Cursor

abbrev pub last_of : List Cursor → Option Cursor
last_of [] = none
last_of (r ∷ []) = some r
last_of (r ∷ q ∷ l) = last_of (q ∷ l)

-- LIMIT max_items + 1, the page, and the cursor if there is one row more.
unfoldable pub page_of : ℕ → List Cursor → Page
page_of max_items rows =
    let limited = take (suc max_items) rows in
    record {
      rows = take max_items limited;
      next_cursor =
          if ltb max_items (length limited) then last_of (take max_items limited) else none;
    }

-- models.QueryEpisodes
pub record QueryEpisodes : Type 0 where
  pub scope_ids : List ℕ
  pub occurred_from : Option ℕ
  pub occurred_to : Option ℕ
  pub max_items : ℕ
  pub before : Option Cursor

-- models.QueryJobs
pub record QueryJobs : Type 0 where
  pub scope_ids : List ℕ
  pub states : List JobState
  pub max_items : ℕ
  pub before : Option Cursor

abbrev among : List ℕ → ℕ → Bool
among ids id = any (λ i. i == id) ids

abbrev from_on : Option ℕ → ℕ → Bool
from_on none t = true
from_on (some from) t = leb from t

abbrev until : Option ℕ → ℕ → Bool
until none t = true
until (some to) t = ltb t to

abbrev in_states : List JobState → JobState → Bool
in_states [] state = true
in_states (s ∷ states) state = any (state_eq state) (s ∷ states)

-- MemoryService.epochs
unfoldable pub epochs : Exec (ℕ × ℕ)
epochs = gets (λ s. (s.tenant.access_epoch, s.tenant.deletion_epoch))

module _ (env : Session) where
  -- One row of the join with memory.object, if the episode is selected.
  episode_rows : Store → QueryEpisodes → List Episode → List Cursor
  episode_rows s query [] = []
  episode_rows s query (e ∷ l) =
      let rest = episode_rows s query l in
      if among query.scope_ids e.scope_id
        && (from_on query.occurred_from e.occurred_at
            && (until query.occurred_to e.occurred_at && visible env s e.id))
      then (elim (find (λ (o : Object). o.id == e.id) s.objects) [
        | none ↦ rest
        | some o ↦ record { at = o.created_at; id = e.id } ∷ rest
      ])
      else rest

  -- MemoryService.query_episodes; the consistency epochs are those of the tenant.
  unfoldable pub query_episodes : QueryEpisodes → Exec (Page × (ℕ × ℕ))
  unfolding episode_rows page_of epochs
  query_episodes query = do
    rows ←
        gets
          (λ s. order_by newer (select (continues query.before) (episode_rows s query s.episodes)))
    consistency ← epochs
    pure (page_of query.max_items rows, consistency)

  job_rows : Store → QueryJobs → List Job → List Cursor
  job_rows s query [] = []
  job_rows s query (j ∷ l) =
      let rest = job_rows s query l in
      if j.principal_id == env.principal
        && (among query.scope_ids j.scope_id
            && (in_states query.states j.state && visible env s j.id))
      then record { at = j.created_at; id = j.id } ∷ rest
      else rest

  -- `self.get(row["id"])` for each row of the page
  get_all : List Cursor → Exec (List LoadedJob)
  get_all [] = pure []
  get_all (row ∷ rows) = do job ← Jobs.get env row.id; rest ← get_all rows; pure (job ∷ rest)

  -- Jobs.query
  unfoldable pub query_jobs : QueryJobs → Exec (List LoadedJob × Option Cursor × (ℕ × ℕ))
  unfolding job_rows get_all page_of epochs
  query_jobs query = do
    rows ← gets (λ s. order_by newer (select (continues query.before) (job_rows s query s.jobs)))
    jobs ← get_all (page_of query.max_items rows).rows
    consistency ← epochs
    pure (jobs, (page_of query.max_items rows).next_cursor, consistency)
