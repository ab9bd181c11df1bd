-- ===== src/Jobs/Queue.antt =====
-- infrastructure/jobs/queue/redis-job-queue.ts and idempotency/redis-idempotency.guard.ts. Keys do not
-- expire, an entry of the stream is well formed, and the stream is not trimmed.
use main_acounting_system.Prelude.{
  Bool, List, Option, [], any, false, if◌then◌else◌, if◌then◌else◌, if◌then◌else◌, leb, ltb, none,
  some, suc, true, zero, ℕ, ◌&&◌, ◌++◌, ◌+◌, ◌==◌, ◌||◌, ◌∷◌,
}
use main_acounting_system.Jobs.{
  JobEnvelope, JobId, JobRecord, JobStatus, JobStore, completed, failed, queued, retrying, running,
}
use main_acounting_system.Primitives.Text.{Text, text_eq}

unfoldable pub lookup_state : JobId → List (JobId × JobRecord) → Option JobRecord
lookup_state id [] = none
lookup_state id ((k, record') ∷ rest) = if k == id then some record' else lookup_state id rest

-- `SET`.
unfoldable pub put_state : JobId → JobRecord → List (JobId × JobRecord) → List (JobId × JobRecord)
put_state id value [] = (id, value) ∷ []
put_state id value ((k, old) ∷ rest) =
    let rest' = put_state id value rest in if k == id then (id, value) ∷ rest else (k, old) ∷ rest'

-- `saveState` and `loadState`.
unfoldable pub save_state : JobRecord → JobStore → JobStore
save_state value store = record store {
  states = put_state value.envelope.job_id value store.states;
}

unfoldable pub load_state : JobId → JobStore → Option JobRecord
load_state id store = lookup_state id store.states

-- `XACK`.
unfoldable pub without_entry : ℕ → List (ℕ × JobEnvelope) → List (ℕ × JobEnvelope)
without_entry id [] = []
without_entry id ((k, envelope) ∷ rest) =
    let rest' = without_entry id rest in if k == id then rest' else (k, envelope) ∷ rest'

unfoldable pub acknowledge : ℕ → JobStore → JobStore
acknowledge stream_id store = record store { pending = without_entry stream_id store.pending }

-- `push`.
unfoldable pub push : ℕ → JobEnvelope → JobStore → JobStore
unfolding save_state
push now envelope store =
    save_state
      (record {
        envelope = envelope;
        status = queued;
        updated_at = now;
        started_at = none;
        completed_at = none;
        last_error = none;
      })
      (record store {
        stream = store.stream ++ (store.next_stream_id, envelope) ∷ [];
        next_stream_id = store.next_stream_id + 1;
      })

-- `claim`: the first entries of the stream, now pending.
unfoldable pub claim_entries : ℕ → JobStore → List (ℕ × JobEnvelope) × JobStore
claim_entries zero store = ([], store)
claim_entries (suc count) store = elim store.stream [
  | [] ↦ ([], store)
  | entry ∷ stream ↦
      let (claimed, store') =
        claim_entries count
          (record store { stream = stream; pending = store.pending ++ entry ∷ [] }) in
      (entry ∷ claimed, store')
]

-- `ZREM`, and `ZADD` in the order of the scores.
unfoldable pub remove_delayed : JobId → List (JobId × ℕ) → List (JobId × ℕ)
remove_delayed id [] = []
remove_delayed id ((k, score) ∷ rest) =
    let rest' = remove_delayed id rest in if k == id then rest' else (k, score) ∷ rest'

unfoldable pub insert_delayed : JobId → ℕ → List (JobId × ℕ) → List (JobId × ℕ)
insert_delayed id score [] = (id, score) ∷ []
insert_delayed id score ((k, s) ∷ rest) =
    let rest' = insert_delayed id score rest in
    if ltb score s || score == s && ltb id k then (id, score) ∷ (k, s) ∷ rest else (k, s) ∷ rest'

-- `scheduleRetry`.
unfoldable pub schedule_retry : ℕ → JobRecord → ℕ → JobStore → JobStore
unfolding save_state insert_delayed remove_delayed
schedule_retry now value delay store =
    let saved = save_state value store in
    record saved {
      delayed =
          insert_delayed value.envelope.job_id (now + delay)
            (remove_delayed value.envelope.job_id saved.delayed);
    }

abbrev pub is_delayed : JobId → List (JobId × ℕ) → Bool
is_delayed id [] = false
is_delayed id ((k, score) ∷ rest) = k == id || is_delayed id rest

abbrev pub is_retrying : JobStatus → Bool
is_retrying queued = false
is_retrying running = false
is_retrying completed = false
is_retrying retrying = true
is_retrying failed = false

abbrev pub retry_name : Text
retry_name = 114 ∷ 101 ∷ 116 ∷ 114 ∷ 121 ∷ []

-- The envelope that a promotion pushes.
unfoldable pub next_attempt : JobEnvelope → JobEnvelope
next_attempt envelope = record envelope { attempt = envelope.attempt + 1; enqueued_by = retry_name }

-- One turn of the loop of `promoteDue`: how many it promoted.
unfoldable pub promote_one : ℕ → JobId → JobStore → ℕ × JobStore
unfolding remove_delayed load_state push next_attempt
promote_one now id store =
    let removed = record store { delayed = remove_delayed id store.delayed } in
    if is_delayed id store.delayed
    then (elim (load_state id removed) [
      | none ↦ (0, removed)
      | some value ↦
          if is_retrying value.status
          then (1, push now (next_attempt value.envelope) removed)
          else (0, removed)
    ])
    else (0, store)

-- `ZRANGEBYSCORE … 0 now LIMIT 0 count`.
unfoldable pub due_jobs : ℕ → ℕ → List (JobId × ℕ) → List JobId
due_jobs now zero delayed = []
due_jobs now (suc count) [] = []
due_jobs now (suc count) ((id, score) ∷ rest) =
    let others = due_jobs now count rest in if leb score now then id ∷ others else []

unfoldable pub promote_all : ℕ → List JobId → JobStore → ℕ × JobStore
unfolding promote_one
promote_all now [] store = (0, store)
promote_all now (id ∷ ids) store =
    let (promoted, store') = promote_one now id store in
    let (rest, store'') = promote_all now ids store' in (promoted + rest, store'')

-- `promoteDue`.
unfoldable pub promote_due : ℕ → ℕ → JobStore → ℕ × JobStore
unfolding promote_all due_jobs
promote_due now limit store = promote_all now (due_jobs now limit store.delayed) store

-- The guard's `claim`, a `SET NX`, and its `release`.
unfoldable pub is_claimed : Text → JobStore → Bool
is_claimed key store = any (text_eq key) store.claims

unfoldable pub claim_key : Text → JobStore → JobStore
claim_key key store = record store { claims = key ∷ store.claims }

unfoldable pub release_from : Text → List Text → List Text
release_from key [] = []
release_from key (k ∷ claims) =
    let rest = release_from key claims in if text_eq key k then rest else k ∷ rest

unfoldable pub release_key : Text → JobStore → JobStore
unfolding release_from
release_key key store = record store { claims = release_from key store.claims }
