-- ===== src/Context/Repository/Changes.antt =====
-- Each operation's change of a row, as the code writes it, is one of those that `Evolves` allows.
use memoflow_api.Prelude.{
  ℕ, ◌≤◌, String, ◌≡◌, refl, sym, ◌∙◌, Bool-cases, eqb→eq, true, false, some, List, [], ◌∷◌, ◌++◌,
  map, any, eqb, arith, inl, inr, All, All-append,
}
use mathlib.Core.Bool.{false≢true}
use mathlib.Core.List.{map-append}
use memoflow_api.Context.Json.{Fields}
use memoflow_api.Context.Job.{
  JobStatus, planning, completed, failed, AccumulatedDataChunk, PlanningJobDoc, is_pending,
  is_gathering, is_finished,
}
use memoflow_api.Context.Repository.{
  UpdatePlanningJobStatusData, AppendResultChunkData, ChunkData, data_chunk, status_chunk,
  GatherFailure, to_update_doc, push_chunk, is_new_sequence,
}
use memoflow_api.Context.Repository.Rows.{
  rank, Extends_refl, Evolves, Evolves-of_kept, Distinct-concat, any-append,
}

-- A patch that ends a job: completed with a result, or failed with a code and a message.
pub record IsVerdict (p : UpdatePlanningJobStatusData) : Type 0 where
  pub finished : is_finished p.status ≡ true
  pub with_result : p.status ≡ completed → (r : Fields) × (p.result ≡ some (some r))
  pub with_reason :
      p.status ≡ failed
      → (code : String) × (message : String) × (p.error_code ≡ some (some code))
        × (p.error_message ≡ some (some message))
  pub at_time : (now : ℕ) × (p.finished_at ≡ some (some now))

pub claim-Evolves :
    (d : PlanningJobDoc) (to : JobStatus) (now : ℕ)
    → is_pending d.status ≡ true
    → rank to ≡ 1
    → Evolves d (record d { status = to; started_at = some now })
claim-Evolves d to now h r =
    Evolves-of_kept d _ (ground arith) refl refl refl (λ s. ground (arith, s.untouched))

pub plan-Evolves :
    (d : PlanningJobDoc) (context : Fields)
    → is_gathering d.status ≡ true
    → Evolves d (record d { status = planning; context_used = some context })
plan-Evolves d context h = Evolves-of_kept d _ (ground arith) refl refl refl (λ s. ground arith)

pub fail-Evolves :
    (d : PlanningJobDoc) (patch : GatherFailure) (now : ℕ)
    → is_gathering d.status ≡ true
    → Evolves d (record d {
      status = failed;
      error_code = some patch.error_code;
      error_message = some patch.error_message;
      finished_at = some now;
    })
fail-Evolves d patch now h = Evolves-of_kept d _ (ground arith) refl refl refl (λ s. ground arith)

finished-rank : (s t : JobStatus) → is_finished t ≡ true → rank s ≤ rank t
finished-rank s t h = ground arith

pub verdict-Evolves :
    (d : PlanningJobDoc) (p : UpdatePlanningJobStatusData)
    → IsVerdict p
    → Evolves d (to_update_doc p d)
unfolding to_update_doc
verdict-Evolves d p v =
    Evolves-of_kept d _ (finished-rank d.status p.status v.finished) refl refl refl (λ s. record {
      untouched = ground (arith, v.finished);
      with_result = λ e. rw ((v.with_result e).1, v.at_time.1) (tt, tt);
      with_reason = λ e. let r = v.with_reason e in rw (r.2, r.3, v.at_time.1) (tt, tt, tt);
    })

-- A recorded number stays recorded when another is added at the end.
recorded-concat :
    (n : ℕ) (ks : List ℕ) (cs : List AccumulatedDataChunk)
    → All (λ c. any (λ k. eqb k c.sequence) ks ≡ true) cs
    → All (λ c. any (λ k. eqb k c.sequence) (ks ++ n ∷ []) ≡ true) cs
recorded-concat n ks [] h = tt
recorded-concat n ks (c ∷ cs) (p, h) =
    (ground (arith, any-append c.sequence ks (n ∷ [])), recorded-concat n ks cs h)

-- A number that is not recorded is not that of a data chunk.
unused :
    (n : ℕ) (ks : List ℕ) (cs : List AccumulatedDataChunk)
    → any (λ k. eqb k n) ks ≡ false
    → All (λ c. any (λ k. eqb k c.sequence) ks ≡ true) cs
    → any (λ k. eqb k n) (map (λ c. c.sequence) cs) ≡ false
unused n ks [] new h = refl
unused n ks (c ∷ cs) new (p, h) = elim (Bool-cases (eqb c.sequence n)) [
  | inl same ↦
      let e : c.sequence ≡ n = eqb→eq c.sequence n same in
      absurd (false≢true (sym new ∙ (rw e at p)))
  | inr differs ↦ rw differs (unused n ks cs new h)
]

status-Evolves :
    (n : ℕ) (d : PlanningJobDoc)
    → is_new_sequence n d ≡ true
    → Evolves d (record d { chunk_sequences = d.chunk_sequences ++ n ∷ [] })
unfolding is_new_sequence
status-Evolves n d new = record {
  forward = omega arith;
  owner = refl;
  sequences = (n ∷ [], refl);
  chunks = Extends_refl d.data_chunks;
  sound = λ h. record {
    settled = record {
      untouched = h.settled.untouched;
      with_result = h.settled.with_result;
      with_reason = h.settled.with_reason;
    };
    tallied = record {
      distinct = Distinct-concat n d.chunk_sequences (ground arith) h.tallied.distinct;
      distinct_chunks = h.tallied.distinct_chunks;
      recorded = recorded-concat n d.chunk_sequences d.data_chunks h.tallied.recorded;
    };
  };
}

data-Evolves :
    (c : AccumulatedDataChunk) (d : PlanningJobDoc)
    → is_new_sequence c.sequence d ≡ true
    → Evolves d (record d {
      chunk_sequences = d.chunk_sequences ++ c.sequence ∷ [];
      data_chunks = d.data_chunks ++ c ∷ [];
    })
unfolding is_new_sequence
data-Evolves c d new = record {
  forward = omega arith;
  owner = refl;
  sequences = (c.sequence ∷ [], refl);
  chunks = (c ∷ [], refl);
  sound = λ h.
      let fresh : any (λ k. eqb k c.sequence) d.chunk_sequences ≡ false = ground arith in
      record {
        settled = record {
          untouched = h.settled.untouched;
          with_result = h.settled.with_result;
          with_reason = h.settled.with_reason;
        };
        tallied = record {
          distinct = Distinct-concat c.sequence d.chunk_sequences fresh h.tallied.distinct;
          distinct_chunks = rw map-append (
              Distinct-concat c.sequence (map (λ x. x.sequence) d.data_chunks)
                (unused c.sequence d.chunk_sequences d.data_chunks fresh h.tallied.recorded)
                h.tallied.distinct_chunks);
          recorded =
              All-append _ d.data_chunks (c ∷ [])
                (recorded-concat c.sequence d.chunk_sequences d.data_chunks h.tallied.recorded)
                (ground (arith, any-append c.sequence d.chunk_sequences (c.sequence ∷ [])), tt);
        };
      };
}

pub push-Evolves :
    (c : AppendResultChunkData) (d : PlanningJobDoc)
    → is_new_sequence c.sequence d ≡ true
    → Evolves d (push_chunk c d)
unfolding push_chunk
push-Evolves c d new = by_payload c.payload
  where
    by_payload : (payload : ChunkData) → Evolves d (push_chunk (record c { payload = payload }) d)
    by_payload (data_chunk provider content tokens) = data-Evolves _ d new
    by_payload status_chunk = status-Evolves c.sequence d new
