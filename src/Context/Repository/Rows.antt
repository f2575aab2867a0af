-- ===== src/Context/Repository/Rows.antt =====
-- What the repository's operations may do to one row, and what holds of every row.
use memoflow_api.Prelude.{
  ℕ, ◌≤◌, ◌≡◌, refl, ap, sym, ◌∙◌, true, false, ◌||◌, Option, none, some, List, [], ◌∷◌, ◌++◌, map,
  any, eqb, Distinct, arith, All,
}
use mathlib.Core.List.{append_assoc, append-nil}
use memoflow_api.Context.Job.{
  JobStatus, pending, running, gathering, planning, completed, failed, PlanningJobDoc,
}

-- How far a job has come: no operation takes it back.
abbrev pub rank : JobStatus → ℕ
rank pending = 0
rank running = 1
rank gathering = 1
rank planning = 2
rank completed = 3
rank failed = 3

abbrev pub Present {ℓ} : {A : Type ℓ} → Option A → Type 0
Present none = ⊥
Present (some a) = Unit

-- The columns that go with a status.
pub record IsSettled (d : PlanningJobDoc) : Type 0 where
  pub untouched : d.status ≡ pending → (d.started_at ≡ none) × (d.finished_at ≡ none)
  pub with_result : d.status ≡ completed → Present d.result × Present d.finished_at
  pub with_reason :
      d.status ≡ failed → Present d.error_code × Present d.error_message × Present d.finished_at

-- Every sequence number is recorded once, and every data chunk's number is recorded.
pub record IsTallied (d : PlanningJobDoc) : Type 0 where
  pub distinct : Distinct d.chunk_sequences
  pub distinct_chunks : Distinct (map (λ c. c.sequence) d.data_chunks)
  pub recorded : All (λ c. any (λ k. eqb k c.sequence) d.chunk_sequences ≡ true) d.data_chunks

-- What holds of every row, between any two operations.
pub record IsSound (d : PlanningJobDoc) : Type 0 where
  pub settled : IsSettled d
  pub tallied : IsTallied d

-- `ys` continues `xs`.
abbrev pub Extends {ℓ} : {A : Type ℓ} → List A → List A → Type ℓ
Extends {A} xs ys = (zs : List A) × (ys ≡ xs ++ zs)

-- How a row may change in one operation or several.
pub record Evolves (d e : PlanningJobDoc) : Type 0 where
  pub forward : rank d.status ≤ rank e.status
  pub owner : e.user_id ≡ d.user_id
  pub sequences : Extends d.chunk_sequences e.chunk_sequences
  pub chunks : Extends d.data_chunks e.data_chunks
  pub sound : IsSound d → IsSound e

pub Extends_refl {ℓ} : {A : Type ℓ} (xs : List A) → Extends xs xs
Extends_refl xs = ([], sym (append-nil xs))

pub Extends-trans {ℓ} :
    {A : Type ℓ} (xs ys zs : List A) → Extends xs ys → Extends ys zs → Extends xs zs
Extends-trans xs ys zs (us, p) (vs, q) =
    (us ++ vs, q ∙ (ap (λ l. l ++ vs) p ∙ append_assoc xs us vs))

pub Evolves-refl : (d : PlanningJobDoc) → Evolves d d
Evolves-refl d = record {
  forward = omega arith;
  owner = refl;
  sequences = Extends_refl d.chunk_sequences;
  chunks = Extends_refl d.data_chunks;
  sound = λ h. h;
}

pub Evolves-trans : (d e f : PlanningJobDoc) → Evolves d e → Evolves e f → Evolves d f
Evolves-trans d e f p q = record {
  forward = omega (arith, p.forward, q.forward);
  owner = q.owner ∙ p.owner;
  sequences = Extends-trans _ _ _ p.sequences q.sequences;
  chunks = Extends-trans _ _ _ p.chunks q.chunks;
  sound = λ h. q.sound (p.sound h);
}

-- An operation that leaves the chunk columns alone.
pub Evolves-of_kept :
    (d e : PlanningJobDoc)
    → rank d.status ≤ rank e.status
    → e.user_id ≡ d.user_id
    → e.chunk_sequences ≡ d.chunk_sequences
    → e.data_chunks ≡ d.data_chunks
    → (IsSettled d → IsSettled e)
    → Evolves d e
Evolves-of_kept d e up same p q settle = record {
  forward = up;
  owner = same;
  sequences = ([], p ∙ sym (append-nil d.chunk_sequences));
  chunks = ([], q ∙ sym (append-nil d.data_chunks));
  sound = λ h. record {
    settled = settle h.settled;
    tallied = record {
      distinct = rw p h.tallied.distinct;
      distinct_chunks = rw q h.tallied.distinct_chunks;
      recorded = rw (p, q) h.tallied.recorded;
    };
  };
}

pub any-append :
    (n : ℕ) (xs ys : List ℕ)
    → any (λ k. eqb k n) (xs ++ ys) ≡ (any (λ k. eqb k n) xs || any (λ k. eqb k n) ys)
any-append n [] ys = refl
any-append n (x ∷ xs) ys = ground (arith, any-append n xs ys)

pub Distinct-concat :
    (n : ℕ) (xs : List ℕ) → any (λ k. eqb k n) xs ≡ false → Distinct xs → Distinct (xs ++ n ∷ [])
Distinct-concat n [] new h = (refl, tt)
Distinct-concat n (x ∷ xs) new (fresh, h) =
    (ground (arith, any-append x xs (n ∷ [])), Distinct-concat n xs (ground arith) h)
