-- ===== src/Context/ResultChunk/Assembly.antt =====
-- The context that is handed to planning, against the order in which chunks arrived.
use mathlib.Core.List.{Permᴰ}
use memoflow_api.Prelude.{
  ℕ, ◌≡◌, refl, ap, Option, none, some, List, [], ◌∷◌, map, Distinct, sort_by, sort_by-perm,
  sort_by-Ascending, sort_by-perm_self, Ascending,
}
use memoflow_api.Text.{units}
use memoflow_api.Context.Json.{
  Json, Number, Items, Fields, null, num, str, arr, obj, nil, cons, end, field, get_key,
}
use memoflow_api.Context.Job.{AccumulatedDataChunk}
use memoflow_api.Context.ResultChunk.{chunk_items, token_field, assemble_context}

abbrev pub sequences : List AccumulatedDataChunk → List ℕ
sequences = map (λ d. d.sequence)

-- The assembled context does not depend on the order of arrival: chunks with distinct sequence
-- numbers give the same context in every order.
pub assemble_context-perm :
    (xs ys : List AccumulatedDataChunk)
    → Permᴰ xs ys
    → Distinct (sequences xs)
    → assemble_context xs ≡ assemble_context ys
unfolding assemble_context
assemble_context-perm xs ys p h =
    ap (λ (zs : List AccumulatedDataChunk). field "chunks" (arr (chunk_items zs)) end)
      (sort_by-perm (λ (d : AccumulatedDataChunk). d.sequence) p h)

abbrev members : Json → Fields
members (obj fields) = fields
members _ = end

abbrev estimate_json : Option Number → Json
estimate_json none = null
estimate_json (some n) = num n

-- The value is an object with the chunk's provider, content and token estimate.
abbrev IsItemOf : AccumulatedDataChunk → Json → Type 0
IsItemOf d j =
    (get_key "provider" (members j) ≡ some (str (units d.provider)))
    × (get_key "content" (members j) ≡ some (str d.content))
    × (get_key "tokenEstimate" (members j) ≡ some (estimate_json d.token_estimate))

-- The items are those of the chunks, one for each and in their order.
abbrev pub AreItemsOf : List AccumulatedDataChunk → Items → Type 0
AreItemsOf [] nil = Unit
AreItemsOf (d ∷ ds) (cons j js) = IsItemOf d j × AreItemsOf ds js
AreItemsOf _ _ = ⊥

chunk_items-AreItemsOf : (zs : List AccumulatedDataChunk) → AreItemsOf zs (chunk_items zs)
unfolding get_key
chunk_items-AreItemsOf [] = tt
chunk_items-AreItemsOf (d ∷ ds) =
    ((refl, refl, estimate d.token_estimate), chunk_items-AreItemsOf ds)
  where
    estimate : (o : Option Number) → some (token_field o) ≡ some (estimate_json o)
    estimate none = refl
    estimate (some n) = refl

-- The assembled context has a list under `chunks` with an object for every stored chunk, as often as
-- it was stored, that holds the chunk's provider, content and token estimate; the objects stand by
-- ascending sequence number.
pub assemble_context-Ascending :
    (xs : List AccumulatedDataChunk)
    → (zs : List AccumulatedDataChunk) × (items : Items) × (get_key "chunks" (assemble_context xs)
        ≡ some (arr items))
      × AreItemsOf zs items
      × Ascending (λ d. d.sequence) zs
      × Permᴰ zs xs
unfolding assemble_context get_key
assemble_context-Ascending xs = (
  sort_by (λ d. d.sequence) xs,
  chunk_items (sort_by (λ d. d.sequence) xs),
  refl,
  chunk_items-AreItemsOf (sort_by (λ d. d.sequence) xs),
  sort_by-Ascending (λ d. d.sequence) xs,
  sort_by-perm_self (λ d. d.sequence) xs,
)
