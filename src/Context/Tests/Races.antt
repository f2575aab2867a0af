-- ===== src/Context/Tests/Races.antt =====
-- The theorems on the repository's updates at concrete rows.
use memoflow_api.Prelude.{◌≡◌, refl, false, none}
use memoflow_api.Text.{units}
use memoflow_api.Context.Json.{end}
use memoflow_api.Context.Job.{pending, gathering}
use memoflow_api.Context.Repository.{
  claim_for_planning, fail_if_still_gathering, claim_for_processing, claim_for_gathering,
  append_result_chunk, run_id_query, to_domain, new_row, AppendResultChunkData, data_chunk,
  status_chunk, push_chunk, is_new_sequence, GatherFailure,
}
use memoflow_api.Context.Repository.Steps.{here, row_at}
use memoflow_api.Context.Repository.Races.{one_winner, one_start, to_failed, to_gathering}
use memoflow_api.Context.Repository.Append.{append_once}
use memoflow_api.Context.Tests.Memory.{memory, find, change}
use memoflow_api.Context.Tests.Script.{rows_in}

abbrev reason : GatherFailure
reason = record { error_code = "CONTEXT_ENGINE_TIMEOUT"; error_message = "late" }

one_winner_example :
    ((claim_for_planning memory "j1" end
        (fail_if_still_gathering memory "j1" reason 7 (rows_in gathering)).1).0
      ≡ none)
    × ((fail_if_still_gathering memory "j1" reason 9
          (fail_if_still_gathering memory "j1" reason 7 (rows_in gathering)).1).0
        ≡ none)
unfolding fail_if_still_gathering run_id_query new_row find change to_domain
one_winner_example =
    one_winner memory "j1" (rows_in gathering)
      (fail_if_still_gathering memory "j1" reason 7 (rows_in gathering)).1
      (fail_if_still_gathering memory "j1" reason 7 (rows_in gathering)).1
      (to_failed reason 7 _ refl refl) here end reason 9

one_start_example :
    ((claim_for_processing memory "j1" 9 (claim_for_gathering memory "j1" 7 (rows_in pending)).1).0
      ≡ none)
    × ((claim_for_gathering memory "j1" 9 (claim_for_gathering memory "j1" 7 (rows_in pending)).1).0
        ≡ none)
unfolding claim_for_gathering run_id_query new_row find change to_domain
one_start_example =
    one_start memory "j1" (rows_in pending) (claim_for_gathering memory "j1" 7 (rows_in pending)).1
      (claim_for_gathering memory "j1" 7 (rows_in pending)).1 (to_gathering 7 _ refl refl) here 9

abbrev first_chunk : AppendResultChunkData
first_chunk = record { sequence = 4; payload = data_chunk "trello" (units "cards") none }

abbrev second_chunk : AppendResultChunkData
second_chunk = record { sequence = 4; payload = status_chunk }

append_once_example :
    ((append_result_chunk memory "j1" second_chunk
        (append_result_chunk memory "j1" first_chunk (rows_in gathering)).1).0.applied
      ≡ false)
    × (row_at memory
          (append_result_chunk memory "j1" second_chunk
            (append_result_chunk memory "j1" first_chunk (rows_in gathering)).1).1
          "j1"
        ≡ row_at memory (append_result_chunk memory "j1" first_chunk (rows_in gathering)).1 "j1")
unfolding append_result_chunk run_id_query new_row find change is_new_sequence push_chunk
append_once_example =
    append_once memory (rows_in gathering) "j1" first_chunk second_chunk refl refl
      (append_result_chunk memory "j1" first_chunk (rows_in gathering)).1 here "j1"
