-- ===== src/Tests/Signals.antt =====
-- The messages without a body, where there is none.
use postgread.Prelude.{ℕ, ◌≡◌, ◌↔◌, List, [], Result}
use postgread.Msg.Read.{decode_msg}
use postgread.Msg.Body.Signals.{
  bind_complete, bind_complete_msg, empty_query_response, empty_query_response_msg, parse_complete,
  parse_complete_msg, portal_suspended, portal_suspended_msg, sync, sync_msg, terminate,
  terminate_msg, decode_signals_iff,
}

decode_signals_iff_example :
    ((decode_msg bind_complete_msg [] ≡ Result.ok bind_complete) ↔ (◌≡◌ {A = List ℕ} [] []))
    × ((decode_msg empty_query_response_msg [] ≡ Result.ok empty_query_response)
        ↔ (◌≡◌ {A = List ℕ} [] []))
    × ((decode_msg parse_complete_msg [] ≡ Result.ok parse_complete) ↔ (◌≡◌ {A = List ℕ} [] []))
    × ((decode_msg portal_suspended_msg [] ≡ Result.ok portal_suspended) ↔ (◌≡◌ {A = List ℕ} [] []))
    × ((decode_msg sync_msg [] ≡ Result.ok sync) ↔ (◌≡◌ {A = List ℕ} [] []))
    × ((decode_msg terminate_msg [] ≡ Result.ok terminate) ↔ (◌≡◌ {A = List ℕ} [] []))
decode_signals_iff_example = decode_signals_iff []
