-- ===== src/Tests/Frontend.antt =====
-- The bodies of the messages of one side, one of each kind, against what their bytes are.
use postgread.Prelude.{ℕ, ◌≡◌, List, [], ◌∷◌, some, Result, ◌↔◌, AllBytes, arith}
use postgread.Msg.Decode.Reads.{text_bytes}
use postgread.Msg.Decode.Sound.{IsText}
use postgread.Msg.Read.{decode_msg}
use postgread.Msg.Parts.{Format, Value}
use postgread.Msg.Body.Initial.{Initial, IsInitial, initial_bytes, initial_msg, decode_initial_iff}
use postgread.Msg.Body.Statements.{
  Query, query_msg, decode_query_iff, Execute, IsExecute, execute_bytes, execute_msg,
  decode_execute_iff, Parse, IsParse, parse_bytes, parse_msg, decode_parse_iff, Bind, IsBind,
  bind_bytes, bind_msg, decode_bind_iff,
}
use postgread.Msg.Body.Credentials.{
  Password, password_msg, decode_password_iff, GssResponse, gss_response_msg,
  decode_gss_response_iff, SaslResponse, sasl_response_msg, decode_sasl_response_iff,
  SaslInitialResponse, IsSaslInitialResponse, sasl_initial_response_bytes,
  sasl_initial_response_msg, decode_sasl_initial_response_iff,
}

abbrev initial_input : List ℕ
initial_input = 0 ∷ 3 ∷ 0 ∷ 0 ∷ b'u' ∷ 0 ∷ b'p' ∷ 0 ∷ 0 ∷ []

abbrev initial_value : Initial
initial_value = Initial.startup (record {
  version = record { major = 3; minor = 0 };
  params = record { name = b'u' ∷ []; value = b'p' ∷ [] } ∷ [];
})

decode_initial_iff_example :
    (decode_msg initial_msg initial_input ≡ Result.ok initial_value)
    ↔ (IsInitial initial_value × (initial_input ≡ initial_bytes initial_value))
decode_initial_iff_example = decode_initial_iff initial_input initial_value (ground arith)

abbrev query_input : List ℕ
query_input = b'q' ∷ 0 ∷ []

abbrev query_value : Query
query_value = record { query = b'q' ∷ [] }

decode_query_iff_example :
    (decode_msg query_msg query_input ≡ Result.ok query_value)
    ↔ (IsText query_value.query × (query_input ≡ text_bytes query_value.query))
decode_query_iff_example = decode_query_iff query_input query_value (ground arith)

abbrev execute_input : List ℕ
execute_input = b'p' ∷ 0 ∷ 0 ∷ 0 ∷ 0 ∷ 7 ∷ []

abbrev execute_value : Execute
execute_value = record { portal_name = b'p' ∷ []; rows_limit = 7 }

decode_execute_iff_example :
    (decode_msg execute_msg execute_input ≡ Result.ok execute_value)
    ↔ (IsExecute execute_value × (execute_input ≡ execute_bytes execute_value))
decode_execute_iff_example = decode_execute_iff execute_input execute_value (ground arith)

abbrev parse_input : List ℕ
parse_input = b's' ∷ 0 ∷ b'q' ∷ 0 ∷ 0 ∷ 1 ∷ 0 ∷ 0 ∷ 0 ∷ 23 ∷ []

abbrev parse_value : Parse
parse_value = record {
  prepared_statement_name = b's' ∷ [];
  query = b'q' ∷ [];
  parameters_types = 23 ∷ [];
}

decode_parse_iff_example :
    (decode_msg parse_msg parse_input ≡ Result.ok parse_value)
    ↔ (IsParse parse_value × (parse_input ≡ parse_bytes parse_value))
decode_parse_iff_example = decode_parse_iff parse_input parse_value (ground arith)

abbrev bind_input : List ℕ
bind_input =
    0 ∷ b's' ∷ 0 ∷ 0 ∷ 1 ∷ 0 ∷ 1 ∷ 0 ∷ 2 ∷ 255 ∷ 255 ∷ 255 ∷ 255 ∷ 0 ∷ 0 ∷ 0 ∷ 1 ∷ 9 ∷ 0 ∷ 1 ∷ 0 ∷ 0
    ∷ []

abbrev bind_value : Bind
bind_value = record {
  prepared_statement_name = b's' ∷ [];
  portal_name = [];
  parameters_formats = Format.binary ∷ [];
  parameters_values = Value.null ∷ Value.bytes (9 ∷ []) ∷ [];
  results_formats = Format.text ∷ [];
}

decode_bind_iff_example :
    (decode_msg bind_msg bind_input ≡ Result.ok bind_value)
    ↔ (IsBind bind_value × (bind_input ≡ bind_bytes bind_value))
decode_bind_iff_example = decode_bind_iff bind_input bind_value (ground arith)

abbrev password_input : List ℕ
password_input = b'p' ∷ 0 ∷ []

abbrev password_value : Password
password_value = record { password = b'p' ∷ [] }

decode_password_iff_example :
    (decode_msg password_msg password_input ≡ Result.ok password_value)
    ↔ (IsText password_value.password × (password_input ≡ text_bytes password_value.password))
decode_password_iff_example = decode_password_iff password_input password_value (ground arith)

abbrev gss_response_input : List ℕ
gss_response_input = 1 ∷ 2 ∷ []

abbrev gss_response_value : GssResponse
gss_response_value = record { data_bytes = 1 ∷ 2 ∷ [] }

decode_gss_response_iff_example :
    (decode_msg gss_response_msg gss_response_input ≡ Result.ok gss_response_value) ↔ (
      AllBytes gss_response_value.data_bytes × (gss_response_input ≡ gss_response_value.data_bytes))
decode_gss_response_iff_example =
    decode_gss_response_iff gss_response_input gss_response_value (ground arith)

abbrev sasl_response_input : List ℕ
sasl_response_input = 1 ∷ 2 ∷ []

abbrev sasl_response_value : SaslResponse
sasl_response_value = record { mechanism_data = 1 ∷ 2 ∷ [] }

decode_sasl_response_iff_example :
    (decode_msg sasl_response_msg sasl_response_input ≡ Result.ok sasl_response_value) ↔ (
      AllBytes sasl_response_value.mechanism_data
      × (sasl_response_input ≡ sasl_response_value.mechanism_data))
decode_sasl_response_iff_example =
    decode_sasl_response_iff sasl_response_input sasl_response_value (ground arith)

abbrev sasl_initial_response_input : List ℕ
sasl_initial_response_input = b'm' ∷ 0 ∷ 0 ∷ 0 ∷ 0 ∷ 1 ∷ 9 ∷ []

abbrev sasl_initial_response_value : SaslInitialResponse
sasl_initial_response_value = record {
  selected_mechanism = b'm' ∷ [];
  mechanism_data = some (9 ∷ []);
}

decode_sasl_initial_response_iff_example :
    (decode_msg sasl_initial_response_msg sasl_initial_response_input
      ≡ Result.ok sasl_initial_response_value)
    ↔ (IsSaslInitialResponse sasl_initial_response_value
        × (sasl_initial_response_input ≡ sasl_initial_response_bytes sasl_initial_response_value))
decode_sasl_initial_response_iff_example =
    decode_sasl_initial_response_iff sasl_initial_response_input sasl_initial_response_value
      (ground arith)
