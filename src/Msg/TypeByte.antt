-- ===== src/Msg/TypeByte.antt =====
-- src/msg/type_byte.rs: the first byte of a message, as an enumeration.
use postgread.Prelude.{ℕ, ◌≡◌, refl, Option, none, some, ◌==◌, if◌then◌else◌, arith}

pub data TypeByte : Type 0 where
  authentication backend_key_data bind bind_complete command_complete : TypeByte
  data_row empty_query_response execute_or_error_response notice_response : TypeByte
  gss_response_or_password_or_sasl_responses negotiate_protocol_version : TypeByte
  parameter_status_or_sync parse parse_complete portal_suspended query : TypeByte
  ready_for_query row_description terminate : TypeByte

-- The derived `IntoPrimitive`.
unfoldable pub into : TypeByte → ℕ
into authentication = b'R'
into backend_key_data = b'K'
into bind = b'B'
into bind_complete = b'2'
into command_complete = b'C'
into data_row = b'D'
into empty_query_response = b'I'
into execute_or_error_response = b'E'
into notice_response = b'N'
into gss_response_or_password_or_sasl_responses = b'p'
into negotiate_protocol_version = b'v'
into parameter_status_or_sync = b'S'
into parse = b'P'
into parse_complete = b'1'
into portal_suspended = b's'
into query = b'Q'
into ready_for_query = b'Z'
into row_description = b'T'
into terminate = b'X'

-- The derived `TryFromPrimitive`: the variant of that discriminant, `none` for its error.
unfoldable pub try_from : ℕ → Option TypeByte
try_from b =
    if b == b'R'
    then some authentication
    else if b == b'K'
    then some backend_key_data
    else if b == b'B'
    then some bind
    else if b == b'2'
    then some bind_complete
    else if b == b'C'
    then some command_complete
    else if b == b'D'
    then some data_row
    else if b == b'I'
    then some empty_query_response
    else if b == b'E'
    then some execute_or_error_response
    else if b == b'N'
    then some notice_response
    else if b == b'p'
    then some gss_response_or_password_or_sasl_responses
    else if b == b'v'
    then some negotiate_protocol_version
    else if b == b'S'
    then some parameter_status_or_sync
    else if b == b'P'
    then some parse
    else if b == b'1'
    then some parse_complete
    else if b == b's'
    then some portal_suspended
    else if b == b'Q'
    then some query
    else if b == b'Z'
    then some ready_for_query
    else if b == b'T'
    then some row_description
    else if b == b'X'
    then some terminate
    else none

-- Every variant is read back from its byte.
pub try_from-into : (t : TypeByte) → try_from (into t) ≡ some t
unfolding try_from into
try_from-into authentication = refl
try_from-into _ = refl

-- A byte that is read as a variant is that variant's own byte.
pub into-try_from : (b : ℕ) (t : TypeByte) → try_from b ≡ some t → into t ≡ b
unfolding try_from into
into-try_from b t h = ground arith
