-- ===== src/Convey/State.antt =====
-- `Side` and `State` of src/convey.rs, and its errors.
use Prim.Native.String.{String}
use postgread.Prelude.{ℕ}
use postgread.Msg.TypeByte.{TypeByte}
use postgread.Msg.Decode
use postgread.Msg.Encode
use postgread.Msg.AsyncIo.{IoError}

pub data Side : Type 0 where
  backend frontend : Side

-- From the backend's point of view: it asked for something, or got it from the frontend.
pub data State : Type 0 where
  aborted_extended_query aborted_parsing_or_binding aborted_simple_query : State
  answering_to_extended_query answering_to_simple_query : State
  asked_cleartext_password asked_gss_response asked_md5_password : State
  asked_sasl_initial_response asked_sasl_response : State
  authenticated bound completed_extended_query completed_simple_command : State
  executing_extended_query finished_sasl : State
  got_any_sasl_response got_binding got_cleartext_password got_gss_response : State
  got_md5_password got_prepared_statement got_simple_query got_startup got_sync : State
  ready_for_query seen_empty_extended_query seen_empty_simple_query : State
  sent_all_backend_params suspended_extended_query : State

pub data TlsError : Type 0 where
  handshake_disrupted tls_requested_inside_tls : TlsError

-- `undecided` is no value of the program: a loop of the model used up its fuel.
pub data ConveyError : Type 0 where
  decode_error : Decode.Problem → ConveyError
  encode_error : Encode.Problem → ConveyError
  io_error : IoError → ConveyError
  tls_error : TlsError → ConveyError
  left_undecoded : ℕ → ConveyError
  undecided : ConveyError
  todo : String → ConveyError
  unexpected_type : State → Side → TypeByte → ConveyError
  unknown_type : Side → ℕ → ConveyError
  unsupported : String → ConveyError

-- Why a call does not go on: it returned an error, or it panicked.
pub data Exit : Type 0 where
  failed : ConveyError → Exit
  panicked : Exit
