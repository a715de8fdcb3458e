-- ===== src/Msg/Body/Statements.antt =====
-- src/msg/body/{bind,parse,execute,query}.rs: the statements of a frontend.
use postgread.Prelude.{
  ℕ, ◌<◌, ◌≡◌, refl, sym, List, ◌++◌, some, ok, length, AllBytes, All, items_bytes, u16_bytes,
  u32_bytes, ◌↔◌,
}
use postgread.Msg.TypeByte.{TypeByte}
use postgread.Msg.Decode.{MsgDecode, pure, ◌>>=◌, take_u16, take_u32, take_until_null}
use postgread.Msg.Decode.Reads.{text_bytes}
use postgread.Msg.Decode.Sound.{IsText}
use postgread.Msg.Decode.Exact.{
  Exact, ExactAll-of, Exact-iff, take_u32-Exact, take_until_null-Exact, IsU32, bind-Exact,
  last-Exact,
}
use postgread.Msg.Parts.{
  Format, Value, Text, decode_format, decode_text, decode_value, decode_u32, decode_vec,
}
use postgread.Msg.Parts.Exact.{
  Any, IsValue, format_bytes, value_bytes, decode_format-Exact, decode_text-Exact,
  decode_value-Exact, decode_u32-Exact, counted16-Exact,
}
use postgread.Msg.Read.{decode_msg}
use postgread.Msg.Read.Body.{decode_msg_iff}

pub record Query : Type 0 where
  pub query : List ℕ

abbrev pub query_type_byte : ℕ
query_type_byte = b'Q'

unfoldable pub query_msg : MsgDecode Query
query_msg = record {
  type_byte_opt = some TypeByte.query;
  decode_body = take_until_null >>= λ query. pure (record { query = query });
}

pub query-Exact : Exact (λ m. IsText m.query) (λ m. text_bytes m.query) query_msg.decode_body
unfolding query_msg
query-Exact =
    Exact-iff (λ m. IsText m.query) (λ m. (λ w. w.0, λ w. (w, tt)))
      (last-Exact (λ (m : Query). m.query) (λ m. Unit {0}) take_until_null-Exact
        (λ query. record { query = query }) (λ query w. (tt, refl)) (λ m h. refl))

-- A Query is accepted just if its body is a text with its null byte.
pub decode_query_iff :
    (input : List ℕ) (m : Query)
    → AllBytes input
    → (decode_msg query_msg input ≡ ok m) ↔ (IsText m.query × (input ≡ text_bytes m.query))
decode_query_iff =
    decode_msg_iff query_msg (λ m. IsText m.query) (λ m. text_bytes m.query)
      (ExactAll-of query-Exact)

pub record Execute : Type 0 where
  pub portal_name : Text
  pub rows_limit : ℕ

unfoldable pub execute_msg : MsgDecode Execute
execute_msg = record {
  type_byte_opt = some TypeByte.execute_or_error_response;
  decode_body = do
    portal_name ← decode_text
    rows_limit ← take_u32
    pure (record { portal_name = portal_name; rows_limit = rows_limit });
}

abbrev pub IsExecute : Execute → Type 0
IsExecute m = IsText m.portal_name × IsU32 m.rows_limit

unfoldable pub execute_bytes : Execute → List ℕ
execute_bytes m = text_bytes m.portal_name ++ u32_bytes m.rows_limit

pub IsExecute-Exact : Exact IsExecute execute_bytes execute_msg.decode_body
unfolding execute_msg execute_bytes
IsExecute-Exact =
    Exact-iff IsExecute (λ m. (λ w. w.0, λ w. (w, tt)))
      (bind-Exact (λ (m : Execute). m.portal_name) (λ m. Unit {0}) decode_text-Exact
        (λ name w.
          last-Exact (λ (m : Execute). m.rows_limit) (λ m. Unit {0} × (m.portal_name ≡ name))
            take_u32-Exact (λ limit. record { portal_name = name; rows_limit = limit })
            (λ limit w. ((tt, refl), refl))
            (λ m h i. record { portal_name = sym h.1 i; rows_limit = m.rows_limit })))

-- An Execute is accepted just if its body is the portal's name and the limit in four bytes.
pub decode_execute_iff :
    (input : List ℕ) (m : Execute)
    → AllBytes input
    → (decode_msg execute_msg input ≡ ok m) ↔ (IsExecute m × (input ≡ execute_bytes m))
decode_execute_iff =
    decode_msg_iff execute_msg IsExecute execute_bytes (ExactAll-of IsExecute-Exact)

pub record Parse : Type 0 where
  pub prepared_statement_name : Text
  pub query : Text
  pub parameters_types : List ℕ

unfoldable pub parse_msg : MsgDecode Parse
parse_msg = record {
  type_byte_opt = some TypeByte.parse;
  decode_body = do
    prepared_statement_name ← decode_text
    query ← decode_text
    parameters_types ← take_u16 >>= λ count. decode_vec count decode_u32
    pure (record {
      prepared_statement_name = prepared_statement_name;
      query = query;
      parameters_types = parameters_types;
    });
}

abbrev pub IsParse : Parse → Type 0
IsParse m =
    IsText m.prepared_statement_name
    × (IsText m.query × ((length m.parameters_types < 65536) × All IsU32 m.parameters_types))

unfoldable pub parse_bytes : Parse → List ℕ
parse_bytes m =
    text_bytes m.prepared_statement_name
    ++ (text_bytes m.query
        ++ (u16_bytes (length m.parameters_types) ++ items_bytes u32_bytes m.parameters_types))

pub IsParse-Exact : Exact IsParse parse_bytes parse_msg.decode_body
unfolding parse_msg parse_bytes
IsParse-Exact =
    Exact-iff IsParse (λ m. (λ w. w.0, λ w. (w, tt)))
      (bind-Exact (λ (m : Parse). m.prepared_statement_name) _ decode_text-Exact
        (λ name w.
          bind-Exact (λ (m : Parse). m.query) _ decode_text-Exact
            (λ query w.
              last-Exact (λ (m : Parse). m.parameters_types)
                (λ m. (Unit {0} × (m.prepared_statement_name ≡ name)) × (m.query ≡ query))
                (counted16-Exact IsU32 u32_bytes decode_u32 decode_u32-Exact)
                (λ types. record {
                  prepared_statement_name = name;
                  query = query;
                  parameters_types = types;
                })
                (λ types w. (((tt, refl), refl), refl))
                (λ m h i. record {
                  prepared_statement_name = sym h.0.1 i;
                  query = sym h.1 i;
                  parameters_types = m.parameters_types;
                }))))

-- A Parse is accepted just if its body is the statement's name, its text, and the number of the
-- parameters' types in two bytes with the types in four bytes each.
pub decode_parse_iff :
    (input : List ℕ) (m : Parse)
    → AllBytes input
    → (decode_msg parse_msg input ≡ ok m) ↔ (IsParse m × (input ≡ parse_bytes m))
decode_parse_iff = decode_msg_iff parse_msg IsParse parse_bytes (ExactAll-of IsParse-Exact)

pub record Bind : Type 0 where
  pub prepared_statement_name : Text
  pub portal_name : Text
  pub parameters_formats : List Format
  pub parameters_values : List Value
  pub results_formats : List Format

unfoldable pub bind_msg : MsgDecode Bind
bind_msg = record {
  type_byte_opt = some TypeByte.bind;
  decode_body = do
    prepared_statement_name ← decode_text
    portal_name ← decode_text
    parameters_formats ← take_u16 >>= λ count. decode_vec count decode_format
    parameters_values ← take_u16 >>= λ count. decode_vec count decode_value
    results_formats ← take_u16 >>= λ count. decode_vec count decode_format
    pure (record {
      prepared_statement_name = prepared_statement_name;
      portal_name = portal_name;
      parameters_formats = parameters_formats;
      parameters_values = parameters_values;
      results_formats = results_formats;
    });
}

abbrev pub AreFormats : List Format → Type 0
AreFormats fs = (length fs < 65536) × All Any fs

abbrev pub AreValues : List Value → Type 0
AreValues vs = (length vs < 65536) × All IsValue vs

unfoldable pub formats_bytes : List Format → List ℕ
formats_bytes fs = u16_bytes (length fs) ++ items_bytes format_bytes fs

unfoldable pub values_bytes : List Value → List ℕ
values_bytes vs = u16_bytes (length vs) ++ items_bytes value_bytes vs

abbrev pub IsBind : Bind → Type 0
IsBind m =
    IsText m.prepared_statement_name
    × (IsText m.portal_name
        × (AreFormats m.parameters_formats
            × (AreValues m.parameters_values × AreFormats m.results_formats)))

unfoldable pub bind_bytes : Bind → List ℕ
bind_bytes m =
    text_bytes m.prepared_statement_name
    ++ (text_bytes m.portal_name
        ++ (formats_bytes m.parameters_formats
            ++ (values_bytes m.parameters_values ++ formats_bytes m.results_formats)))

pub bind-Exact_lem : Exact IsBind bind_bytes bind_msg.decode_body
unfolding bind_msg bind_bytes formats_bytes values_bytes
bind-Exact_lem =
    let formats = counted16-Exact Any format_bytes decode_format decode_format-Exact in
    let values = counted16-Exact IsValue value_bytes decode_value decode_value-Exact in
    Exact-iff IsBind (λ m. (λ w. w.0, λ w. (w, tt)))
      (bind-Exact (λ (m : Bind). m.prepared_statement_name) _ decode_text-Exact
        (λ name w.
          bind-Exact (λ (m : Bind). m.portal_name) _ decode_text-Exact
            (λ portal w.
              bind-Exact (λ (m : Bind). m.parameters_formats) _ formats
                (λ parameters_formats w.
                  bind-Exact (λ (m : Bind). m.parameters_values) _ values
                    (λ parameters_values w.
                      last-Exact (λ (m : Bind). m.results_formats)
                        (λ m.
                          ((((Unit {0} × (m.prepared_statement_name ≡ name))
                                × (m.portal_name ≡ portal))
                              × (m.parameters_formats ≡ parameters_formats))
                            × (m.parameters_values ≡ parameters_values)))
                        formats
                        (λ results_formats. record {
                          prepared_statement_name = name;
                          portal_name = portal;
                          parameters_formats = parameters_formats;
                          parameters_values = parameters_values;
                          results_formats = results_formats;
                        })
                        (λ results_formats w. (((((tt, refl), refl), refl), refl), refl))
                        (λ m h i. record {
                          prepared_statement_name = sym h.0.0.0.1 i;
                          portal_name = sym h.0.0.1 i;
                          parameters_formats = sym h.0.1 i;
                          parameters_values = sym h.1 i;
                          results_formats = m.results_formats;
                        }))))))

-- A Bind is accepted just if its body is the two names and, each behind its number in two bytes,
-- the formats of the parameters, their values, and the formats of the results.
pub decode_bind_iff :
    (input : List ℕ) (m : Bind)
    → AllBytes input
    → (decode_msg bind_msg input ≡ ok m) ↔ (IsBind m × (input ≡ bind_bytes m))
decode_bind_iff = decode_msg_iff bind_msg IsBind bind_bytes (ExactAll-of bind-Exact_lem)
