-- ===== src/Wire.antt =====
-- What lies behind a connection: the socket of gorilla/websocket, the JSON and zlib codecs, the
-- cancellation of a context. A `World` is the state of all that; each call on it may change it.
use go_exasol.Base.{ℕ, Option, Bytes}
use go_exasol.Errors.{Error}
use go_exasol.Result.{Result}
use go_exasol.Types.Json.{Json}
use go_exasol.Types.{
  BaseResponse, AuthResponse, SqlQueryResponseRowCount, SqlQueryResponseResultSet,
  PublicKeyResponse, SqlQueriesResponse, SqlQueryResponseResultSetData,
  CreatePreparedStatementResponse,
}

-- A context that is never done, or one that the caller may cancel.
pub data Context : Type 0 where
  background : Context
  cancellable : ℕ → Context

pub record Wire (World V Raw : Type 0) : Type 0 where
  -- `WriteMessage`, `ReadMessage` and `Close` of the socket; `none` is the nil error
  pub write_message : ℕ → Bytes → World → Option Error × World
  pub read_message : World → Result Bytes × World
  pub close_socket : World → Option Error × World
  -- what the `select` of a request finds done first: `some` cancellation, or the response
  pub cancelled : ℕ → World → Option Error
  -- `json.Marshal`, from the JSON value of a struct on; `json.Decoder.Decode` and `json.Unmarshal`,
  -- one for each type decoded
  pub marshal : Json V → Result Bytes
  pub decode_base : Bytes → Result (BaseResponse Raw)
  pub raw_text : Raw → Bytes
  pub decode_public_key : Raw → Result PublicKeyResponse
  pub decode_auth : Raw → Result AuthResponse
  pub decode_queries : Raw → Result (SqlQueriesResponse Raw)
  pub decode_prepared : Raw → Result CreatePreparedStatementResponse
  pub decode_result_set : Raw → Result (SqlQueryResponseResultSet V)
  pub decode_fetched : Raw → Result (SqlQueryResponseResultSetData V)
  pub decode_row_count : Raw → Result SqlQueryResponseRowCount
  -- `zlib`
  pub compress : Bytes → Result Bytes
  pub uncompress : Bytes → Result Bytes
