-- ===== src/Errors.antt =====
-- pkg/errors/errors.go: the driver's errors, each with its identifier, message and parameters.
-- What the code passes to error-reporting-go is kept as it is passed; the text that this library
-- renders from it is not modelled.
use go_exasol.Base.{Bytes, lit}

mutual
  -- A Go `error` of the driver's calls.
  pub data Error : Type 0 where
    -- a `DriverErr`: identifier, message and parameters
    driver_err : Bytes → Bytes → Parameters → Error
    -- `driver.ErrBadConn` and `io.EOF`
    bad_conn : Error
    eof : Error
    -- an error value of a library, by its text
    foreign : Bytes → Error
    -- `fmt.Errorf` with `%w`: the text in front, and the error wrapped
    wrapped : Bytes → Error → Error
    -- `fmt.Errorf` of a response whose status is not "ok", by that status
    bad_status : Bytes → Error
    -- `fmt.Errorf` of response data that is not parsed, by the data and the cause
    unparsed : Bytes → Error → Error
    -- `fmt.Errorf` with `%w` in front: the error wrapped, a text, and an error by its text
    explained : Error → Bytes → Error → Error
    -- `fmt.Errorf` without `%w`: a text, and an error by its text
    reported : Bytes → Error → Error

  -- The calls of `Parameter`, in their order.
  pub data Parameters : Type 0 where
    no_parameters : Parameters
    text_parameter : Bytes → Bytes → Parameters → Parameters
    error_parameter : Bytes → Error → Parameters → Parameters

unfoldable pub err_invalid_conn : Error
err_invalid_conn = driver_err (lit "E-EGOD-1") (lit "invalid connection") no_parameters

unfoldable pub err_closed : Error
err_closed = driver_err (lit "E-EGOD-2") (lit "connection was closed") no_parameters

unfoldable pub err_malformed_data : Error
err_malformed_data = driver_err (lit "E-EGOD-3") (lit "malformed empty result") no_parameters

unfoldable pub err_autocommit_enabled : Error
err_autocommit_enabled =
    driver_err (lit "E-EGOD-4") (lit "begin not working when autocommit is enabled") no_parameters

unfoldable pub err_invalid_values_count : Error
err_invalid_values_count =
    driver_err (lit "E-EGOD-5") (lit "invalid value count for prepared status") no_parameters

unfoldable pub err_no_last_insert_id : Error
err_no_last_insert_id = driver_err (lit "E-EGOD-6") (lit "no LastInsertId available") no_parameters

unfoldable pub err_named_values_not_supported : Error
err_named_values_not_supported =
    driver_err (lit "E-EGOD-7") (lit "named parameters not supported") no_parameters

unfoldable pub err_logger_nil : Error
err_logger_nil = driver_err (lit "E-EGOD-8") (lit "logger is nil") no_parameters

unfoldable pub err_missing_server_certificate : Error
err_missing_server_certificate =
    driver_err (lit "E-EGOD-9") (lit "server did not return certificates") no_parameters

unfoldable pub err_invalid_proxy_conn : Error
err_invalid_proxy_conn =
    driver_err (lit "E-EGOD-26") (lit "could not create proxy connection to import file")
      no_parameters

unfoldable pub err_invalid_import_query : Error
err_invalid_import_query =
    driver_err (lit "E-EGOD-27") (lit "could not parse import query") no_parameters

unfoldable pub new_err_certificate_fingerprint_mismatch : Bytes → Bytes → Error
new_err_certificate_fingerprint_mismatch actual_fingerprint expected_fingerprint =
    driver_err (lit "E-EGOD-10")
      (lit
        "the server's certificate fingerprint {{server fingerprint}} does not match the expected fingerprint {{expected fingerprint}}")
      (text_parameter (lit "server fingerprint") actual_fingerprint
        (text_parameter (lit "expected fingerprint") expected_fingerprint no_parameters))

unfoldable pub new_sql_err : Bytes → Bytes → Error
new_sql_err sql_code msg =
    driver_err (lit "E-EGOD-11")
      (lit "execution failed with SQL error code {{sql code}} and message {{text}}")
      (text_parameter (lit "sql code") sql_code (text_parameter (lit "text") msg no_parameters))

unfoldable pub new_err_could_not_abort : Error → Error
new_err_could_not_abort root_cause =
    driver_err (lit "E-EGOD-12") (lit "could not abort query: {{root cause}}")
      (error_parameter (lit "root cause") root_cause no_parameters)

unfoldable pub new_password_encryption_error : Error → Error
new_password_encryption_error cause =
    driver_err (lit "E-EGOD-13") (lit "password encryption error: {{root cause}}")
      (error_parameter (lit "root cause") cause no_parameters)

unfoldable pub new_connection_failed_error : Bytes → Error → Error
new_connection_failed_error url cause =
    driver_err (lit "W-EGOD-14") (lit "connection to {{url}} failed: {{error}}")
      (text_parameter (lit "url") url (error_parameter (lit "error") cause no_parameters))

unfoldable pub new_request_sending_error : Error → Error
new_request_sending_error cause =
    driver_err (lit "W-EGOD-16") (lit "could not send request: {{error}}")
      (error_parameter (lit "error") cause no_parameters)

unfoldable pub new_receiving_error : Error → Error
new_receiving_error cause =
    driver_err (lit "W-EGOD-17") (lit "could not receive data: {{error}}")
      (error_parameter (lit "error") cause no_parameters)

unfoldable pub new_uncompressing_error : Error → Error
new_uncompressing_error cause =
    driver_err (lit "W-EGOD-18") (lit "could not decode compressed data: {{error}}")
      (error_parameter (lit "error") cause no_parameters)

unfoldable pub new_json_decoding_error : Error → Bytes → Error
new_json_decoding_error cause message =
    driver_err (lit "W-EGOD-19") (lit "could not decode json data {{data}}: {{error}}")
      (text_parameter (lit "data") message (error_parameter (lit "error") cause no_parameters))

unfoldable pub new_invalid_host_range_limits : Bytes → Error
new_invalid_host_range_limits host =
    driver_err (lit "E-EGOD-20") (lit "invalid host range limits: {{host name}}")
      (text_parameter (lit "host name") host no_parameters)

unfoldable pub new_invalid_connection_string : Bytes → Error
new_invalid_connection_string connection_string =
    driver_err (lit "E-EGOD-21")
      (lit "invalid connection string, must start with 'exa:': {{connection string}}")
      (text_parameter (lit "connection string") connection_string no_parameters)

unfoldable pub new_invalid_connection_string_host_or_port : Bytes → Error
new_invalid_connection_string_host_or_port connection_string =
    driver_err (lit "E-EGOD-22")
      (lit "invalid host or port in {{connection string}}, expected format: <host>:<port>")
      (text_parameter (lit "connection string") connection_string no_parameters)

unfoldable pub new_invalid_connection_string_invalid_port : Bytes → Error
new_invalid_connection_string_invalid_port port =
    driver_err (lit "E-EGOD-23") (lit "invalid `port` value {{port}}, numeric port expected")
      (text_parameter (lit "port") port no_parameters)

unfoldable pub new_invalid_connection_string_invalid_parameter : Bytes → Error
new_invalid_connection_string_invalid_parameter parameter =
    driver_err (lit "E-EGOD-24")
      (lit "invalid parameter {{parameter}}, expected format <parameter>=<value>")
      (text_parameter (lit "parameter") parameter no_parameters)

unfoldable pub new_invalid_connection_string_invalid_int_param : Bytes → Bytes → Error
new_invalid_connection_string_invalid_int_param param_name value =
    driver_err (lit "E-EGOD-25")
      (lit "invalid {{parameter name}} value {{value}}, numeric expected")
      (text_parameter (lit "parameter name") param_name
        (text_parameter (lit "value") value no_parameters))

unfoldable pub new_file_not_found : Bytes → Error
new_file_not_found path =
    driver_err (lit "E-EGOD-28") (lit "file {{path}} not found")
      (text_parameter (lit "path") path no_parameters)

unfoldable pub new_could_not_get_os_user : Error → Error
new_could_not_get_os_user cause =
    driver_err (lit "W-EGOD-28") (lit "could not get current OS user: {{error}}")
      (error_parameter (lit "error") cause no_parameters)

unfoldable pub new_websocket_not_connected : Bytes → Error
new_websocket_not_connected request =
    driver_err (lit "E-EGOD-29") (lit "could not send request {{request}}: not connected to server")
      (text_parameter (lit "request") request no_parameters)
