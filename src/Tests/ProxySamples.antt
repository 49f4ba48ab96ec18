-- ===== src/Tests/ProxySamples.antt =====
-- A socket that takes every write and reads the same reply, and a machine with one file.
use go_exasol.Base.Int.{pos}
use go_exasol.Base.{Bool, true, false, refl, [], ◌++◌, none, some, Bytes, lit, replicate}
use go_exasol.Errors.{bad_conn, eof}
use go_exasol.Import.{Machine, Schedule}
use go_exasol.Proxy.Delivery.{Takes}
use go_exasol.Proxy.Marks.{Tracks}
use go_exasol.Proxy.Send.{File}
use go_exasol.Proxy.Success.{Appends}
use go_exasol.Proxy.Start.{le32}
use go_exasol.Proxy.{Tcp, Proxy}
use go_exasol.Result.{ok, err}
use go_exasol.Wire.{background}

pub record Socket : Type 0 where
  pub is_open : Bool
  pub sent : Bytes

abbrev pub reply : Bytes
reply = le32 1 ++ (le32 4333 ++ (lit "10.0.0.7" ++ replicate 8 0))

abbrev pub tcp : Tcp Socket
tcp = record {
  dial = λ uri n. (none, record n { is_open = true });
  write = λ b n. (none, record n { sent = n.sent ++ b });
  read_full = λ k n. (ok reply, n);
  close = λ n. record n { is_open = false };
  cancelled = λ k n. some bad_conn;
}

-- A database that hangs up in the handshake.
abbrev pub hanging_up : Tcp Socket
hanging_up = record tcp { read_full = λ k n. (err eof, n) }

abbrev pub no_socket : Socket
no_socket = record { is_open = false; sent = [] }

abbrev pub dialled : Proxy Socket
dialled = record {
  is_closed = false;
  host = [];
  port = pos 0;
  net = record { is_open = true; sent = [] };
}

abbrev pub file : File
file = record { content = lit "1,one\n2,two"; ending = eof }

abbrev pub machine : Machine Socket
machine = record {
  tcp = tcp;
  random = λ n. (0, n);
  open_os_file = λ path. some file;
  expand = λ template whole. template;
}

abbrev pub refusing : Machine Socket
refusing = record machine { tcp = hanging_up }

abbrev pub schedule : Schedule
schedule = record { context = background; upload_first = false }

pub tcp-Takes : Takes tcp background (λ n. n.sent)
tcp-Takes = record { takes = λ b n. refl; keeps = λ b n. refl; goes_on = λ n. refl }

pub tcp-Appends : Appends tcp (λ n. n.sent)
tcp-Appends = record { appends = λ b n e. refl; close_keeps = λ n. refl }

pub tcp-Tracks : Tracks tcp (λ n. n.is_open)
tcp-Tracks = record {
  write_keeps = λ b n. refl;
  read_keeps = λ k n. refl;
  close_closes = λ n. refl;
}

pub hanging_up-Tracks : Tracks hanging_up (λ n. n.is_open)
hanging_up-Tracks = record {
  write_keeps = λ b n. refl;
  read_keeps = λ k n. refl;
  close_closes = λ n. refl;
}
