-- ===== src/Tests/ProxyTests.antt =====
-- The theorems on the proxy, at a socket that takes every write.
use go_exasol.Base.{Lacks, ◌≡◌, refl, [], ◌∷◌, lit, arith}
use go_exasol.Proxy.Handshake.{words_of, IsStarted, start_proxy-IsStarted}
use go_exasol.Proxy.Received.{contents}
use go_exasol.Base.Int.{pos}
use go_exasol.Import.Dialling.{IsDialled, create_proxy-IsDialled}
use go_exasol.Import.{create_proxy}
use go_exasol.Tests.HostTests.{three_hosts}
use go_exasol.Proxy.Start.{Dialled, start_proxy, magic_words}
use go_exasol.Result.{ok}
use go_exasol.Tests.ProxySamples.{Socket, machine, no_socket, tcp, dialled, file, tcp-Takes}

-- The second file begins on a line of its own.
both_files : contents (lit "\n") (file ∷ file ∷ []) ≡ lit "1,one\n2,two\n1,one\n2,two\n"
both_files = refl

host_lacks : Lacks 0 (lit "10.0.0.7")
host_lacks = ground arith

start_proxy-IsStarted_example :
    IsStarted tcp
      (λ n. n.sent)
      tcp-Takes
      1
      4333
      8
      (lit "10.0.0.7")
      (omega arith)
      host_lacks
      (λ n. refl)
      (λ n. refl)
      (words_of magic_words)
      dialled
      (start_proxy tcp dialled)
start_proxy-IsStarted_example =
    start_proxy-IsStarted tcp (λ n. n.sent) tcp-Takes 1 4333 8 (lit "10.0.0.7") (omega arith)
      host_lacks (λ n. refl) (λ n. refl) dialled

create_proxy-IsDialled_example :
    (d : Dialled Socket) × ((create_proxy machine (lit "db11..12,backup") (pos 8563) no_socket).0
      ≡ ok d)
    × IsDialled tcp (pos 8563) (lit "db11" ∷ lit "db12" ∷ lit "backup" ∷ []) d
create_proxy-IsDialled_example =
    create_proxy-IsDialled machine (lit "db11..12,backup") (pos 8563) no_socket three_hosts
