-- ===== src/Tests/Commands.antt =====
-- A reset of a node with a running daemon (server/cli.py).
use coda_node.Prelude.{[], ◌∷◌, true}
use coda_node.Exec.{ok}
use coda_node.Exec.Leads.{After}
use coda_node.Json.{text, object, last, member}
use coda_node.Cli.{World, Machine, parsed, reset}
use coda_node.Cli.Reset.{Removed, Spared, reset_removes}
use coda_node.Tests.Daemons.{system, running}
use coda_node.Tests.Nodes.{cloud, node}

abbrev shell : World
shell = record {
  daemon = system;
  node = cloud;
  config = parsed (object (member "jwt_private_key_path" (text "/etc/coda/key.pem") last));
  is_runtime_error = λ e. true;
  unlink = λ path. ok tt;
}

abbrev machine : Machine
machine = record {
  host = running;
  node = node;
  files = "/tmp/coda.config" ∷ "/etc/coda/key.pem" ∷ "/etc/passwd" ∷ [];
}

reset_removes_example :
    After
      (λ _ t. Removed shell "/etc/coda/key.pem" machine.files t.files)
      (λ t. Spared shell "/etc/coda/key.pem" machine.files t.files)
      (reset shell machine)
reset_removes_example = reset_removes shell "/etc/coda/key.pem" machine
