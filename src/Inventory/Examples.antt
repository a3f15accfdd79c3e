-- ===== src/Inventory/Examples.antt =====
-- The inventory at a concrete file.
use relay_shell.Prelude.{◌≡◌, refl, List, [], ◌∷◌, some, none, Text, codes, get}
use relay_shell.Inventory.{parse_ssh_config}
use relay_shell.Inventory.RoundTrip.{Block, host_name, port_number}

abbrev file : Text
file = codes "Host web\nHostName 10.0.0.7\nPort 2222\nPort 22\nHost db\n"

abbrev blocks : List Block
blocks =
    record {
      alias = codes "web";
      fields =
          (host_name, codes "10.0.0.7")
          ∷ (port_number, codes "2222")
          ∷ (port_number, codes "22")
          ∷ [];
    }
    ∷ record { alias = codes "db"; fields = [] }
    ∷ []

-- The entry that `specs_from` gives, field by field.
web_resolves :
    get (codes "web") (parse_ssh_config (some file))
    ≡ some (record {
      name = codes "web";
      hostname = codes "10.0.0.7";
      user = none;
      port = some 2222;
      identity_file = none;
      jump = none;
      known_hosts = none;
      source = codes "ssh_config";
    })
unfolding get parse_ssh_config
web_resolves = refl

-- A tab does not end a keyword, so such a line is passed over.
tab_ignored : parse_ssh_config (some (codes "Host\tweb\n")) ≡ []
unfolding parse_ssh_config
tab_ignored = refl
