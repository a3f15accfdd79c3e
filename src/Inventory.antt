-- ===== src/Inventory.antt =====
-- The host inventory (src/relay_shell/inventory.py): the ssh_config reader, the merge with the
-- inventory file, and the resolver. The entries of the inventory file are an argument. A port of
-- more than 4300 digits, at which `int` raises, is read as a number here.
pub mod RoundTrip
pub mod Resolve
mod Examples
use relay_shell.Prelude.{
  ℕ, Bool, true, false, not, ◌&&◌, ◌||◌, List, [], ◌∷◌, ◌++◌, Option, none, some, Text, codes, Dict,
  get, has_key, put, ◌==◌, leb, if◌then◌else◌, text_eq, is_among, strip, words, splitlines,
  partition, value_from,
}
use relay_shell.Notices.{lower}

-- `HostSpec`
pub record HostSpec : Type 0 where
  pub name : Text
  pub hostname : Text
  pub user : Option Text
  pub port : Option ℕ
  pub identity_file : Option Text
  pub jump : Option Text
  pub known_hosts : Option Text
  pub source : Text

unfoldable pub all_ascii_digits : Text → Bool
all_ascii_digits [] = true
all_ascii_digits (c ∷ s) = leb 48 c && leb c 57 && all_ascii_digits s

-- `_ascii_port`
unfoldable pub ascii_port : Text → Option ℕ
unfolding all_ascii_digits
ascii_port [] = none
ascii_port (c ∷ s) = if all_ascii_digits (c ∷ s) then some (value_from 0 (c ∷ s)) else none

-- `_proxyjump`
unfoldable pub proxyjump : Option Text → Option Text
unfolding strip lower text_eq
proxyjump none = none
proxyjump (some value) = if text_eq (lower (strip value)) (codes "none") then none else some value

unfoldable pub or_else {ℓ} : {A : Type ℓ} → Option A → A → A
or_else none a = a
or_else (some x) a = x

-- What the reader keeps: the hosts, the aliases of the block and its keywords.
pub record Reader : Type 0 where
  pub hosts : Dict HostSpec
  pub aliases : List Text
  pub cur : Dict Text

unfoldable pub has_wildcard : Text → Bool
has_wildcard [] = false
has_wildcard (c ∷ s) = c == 42 || c == 63 || c == 33 || has_wildcard s

unfoldable pub spec_of : Text → Dict Text → HostSpec
unfolding get or_else ascii_port proxyjump
spec_of alias cur = record {
  name = alias;
  hostname = or_else (get (codes "hostname") cur) alias;
  user = get (codes "user") cur;
  port = ascii_port (or_else (get (codes "port") cur) []);
  identity_file = get (codes "identityfile") cur;
  jump = proxyjump (get (codes "proxyjump") cur);
  known_hosts = none;
  source = codes "ssh_config";
}

-- The loop of `_flush`.
unfoldable pub flush_aliases : Dict Text → List Text → Dict HostSpec → Dict HostSpec
unfolding has_wildcard put spec_of
flush_aliases cur [] hosts = hosts
flush_aliases cur (alias ∷ aliases) hosts =
    flush_aliases cur aliases
      (if has_wildcard alias then hosts else put alias (spec_of alias cur) hosts)

unfoldable pub flush_block : Reader → Dict HostSpec
unfolding flush_aliases
flush_block r = flush_aliases r.cur r.aliases r.hosts

unfoldable pub setdefault : Text → Text → Dict Text → Dict Text
unfolding has_key put
setdefault key val cur = if has_key key cur then cur else put key val cur

abbrev pub keywords : List Text
keywords =
    codes "hostname" ∷ codes "user" ∷ codes "port" ∷ codes "identityfile" ∷ codes "proxyjump" ∷ []

-- The branches on the key of a line.
unfoldable pub read_keyword : Text → Text → Reader → Reader
unfolding text_eq is_among words flush_block setdefault
read_keyword [] val r = r
read_keyword (c ∷ s) val r =
    if text_eq (c ∷ s) (codes "host")
    then record { hosts = flush_block r; aliases = words val; cur = [] }
    else if text_eq (c ∷ s) (codes "match")
    then record { hosts = flush_block r; aliases = []; cur = [] }
    else if is_among (c ∷ s) keywords
    then record r { cur = setdefault (c ∷ s) val r.cur }
    else r

unfoldable pub has_char : ℕ → Text → Bool
has_char d [] = false
has_char d (c ∷ s) = c == d || has_char d s

-- Does an equals sign end the key?
unfoldable pub splits_at_equals : Text → Bool
unfolding has_char strip partition
splits_at_equals line = has_char 61 line && not (has_char 32 (strip (partition 61 line).0))

unfoldable pub split_line : Text → Text × Bool × Text
unfolding splits_at_equals partition
split_line line = partition (if splits_at_equals line then 61 else 32) line

unfoldable pub read_parts : Text × Bool × Text → Reader → Reader
unfolding read_keyword lower strip
read_parts (key, found, val) r = read_keyword (lower (strip key)) (strip val) r

unfoldable pub read_stripped : Text → Reader → Reader
unfolding split_line read_parts
read_stripped [] r = r
read_stripped (c ∷ s) r = if c == 35 then r else read_parts (split_line (c ∷ s)) r

-- One round of the loop over the lines.
unfoldable pub read_line : Text → Reader → Reader
unfolding read_stripped strip
read_line raw r = read_stripped (strip raw) r

unfoldable pub read_lines : List Text → Reader → Reader
unfolding read_line
read_lines [] r = r
read_lines (raw ∷ lines) r = read_lines lines (read_line raw r)

abbrev pub new_reader : Reader
new_reader = record { hosts = []; aliases = []; cur = [] }

-- `_parse_ssh_config`; no text stands for a file that is not there or cannot be read.
unfoldable pub parse_ssh_config : Option Text → Dict HostSpec
unfolding read_lines splitlines flush_block
parse_ssh_config none = []
parse_ssh_config (some text) = flush_block (read_lines (splitlines text) new_reader)

-- `dict.update`
unfoldable pub update : Dict HostSpec → Dict HostSpec → Dict HostSpec
unfolding put
update d [] = d
update d ((k, v) ∷ e) = update (put k v d) e

-- `Inventory.load`: the merged hosts.
unfoldable pub load : Option Text → Dict HostSpec → Dict HostSpec
unfolding parse_ssh_config update
load config inventory = update (parse_ssh_config config) inventory

unfoldable pub passthrough : Text → Text → Option Text → HostSpec
passthrough alias hostname user = record {
  name = alias;
  hostname = hostname;
  user = user;
  port = none;
  identity_file = none;
  jump = none;
  known_hosts = none;
  source = codes "explicit";
}

unfoldable pub or_none : Text → Option Text
or_none [] = none
or_none (c ∷ s) = some (c ∷ s)

-- `Inventory.resolve`
unfoldable pub resolve_unknown : Text → Text × Bool × Text → HostSpec
unfolding passthrough or_none
resolve_unknown alias (user, true, host) = passthrough alias host (or_none user)
resolve_unknown alias (user, false, host) = passthrough alias alias none

unfoldable pub resolve : Dict HostSpec → Text → HostSpec
unfolding get or_else resolve_unknown partition
resolve hosts alias = or_else (get alias hosts) (resolve_unknown alias (partition 64 alias))

unfoldable pub has_hostname : Text → Dict HostSpec → Bool
unfolding text_eq
has_hostname target [] = false
has_hostname target ((k, h) ∷ d) = text_eq h.hostname target || has_hostname target d

-- `Inventory.knows`
unfoldable pub knows : Dict HostSpec → Text → Bool
unfolding has_key has_hostname
knows hosts target = has_key target hosts || has_hostname target hosts
