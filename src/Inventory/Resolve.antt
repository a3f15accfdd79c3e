-- ===== src/Inventory/Resolve.antt =====
-- The inventory file overrides the ssh_config (`load` and `resolve` of
-- src/relay_shell/inventory.py).
use relay_shell.Prelude.{
  ◌≡◌, refl, true, [], ◌∷◌, Option, none, some, Text, Dict, IsDict, get, has_key, put, text_eq_iff,
  text_eq_refl, has_key-get, if◌then◌else◌, get-put, get-has_key, arith,
}
use relay_shell.Inventory.{
  HostSpec, update, load, parse_ssh_config, resolve, or_else, knows, has_hostname,
}

get-update :
    (alias : Text) (d e : Dict HostSpec)
    → IsDict e
    → get alias (update d e) ≡ (if has_key alias e then get alias e else get alias d)
unfolding update get has_key
get-update alias d [] h = refl
get-update alias d ((k, v) ∷ e) h =
    ground (arith, get-update alias (put k v d) e h.1, get-put k alias v d, text_eq_iff k alias)

get-has_hostname :
    (alias : Text) (h : HostSpec) (d : Dict HostSpec)
    → get alias d ≡ some h
    → has_hostname h.hostname d ≡ true
unfolding get has_hostname
get-has_hostname alias h [] e = cc
get-has_hostname alias h ((k, v) ∷ d) e =
    ground (arith, get-has_hostname alias h d, text_eq_refl h.hostname)

-- An alias of the inventory file resolves to its entry there; any other resolves as it does by the
-- ssh_config alone. Either way, what resolves to an entry is known.
pub resolve-load :
    (config : Option Text) (inventory : Dict HostSpec) (alias : Text)
    → IsDict inventory
    → ((h : HostSpec) → get alias inventory ≡ some h → resolve (load config inventory) alias ≡ h)
      × (get alias inventory ≡ none
          → resolve (load config inventory) alias ≡ resolve (parse_ssh_config config) alias)
      × ((h : HostSpec)
          → get alias (load config inventory) ≡ some h
          → (knows (load config inventory) alias ≡ true)
            × (knows (load config inventory) h.hostname ≡ true))
unfolding load resolve or_else knows
resolve-load config inventory alias keys =
    let merged = get-update alias (parse_ssh_config config) inventory keys in
    (
      λ h e. ground (arith, get-has_key alias inventory h e),
      λ e. ground (arith, has_key-get alias inventory e),
      λ h e. (
        ground (arith, get-has_key alias (update (parse_ssh_config config) inventory) h e),
        ground (arith, get-has_hostname alias h (update (parse_ssh_config config) inventory) e),
      ),
    )
