-- ===== src/SshPool/Examples.antt =====
-- The pool at concrete inputs.
use relay_shell.Prelude.{starts_with}
use relay_shell.SshPool.Pins.{forward_uses}
use relay_shell.SshPool.Pins.{uses}
use relay_shell.Prelude.{has_key}
use relay_shell.Prelude.{text_eq}
use relay_shell.Prelude.{
  ℕ, ◌≡◌, ◌≢◌, ◌≤◌, max, min, refl, true, false, List, [], ◌∷◌, Option, none, some, Text, codes,
  get, put, ◌+◌, words, contains, length, count_if, IsFree, arith, Bool,
}
use relay_shell.SshPool.{
  is_host_token, is_user_token, conn_key, port_or_22, check_jump, check_ssh_tokens,
}
use relay_shell.SshPool.Keys.{conn_key-inj}
use relay_shell.SshPool.Cache.{is_in, Entry, Handle, Pool, publish, sweep_conns, claim, pin}
use relay_shell.SshPool.Forwards.{forward_count, track}
use relay_shell.SshPool.Steps.{
  World, claims, publishes, pins, tracks, Reach, starts, goes, start, is_dialing, without, claimed,
  pinned, tracked, is_held,
}
use relay_shell.SshPool.Counted.{holders}
use relay_shell.SshPool.Single.{Reach-single_flight}
use relay_shell.SshPool.Reaper.{Reach-held_stays, Reach-conns_bounded}
use relay_shell.SshPool.Evictions.{is_pinned}
use relay_shell.SshPool.Limit.{forward_count-le}
use relay_shell.SshPool.KnownHosts.{
  present, host_is_known, persist_host_key, known_hosts_arg, against,
}
use relay_shell.SshPool.KnownHosts.Trust.{persist_host_key-against}
use relay_shell.SshPool.Spec.{parse_forward_spec, bad_fields}
use relay_shell.SshPool.Connect.{
  Settings, Kwargs, target_user, plan_connect, plan_connect-IsGuarded,
}
use relay_shell.SshPool.Drain.{drain_all, drain_all-shares, received}

jump_passes : check_jump (codes "ada@gate:2222,10.0.0.7") ≡ true
unfolding check_jump
jump_passes = refl

-- A host that begins with a dash would become an option.
dash_refused : check_ssh_tokens (some (codes "-oProxyCommand=x")) none ≡ false
unfolding check_ssh_tokens
dash_refused = refl

abbrev plain : (c : ℕ) → c ≢ 124 → IsFree 124 (c ∷ [])
plain c n = (n, tt)

-- No port and port 22 are one key.
conn_key-inj_example : port_or_22 0 ≡ port_or_22 22
unfolding conn_key
conn_key-inj_example =
    (conn_key-inj (codes "h") (codes "h") (codes "u") (codes "u") 0 22 (codes "s") (codes "s")
      (codes "k|l") (codes "k|l") [] [] (λ e. ground arith, tt) (λ e. ground arith, tt)
      (λ e. ground arith, tt) (λ e. ground arith, tt) (λ e. ground arith, tt)
      (λ e. ground arith, tt) tt tt refl).2

abbrev key : Text
key = codes "a"

abbrev dialing_world : World
dialing_world = claimed key (start 2 60 1) (claim (λ c. false) 0 key (start 2 60 1).pool)

abbrev cached_world : World
cached_world = record dialing_world {
  pool = publish key 0 1 dialing_world.pool;
  dialing = without 0 dialing_world.dialing;
}

abbrev pinned_world : World
pinned_world = pinned cached_world (pin 0 2 cached_world.pool)

abbrev forward : Handle
forward = record {
  kind = codes "local";
  spec = codes "L:1:b:2";
  listen_port = 1;
  target = codes "b:2";
  entry = some 0;
}

abbrev forward_pool : Pool
forward_pool = record pinned_world.pool {
  forwards = put (codes "f") forward pinned_world.pool.forwards;
}

abbrev forward_world : World
forward_world = tracked (some 0) forward_pool pinned_world

reached_dialing : Reach 2 60 1 dialing_world
reached_dialing = goes starts (claims (λ c. false) 0 key)

reached : Reach 2 60 1 forward_world
unfolding start claim publish pin track tracked is_dialing is_held is_in pinned without claimed get
    text_eq put has_key
reached =
    goes (goes (goes reached_dialing (publishes key 0 1 refl refl)) (pins 0 2))
      (tracks (codes "f") forward forward_pool refl refl refl)

forward_count-le_example : forward_count forward_world.pool ≤ 1
forward_count-le_example = forward_count-le 2 60 1 reached

-- A second caller waits for the future of the first.
Reach-single_flight_example : is_dialing key 0 dialing_world.dialing ≡ true
unfolding start claim get claimed put text_eq is_in
Reach-single_flight_example = ((Reach-single_flight 2 60 1 reached_dialing key 0).1 refl refl).0

abbrev forwarded : Entry
forwarded = record { conn = 0; last_used = 2; pins = 1 }

Reach-held_stays_example :
    get key (sweep_conns (λ c. false) 1000 forward_world.pool).conns ≡ some forwarded
unfolding start claim publish pin track tracked pinned holders get put claimed has_key text_eq uses
    forward_uses
Reach-held_stays_example =
    (Reach-held_stays 2 60 1 reached key forwarded refl (omega arith)).0 (λ c. false) 1000 refl

Reach-conns_bounded_example :
    length (publish (codes "b") 1 3 forward_world.pool).conns
    ≤ max 2 (count_if is_pinned forward_world.pool.conns + 1)
unfolding start claim publish pin track tracked pinned put claimed get has_key text_eq
Reach-conns_bounded_example = Reach-conns_bounded 2 60 1 reached (codes "b") 1 3 (omega arith) refl

persist_host_key-against_example :
    known_hosts_arg (codes "kh") (codes "accept-new") (
      host_is_known
        (present
          (some false)
          (some (persist_host_key (codes "ssh-rsa AAAA me") (codes "h") 2222 (codes "x"))))
        (codes "h")
        2222)
    ≡ against (codes "kh")
unfolding words contains is_host_token starts_with text_eq
persist_host_key-against_example =
    persist_host_key-against (codes "kh") (codes "ssh-rsa AAAA me") (codes "ssh-rsa") (codes "AAAA")
      (codes "h") (codes "x") 2222 (codes "me" ∷ []) (some false) refl refl refl

-- A key that another host has in the file is not recorded for this one.
shared_key_unrecorded :
    host_is_known
      (present (some false) (
        some
          (persist_host_key (codes "ssh-rsa AAAA me") (codes "h") 22 (codes "g ssh-rsa AAAA\n"))))
      (codes "h")
      22
    ≡ false
unfolding persist_host_key host_is_known starts_with
shared_key_unrecorded = refl

abbrev ascii_only : ℕ → Option ℕ
ascii_only c = none

spec_refused : parse_forward_spec ascii_only (codes "L:80:db") ≡ bad_fields (codes "L")
unfolding parse_forward_spec
spec_refused = refl

abbrev chunks : List (Bool × List ℕ)
chunks = (true, 5 ∷ []) ∷ (false, 3 ∷ 4 ∷ []) ∷ (true, 1 ∷ 2 ∷ []) ∷ []

drain_all-shares_example :
    length (drain_all (some 3) chunks).out + length (drain_all (some 3) chunks).err ≡ min 3 5
unfolding received
drain_all-shares_example = (drain_all-shares 3 chunks).2

abbrev verifying : Settings
verifying = record { ssh_known_hosts = codes "strict"; ssh_allow_weaker_known_hosts = false }

abbrev quiet : Kwargs
quiet = record { user = []; port = 0; key_path = []; known_hosts = []; jump = [] }

-- `ada@` in front of a host the inventory does not name.
plan_connect-IsGuarded_example :
    (is_host_token (codes "h") ≡ true)
    × ((u : Text) → target_user (codes "ada@h") ≡ some u → is_user_token u ≡ true)
unfolding plan_connect
plan_connect-IsGuarded_example =
    (plan_connect-IsGuarded [] verifying (codes "ada@h") quiet
        (record {
          hostname = codes "h";
          user = codes "ada";
          port = 0;
          key_path = [];
          mode = codes "strict";
          jump = [];
        })
        refl).0.0
      refl
