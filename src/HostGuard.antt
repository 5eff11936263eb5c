-- ===== src/HostGuard.antt =====
-- src/host_guard.rs: which hosts the plugin refuses. Parsing, ordering and printing of versions are
-- the crate `semver`'s.
use mathlib.Core.Option
use animus_queue_default.Common.{
  ℕ, ◌≡◌, String, Bool, true, false, not, Option, none, some, arith, and_then, filter_opt,
  is_some_and, is_blank, trim, unwrap_or, if◌then◌else◌, Result, ok, err, ◌<>◌,
}
use animus_queue_default.Json.{Value, string, object, field, end, optional_string}
use animus_queue_default.Rpc.{RpcError, invalid_params}

-- `semver`: `at_least v w` is `v >= w`, and `with_pre` sets the pre-release.
pub record Semver : Type 1 where
  pub Version : Type 0
  pub parse : String → Option Version
  pub new : ℕ → ℕ → ℕ → Version
  pub with_pre : String → Version → Version
  pub at_least : Version → Version → Bool
  pub to_string : Version → String

abbrev pub legacy_queue_version : String
legacy_queue_version = "v0.3.3"

abbrev install_command : String
install_command =
    "animus plugin install launchapp-dev/animus-queue-default@" <> legacy_queue_version
    <> " --force"

module _ (s : Semver) (package_version : String) where
  abbrev pub min_host_version : s.Version
  min_host_version = s.new 0 7 0

  abbrev pub min_host_protocol_version : s.Version
  min_host_protocol_version = s.new 1 1 0

  abbrev pub host_protocol_without_version_check : s.Version
  host_protocol_without_version_check = s.new 1 2 0

  unfoldable pub parse_version : Option String → Option s.Version
  unfolding trim
  parse_version raw = and_then raw (λ value. s.parse (trim value))

  -- 0.7.0-0, which is below every release candidate of 0.7.0.
  abbrev pub minimum_host_version : s.Version
  minimum_host_version = s.with_pre "0" min_host_version

  new_enough : Option s.Version → Bool
  new_enough = is_some_and (λ version. s.at_least version minimum_host_version)

  unfoldable pub is_accepted : Option s.Version → Option s.Version → Bool
  unfolding new_enough
  is_accepted none host = false
  is_accepted (some protocol) host =
      if s.at_least protocol host_protocol_without_version_check
      then true
      else if s.at_least protocol min_host_protocol_version
      then new_enough host
      else false

  is_old : Option s.Version → Bool
  is_old = is_some_and (λ version. not (s.at_least version min_host_protocol_version))

  host_display : Option s.Version → Option String → String
  unfolding is_old trim
  host_display protocol host =
      if is_old protocol
      then "0.6 or older"
      else unwrap_or (filter_opt (λ value. not (is_blank value)) (Option.map trim host))
          "an unknown version"

  -- The `data` of the error.
  host_requirement : Option String → Option String → Value
  host_requirement protocol host = object (
      field "host_version" (optional_string host) (
        field "host_protocol_version" (optional_string protocol) (
          field "minimum_host_version" (string (s.to_string min_host_version)) (
            field "minimum_host_protocol_version" (string (s.to_string min_host_protocol_version)) (
              field "compatible_queue_version" (string legacy_queue_version)
                (field "install_command" (string install_command) end))))))

  host_error : Option String → Option String → RpcError
  unfolding host_display parse_version host_requirement
  host_error protocol host = record {
    code = invalid_params;
    message =
        "animus-queue-default v"
        <> package_version
        <> " requires Animus 0.7 or newer. This Animus is "
        <> host_display (parse_version protocol) host
        <> " (plugin protocol "
        <> unwrap_or protocol "not sent"
        <> "). Install the queue version made for it: `"
        <> install_command
        <> "`";
    data_value = some (host_requirement protocol host);
  }

  unfoldable pub check_host : Option String → Option String → Result RpcError (Unit {0})
  unfolding is_accepted host_error
  check_host protocol host =
      if is_accepted (parse_version protocol) (parse_version host)
      then ok tt
      else err (host_error protocol host)

  -- `v` is no older than `w`, where a version that is missing is older than all.
  abbrev pub IsNoOlder : Option s.Version → Option s.Version → Type 0
  IsNoOlder v none = Unit {0}
  IsNoOlder none (some w) = false ≡ true
  IsNoOlder (some v) (some w) = s.at_least v w ≡ true

  module _
      (transitive : (u v w : s.Version)
        → s.at_least u v ≡ true
        → s.at_least v w ≡ true
        → s.at_least u w ≡ true) where
    new_enough-upward :
        (host host' : Option s.Version)
        → IsNoOlder host' host
        → new_enough host ≡ true
        → new_enough host' ≡ true
    unfolding new_enough
    new_enough-upward none host' n h = cc
    new_enough-upward (some w) none n h = n
    new_enough-upward (some w) (some v) n h = transitive v w minimum_host_version n h

    accepted-upward :
        (protocol protocol' host host' : Option s.Version)
        → IsNoOlder protocol' protocol
        → IsNoOlder host' host
        → is_accepted protocol host ≡ true
        → is_accepted protocol' host' ≡ true
    unfolding is_accepted
    accepted-upward none protocol' host host' n m h = cc
    accepted-upward (some w) none host host' n m h = cc
    accepted-upward (some w) (some v) host host' n m h = ground (
      arith,
      transitive v w host_protocol_without_version_check n,
      transitive v w min_host_protocol_version n,
      new_enough-upward host host' m,
    )

    -- If the order of versions is transitive, a host that is accepted is accepted too after it is
    -- upgraded: with a protocol and a version that parse to ones no older.
    pub check_host-upward :
        (protocol protocol' host host' : Option String)
        → IsNoOlder (parse_version protocol') (parse_version protocol)
        → IsNoOlder (parse_version host') (parse_version host)
        → check_host protocol host ≡ ok tt
        → check_host protocol' host' ≡ ok tt
    unfolding check_host
    check_host-upward protocol protocol' host host' n m h = ground (
      arith,
      accepted-upward (parse_version protocol) (parse_version protocol') (parse_version host)
          (parse_version host') n m,
    )
