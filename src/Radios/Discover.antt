-- ===== src/Radios/Discover.antt =====
-- `tcp_probe`, `tcp_is_open`, `ping_probe` and `ping_is_online` of providers/utils/tcp_scan.py, and
-- `discover_endpoints` of both providers. The socket, the `ping` process, the readings of the
-- monotonic clock and the `str` of numbers are parameters.
use Prim.Native.String
use meshonator.Base.{
  ℕ, zero, suc, String, Bool, false, Option, none, some, List, [], ◌∷◌, ◌==◌, if◌then◌else◌, nat_eq,
  string_eq, length,
}
use meshonator.Base.Int.{ℤ, pos, int_eq}
use meshonator.Base.Text.{is_empty, strip}
use meshonator.Json.{Value, null, bool, int, str, Fields, end, field, get}
use meshonator.Db.Session.{Exec, pure, ◌>>=◌}
use meshonator.Providers.{Net, ProviderConnection, call}

-- `sock.connect_ex(…)`: a code, or an OSError with its text
pub data Attempted : Type 0 where
  code : ℤ → Attempted
  os_error : String → Attempted

-- `subprocess.run` of `ping`
pub record Pinged : Type 0 where
  pub returncode : ℤ
  pub stdout : String
  pub stderr : String

abbrev joined : String → String → String
joined out err =
    if is_empty out
    then err
    else if is_empty err
    then out
    else String.◌++◌ out (String.◌++◌ "\n" err)

abbrev text_or_null : String → Value
text_or_null s = if is_empty s then null else str s

abbrev value_or : Option Value → Value → Value
value_or none default = default
value_or (some v) default = v

module _ (str_of : ℤ → String) where
  unfoldable tcp_probe_result : Attempted → Value → Value → Fields
  tcp_probe_result (code z) latency_ms timeout_s = field "is_open" (bool (z == pos 0)) (
      field "connect_ex_code" (int z) (
        field "reason" (str (if z == pos 0 then "open" else String.◌++◌ "connect_ex_" (str_of z)))
          (field "error" null (field "latency_ms" latency_ms (field "timeout_s" timeout_s end)))))
  tcp_probe_result (os_error error) latency_ms timeout_s = field "is_open" (bool false) (
      field "connect_ex_code" null (
        field "reason" (str (if is_empty error then "connect_ex_None" else "socket_error")) (
          field "error" (str error)
            (field "latency_ms" latency_ms (field "timeout_s" timeout_s end)))))

  -- `none` stands for a `ping` that is not installed; `parsed` is the latency that the regular
  -- expression finds in the output
  unfoldable ping_probe_result : (String → Option Value) → Option Pinged → Value → Value → Fields
  ping_probe_result parsed none latency_ms timeout_s = field "is_online" (bool false) (
      field "reason" (str "ping_not_installed") (
        field "error" (str "ping command not found") (
          field "latency_ms" latency_ms
            (field "timeout_s" timeout_s (field "method" (str "icmp") end)))))
  ping_probe_result parsed (some proc) latency_ms timeout_s =
      let output : String = strip (joined (strip proc.stdout) (strip proc.stderr)) in
      let is_online : Bool = proc.returncode == pos 0 in
      field "is_online" (bool is_online) (
        field "reason"
          (str (if is_online then "icmp_reply" else String.◌++◌ "exit_" (str_of proc.returncode)))
          (field "error" (if is_online then null else text_or_null output) (
            field "latency_ms" (value_or (parsed output) latency_ms)
              (field "timeout_s" timeout_s (field "method" (str "icmp") end)))))

-- what the scan of a provider depends on: the probe of a host and a port, with the provider's
-- timeout, and the port that is the default
pub record Scanner (N : Type 0) : Type 0 where
  pub probe : String → ℕ → Net N Fields
  pub default_port : ℕ
  -- the callback is given the probe
  pub tells_probe : Bool

-- the connection of a host that was found
abbrev found_at : (ℕ → String) → ℕ → String → ProviderConnection
found_at port_text port host = record {
  endpoint = String.◌++◌ "tcp://" (String.◌++◌ host (String.◌++◌ ":" (port_text port)));
  host = host;
  port = port;
}

abbrev pub is_true : Option Value → Bool
is_true (some (bool b)) = b
is_true _ = false

-- the probe's `is_open`
unfoldable pub is_open : Fields → Bool
is_open probe = is_true (get "is_open" probe)

abbrev port_or : Option ℕ → ℕ → ℕ
port_or none default = default
port_or (some zero) default = default
port_or (some (suc port)) default = suc port

-- `report` is the progress callback, whose variables are a `K`
module _ {N K : Type 0} (port_text : ℕ → String) (scanner : Scanner N)
    (report : ℕ → ℕ → String → Bool → Fields → K → Exec N K) where
  abbrev pub keep_open :
      Fields → ℕ → String → K × List ProviderConnection → K × List ProviderConnection
  keep_open result tcp_port host (k, discovered) =
      (k, (if is_open result then found_at port_text tcp_port host ∷ discovered else discovered))

  abbrev pub told : Fields → Fields
  told result = if scanner.tells_probe then result else end

  -- the loop over the hosts, from the position `index`
  unfoldable pub discover_each : ℕ → ℕ → ℕ → List String → K → Exec N (K × List ProviderConnection)
  discover_each tcp_port total index [] k = pure (k, [])
  discover_each tcp_port total index (host ∷ hosts) k = do
    result ← call (scanner.probe host tcp_port)
    k' ← report index total host (is_open result) (told result) k
    out ← discover_each tcp_port total (suc index) hosts k'
    pure (keep_open result tcp_port host out)

  unfoldable pub discover_endpoints :
      List String → Option ℕ → K → Exec N (K × List ProviderConnection)
  discover_endpoints hosts port k =
      discover_each (port_or port scanner.default_port) (length hosts) 1 hosts k
