-- ===== src/Spark/Remote.antt =====
-- pkg/spark/client.go: ExtractHostFromRemote and DiscoverSparkUIEndpoint. `get` is what the HTTP
-- client answers to a GET of a URL: a status, or none for an error.
pub mod Discovery
pub mod Host
mod Examples
use livy_next.Prelude.{
  ℕ, Bool, true, false, List, [], ◌∷◌, ◌++◌, Option, none, some, Text, codes, is_empty, text_eq,
  trim_prefix, trim_right, ◌==◌, if◌then◌else◌, ◌||◌,
}
use livy_next.Prelude.Int.{ℤ, pos, ltb_ℤ}
use livy_next.Strconv.{atoi}
use livy_next.Strconv.Decimal.{show_int}
use livy_next.Net.{trim_space, first_part, split_host_port}

-- The remote without its scheme, its parameters and the slashes at its end.
unfoldable pub clean_remote : Text → Text
clean_remote remote =
    let a = trim_prefix (trim_space remote) (codes "sc://") in
    let b = trim_prefix a (codes "spark://") in
    let c = trim_prefix b (codes "http://") in
    let d = trim_prefix c (codes "https://") in trim_right b'/' (first_part b';' d)

unfoldable pub host_of : Option (Text × Text) → Text
host_of none = []
host_of (some (host, port)) = host

unfoldable pub port_of : Option (Text × Text) → Text
port_of none = []
port_of (some (host, port)) = port

unfoldable pub extract_host_from_remote : Text → Text
unfolding clean_remote host_of
extract_host_from_remote remote =
    let clean = clean_remote remote in
    let host = host_of (split_host_port clean) in
    let part = first_part b':' clean in
    if is_empty host then (if is_empty part then codes "localhost" else part) else host

unfoldable pub probed_host : Text → Text → Text
probed_host remote host =
    if is_empty host
    then extract_host_from_remote remote
    else if text_eq host (codes "0.0.0.0")
    then codes "127.0.0.1"
    else host

remote_port : Option ℤ → List ℤ
remote_port none = []
remote_port (some p) = if ltb_ℤ (pos 0) p then p ∷ [] else []

unfoldable pub candidate_ports : Text → List ℤ
unfolding remote_port
candidate_ports port =
    (if is_empty port then [] else remote_port (atoi port))
    ++ (pos 4040 ∷ pos 4041 ∷ pos 4141 ∷ pos 4042 ∷ [])

unfoldable pub endpoint : Text → ℤ → Text
endpoint host port = codes "http://" ++ (host ++ (codes ":" ++ show_int port))

unfoldable pub is_ok_status : Option ℕ → Bool
is_ok_status none = false
is_ok_status (some status) = (status == 200) || (status == 302)

module _ (get : Text → Option ℕ) where
  -- The root is asked where /connect/ does not answer as it should.
  unfoldable pub is_up : Text → ℤ → Bool
  is_up host port =
      if is_ok_status (get (endpoint host port ++ codes "/connect/"))
      then true
      else is_ok_status (get (endpoint host port ++ codes "/"))

  -- The loop over the candidates.
  unfoldable pub probe_ports : Text → List ℤ → Text
  probe_ports host [] = endpoint host (pos 4040)
  probe_ports host (port ∷ ports) =
      let rest = probe_ports host ports in if is_up host port then endpoint host port else rest

  unfoldable pub discover_spark_ui_endpoint : Text → Text
  unfolding clean_remote
  discover_spark_ui_endpoint remote =
      let split = split_host_port (clean_remote remote) in
      probe_ports (probed_host remote (host_of split)) (candidate_ports (port_of split))
