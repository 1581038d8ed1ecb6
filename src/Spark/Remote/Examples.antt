-- ===== src/Spark/Remote/Examples.antt =====
-- Remotes at concrete inputs, and the theorems applied to them.
use livy_next.Prelude.{
  ◌∷◌, [], ◌≡◌, refl, ℕ, Option, none, some, Text, codes, text_eq, if◌then◌else◌,
}
use livy_next.Prelude.Int.{pos}
use livy_next.Strconv.{atoi, digits_value, digits_from}
use livy_next.Net.{split_host_port, has_byte}
use livy_next.Spark.Remote.{
  clean_remote, extract_host_from_remote, host_of, port_of, probed_host, candidate_ports,
  discover_spark_ui_endpoint,
}
use livy_next.Spark.Remote.Host.{Bare, uri, extract_host_lem}
use livy_next.Spark.Remote.Discovery.{Finds, discover_lem}

spark_master-Bare : Bare (codes "spark-master")
unfolding has_byte
spark_master-Bare = record {
  no_colon = refl;
  no_semicolon = refl;
  no_slash = refl;
  no_open = refl;
  no_close = refl;
}

port_number-Bare : Bare (codes "15002")
unfolding has_byte
port_number-Bare = record {
  no_colon = refl;
  no_semicolon = refl;
  no_slash = refl;
  no_open = refl;
  no_close = refl;
}

extract_host_lem_example :
    extract_host_from_remote (codes "sc://spark-master:15002/;token=a:b") ≡ codes "spark-master"
extract_host_lem_example =
    extract_host_lem (codes "spark-master") (codes "15002") (codes "token=a:b") spark_master-Bare
      port_number-Bare refl

-- Only http://spark-master:4041/ answers, with a redirection.
abbrev a_server : Text → Option ℕ
a_server url = if text_eq url (codes "http://spark-master:4041/") then some 302 else none

port_number : atoi (codes "15002") ≡ some (pos 15002)
unfolding atoi digits_value digits_from
port_number = refl

discover_lem_example :
    Finds a_server (codes "spark-master") (15002 ∷ 4040 ∷ 4041 ∷ 4141 ∷ 4042 ∷ []) (
      discover_spark_ui_endpoint a_server
        (uri (codes "spark-master") (codes "15002") (codes "token=a")))
unfolding text_eq
discover_lem_example =
    discover_lem a_server (codes "spark-master") (codes "15002") (codes "token=a") 15002
      spark_master-Bare port_number-Bare refl port_number

the_endpoint :
    discover_spark_ui_endpoint a_server (codes "sc://spark-master:15002")
    ≡ codes "http://spark-master:4041"
unfolding discover_spark_ui_endpoint livy_next.Spark.Remote.probe_ports candidate_ports port_of
    split_host_port livy_next.Net.cut_last livy_next.Prelude.trim_right livy_next.Net.first_part
    livy_next.Prelude.trim_prefix livy_next.Net.trim_space livy_next.Net.trim_right_space
    livy_next.Net.trim_left_space has_byte livy_next.Strconv.atoi livy_next.Spark.Remote.is_up
    livy_next.Spark.Remote.is_ok_status text_eq livy_next.Spark.Remote.endpoint livy_next.Net.cut
    livy_next.Net.is_space livy_next.Prelude.has_prefix clean_remote host_of probed_host
    livy_next.Strconv.Decimal.show_from livy_next.Strconv.Decimal.show_int
    livy_next.Strconv.Decimal.show_nat livy_next.Strconv.digits_from livy_next.Strconv.digits_value
the_endpoint = refl
