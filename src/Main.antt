-- ===== src/Main.antt =====
-- The program's entry, src/hxscanner.go, and its configuration, src/config/config.go. The flags are those that the
-- package flag has read from the command line.
use hxscanner.Prelude.{ℕ, String, ◌<>◌, Option}
use hxscanner.Prelude.Int.{ℤ, pos, negsuc}
use hxscanner.Strconv.{itoa}
use hxscanner.Env.{Error, Env}
use hxscanner.Exec.{M, raised, or_exit, ◌>>◌}
use hxscanner.Scanner.Block.{Scan, run}
use hxscanner.Scanner.Registered.{plugins}

pub record Flags : Type 0 where
  pub node_endpoint : String
  pub caller_pubkey : String
  pub db_host : String
  pub db_port : ℤ
  pub db_ssl : String
  pub db_user : String
  pub db_pass : String
  pub db_name : String
  pub scan_from : ℤ

abbrev pub default_flags : Flags
default_flags = record {
  node_endpoint = "ws://127.0.0.1:8090";
  caller_pubkey = "HX5jfbqSFHm1XVUEg93NCym67z28WHmeUi3hqnem3o6Ad1BYsZA9";
  db_host = "127.0.0.1";
  db_port = pos 5432;
  db_ssl = "disable";
  db_user = "postgres";
  db_pass = "";
  db_name = "hxscanner";
  scan_from = negsuc 0;
}

-- `Config`
pub record Config : Type 0 where
  pub node_api_url : String
  pub db_connection_string : String
  pub caller_pub_key_string : String

abbrev connection_string : Flags → String
connection_string f =
    "user="
    <> f.db_user
    <> " password="
    <> f.db_pass
    <> " dbname="
    <> f.db_name
    <> " sslmode="
    <> f.db_ssl
    <> " host="
    <> f.db_host
    <> " port="
    <> itoa f.db_port

abbrev pub system_config : Flags → Config
system_config f = record {
  node_api_url = f.node_endpoint;
  db_connection_string = connection_string f;
  caller_pub_key_string = f.caller_pubkey;
}

-- `main`, up to the signal that stops it: `opened` is the answer of `OpenDb`; that of `ConnectHxNode` is dropped,
-- and only whether there is a connection is seen later.
unfoldable pub main : Env → Option Error → Flags → ℕ → M Scan
main E opened flags rounds = do
  or_exit (raised opened)
  run E (plugins E (system_config flags).caller_pub_key_string) rounds flags.scan_from
