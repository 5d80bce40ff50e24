-- ===== src/Config/Ports.antt =====
-- internal/config/ports.go. Ports are `int`, which the definitions keep non-negative.
pub mod Valid
use phantom_grid.Prelude.{
  ℕ, Bool, true, false, ◌||◌, Option, none, some, List, [], ◌∷◌, ◌==◌, ltb, if◌then◌else◌, map,
  Result, ok, err,
}
use phantom_grid.Prelude.Bytes.{Bytes, codes}

pub record PortDefinition : Type 0 where
  pub port : ℕ
  pub name : Bytes
  pub description : Bytes
  pub category : Bytes
  pub alias : Bytes

abbrev port_definition : ℕ → Bytes → Bytes → Bytes → Bytes → PortDefinition
port_definition port name description category alias = record {
  port = port;
  name = name;
  description = description;
  category = category;
  alias = alias;
}

abbrev pub critical_port_definitions : List PortDefinition
critical_port_definitions =
    port_definition 21 (codes "FTP") (codes "File Transfer Protocol") (codes "file")
      (codes "FTP_PORT")
    ∷ port_definition 22 (codes "SSH") (codes "Secure Shell") (codes "core") (codes "SSH_PORT")
    ∷ []

abbrev pub fake_port_definitions : List PortDefinition
fake_port_definitions =
    port_definition 80 (codes "HTTP") (codes "HTTP Web Server") (codes "application")
      (codes "HTTP_PORT")
    ∷ port_definition 443 (codes "HTTPS") (codes "HTTPS Web Server") (codes "application")
        (codes "HTTPS_PORT")
    ∷ port_definition 3306 (codes "MySQL Fake") (codes "MySQL (fake honeypot)") (codes "database")
        (codes "MYSQL_FAKE_PORT")
    ∷ port_definition 5432 (codes "PostgreSQL Fake") (codes "PostgreSQL (fake honeypot)")
        (codes "database") (codes "POSTGRES_FAKE_PORT")
    ∷ port_definition 6379 (codes "Redis Fake") (codes "Redis (fake honeypot)") (codes "database")
        (codes "REDIS_FAKE_PORT")
    ∷ port_definition 27017 (codes "MongoDB Fake") (codes "MongoDB (fake honeypot)")
        (codes "database") (codes "MONGODB_FAKE_PORT")
    ∷ port_definition 8080 (codes "Admin Panel Fake") (codes "Admin Panel (fake)") (codes "admin")
        (codes "ADMIN_PANEL_FAKE_PORT")
    ∷ port_definition 8443 (codes "HTTPS Alt Fake") (codes "HTTPS Alternative (fake)")
        (codes "admin") (codes "HTTPS_ALT_FAKE_PORT")
    ∷ port_definition 9000 (codes "Admin Panel Fake 2") (codes "Admin Panel (fake)") (codes "admin")
        (codes "ADMIN_PANEL_FAKE_PORT_2")
    ∷ port_definition 21 (codes "FTP") (codes "FTP Server") (codes "file") (codes "FTP_PORT")
    ∷ port_definition 23 (codes "Telnet") (codes "Telnet Server") (codes "remote")
        (codes "TELNET_PORT")
    ∷ port_definition 3389 (codes "RDP Fake") (codes "RDP (fake honeypot)") (codes "remote")
        (codes "RDP_FAKE_PORT")
    ∷ port_definition 5900 (codes "VNC") (codes "VNC Server") (codes "remote") (codes "VNC_PORT")
    ∷ port_definition 1433 (codes "MSSQL Fake") (codes "MSSQL (fake honeypot)") (codes "database")
        (codes "MSSQL_FAKE_PORT")
    ∷ port_definition 1521 (codes "Oracle Fake") (codes "Oracle (fake honeypot)") (codes "database")
        (codes "ORACLE_FAKE_PORT")
    ∷ port_definition 5433 (codes "PostgreSQL Alt Fake") (codes "PostgreSQL Alternative (fake)")
        (codes "database") (codes "POSTGRES_ALT_FAKE_PORT")
    ∷ port_definition 11211 (codes "Memcached Fake") (codes "Memcached (fake)") (codes "cache")
        (codes "MEMCACHED_FAKE_PORT")
    ∷ port_definition 27018 (codes "MongoDB Shard Fake") (codes "MongoDB Shard (fake)")
        (codes "database") (codes "MONGODB_SHARD_FAKE_PORT")
    ∷ port_definition 9200 (codes "Elasticsearch Fake") (codes "Elasticsearch (fake)")
        (codes "admin") (codes "ELASTICSEARCH_FAKE_PORT")
    ∷ port_definition 5601 (codes "Kibana Fake") (codes "Kibana (fake)") (codes "admin")
        (codes "KIBANA_FAKE_PORT")
    ∷ port_definition 3000 (codes "Node.js Fake") (codes "Node.js (fake)") (codes "application")
        (codes "NODEJS_FAKE_PORT")
    ∷ port_definition 5000 (codes "Flask Fake") (codes "Flask (fake)") (codes "application")
        (codes "FLASK_FAKE_PORT")
    ∷ port_definition 8000 (codes "Django Fake") (codes "Django (fake)") (codes "application")
        (codes "DJANGO_FAKE_PORT")
    ∷ port_definition 8888 (codes "Jupyter Fake") (codes "Jupyter (fake)") (codes "application")
        (codes "JUPYTER_FAKE_PORT")
    ∷ []

-- GetCriticalPorts and GetFakePorts
unfoldable pub ports_of : List PortDefinition → List ℕ
ports_of [] = []
ports_of (d ∷ ds) = d.port ∷ ports_of ds

unfoldable pub find_in : ℕ → List PortDefinition → Option PortDefinition
find_in port [] = none
find_in port (d ∷ ds) = if d.port == port then some d else find_in port ds

-- FindPortDefinition: the critical ports come first.
unfoldable pub find_port_definition : ℕ → Option PortDefinition
find_port_definition port = elim (find_in port critical_port_definitions) [
  | some d ↦ some d
  | none ↦ find_in port fake_port_definitions
]

pub data PortError : Type 0 where
  duplicate_port : ℕ → Bytes → PortError
  invalid_range : ℕ → Bytes → PortError

unfoldable pub has_port : ℕ → List ℕ → Bool
has_port port [] = false
has_port port (p ∷ ps) = p == port || has_port port ps

unfoldable pub check_duplicates : List ℕ → List PortDefinition → Option PortError
check_duplicates seen [] = none
check_duplicates seen (d ∷ ds) =
    if has_port d.port seen
    then some (duplicate_port d.port d.name)
    else check_duplicates (d.port ∷ seen) ds

unfoldable pub check_ranges : List PortDefinition → Option PortError
check_ranges [] = none
check_ranges (d ∷ ds) =
    if ltb d.port 1 || ltb 65535 d.port then some (invalid_range d.port d.name) else check_ranges ds

-- ValidatePorts on a list of definitions: an error, or none.
unfoldable pub validate_ports : List PortDefinition → Option PortError
validate_ports definitions = elim (check_duplicates [] definitions) [
  | some e ↦ some e
  | none ↦ check_ranges definitions
]
