-- ===== src/Config/Generator.antt =====
-- cmd/config-gen/main.go and internal/config/constants.go: the generated C of the eBPF program, as
-- lines. The order in which Go ranges over a map and what sort.Slice does with equal elements are
-- parameters.
pub mod Groups
pub mod Macros
use phantom_grid.Prelude.{
  ℕ, Bool, true, false, ◌||◌, Option, none, some, List, [], ◌∷◌, ◌++◌, map, ltb, ◌==◌,
  if◌then◌else◌, Result, ok, err,
}
use phantom_grid.Prelude.Bytes.{Bytes, codes, decimal}
use phantom_grid.Prelude.Table.{Table, lookup, insert}
use phantom_grid.Config.Ports.{PortDefinition, PortError, validate_ports}
use phantom_grid.Honeypot.Text.{switch, title, glue}

-- EBFPConstants, as GetEBPFConstants fills it.
pub record EbpfConstants : Type 0 where
  pub honeypot_port : ℕ
  pub ssh_port : ℕ
  pub spa_magic_port : ℕ
  pub spa_secret_token : Bytes
  pub spa_token_len : ℕ
  pub spa_whitelist_duration : ℕ
  pub ttl_windows : ℕ
  pub ttl_linux : ℕ
  pub ttl_freebsd : ℕ
  pub ttl_solaris : ℕ
  pub window_windows : ℕ
  pub window_linux : ℕ
  pub window_freebsd : ℕ
  pub max_payload_scan : ℕ

abbrev pub ebpf_constants : EbpfConstants
ebpf_constants = record {
  honeypot_port = 9999;
  ssh_port = 22;
  spa_magic_port = 1337;
  spa_secret_token = codes "PHANTOM_GRID_SPA_2025";
  spa_token_len = 21;
  spa_whitelist_duration = 30;
  ttl_windows = 128;
  ttl_linux = 64;
  ttl_freebsd = 64;
  ttl_solaris = 255;
  window_windows = 65535;
  window_linux = 29200;
  window_freebsd = 65535;
  max_payload_scan = 512;
}

pub record CategoryGroup : Type 0 where
  pub name : Bytes
  pub ports : List PortDefinition

-- What the source leaves to Go: the order of a range over a map, and sort.Slice by a comparison.
pub record GoOrder : Type 1 where
  pub range : (V : Type 0) → Table V → Table V
  pub sort : (A : Type 0) → (A → A → Bool) → List A → List A

-- a < b on strings
unfoldable pub bytes_less : Bytes → Bytes → Bool
bytes_less a [] = false
bytes_less [] (y ∷ b) = true
bytes_less (x ∷ a) (y ∷ b) = if x == y then bytes_less a b else ltb x y

unfoldable pub category_name : Bytes → Bytes
category_name cat =
    switch cat
      (("core" ∷ [], codes "Core Services")
        ∷ ("database" ∷ [], codes "Databases")
        ∷ ("admin" ∷ [], codes "Admin Panels & Management")
        ∷ ("remote" ∷ [], codes "Remote Access")
        ∷ ("container" ∷ [], codes "Container Services")
        ∷ ("application" ∷ [], codes "Application Frameworks")
        ∷ ("directory" ∷ [], codes "Directory Services")
        ∷ ("cache" ∷ [], codes "Cache Services")
        ∷ ("file" ∷ [], codes "File Services")
        ∷ ("messaging" ∷ [], codes "Messaging Protocols")
        ∷ [])
      (title cat)

-- categoryMap[k], where a key that is not there stands for the empty list.
unfoldable pub ports_at : Bytes → Table (List PortDefinition) → List PortDefinition
ports_at k m = elim (lookup k m) [ none ↦ [] | some ports ↦ ports ]

unfoldable pub group_ports :
    List PortDefinition → Table (List PortDefinition) → Table (List PortDefinition)
group_ports [] m = m
group_ports (d ∷ ds) m = group_ports ds (insert d.category (ports_at d.category m ++ d ∷ []) m)

abbrev pub by_port : PortDefinition → PortDefinition → Bool
by_port a b = ltb a.port b.port

abbrev pub by_name : CategoryGroup → CategoryGroup → Bool
by_name a b = bytes_less a.name b.name

-- A line of C: a macro for a number, a test of the port, or anything else. A line begins with its
-- blanks.
pub data Line : Type 0 where
  text : Bytes → Line
  define : Bytes → ℕ → Bytes → Line
  test : Bytes → Line

unfoldable pub render : Line → Bytes
render (text t) = t
render (define name value comment) =
    glue (codes "#define " ∷ name ∷ codes " " ∷ decimal value ∷ comment ∷ [])
render (test name) = glue (codes "    if (p == " ∷ name ∷ codes ") return 1;" ∷ [])

abbrev pub blank : Line
blank = text []

-- The two lines of a range over definitions.
unfoldable pub define_lines : List PortDefinition → List Line
define_lines [] = []
define_lines (d ∷ ds) =
    blank
    ∷ define d.alias d.port (glue (codes "  // " ∷ d.name ∷ codes " - " ∷ d.description ∷ []))
    ∷ define_lines ds

unfoldable pub test_lines : List PortDefinition → List Line
test_lines [] = []
test_lines (d ∷ ds) = blank ∷ test d.alias ∷ test_lines ds

unfoldable pub category_lines : List CategoryGroup → List Line
category_lines [] = []
category_lines (g ∷ gs) =
    blank ∷ text (codes "    // " ++ g.name) ∷ (test_lines g.ports ++ (blank ∷ category_lines gs))

-- ebpfHeaderTemplate up to the ports
unfoldable pub constant_lines : EbpfConstants → List Line
constant_lines c =
    text (codes "// AUTO-GENERATED FILE - DO NOT EDIT MANUALLY")
    ∷ text (codes "// This file is generated from internal/config/config.go and ports.go")
    ∷ text (codes "// Run 'make generate-config' to regenerate")
    ∷ blank
    ∷ text (codes "// Core Ports")
    ∷ define (codes "HONEYPOT_PORT") c.honeypot_port []
    ∷ define (codes "SSH_PORT") c.ssh_port []
    ∷ blank
    ∷ text (codes "// SPA Configuration")
    ∷ define (codes "SPA_MAGIC_PORT") c.spa_magic_port []
    ∷ text (glue (codes "#define SPA_SECRET_TOKEN \"" ∷ c.spa_secret_token ∷ codes "\"" ∷ []))
    ∷ define (codes "SPA_TOKEN_LEN") c.spa_token_len []
    ∷ text (
        glue (
          codes "#define SPA_WHITELIST_DURATION_NS ("
          ∷ decimal c.spa_whitelist_duration
          ∷ codes "ULL * 1000000000ULL) // "
          ∷ decimal c.spa_whitelist_duration
          ∷ codes " seconds in nanoseconds"
          ∷ []))
    ∷ blank
    ∷ text (codes "// OS Fingerprint Values (TTL)")
    ∷ define (codes "TTL_WINDOWS") c.ttl_windows []
    ∷ define (codes "TTL_LINUX") c.ttl_linux []
    ∷ define (codes "TTL_FREEBSD") c.ttl_freebsd []
    ∷ define (codes "TTL_SOLARIS") c.ttl_solaris []
    ∷ blank
    ∷ text (codes "// OS Fingerprint Values (Window Size)")
    ∷ define (codes "WINDOW_WINDOWS") c.window_windows []
    ∷ define (codes "WINDOW_LINUX") c.window_linux []
    ∷ define (codes "WINDOW_FREEBSD") c.window_freebsd []
    ∷ blank
    ∷ text (codes "// Egress DLP Configuration")
    ∷ define (codes "MAX_PAYLOAD_SCAN") c.max_payload_scan []
    ∷ blank
    ∷ []

unfoldable pub all_ports : List CategoryGroup → List PortDefinition
all_ports [] = []
all_ports (g ∷ gs) = g.ports ++ all_ports gs

-- The function in front of and behind its tests.
abbrev pub function_start : Bytes → List Line
function_start name =
    text (glue (codes "static __always_inline int " ∷ name ∷ codes "(__be16 port) {" ∷ []))
    ∷ text (codes "    __u16 p = bpf_ntohs(port);")
    ∷ text (codes "    ")
    ∷ []

abbrev pub function_end : List Line
function_end = blank ∷ text (codes "    ") ∷ text (codes "    return 0;") ∷ text (codes "}") ∷ []

module _ (go : GoOrder) where
  -- The loop over categoryMap.
  unfoldable pub groups_of : Table (List PortDefinition) → List CategoryGroup
  groups_of [] = []
  groups_of ((cat, ports) ∷ m) =
      record { name = category_name cat; ports = go.sort PortDefinition by_port ports }
      ∷ groups_of m

  unfoldable pub categories : List PortDefinition → List CategoryGroup
  categories critical =
      go.sort CategoryGroup by_name
        (groups_of (go.range (List PortDefinition) (group_ports critical [])))

  unfoldable pub generate_header :
      List CategoryGroup → List PortDefinition → EbpfConstants → List Line
  generate_header groups fake constants =
      constant_lines constants
      ++ (text (
            codes
              "// Critical asset ports protected by Phantom Protocol (default: DROP all traffic)")
          ∷ text (codes "// Generated from CriticalPortDefinitions in internal/config/ports.go")
          ∷ (define_lines (go.sort PortDefinition by_port (all_ports groups))
              ++ (blank
                  ∷ blank
                  ∷ text (codes "// Fake ports for honeypot deception (The Mirage)")
                  ∷ text (codes "// Generated from FakePortDefinitions in internal/config/ports.go")
                  ∷ (define_lines fake ++ (blank ∷ [])))))

  -- The bodies of the two generated functions.
  unfoldable pub critical_function : List CategoryGroup → List Line
  critical_function groups =
      function_start (codes "is_critical_asset_port") ++ (category_lines groups ++ function_end)

  unfoldable pub fake_function : List PortDefinition → List Line
  fake_function fake = function_start (codes "is_fake_port") ++ (test_lines fake ++ function_end)

  unfoldable pub generate_function : List CategoryGroup → List PortDefinition → List Line
  generate_function groups fake =
      (text (codes "// AUTO-GENERATED FUNCTION - DO NOT EDIT MANUALLY")
        ∷ text (codes "// This function is generated from internal/config/ports.go")
        ∷ text (codes "// Run 'make generate-config' to regenerate")
        ∷ blank
        ∷ [])
      ++ (critical_function groups ++ (blank ∷ fake_function fake))

  -- The files of a run of the generator: the header and the functions.
  unfoldable pub generate :
      List PortDefinition
      → List PortDefinition
      → EbpfConstants
      → Result PortError (List Line × List Line)
  generate critical fake constants = elim (validate_ports critical) [
    | some e ↦ err e
    | none ↦
        let groups = categories critical in
        let fake_ports = go.sort PortDefinition by_port fake in
        ok (generate_header groups fake_ports constants, generate_function groups fake_ports)
  ]
