-- ===== src/Config/Generator/Macros.antt =====
-- The generated functions as C reads them, under the macros of the generated header.
use phantom_grid.Prelude.{
  ℕ, Bool, true, false, not, ◌||◌, ◌&&◌, Option, none, some, List, [], ◌∷◌, ◌++◌, ◌≡◌, refl, sym,
  ap, ◌∙◌, arith, if◌then◌else◌, ◌==◌, any, any-append, any-Permᴰ, All, All-any, any_congr,
}
use phantom_grid.Prelude.Bytes.{Bytes, bytes_eq, bytes_eq_refl}
use phantom_grid.Config.Ports.{PortDefinition, ports_of, has_port}
use phantom_grid.Config.Generator.{
  Line, text, define, test, EbpfConstants, CategoryGroup, GoOrder, by_port, all_ports, categories,
  define_lines, test_lines, category_lines, constant_lines, generate_header, critical_function,
  fake_function, function_end,
}
use phantom_grid.Config.Generator.Groups.{IsOrder, any-categories}

-- The number that a macro stands for.
unfoldable pub macro : List Line → Bytes → Option ℕ
macro [] name = none
macro (text t ∷ ls) name = macro ls name
macro (define n v c ∷ ls) name = if bytes_eq n name then some v else macro ls name
macro (test n ∷ ls) name = macro ls name

abbrev pub equals : ℕ → Option ℕ → Bool
equals p none = false
equals p (some v) = v == p

-- The line returns 1 for the port `p`.
abbrev pub returns : List Line → ℕ → Line → Bool
returns header p (text t) = false
returns header p (define n v c) = false
returns header p (test n) = equals p (macro header n)

-- The function returns 1: one of its tests does.
unfoldable pub returns_one : List Line → List Line → ℕ → Bool
returns_one header function p = any function (returns header p)

-- A line that defines the macro, and one that gives it another number.
abbrev pub names : Bytes → Line → Bool
names name (text t) = false
names name (define n v c) = bytes_eq n name
names name (test n) = false

abbrev pub clashes : Bytes → ℕ → Line → Bool
clashes name value (text t) = false
clashes name value (define n v c) = bytes_eq n name && not (v == value)
clashes name value (test n) = false

macro_known :
    (header : List Line) (name : Bytes) (value : ℕ)
    → any header (names name) ≡ true
    → any header (clashes name value) ≡ false
    → macro header name ≡ some value
unfolding macro
macro_known [] name value h k = ground arith
macro_known (text t ∷ ls) name value h k = macro_known ls name value h k
macro_known (test n ∷ ls) name value h k = macro_known ls name value h k
macro_known (define n v c ∷ ls) name value h k = ground (arith, macro_known ls name value)

-- The same for a definition of a port.
abbrev pub other_port : Bytes → ℕ → PortDefinition → Bool
other_port name value d = bytes_eq d.alias name && not (d.port == value)

-- The alias of a definition stands for no other number, neither among the constants nor among the
-- ports.
pub record IsUnambiguous (constants : EbpfConstants) (critical fake : List PortDefinition)
    (d : PortDefinition) : Type 0 where
  pub in_constants : any (constant_lines constants) (clashes d.alias d.port) ≡ false
  pub in_critical : any critical (other_port d.alias d.port) ≡ false
  pub in_fake : any fake (other_port d.alias d.port) ≡ false

abbrev pub is_ambiguous :
    EbpfConstants → List PortDefinition → List PortDefinition → PortDefinition → Bool
is_ambiguous constants critical fake d =
    any (constant_lines constants) (clashes d.alias d.port)
    || (any critical (other_port d.alias d.port) || any fake (other_port d.alias d.port))

-- The condition, by a test.
pub unambiguous :
    (constants : EbpfConstants) (critical fake ds : List PortDefinition)
    → any ds (is_ambiguous constants critical fake) ≡ false
    → All (IsUnambiguous constants critical fake) ds
unambiguous constants critical fake [] h = tt
unambiguous constants critical fake (d ∷ ds) h = (
  record { in_constants = ground arith; in_critical = ground arith; in_fake = ground arith },
  unambiguous constants critical fake ds (ground arith),
)

any-define_lines-names :
    (name : Bytes) (ds : List PortDefinition)
    → any (define_lines ds) (names name) ≡ any ds (λ d. bytes_eq d.alias name)
unfolding define_lines
any-define_lines-names name [] = refl
any-define_lines-names name (d ∷ ds) = ground (arith, any-define_lines-names name ds)

any-define_lines-clashes :
    (name : Bytes) (value : ℕ) (ds : List PortDefinition)
    → any (define_lines ds) (clashes name value) ≡ any ds (other_port name value)
unfolding define_lines
any-define_lines-clashes name value [] = refl
any-define_lines-clashes name value (d ∷ ds) =
    ground (arith, any-define_lines-clashes name value ds)

has_port-any :
    (p : ℕ) (ds : List PortDefinition) → has_port p (ports_of ds) ≡ any ds (λ d. d.port == p)
unfolding has_port ports_of
has_port-any p [] = refl
has_port-any p (d ∷ ds) = ground (arith, has_port-any p ds)

module _ (header : List Line) (p : ℕ) where
  abbrev tests_for : PortDefinition → Bool
  tests_for d = equals p (macro header d.alias)

  any-test_lines :
      (ds : List PortDefinition) → any (test_lines ds) (returns header p) ≡ any ds tests_for
  unfolding test_lines
  any-test_lines [] = refl
  any-test_lines (d ∷ ds) = ground (arith, any-test_lines ds)

  any-category_lines :
      (gs : List CategoryGroup)
      → any (category_lines gs) (returns header p) ≡ any (all_ports gs) tests_for
  unfolding category_lines all_ports
  any-category_lines [] = refl
  any-category_lines (g ∷ gs) =
      any-append (test_lines g.ports) _ (returns header p)
      ∙ ground (
        arith,
        any-append g.ports (all_ports gs) tests_for,
        any-test_lines g.ports,
        any-category_lines gs,
      )

  any-function_end :
      (body : List Line)
      → any (body ++ function_end) (returns header p) ≡ any body (returns header p)
  any-function_end body = any-append body function_end (returns header p) ∙ ground arith

or_true : (a b : Bool) → b ≡ true → (a || b) ≡ true
or_true a b h = ground arith

or_left : (a b : Bool) → a ≡ true → (a || b) ≡ true
or_left a b h = ground arith

or_false : (a b c : Bool) → a ≡ false → b ≡ false → c ≡ false → (a || (b || c)) ≡ false
or_false a b c h i j = ground arith

any_parts :
    (q : Line → Bool) (silent : (t : Bytes) → q (text t) ≡ false) (c x y : List Line)
    (t u v w : Bytes)
    → any
        (c
          ++ (text t
              ∷ text u
              ∷ (x ++ (text [] ∷ text [] ∷ text v ∷ text w ∷ (y ++ (text [] ∷ []))))))
        q
      ≡ (any c q || (any x q || any y q))
any_parts q silent c x y t u v w =
    let last = text [] ∷ [] in
    let back = text [] ∷ text [] ∷ text v ∷ text w ∷ (y ++ last) in
    ground (
      arith,
      any-append c (text t ∷ text u ∷ (x ++ back)) q,
      any-append x back q,
      any-append y last q,
      silent t,
      silent u,
      silent v,
      silent w,
      silent [],
    )

module _ (go : GoOrder) (is_order : IsOrder go) (constants : EbpfConstants)
    (critical fake : List PortDefinition) where
  abbrev header : List Line
  header =
      generate_header go (categories go critical) (go.sort PortDefinition by_port fake) constants

  any-generate_header :
      (q : Line → Bool)
      → ((t : Bytes) → q (text t) ≡ false)
      → any header q ≡ (
          any (constant_lines constants) q
          || (any
                (define_lines (go.sort PortDefinition by_port (all_ports (categories go critical))))
                q
              || any (define_lines (go.sort PortDefinition by_port fake)) q))
  unfolding generate_header
  any-generate_header q silent = any_parts q silent (constant_lines constants) _ _ _ _ _ _

  -- The ports in the header are the critical ones and the fake ones.
  any_ports :
      (q : PortDefinition → Bool)
      → (any (go.sort PortDefinition by_port (all_ports (categories go critical))) q
          || any (go.sort PortDefinition by_port fake) q)
        ≡ (any critical q || any fake q)
  any_ports q = ground (
    arith,
    any-Permᴰ q (is_order.sorts PortDefinition by_port (all_ports (categories go critical))),
    any-Permᴰ q (is_order.sorts PortDefinition by_port fake),
    any-categories q go is_order critical,
  )

  any-header :
      (q : Line → Bool) (r : PortDefinition → Bool)
      → ((t : Bytes) → q (text t) ≡ false)
      → ((ds : List PortDefinition) → any (define_lines ds) q ≡ any ds r)
      → any header q ≡ (any (constant_lines constants) q || (any critical r || any fake r))
  any-header q r silent h =
      any-generate_header q silent
      ∙ ap (λ b. any (constant_lines constants) q || b) {y = any critical r || any fake r}
          (ap (λ b. b || any (define_lines (go.sort PortDefinition by_port fake)) q) (h _)
            ∙ ap
                (λ b.
                  any (go.sort PortDefinition by_port (all_ports (categories go critical))) r || b)
                (h _)
            ∙ any_ports r)

  macro-alias :
      (d : PortDefinition)
      → IsUnambiguous constants critical fake d
      → (any critical (λ e. bytes_eq e.alias d.alias) || any fake (λ e. bytes_eq e.alias d.alias))
        ≡ true
      → macro header d.alias ≡ some d.port
  macro-alias d u known =
      macro_known header d.alias d.port
        (any-header (names d.alias) (λ e. bytes_eq e.alias d.alias) (λ t. refl)
            (any-define_lines-names d.alias)
          ∙ or_true _ _ known)
        (any-header (clashes d.alias d.port) (other_port d.alias d.port) (λ t. refl)
            (any-define_lines-clashes d.alias d.port)
          ∙ or_false _ _ _ u.in_constants u.in_critical u.in_fake)

  -- The definition is in the header.
  abbrev Known : PortDefinition → Type 0
  Known d = (p : ℕ) → tests_for header p d ≡ (d.port == p)

  All-elements :
      (ds : List PortDefinition) (p : ℕ)
      → All Known ds
      → All (λ d. tests_for header p d ≡ (d.port == p)) ds
  All-elements [] p h = tt
  All-elements (d ∷ ds) p (h, more) = (h p, All-elements ds p more)

  Known-critical : All (IsUnambiguous constants critical fake) critical → All Known critical
  Known-critical u =
      All-any critical
        (λ d inside ud p. ap (equals p) (
          macro-alias d ud
            (or_left _ _ (inside (λ e. bytes_eq e.alias d.alias) (bytes_eq_refl d.alias)))))
        u

  Known-fake : All (IsUnambiguous constants critical fake) fake → All Known fake
  Known-fake u =
      All-any fake
        (λ d inside ud p. ap (equals p) (
          macro-alias d ud
            (or_true _ _ (inside (λ e. bytes_eq e.alias d.alias) (bytes_eq_refl d.alias)))))
        u

  -- The generated is_critical_asset_port returns 1 exactly for the critical ports, and the generated
  -- is_fake_port exactly for the fake ones, under the macros of the generated header. The
  -- conditions: a range over a map visits every entry once and sort.Slice permutes the elements,
  -- and no alias of a definition stands for two numbers in the constants and the definitions.
  pub returns_one-generated :
      All (IsUnambiguous constants critical fake) critical
      → All (IsUnambiguous constants critical fake) fake
      → (p : ℕ)
      → (returns_one header (critical_function go (categories go critical)) p
          ≡ has_port p (ports_of critical))
        × (returns_one header (fake_function go (go.sort PortDefinition by_port fake)) p
            ≡ has_port p (ports_of fake))
  unfolding returns_one critical_function fake_function
  returns_one-generated uc uf p = (
    any-function_end header p (category_lines (categories go critical))
        ∙ any-category_lines header p (categories go critical)
        ∙ any-categories (tests_for header p) go is_order critical
        ∙ any_congr critical _ _ (All-elements critical p (Known-critical uc))
        ∙ sym (has_port-any p critical),
    any-function_end header p (test_lines (go.sort PortDefinition by_port fake))
        ∙ any-test_lines header p _
        ∙ any-Permᴰ (tests_for header p) (is_order.sorts PortDefinition by_port fake)
        ∙ any_congr fake _ _ (All-elements fake p (Known-fake uf))
        ∙ sym (has_port-any p fake),
  )
