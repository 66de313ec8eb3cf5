-- ===== src/App/Assembly.antt =====
-- What comes before a start (cool-next/core/app/lifecycle.go): `StartDefinition`, `scanAssembly`,
-- `validateHooks`, `addRollback` and `enabledTransports`. A component is told from another by its
-- name; the generated function that assembles the application is its outcome.
use cool_admin_go_next.Common.{
  ℕ, ◌==◌, ltb, Bool, true, false, not, List, [], ◌∷◌, ◌++◌, Text, text_eq, trim_space,
  is_empty_text, Option, none, some, Result, ok, err, if◌then◌else◌, ◌&&◌, map, filter, any, length,
}
use cool_admin_go_next.App.Lifecycle.{
  Component, Transport, StartError, Application, new_application, add_stopper, Step, start_assembly,
  stop,
}

pub record Hooks : Type 0 where
  pub has_initializer : Bool
  pub has_starter : Bool
  pub has_stopper : Bool
  pub has_supervisor : Bool

pub record Graph : Type 0 where
  pub is_validated : Bool
  pub components : List Text
  pub lifecycles : List Hooks
  pub transports : List Text

pub record Assembled : Type 0 where
  pub component : Component
  pub transport : Option Transport

pub data ScanError : Type 0 where
  no_assembly count_differs too_many lifecycles_differ order_differs not_prefix : ScanError
  hooks_differ transport_differs invalid_name missing_transport : ScanError

-- `components` are those of the prefix too. `expected` are the transports of the graph that are to
-- come.
pub record Scan : Type 0 where
  pub components : List Assembled
  pub transports : List Transport
  pub expected : List Text
  pub prefix_error : Option ScanError
  pub error : Option ScanError

abbrev pub is_there {ℓ} : {A : Type ℓ} → Option A → Bool
is_there none = false
is_there (some _) = true

abbrev pub same_bool : Bool → Bool → Bool
same_bool true b = b
same_bool false b = not b

abbrev pub or_else {ℓ} : {A : Type ℓ} → Option A → A → Option A
or_else none a = some a
or_else (some a) _ = some a

-- The first error of each kind is kept.
abbrev pub fail_prefix : ScanError → Scan → Scan
fail_prefix e s = record s { prefix_error = or_else s.prefix_error e }

abbrev pub fail_complete : Bool → ScanError → Scan → Scan
fail_complete complete e s = if complete then record s { error = or_else s.error e } else s

-- `validateHooks`
unfoldable pub validate_hooks : Hooks → Component → Bool
validate_hooks hooks c =
    same_bool (is_there c.initializer) hooks.has_initializer
    && same_bool (is_there c.starter) hooks.has_starter
    && same_bool (is_there c.stopper) hooks.has_stopper
    && same_bool (is_there c.supervisor) hooks.has_supervisor

abbrev pub wants_transport : Text → List Text → Bool
wants_transport name [] = false
wants_transport name (t ∷ ts) = text_eq name t

abbrev pub valid_name : Text → List Transport → Bool
valid_name name ts =
    not (is_empty_text (trim_space name))
    && text_eq (trim_space name) name
    && not (any (λ t. text_eq t.name name) ts)

abbrev pub next_transports : List Text → List Text
next_transports [] = []
next_transports (t ∷ ts) = ts

abbrev pub add_transport : Bool → Transport → Scan → Scan
add_transport complete t s =
    if complete && not (is_there s.error)
    then (if valid_name t.name s.transports
        then record s { transports = s.transports ++ t ∷ [] }
        else record s { error = some invalid_name })
    else s

abbrev pub keep_transport : Bool → Option Transport → Scan → Scan
keep_transport complete none s = s
keep_transport complete (some t) s =
    let more = add_transport complete t s in
    record more { expected = next_transports more.expected }

-- A component that fits.
abbrev pub keep : Bool → Assembled → Scan → Scan
keep complete a s =
    keep_transport complete a.transport (record s { components = s.components ++ a ∷ [] })

-- The loop over the assembly's components.
unfoldable pub scan_each : Bool → List Assembled → List Text → List Hooks → Scan → Scan
unfolding validate_hooks trim_space
scan_each complete [] names hooks s = s
scan_each complete (a ∷ parts) [] hooks s = s
scan_each complete (a ∷ parts) (name ∷ names) [] s = s
scan_each complete (a ∷ parts) (name ∷ names) (h ∷ hs) s =
    let rest = scan_each complete parts names hs (keep complete a s) in
    if not (text_eq a.component.name name)
    then fail_prefix not_prefix (fail_complete complete order_differs s)
    else if not (validate_hooks h a.component)
    then fail_prefix hooks_differ (fail_complete complete hooks_differ s)
    else if not (same_bool (is_there a.transport) (wants_transport name s.expected))
    then fail_prefix transport_differs (fail_complete complete transport_differs s)
    else rest

abbrev pub finish_with : Bool → List Text → Scan → Scan
finish_with complete [] s = s
finish_with complete (_ ∷ _) s = fail_complete complete missing_transport s

abbrev pub finish_scan : Bool → Scan → Scan
finish_scan complete s = finish_with complete s.expected s

abbrev pub new_scan : Graph → Scan
new_scan graph = record {
  components = [];
  transports = [];
  expected = graph.transports;
  prefix_error = none;
  error = none;
}

abbrev pub check_counts : Graph → Bool → List Assembled → Scan → Scan
check_counts graph complete parts s =
    let counted =
      if length graph.components == length parts
      then s
      else fail_complete complete count_differs s in
    if ltb (length graph.components) (length parts) then fail_prefix too_many counted else counted

unfoldable pub scan_assembly : Graph → Option (List Assembled) → Bool → Scan
unfolding scan_each
scan_assembly graph none complete =
    fail_prefix no_assembly (fail_complete complete no_assembly (new_scan graph))
scan_assembly graph (some parts) complete =
    let s = check_counts graph complete parts (new_scan graph) in
    if length graph.lifecycles == length graph.components
    then finish_scan complete (scan_each complete parts graph.components graph.lifecycles s)
    else fail_prefix lifecycles_differ (fail_complete complete lifecycles_differ s)

abbrev pub register_transport : Option Transport → Application → Application
register_transport none app = app
register_transport (some t) app = record app { transports = app.transports ++ t ∷ [] }

abbrev pub register_stopper : Option Bool → Component → Application → Application
register_stopper none c app = add_stopper c c.stopper app
register_stopper (some _) c app = app

-- `addRollback`: a component with an initializer was not initialized, so that it is not stopped.
unfoldable pub add_rollback : List Assembled → Application → Application
add_rollback [] app = app
add_rollback (a ∷ parts) app =
    add_rollback parts
      (register_stopper a.component.initializer a.component (register_transport a.transport app))

abbrev pub enabled_transports : List Transport → List Transport
enabled_transports ts = filter (λ t. t.enabled) ts

pub data DefinitionError : Type 0 where
  not_validated empty_assembly : DefinitionError
  assembling : Option ScanError → DefinitionError
  misfits : ScanError → DefinitionError
  failing : StartError → DefinitionError

-- The generated function: what it has assembled, and whether it fails.
pub record Assembling : Type 0 where
  pub assembly : Option (List Assembled)
  pub fails : Bool

abbrev pub Started : Type 0
Started = Result DefinitionError (Unit {0}) × Application

abbrev pub roll_back : (ℕ → Bool) → DefinitionError → Application → Started
roll_back expires e app = (err e, stop expires app)

abbrev pub started : (ℕ → Bool) → Step → Started
started expires (ok _, app) = (ok tt, app)
started expires (err e, app) = roll_back expires (failing e) app

abbrev pub start_scanned : (ℕ → Bool) → Scan → Option ScanError → Started
start_scanned expires s (some e) =
    roll_back expires (misfits e) (add_rollback s.components new_application)
start_scanned expires s none = started expires (
    start_assembly (map (λ a. a.component) s.components) (enabled_transports s.transports)
      new_application)

abbrev pub start_assembled : (ℕ → Bool) → Graph → Option (List Assembled) → Started
start_assembled expires graph none = roll_back expires empty_assembly new_application
start_assembled expires graph (some parts) =
    let s = scan_assembly graph (some parts) true in start_scanned expires s s.error

-- `StartDefinition`; `expires` is the deadline of a shutdown.
unfoldable pub start_definition : (ℕ → Bool) → Graph → Option Assembling → Started
unfolding start_assembly stop scan_assembly add_rollback
start_definition expires graph none = (err not_validated, new_application)
start_definition expires graph (some outcome) =
    if not graph.is_validated
    then (err not_validated, new_application)
    else if outcome.fails
    then (let s = scan_assembly graph outcome.assembly false in
        roll_back expires (assembling s.prefix_error) (add_rollback s.components new_application))
    else start_assembled expires graph outcome.assembly
