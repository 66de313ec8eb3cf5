-- ===== src/App/Examples.antt =====
-- An application whose third component fails to initialize, and one that starts.
use cool_admin_go_next.Common.{
  ℕ, ltb, ◌≡◌, refl, Bool, true, false, List, [], ◌∷◌, codes, none, some, trim_space,
}
use cool_admin_go_next.App.Lifecycle.{
  Component, Transport, initializes, stops_down, stops_transport,
}
use cool_admin_go_next.App.Assembly.{Hooks, Graph, Assembled, validate_hooks, start_definition}
use cool_admin_go_next.App.Stopping.{Stops, stops_due, start_definition-Stops}

abbrev database : Component
database = record {
  name = codes "database";
  initializer = some true;
  starter = none;
  stopper = some true;
  supervisor = none;
}

abbrev worker : Component
worker = record {
  name = codes "worker";
  initializer = none;
  starter = some true;
  stopper = some false;
  supervisor = some true;
}

abbrev broken : Component
broken = record {
  name = codes "broken";
  initializer = some false;
  starter = some true;
  stopper = some true;
  supervisor = none;
}

abbrev http : Transport
http = record {
  name = codes "http";
  enabled = true;
  prepares = true;
  starts = true;
  has_channel = true;
  stops = true;
}

abbrev http_server : Component
http_server = record {
  name = codes "http";
  initializer = none;
  starter = none;
  stopper = none;
  supervisor = none;
}

abbrev plain : Component → Assembled
plain c = record { component = c; transport = none }

abbrev parts : List Assembled
parts =
    record { component = http_server; transport = some http }
    ∷ plain database
    ∷ plain worker
    ∷ plain broken
    ∷ []

abbrev hooks_of : Bool → Bool → Bool → Bool → Hooks
hooks_of initializer starter stopper supervisor = record {
  has_initializer = initializer;
  has_starter = starter;
  has_stopper = stopper;
  has_supervisor = supervisor;
}

abbrev graph : Graph
graph = record {
  is_validated = true;
  components = codes "http" ∷ codes "database" ∷ codes "worker" ∷ codes "broken" ∷ [];
  lifecycles =
      hooks_of false false false false
      ∷ hooks_of true false true false
      ∷ hooks_of false true true true
      ∷ hooks_of true true true false
      ∷ [];
  transports = codes "http" ∷ [];
}

abbrev in_time : ℕ → Bool
in_time _ = false

-- The deadline passes with the first stop.
abbrev late : ℕ → Bool
late n = ltb 0 n

-- The third component fails to initialize, so that no transport is prepared.
failing_stops :
    stops_due in_time graph (some parts) false
    ≡ stops_down (codes "worker") ∷ stops_down (codes "database") ∷ []
unfolding validate_hooks trim_space
failing_stops = refl

-- The assembly fails after its second component: the transport was not prepared, and is stopped; the
-- database was not initialized, and is not.
abbrev first_parts : List Assembled
first_parts = record { component = http_server; transport = some http } ∷ plain database ∷ []

assembling_stops :
    stops_due in_time graph (some first_parts) true ≡ stops_transport (codes "http") ∷ []
unfolding validate_hooks trim_space
assembling_stops = refl

late_stops :
    (start_definition late graph (some (record { assembly = some parts; fails = false }))).1.log
    ≡ initializes (codes "database")
      ∷ initializes (codes "broken")
      ∷ stops_down (codes "worker")
      ∷ []
unfolding start_definition
late_stops = refl

start_definition-Stops_example :
    Stops late
      (stops_due late graph (some parts) false)
      (start_definition late graph (some (record { assembly = some parts; fails = false })))
start_definition-Stops_example = start_definition-Stops late graph (some parts) false
