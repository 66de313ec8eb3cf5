-- ===== src/App/Lifecycle.antt =====
-- Starting and stopping an application (cool-next/core/app/lifecycle.go). A component and a
-- transport carry what their hooks will return; the log is what has been called, in order.
use cool_admin_go_next.Common.{
  ℕ, suc, Bool, true, false, List, [], ◌∷◌, ◌++◌, Text, Option, none, some, Result, ok, err,
  if◌then◌else◌, map, reverse,
}

-- A hook that is missing is `none`; one that is there works or fails. A supervisor that fails is one
-- whose channel is nil.
pub record Component : Type 0 where
  pub name : Text
  pub initializer : Option Bool
  pub starter : Option Bool
  pub stopper : Option Bool
  pub supervisor : Option Bool

pub record Transport : Type 0 where
  pub name : Text
  pub enabled : Bool
  pub prepares : Bool
  pub starts : Bool
  pub has_channel : Bool
  pub stops : Bool

pub data Hook : Type 0 where
  initializes starts_up stops_down : Text → Hook
  prepares_transport starts_transport stops_transport : Text → Hook

pub data StartError : Type 0 where
  initializing preparing starting supervising starting_transport no_channel : Text → StartError

-- A stopper's entry: its name, and whether it works.
pub record Entry : Type 0 where
  pub call : Hook
  pub works : Bool

pub record Application : Type 0 where
  pub ready : Bool
  pub stopping : Bool
  pub stopped : Bool
  pub stoppers : List Entry
  pub transports : List Transport
  pub log : List Hook
  pub errors : List Hook  -- the stops that failed
  pub timed_out : Bool

abbrev pub new_application : Application
new_application = record {
  ready = false;
  stopping = false;
  stopped = false;
  stoppers = [];
  transports = [];
  log = [];
  errors = [];
  timed_out = false;
}

abbrev pub called : Hook → Application → Application
called hook app = record app { log = app.log ++ hook ∷ [] }

abbrev pub add_stopper : Component → Option Bool → Application → Application
add_stopper c none app = app
add_stopper c (some works) app = record app {
  stoppers = app.stoppers ++ record { call = stops_down c.name; works = works } ∷ [];
}

abbrev pub Step : Type 0
Step = Result StartError (Unit {0}) × Application

abbrev pub and_then : Step → (Application → Step) → Step
and_then (err e, app) f = (err e, app)
and_then (ok _, app) f = f app

-- One hook of the start, which may be missing.
abbrev pub call_hook : Option Bool → Hook → StartError → Application → Step
call_hook none hook e app = (ok tt, app)
call_hook (some true) hook e app = (ok tt, called hook app)
call_hook (some false) hook e app = (err e, called hook app)

-- `startAssembly`, the first loop: a stopper is registered once its component is initialized.
unfoldable pub init_components : List Component → Application → Step
init_components [] app = (ok tt, app)
init_components (c ∷ cs) app =
    and_then (call_hook c.initializer (initializes c.name) (initializing c.name) app)
      (λ a. init_components cs (add_stopper c c.stopper a))

-- `prepareTransports`: the transports that are prepared are kept.
unfoldable pub prepare_transports : List Transport → Application → Step
prepare_transports [] app = (ok tt, app)
prepare_transports (t ∷ ts) app =
    and_then (call_hook (some t.prepares) (prepares_transport t.name) (preparing t.name) app)
      (λ a. prepare_transports ts (record a { transports = a.transports ++ t ∷ [] }))

unfoldable pub start_components : List Component → Application → Step
start_components [] app = (ok tt, app)
start_components (c ∷ cs) app =
    and_then (call_hook c.starter (starts_up c.name) (starting c.name) app) (start_components cs)

abbrev pub supervised : Text → Option Bool → Application → Step
supervised name (some false) app = (err (supervising name), app)
supervised name _ app = (ok tt, app)

unfoldable pub terminations : List Component → Application → Step
terminations [] app = (ok tt, app)
terminations (c ∷ cs) app = and_then (supervised c.name c.supervisor app) (terminations cs)

abbrev pub with_channel : Bool → Text → (Application → Step) → Application → Step
with_channel true name f app = f app
with_channel false name f app = (err (no_channel name), app)

unfoldable pub start_transports : List Transport → Application → Step
start_transports [] app = (ok tt, app)
start_transports (t ∷ ts) app =
    and_then (call_hook (some t.starts) (starts_transport t.name) (starting_transport t.name) app)
      (with_channel t.has_channel t.name (start_transports ts))

-- `startAssembly` with the transports that are enabled.
unfoldable pub start_assembly : List Component → List Transport → Application → Step
unfolding init_components prepare_transports start_components terminations start_transports
start_assembly components transports app = and_then (init_components components app) (λ a.
    and_then (prepare_transports transports a) (λ b. and_then (start_components components b) (λ c.
      and_then (terminations components c)
        (λ d. and_then (start_transports transports d) (λ e. (ok tt, record e { ready = true }))))))

-- The stops: after each, `expires` tells whether the shutdown's deadline has passed.
abbrev pub stop_one : Entry → Application → Application
stop_one e app = record app {
  log = app.log ++ e.call ∷ [];
  errors = if e.works then app.errors else app.errors ++ e.call ∷ [];
}

unfoldable pub stop_each : (ℕ → Bool) → ℕ → List Entry → Application → Bool × ℕ × Application
stop_each expires n [] app = (expires n, n, app)
stop_each expires n (e ∷ es) app =
    let rest = stop_each expires (suc n) es (stop_one e app) in
    if expires (suc n) then (true, suc n, stop_one e app) else rest

abbrev pub transport_entry : Transport → Entry
transport_entry t = record { call = stops_transport t.name; works = t.stops }

abbrev pub stop_components :
    (ℕ → Bool) → List Entry → Bool × ℕ × Application → Bool × ℕ × Application
stop_components expires entries (true, n, app) = (true, n, app)
stop_components expires entries (false, n, app) = stop_each expires n entries app

abbrev pub finish_stop : Bool × ℕ × Application → Application
finish_stop (late, n, app) = record app { stopped = true; timed_out = late }

-- `Stop`: the stops run once, the transports first, each list from its end.
unfoldable pub stop : (ℕ → Bool) → Application → Application
unfolding stop_each
stop expires app =
    let marked = record app { ready = false; stopping = true } in
    if app.stopped
    then marked
    else finish_stop (
        stop_components expires (reverse app.stoppers)
          (stop_each expires 0 (reverse (map transport_entry app.transports)) marked))
