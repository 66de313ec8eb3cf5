-- ===== src/App/Stopping.antt =====
-- What is stopped, and in which order.
use cool_admin_go_next.Common.{
  ℕ, ◌≡◌, refl, sym, ◌∙◌, ap, subst, Bool, true, false, not, List, [], Option, none, some, ok, err,
  if◌then◌else◌, map, filter, arith,
}
use cool_admin_go_next.App.Lifecycle.{
  Component, Transport, Hook, Application, new_application, Step, start_assembly, stop,
}
use cool_admin_go_next.App.Order.{
  is_stop, entries, initialized, prepared, Holds, start_assembly-Holds,
}
use cool_admin_go_next.App.Assembly.{
  Graph, Assembled, Scan, ScanError, DefinitionError, not_validated, empty_assembly, assembling,
  misfits, failing, Started, roll_back, started, scan_assembly, add_rollback, start_scanned,
  start_assembled, start_definition, enabled_transports,
}
use cool_admin_go_next.App.Fitting.{fits_graph, is_clear}
use cool_admin_go_next.App.Verdict.{scan_assembly_clear}
use cool_admin_go_next.App.Passing.{scan_assembly-passed}
use cool_admin_go_next.App.Registering.{orphans, add_rollback-Registers}
use cool_admin_go_next.App.Scanning.{transports_of, fitting, scan_assembly-fitting}
use cool_admin_go_next.App.Calling.{stops, Calls, stop-Calls, stop_again}

module _ (expires : ℕ → Bool) where
  -- What was called before the stops, no stop among it, and then the stops.
  abbrev pub Stops : List Hook → Started → Type 0
  Stops due r =
      (begun : List Hook) × (filter is_stop begun ≡ [])
      × Calls expires begun due (stop expires r.1).log

  -- A start that is rolled back is stopped by that, and a later stop adds nothing.
  rolled-Stops :
      (e : DefinitionError) (app : Application)
      → app.stopped ≡ false
      → filter is_stop app.log ≡ []
      → Stops (stops app.transports app.stoppers) (roll_back expires e app)
  rolled-Stops e app running clean =
      let (ended, done) = stop-Calls expires app running in
      (
        app.log,
        clean,
        subst (Calls expires app.log (stops app.transports app.stoppers))
            (sym (stop_again expires (stop expires app) done)) ended,
      )

  -- What a start of these components and transports has to stop.
  abbrev pub stops_started : List Component → List Transport → List Hook
  stops_started cs ts = stops (prepared cs ts) (entries (initialized cs))

  started-Stops :
      (cs : List Component) (ts : List Transport) (r : Step)
      → Holds (entries (initialized cs)) (prepared cs ts) r.1
      → Stops (stops_started cs ts) (started expires r)
  started-Stops cs ts (ok _, app) h = (
    app.log,
    h.none_stopped,
    subst (λ due. Calls expires app.log due (stop expires app).log)
        (rw (h.transports_are, h.stoppers_are)) (stop-Calls expires app h.running).0,
  )
  started-Stops cs ts (err e, app) h =
      subst (λ due. Stops due (roll_back expires (failing e) app))
        (rw (h.transports_are, h.stoppers_are))
        (rolled-Stops (failing e) app h.running h.none_stopped)

  -- What a rollback of the parts of an assembly has to stop.
  abbrev pub stops_assembled : List Assembled → List Hook
  stops_assembled parts = stops (transports_of parts) (orphans parts)

  assembled-Stops :
      (e : DefinitionError) (parts : List Assembled)
      → Stops (stops_assembled parts) (roll_back expires e (add_rollback parts new_application))
  assembled-Stops e parts =
      let app = add_rollback parts new_application in
      let (transports, stoppers, log, stopped) = add_rollback-Registers parts new_application in
      subst (λ due. Stops due (roll_back expires e app)) (rw (transports, stoppers))
        (rolled-Stops e app stopped (ap (filter is_stop) log))

  abbrev pub parts_of : Option (List Assembled) → List Assembled
  parts_of none = []
  parts_of (some parts) = parts

  abbrev pub stops_complete : Graph → List Assembled → List Hook
  stops_complete graph parts =
      if fits_graph graph parts
      then stops_started (map (λ a. a.component) parts) (enabled_transports (transports_of parts))
      else stops_assembled (fitting graph parts)

  abbrev pub stops_validated : Graph → Option (List Assembled) → Bool → List Hook
  stops_validated graph assembly true = stops_assembled (fitting graph (parts_of assembly))
  stops_validated graph none false = []
  stops_validated graph (some parts) false = stops_complete graph parts

  -- What is to be stopped.
  abbrev pub stops_due : Graph → Option (List Assembled) → Bool → List Hook
  stops_due graph assembly fails =
      if graph.is_validated then stops_validated graph assembly fails else []

  scanned-Stops :
      (graph : Graph) (parts : List Assembled)
      → Stops (stops_complete graph parts) (start_assembled expires graph (some parts))
  scanned-Stops graph parts = go s.error refl (scan_assembly_clear graph parts)
    where
      s : Scan
      s = scan_assembly graph (some parts) true

      if_fits :
          (x y : List Hook)
          → fits_graph graph parts ≡ true
          → (if fits_graph graph parts then x else y) ≡ x
      if_fits x y fit = rw fit refl

      go :
          (e : Option ScanError)
          → s.error ≡ e
          → is_clear s.error ≡ fits_graph graph parts
          → Stops (stops_complete graph parts) (start_scanned expires s e)
      go (some e) found clear =
          let unfit : fits_graph graph parts ≡ false = sym clear ∙ ap is_clear found in
          rw (unfit, ← scan_assembly-fitting graph parts true)
            (assembled-Stops (misfits e) s.components)
      go none found clear =
          let fit : fits_graph graph parts ≡ true = sym clear ∙ ap is_clear found in
          let (components, transports) = scan_assembly-passed graph parts found in
          let cs = map (λ a. a.component) s.components in
          let ts = enabled_transports s.transports in
          let due : stops_started cs ts ≡ stops_complete graph parts =
            ap (λ l. stops_started (map (λ a. a.component) l) ts) components
            ∙ ap (λ l. stops_started (map (λ a. a.component) parts) (enabled_transports l))
                transports
            ∙ sym (if_fits _ _ fit) in
          subst (λ d. Stops d (start_scanned expires s none)) due
            (started-Stops cs ts (start_assembly cs ts new_application)
              (start_assembly-Holds cs ts))

  fitting_nothing : (graph : Graph) → fitting graph [] ≡ []
  fitting_nothing graph = ground arith

  validated-Stops :
      (graph : Graph) (assembly : Option (List Assembled)) (fails : Bool)
      → Stops (stops_validated graph assembly fails) (
          if fails
          then (let s = scan_assembly graph assembly false in
              roll_back expires
                (assembling s.prefix_error)
                (add_rollback s.components new_application))
          else start_assembled expires graph assembly)
  unfolding scan_assembly
  validated-Stops graph none false = rolled-Stops empty_assembly new_application refl refl
  validated-Stops graph (some parts) false = scanned-Stops graph parts
  validated-Stops graph none true =
      rw (fitting_nothing graph)
        (assembled-Stops (assembling (scan_assembly graph none false).prefix_error) [])
  validated-Stops graph (some parts) true = rw (← scan_assembly-fitting graph parts false) (
      assembled-Stops (assembling (scan_assembly graph (some parts) false).prefix_error)
        (scan_assembly graph (some parts) false).components)

  -- However an application is assembled and started, and however that ends: once it has been stopped,
  -- the log is what was called to start it, no stop among that, and then the stops that are due, each
  -- once and in their order, all of them unless the deadline has passed after some. For a graph that
  -- was not validated, and an assembly that is missing, none is due. If the assembly failed, or is not
  -- one of the graph, due are the transports of its parts up to the
  -- first that does not fit, from the last to the first, and then the stoppers of those parts that
  -- have no initializer, from the last to the first. Otherwise due are the enabled transports that
  -- were prepared, and then the stoppers of the components that were initialized, each from the last
  -- to the first: not those of a component whose initializer failed, or that comes after such a one.
  pub start_definition-Stops :
      (graph : Graph) (assembly : Option (List Assembled)) (fails : Bool)
      → Stops
          (stops_due graph assembly fails)
          (start_definition expires graph (some (record { assembly = assembly; fails = fails })))
  unfolding start_definition
  start_definition-Stops graph assembly fails =
      go graph.is_validated _ (validated-Stops graph assembly fails)
    where
      go :
          (v : Bool) (r : Started)
          → Stops (stops_validated graph assembly fails) r
          → Stops
              (if v then stops_validated graph assembly fails else [])
              (if not v then (err not_validated, new_application) else r)
      go true r h = h
      go false r h = ([], refl, (stop-Calls expires new_application refl).0)
