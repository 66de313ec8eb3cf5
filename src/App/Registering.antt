-- ===== src/App/Registering.antt =====
-- What a rollback registers (cool-next/core/app/lifecycle.go).
use cool_admin_go_next.Common.{
  Bool, List, [], ◌∷◌, ◌++◌, Option, none, some, ◌≡◌, refl, sym, ap, ◌∙◌,
}
use cool_admin_go_next.App.Lifecycle.{Component, Transport, Entry, Application, add_stopper}
use cool_admin_go_next.App.Order.{append_assoc, append_nil, entry_of}
use cool_admin_go_next.App.Assembly.{Assembled, register_transport, register_stopper, add_rollback}
use cool_admin_go_next.App.Scanning.{transport_of, transports_of}

-- The stoppers of the parts that have nothing to initialize.
abbrev pub orphan_of : Option Bool → Component → List Entry
orphan_of none c = entry_of c c.stopper
orphan_of (some _) c = []

abbrev pub orphans : List Assembled → List Entry
orphans [] = []
orphans (a ∷ parts) = orphan_of a.component.initializer a.component ++ orphans parts

-- What a rollback registers.
abbrev pub Registers : Application → List Transport → List Entry → Application → Type 0
Registers app transports stoppers r =
    (r.transports ≡ app.transports ++ transports)
    × (r.stoppers ≡ app.stoppers ++ stoppers)
    × (r.log ≡ app.log)
    × (r.stopped ≡ app.stopped)

stopper_registers :
    (there : Option Bool) (c : Component) (app : Application)
    → ((add_stopper c there app).transports ≡ app.transports)
      × ((add_stopper c there app).stoppers ≡ app.stoppers ++ entry_of c there)
      × ((add_stopper c there app).log ≡ app.log)
      × ((add_stopper c there app).stopped ≡ app.stopped)
stopper_registers none c app = (refl, sym (append_nil app.stoppers), refl, refl)
stopper_registers (some works) c app = (refl, refl, refl, refl)

one-Registers :
    (initializer : Option Bool) (c : Component) (t : Option Transport) (app : Application)
    → Registers app
        (transport_of t)
        (orphan_of initializer c)
        (register_stopper initializer c (register_transport t app))
one-Registers none c none app =
    let (a, b, l, d) = stopper_registers c.stopper c app in
    (a ∙ sym (append_nil app.transports), b, l, d)
one-Registers none c (some t) app = stopper_registers c.stopper c (register_transport (some t) app)
one-Registers (some _) c none app =
    (sym (append_nil app.transports), sym (append_nil app.stoppers), refl, refl)
one-Registers (some _) c (some t) app = (refl, sym (append_nil app.stoppers), refl, refl)

pub add_rollback-Registers :
    (parts : List Assembled) (app : Application)
    → Registers app (transports_of parts) (orphans parts) (add_rollback parts app)
unfolding add_rollback
add_rollback-Registers [] app =
    (sym (append_nil app.transports), sym (append_nil app.stoppers), refl, refl)
add_rollback-Registers (a ∷ parts) app =
    let (transports, stoppers, log, stopped) =
      add_rollback-Registers parts (
        register_stopper a.component.initializer a.component
          (register_transport a.transport app)) in
    let (transports', stoppers', log', stopped') =
      one-Registers a.component.initializer a.component a.transport app in
    (
      transports
          ∙ ap (λ l. l ++ transports_of parts) transports'
          ∙ append_assoc app.transports (transport_of a.transport) (transports_of parts),
      stoppers
          ∙ ap (λ l. l ++ orphans parts) stoppers'
          ∙ append_assoc app.stoppers (orphan_of a.component.initializer a.component)
              (orphans parts),
      log ∙ log',
      stopped ∙ stopped',
    )
