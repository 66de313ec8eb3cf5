-- ===== src/App/Calling.antt =====
-- A run of stops, and whether the deadline cuts it off.
use cool_admin_go_next.Common.{
  ℕ, suc, ◌≡◌, refl, sym, ◌∙◌, ap, subst, Bool, true, false, List, [], ◌∷◌, ◌++◌, if◌then◌else◌,
  map, reverse, ◌⊎◌, inl, inr,
}
use cool_admin_go_next.App.Lifecycle.{
  Transport, Hook, Entry, Application, stop_one, stop_each, transport_entry, stop_components,
  finish_stop, stop,
}
use cool_admin_go_next.App.Order.{append_assoc, append_nil}

abbrev pub calls : List Entry → List Hook
calls es = map (λ e. e.call) es

-- The stops of an application: its transports from the last to the first, then its stoppers likewise.
abbrev pub stops : List Transport → List Entry → List Hook
stops transports stoppers =
    calls (reverse (map transport_entry transports)) ++ calls (reverse stoppers)

module _ (expires : ℕ → Bool) where
  -- The deadline has passed after some of the stops.
  abbrev pub IsLate : Type 0
  IsLate = (n : ℕ) × (expires n ≡ true)

  -- A run of stops has called the first of those due, and all of them unless the deadline has passed.
  abbrev pub Calls : List Hook → List Hook → List Hook → Type 0
  Calls before due log =
      (called : List Hook) × (left : List Hook) × (due ≡ called ++ left)
      × (log ≡ before ++ called)
      × ((left ≡ []) ⊎ IsLate)

  -- The same, for a run that says whether it is late.
  abbrev Ends : List Hook → List Hook → Bool × ℕ × Application → Type 0
  Ends before due r =
      (called : List Hook) × (left : List Hook) × (due ≡ called ++ left)
      × (r.2.log ≡ before ++ called)
      × (((r.0 ≡ false) × (left ≡ [])) ⊎ ((r.0 ≡ true) × IsLate))

  end_of : (n : ℕ) (app : Application) (b : Bool) → expires n ≡ b → Ends app.log [] (b, n, app)
  end_of n app false e = ([], [], refl, sym (append_nil app.log), inl (refl, refl))
  end_of n app true e = ([], [], refl, sym (append_nil app.log), inr (refl, (n, e)))

  stop_each-Ends :
      (es : List Entry) (n : ℕ) (app : Application)
      → Ends app.log (calls es) (stop_each expires n es app)
  unfolding stop_each
  stop_each-Ends [] n app = end_of n app (expires n) refl
  stop_each-Ends (e ∷ es) n app =
      go (stop_each-Ends es (suc n) (stop_one e app)) (expires (suc n)) refl
    where
      go :
          Ends (stop_one e app).log (calls es) (stop_each expires (suc n) es (stop_one e app))
          → (b : Bool) → expires (suc n) ≡ b
          → Ends app.log (calls (e ∷ es)) (
              if b
              then (true, suc n, stop_one e app)
              else stop_each expires (suc n) es (stop_one e app))
      go rest true late = (e.call ∷ [], calls es, refl, refl, inr (refl, (suc n, late)))
      go (called, left, due, logged, whole) false early = (
        e.call ∷ called,
        left,
        ap (λ l. e.call ∷ l) due,
        logged ∙ append_assoc app.log (e.call ∷ []) called,
        whole,
      )

  -- The components follow the transports, unless the deadline has passed.
  both-Ends :
      (before transports : List Hook) (es : List Entry) (r : Bool × ℕ × Application)
      → Ends before transports r
      → Calls before (transports ++ calls es) (stop_components expires es r).2.log
  both-Ends before transports es (true, n, app) (called, left, due, logged, inl (early, _)) =
      absurd (cc)
  both-Ends before transports es (true, n, app) (called, left, due, logged, inr (_, late)) = (
    called,
    left ++ calls es,
    ap (λ l. l ++ calls es) due ∙ append_assoc called left (calls es),
    logged,
    inr late,
  )
  both-Ends before transports es (false, n, app) (called, left, due, logged, inr (late, _)) =
      absurd (cc)
  both-Ends before transports es (false, n, app) (called, left, due, logged, inl (_, all)) =
      let (called', left', due', logged', whole) = stop_each-Ends es n app in
      (
        called ++ called',
        left',
        ap (λ l. l ++ calls es) (due ∙ ap (λ l. called ++ l) all ∙ append_nil called)
            ∙ ap (λ l. called ++ l) due'
            ∙ sym (append_assoc called called' left'),
        logged' ∙ ap (λ l. l ++ called') logged ∙ append_assoc before called called',
        ended whole,
      )
    where
      ended :
          {b : Bool} {left' : List Hook}
          → ((b ≡ false) × (left' ≡ [])) ⊎ ((b ≡ true) × IsLate)
          → (left' ≡ []) ⊎ IsLate
      ended (inl (_, nothing)) = inl nothing
      ended (inr (_, late)) = inr late

  if_running : (b : Bool) (x y : Application) → b ≡ false → (if b then x else y) ≡ y
  if_running true x y e = absurd (cc)
  if_running false x y e = refl

  -- The first stop of an application.
  pub stop-Calls :
      (app : Application)
      → app.stopped ≡ false
      → Calls app.log (stops app.transports app.stoppers) (stop expires app).log
        × ((stop expires app).stopped ≡ true)
  unfolding stop
  stop-Calls app running =
      let marked : Application = record app { ready = false; stopping = true } in
      let r = stop_each expires 0 (reverse (map transport_entry app.transports)) marked in
      let last = stop_components expires (reverse app.stoppers) r in
      let whole : stop expires app ≡ finish_stop last =
        if_running app.stopped marked (finish_stop last) running in
      (
        subst (λ a. Calls app.log (stops app.transports app.stoppers) a.log) (sym whole)
            (both-Ends app.log _ (reverse app.stoppers) r (stop_each-Ends _ 0 marked)),
        ap (λ a. a.stopped) whole,
      )

  -- A second stop calls nothing.
  pub stop_again : (app : Application) → app.stopped ≡ true → (stop expires app).log ≡ app.log
  unfolding stop
  stop_again app done = rw done
